-- ===== src/Store/Runs/Listing.antt =====
-- The order of `list_runs`.
use mathlib.Core.List.Perm
use mathlib.Core.List.{Perm, perm_middle, append-nil}
use cloud_mark.Prelude.{
  ℕ, List, [], ◌∷◌, ◌++◌, ◌≡◌, refl, arith, ◌≤◌, min, max, ℤ, pos_part, length, drop,
  take-append-drop, length-take, All, Bool-cases, inl, inr, leb, suc, ◌+◌,
}
use cloud_mark.Store.Schema.{Run, Database}
use cloud_mark.Store.Runs.{start_key, insert_latest, latest_first, list_runs}

-- Latest start first.
abbrev pub Descending : List Run → Type 0
Descending [] = Unit
Descending (x ∷ xs) = All (λ y. start_key y ≤ start_key x) xs × Descending xs

insert_latest-perm : (r : Run) (xs : List Run) → Perm (insert_latest r xs) (r ∷ xs)
unfolding insert_latest
insert_latest-perm r [] = Perm.rfl
insert_latest-perm r (x ∷ xs) = elim (Bool-cases (leb (start_key x) (start_key r))) [
  | inl first ↦ rw first Perm.rfl
  | inr later ↦ rw later (Perm.trans (Perm.cons x (insert_latest-perm r xs)) (Perm.swap r x xs))
]

All-insert :
    (k : ℕ) (r : Run) (xs : List Run)
    → start_key r ≤ k
    → All (λ y. start_key y ≤ k) xs
    → All (λ y. start_key y ≤ k) (insert_latest r xs)
unfolding insert_latest
All-insert k r [] h all = (h, tt)
All-insert k r (x ∷ xs) h (p, all) = elim (Bool-cases (leb (start_key x) (start_key r))) [
  | inl first ↦ rw first (h, (p, all))
  | inr later ↦ rw later (p, All-insert k r xs h all)
]

All-below :
    (k m : ℕ) (xs : List Run)
    → k ≤ m
    → All (λ y. start_key y ≤ k) xs
    → All (λ y. start_key y ≤ m) xs
All-below k m [] h all = tt
All-below k m (x ∷ xs) h (p, all) = (omega arith, All-below k m xs h all)

insert_latest-Descending :
    (r : Run) (xs : List Run) → Descending xs → Descending (insert_latest r xs)
unfolding insert_latest
insert_latest-Descending r [] d = (tt, tt)
insert_latest-Descending r (x ∷ xs) (top, d) = elim (Bool-cases (leb (start_key x) (start_key r))) [
  | inl first ↦
      let near : start_key x ≤ start_key r = ground arith in
      rw first ((near, All-below (start_key x) (start_key r) xs near top), (top, d))
  | inr later ↦
      rw later (All-insert (start_key x) r xs (ground arith) top, insert_latest-Descending r xs d)
]

latest_first-perm : (sorted rows : List Run) → Perm (latest_first sorted rows) (rows ++ sorted)
unfolding latest_first
latest_first-perm sorted [] = Perm.rfl
latest_first-perm sorted (r ∷ rows) =
    Perm.trans (latest_first-perm (insert_latest r sorted) rows)
      (Perm.trans (Perm.append_left rows (insert_latest-perm r sorted)) (perm_middle rows sorted))

length-insert_latest : (r : Run) (xs : List Run) → length (insert_latest r xs) ≡ suc (length xs)
unfolding insert_latest
length-insert_latest r [] = refl
length-insert_latest r (x ∷ xs) = ground (arith, length-insert_latest r xs)

length-latest_first :
    (sorted rows : List Run) → length (latest_first sorted rows) ≡ length rows + length sorted
unfolding latest_first
length-latest_first sorted [] = omega arith
length-latest_first sorted (r ∷ rows) =
    omega (arith, length-latest_first (insert_latest r sorted) rows, length-insert_latest r sorted)

latest_first-Descending :
    (sorted rows : List Run) → Descending sorted → Descending (latest_first sorted rows)
unfolding latest_first
latest_first-Descending sorted [] d = d
latest_first-Descending sorted (r ∷ rows) d =
    latest_first-Descending (insert_latest r sorted) rows (insert_latest-Descending r sorted d)

-- The listing holds the runs of latest start, latest first, each row of the table once: with the rows
-- left out it is the whole table in that order, and it is as long as the limit, held between 1 and
-- 5000, and the table allow.
pub list_runs_lem :
    (limit : ℤ) (db : Database)
    → (left_out : List Run) × Perm (list_runs limit db ++ left_out) db.runs
      × Descending (list_runs limit db ++ left_out)
      × (length (list_runs limit db) ≡ min (max 1 (min (pos_part limit) 5000)) (length db.runs))
unfolding list_runs
list_runs_lem limit db =
    let count = max 1 (min (pos_part limit) 5000) in
    let all = latest_first [] db.runs in
    let whole = take-append-drop count all in
    (
      drop count all,
      rw whole (Perm.trans (latest_first-perm [] db.runs) (rw append-nil Perm.rfl)),
      rw whole (latest_first-Descending [] db.runs tt),
      omega (arith, length-take count all, length-latest_first [] db.runs),
    )
