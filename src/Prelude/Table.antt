-- ===== src/Prelude/Table.antt =====
-- A table is the list of its rows in rowid order, and a statement is a function on that list.
use Prim.Native.Nat.{ℕ, zero, suc, ◌+◌, ◌≤◌, min}
use mathlib.Core.Path.{◌≡◌, refl, ap}
use mathlib.Core.Logic.{inl, inr}
use mathlib.Core.Bool.{Bool, true, false, ◌&&◌, ◌||◌}
use mathlib.Core.Option.{Option, none, some}
use mathlib.Core.List.{List, [], ◌∷◌, ◌++◌}
use native.Mathlib.Omega.{arith}
use cloud_mark.Prelude.Tests.{if◌then◌else◌, Bool-cases}

module _ {ℓ} {A : Type ℓ} where
  abbrev pub length : List A → ℕ
  length [] = 0
  length (x ∷ xs) = suc (length xs)

  abbrev pub take : ℕ → List A → List A
  take zero xs = []
  take (suc n) [] = []
  take (suc n) (x ∷ xs) = x ∷ take n xs

  abbrev pub drop : ℕ → List A → List A
  drop zero xs = xs
  drop (suc n) [] = []
  drop (suc n) (x ∷ xs) = drop n xs

  -- SELECT … WHERE test.
  unfoldable pub select : (A → Bool) → List A → List A
  select test [] = []
  select test (x ∷ xs) = if test x then x ∷ select test xs else select test xs

  -- The first row of SELECT … WHERE test, by fetchone.
  unfoldable pub select_one : (A → Bool) → List A → Option A
  select_one test [] = none
  select_one test (x ∷ xs) = if test x then some x else select_one test xs

  -- UPDATE … SET write WHERE test.
  unfoldable pub update : (A → Bool) → (A → A) → List A → List A
  update test write [] = []
  update test write (x ∷ xs) = (if test x then write x else x) ∷ update test write xs

  -- The cursor's rowcount after UPDATE … WHERE test.
  unfoldable pub row_count : (A → Bool) → List A → ℕ
  row_count test [] = 0
  row_count test (x ∷ xs) = (if test x then 1 else 0) + row_count test xs

  -- Each row satisfies a predicate.
  abbrev pub All {κ} : (A → Type κ) → List A → Type κ
  All P [] = Unit
  All P (x ∷ xs) = P x × All P xs

  abbrev pub any : (A → Bool) → List A → Bool
  any test [] = false
  any test (x ∷ xs) = test x || any test xs

  abbrev pub every : (A → Bool) → List A → Bool
  every test [] = true
  every test (x ∷ xs) = test x && every test xs

module _ {ℓ} {A : Type ℓ} where
  pub length-append : (xs ys : List A) → length (xs ++ ys) ≡ length xs + length ys
  length-append [] ys = omega arith
  length-append (x ∷ xs) ys = omega (arith, length-append xs ys)

  pub length-take-le : (n : ℕ) (xs : List A) → length (take n xs) ≤ n
  length-take-le zero xs = omega arith
  length-take-le (suc n) [] = omega arith
  length-take-le (suc n) (x ∷ xs) = omega (arith, length-take-le n xs)

  pub length-update :
      (test : A → Bool) (write : A → A) (xs : List A) → length (update test write xs) ≡ length xs
  unfolding update
  length-update test write [] = refl
  length-update test write (x ∷ xs) = ap suc (length-update test write xs)

  -- A row that is found satisfies the test.
  pub select_one-holds :
      (test : A → Bool) (xs : List A) (x : A) → select_one test xs ≡ some x → test x ≡ true
  unfolding select_one
  select_one-holds test [] x e = cc
  select_one-holds test (y ∷ xs) x e = ground (arith, select_one-holds test xs x)

  -- A search that finds nothing counts no row.
  pub row_count-none :
      (test : A → Bool) (xs : List A) → select_one test xs ≡ none → row_count test xs ≡ 0
  unfolding select_one row_count
  row_count-none test [] e = refl
  row_count-none test (y ∷ xs) e = ground (arith, row_count-none test xs)

  -- An update that hits no row changes nothing.
  pub update-none :
      (test : A → Bool) (write : A → A) (xs : List A)
      → row_count test xs ≡ 0
      → update test write xs ≡ xs
  unfolding update row_count
  update-none test write [] e = refl
  update-none test write (y ∷ xs) e = ground (arith, update-none test write xs)

  pub length-select-row_count :
      (test : A → Bool) (xs : List A) → length (select test xs) ≡ row_count test xs
  unfolding select row_count
  length-select-row_count test [] = refl
  length-select-row_count test (x ∷ xs) = ground (arith, length-select-row_count test xs)

  -- An update after which no row passes the test any more.
  pub row_count-update_out :
      (test : A → Bool) (write : A → A) (xs : List A)
      → ((x : A) → test x ≡ true → test (write x) ≡ false)
      → row_count test (update test write xs) ≡ 0
  unfolding update row_count
  row_count-update_out test write [] h = refl
  row_count-update_out test write (x ∷ xs) h =
      ground (arith, h x, row_count-update_out test write xs h)

  -- An update that turns rows of one kind into rows of another moves their number over.
  pub row_count-update_moved :
      (from to : A → Bool) (write : A → A) (xs : List A)
      → ((x : A) → from x ≡ true → to x ≡ false)
      → ((x : A) → to (write x) ≡ true)
      → row_count to (update from write xs) ≡ row_count from xs + row_count to xs
  unfolding row_count update
  row_count-update_moved from to write [] apart hit = refl
  row_count-update_moved from to write (x ∷ xs) apart hit =
      ground (arith, apart x, hit x, row_count-update_moved from to write xs apart hit)

  pub All-update {κ} :
      {P : A → Type κ} (test : A → Bool) (write : A → A) (xs : List A)
      → ((x : A) → P x → test x ≡ true → P (write x))
      → All P xs
      → All P (update test write xs)
  unfolding update
  All-update test write [] h all = tt
  All-update test write (x ∷ xs) h (p, all) = elim (Bool-cases (test x)) [
    | inl hit ↦ rw hit (h x p hit, All-update test write xs h all)
    | inr miss ↦ rw miss (p, All-update test write xs h all)
  ]

  pub All-append {κ} : (P : A → Type κ) (xs ys : List A) → All P xs → All P ys → All P (xs ++ ys)
  All-append P [] ys a b = b
  All-append P (x ∷ xs) ys (p, a) b = (p, All-append P xs ys a b)

  pub select_one-All {κ} :
      (P : A → Type κ) (test : A → Bool) (xs : List A) (x : A)
      → All P xs
      → select_one test xs ≡ some x
      → P x
  unfolding select_one
  select_one-All P test [] x all e = cc
  select_one-All P test (y ∷ xs) x (p, all) e = ground (arith, select_one-All P test xs x all)

-- What an update makes of one row.
abbrev pub written {ℓ} : {A : Type ℓ} → (A → Bool) → (A → A) → A → A
written test write x = if test x then write x else x

module _ {ℓ} {A : Type ℓ} where
  -- A search by a key that the update keeps finds the updated row.
  pub select_one-update :
      (key test : A → Bool) (write : A → A) (xs : List A) (x : A)
      → ((y : A) → key (write y) ≡ key y)
      → select_one key xs ≡ some x
      → select_one key (update test write xs) ≡ some (written test write x)
  unfolding select_one update
  select_one-update key test write [] x keeps e = cc
  select_one-update key test write (y ∷ xs) x keeps e =
      ground (arith, keeps y, select_one-update key test write xs x keeps)

  -- A row that is not there does not appear by an update.
  pub select_one-update-none :
      (key test : A → Bool) (write : A → A) (xs : List A)
      → ((y : A) → key (write y) ≡ key y)
      → select_one key xs ≡ none
      → select_one key (update test write xs) ≡ none
  unfolding select_one update
  select_one-update-none key test write [] keeps e = refl
  select_one-update-none key test write (y ∷ xs) keeps e =
      ground (arith, keeps y, select_one-update-none key test write xs keeps)

  pub select_one-append :
      (key : A → Bool) (xs ys : List A) (x : A)
      → select_one key xs ≡ some x
      → select_one key (xs ++ ys) ≡ some x
  unfolding select_one
  select_one-append key [] ys x e = cc
  select_one-append key (y ∷ xs) ys x e = ground (arith, select_one-append key xs ys x)

  pub select_one-append_none :
      (key : A → Bool) (xs : List A) (y : A)
      → select_one key xs ≡ none
      → select_one key (xs ++ y ∷ []) ≡ (if key y then some y else none)
  unfolding select_one
  select_one-append_none key [] y e = refl
  select_one-append_none key (x ∷ xs) y e = ground (arith, select_one-append_none key xs y)

module _ {ℓ} {A : Type ℓ} where
  pub take-append-drop : (n : ℕ) (xs : List A) → take n xs ++ drop n xs ≡ xs
  take-append-drop zero xs = refl
  take-append-drop (suc n) [] = refl
  take-append-drop (suc n) (x ∷ xs) = rw (take-append-drop n xs)

  pub length-take : (n : ℕ) (xs : List A) → length (take n xs) ≡ min n (length xs)
  length-take zero xs = omega arith
  length-take (suc n) [] = omega arith
  length-take (suc n) (x ∷ xs) = omega (arith, length-take n xs)

  pub any-select :
      (test keep : A → Bool) (xs : List A)
      → any test (select keep xs) ≡ any (λ x. keep x && test x) xs
  unfolding select
  any-select test keep [] = refl
  any-select test keep (x ∷ xs) = ground (arith, any-select test keep xs)
