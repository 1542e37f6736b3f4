-- ===== src/Campaigns/Days.antt =====
-- The sorted days of a campaign's valid windows.
use cloud_mark.Prelude.{
  either, str_eq_sym, suc, false, none, List, [], ◌∷◌, String, str_eq, ◌||◌, ◌+◌, length, any, ◌≡◌,
  refl, arith, All, Distinct, select_one, by_key,
}
use cloud_mark.Campaigns.Contract.{text_lt}
use cloud_mark.Campaigns.Projection.{sort_days, insert_day}
use cloud_mark.Campaigns.Tally.{has_day}

insert_day-none :
    (k : String) (d : String × String) (xs : List (String × String))
    → has_day k d ≡ false
    → select_one (has_day k) xs ≡ none
    → select_one (has_day k) (insert_day d xs) ≡ none
unfolding insert_day select_one
insert_day-none k d [] h e = rw h
insert_day-none k d (x ∷ xs) h e = ground (arith, h, insert_day-none k d xs h)

any-insert_day :
    (k : String) (d : String × String) (xs : List (String × String))
    → any (has_day k) (insert_day d xs) ≡ (has_day k d || any (has_day k) xs)
unfolding insert_day
any-insert_day k d [] = refl
any-insert_day k d (x ∷ xs) = ground (arith, any-insert_day k d xs)

length-insert_day :
    (d : String × String) (xs : List (String × String)) → length (insert_day d xs) ≡ suc (length xs)
unfolding insert_day
length-insert_day d [] = refl
length-insert_day d (x ∷ xs) = ground (arith, length-insert_day d xs)

pub any-sort_days :
    (k : String) (sorted xs : List (String × String))
    → any (has_day k) (sort_days sorted xs) ≡ (any (has_day k) xs || any (has_day k) sorted)
unfolding sort_days
any-sort_days k sorted [] = refl
any-sort_days k sorted (d ∷ xs) =
    ground (arith, any-sort_days k (insert_day d sorted) xs, any-insert_day k d sorted)

pub length-sort_days :
    (sorted xs : List (String × String)) → length (sort_days sorted xs) ≡ length xs + length sorted
unfolding sort_days
length-sort_days sorted [] = omega arith
length-sort_days sorted (d ∷ xs) =
    omega (arith, length-sort_days (insert_day d sorted) xs, length-insert_day d sorted)

All-insert_day {ℓ} :
    (P : String × String → Type ℓ) (d : String × String) (xs : List (String × String))
    → P d
    → All P xs
    → All P (insert_day d xs)
unfolding insert_day
All-insert_day P d [] p ps = (p, tt)
All-insert_day P d (x ∷ xs) p (q, qs) =
    either (All P) (text_lt d.0 x.0) (p, (q, qs)) (q, All-insert_day P d xs p qs)

pub All-sort_days {ℓ} :
    (P : String × String → Type ℓ) (sorted xs : List (String × String))
    → All P sorted
    → All P xs
    → All P (sort_days sorted xs)
unfolding sort_days
All-sort_days P sorted [] ps qs = ps
All-sort_days P sorted (d ∷ xs) ps (q, qs) =
    All-sort_days P (insert_day d sorted) xs (All-insert_day P d sorted q ps) qs

abbrev pub day_of : String × String → String
day_of d = d.0

Distinct-insert_day :
    (d : String × String) (xs : List (String × String))
    → select_one (by_key day_of d.0) xs ≡ none
    → Distinct day_of xs
    → Distinct day_of (insert_day d xs)
unfolding insert_day select_one
Distinct-insert_day d [] out w = (refl, tt)
Distinct-insert_day d (x ∷ xs) out (first, w) =
    let new : select_one (by_key day_of d.0) xs ≡ none = ground (arith, out) in
    let differs : str_eq d.0 x.0 ≡ false = ground (arith, out, str_eq_sym d.0 x.0) in
    either (Distinct day_of) (text_lt d.0 x.0) (out, (first, w))
      (insert_day-none x.0 d xs differs first, Distinct-insert_day d xs new w)

-- None of the days is among the sorted ones.
abbrev Apart : List (String × String) → List (String × String) → Type 0
Apart sorted [] = Unit
Apart sorted (e ∷ es) = (select_one (by_key day_of e.0) sorted ≡ none) × Apart sorted es

Apart-insert_day :
    (d : String × String) (sorted xs : List (String × String))
    → select_one (by_key day_of d.0) xs ≡ none
    → Apart sorted xs
    → Apart (insert_day d sorted) xs
unfolding select_one
Apart-insert_day d sorted [] out w = tt
Apart-insert_day d sorted (e ∷ es) out (first, w) = (
  insert_day-none e.0 d sorted (ground (arith, out, str_eq_sym d.0 e.0)) first,
  Apart-insert_day d sorted es (ground (arith, out)) w,
)

Distinct-sort_days :
    (sorted xs : List (String × String))
    → Apart sorted xs
    → Distinct day_of sorted
    → Distinct day_of xs
    → Distinct day_of (sort_days sorted xs)
unfolding sort_days
Distinct-sort_days sorted [] apart v w = v
Distinct-sort_days sorted (d ∷ xs) (out, apart) v (first, w) =
    Distinct-sort_days (insert_day d sorted) xs (Apart-insert_day d sorted xs first apart)
      (Distinct-insert_day d sorted out v) w

Apart-empty : (xs : List (String × String)) → Apart [] xs
unfolding select_one
Apart-empty [] = tt
Apart-empty (d ∷ xs) = (refl, Apart-empty xs)

pub sort_days-Distinct :
    (xs : List (String × String)) → Distinct day_of xs → Distinct day_of (sort_days [] xs)
sort_days-Distinct xs w = Distinct-sort_days [] xs (Apart-empty xs) tt w
