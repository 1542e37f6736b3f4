-- ===== src/Suitability/Distinct.antt =====
-- cloudmark/suitability.py: ids and days that are kept without repetition.
use cloud_mark.Campaigns.Contract.{text_lt}
use cloud_mark.Prelude.{
  either, ℕ, Bool, true, false, ◌||◌, List, [], ◌∷◌, ◌++◌, String, str_eq, str_eq_sym, any, select,
  ◌==◌, ◌≡◌, refl, All, arith, inl, inr, Bool-cases,
}
use cloud_mark.Suitability.Runs.{is_one_of, insert_id, union_ids}
use cloud_mark.Suitability.Verdict.{insert_text, sorted_texts}
use cloud_mark.Suitability.Collecting.{insert_day}

-- No text stands twice in the list.
abbrev pub NoRepeats : List String → Type 0
NoRepeats [] = Unit
NoRepeats (s ∷ rest) = (is_one_of rest s ≡ false) × NoRepeats rest

abbrev pub is_day_of : List ℕ → ℕ → Bool
is_day_of days day = any (λ d. d == day) days

abbrev pub NoRepeatedDays : List ℕ → Type 0
NoRepeatedDays [] = Unit
NoRepeatedDays (d ∷ rest) = (is_day_of rest d ≡ false) × NoRepeatedDays rest

is_one_of-append :
    (xs : List String) (y s : String) → is_one_of (xs ++ y ∷ []) s ≡ (is_one_of xs s || str_eq s y)
is_one_of-append [] y s = ground arith
is_one_of-append (x ∷ xs) y s = ground (arith, is_one_of-append xs y s)

pub NoRepeats-append :
    (xs : List String) (y : String)
    → is_one_of xs y ≡ false
    → NoRepeats xs
    → NoRepeats (xs ++ y ∷ [])
NoRepeats-append [] y out w = (refl, tt)
NoRepeats-append (x ∷ xs) y out (first, w) = (
  ground (arith, is_one_of-append xs y x, str_eq_sym x y),
  NoRepeats-append xs y (ground arith) w,
)

pub NoRepeats-insert_id :
    (id : String) (ids : List String) → NoRepeats ids → NoRepeats (insert_id id ids)
unfolding insert_id
NoRepeats-insert_id id ids w = elim (Bool-cases (is_one_of ids id)) [
  | inl found ↦ rw found w
  | inr new ↦ rw new (NoRepeats-append ids id new w)
]

pub NoRepeats-union_ids : (ids more : List String) → NoRepeats ids → NoRepeats (union_ids ids more)
unfolding union_ids
NoRepeats-union_ids ids [] w = w
NoRepeats-union_ids ids (id ∷ rest) w =
    NoRepeats-union_ids (insert_id id ids) rest (NoRepeats-insert_id id ids w)

All-snoc {κ} :
    {A : Type 0} (P : A → Type κ) (xs : List A) (y : A) → All P xs → P y → All P (xs ++ y ∷ [])
All-snoc P [] y ps p = (p, tt)
All-snoc P (x ∷ xs) y (q, qs) p = (q, All-snoc P xs y qs p)

module _ (P : String → Type 0) where
  pub All-union_ids : (ids more : List String) → All P ids → All P more → All P (union_ids ids more)
  unfolding union_ids insert_id
  All-union_ids ids [] ps qs = ps
  All-union_ids ids (id ∷ rest) ps (q, qs) = elim (Bool-cases (is_one_of ids id)) [
    | inl found ↦ rw found (All-union_ids ids rest ps qs)
    | inr new ↦ rw new (All-union_ids (ids ++ id ∷ []) rest (All-snoc P ids id ps q) qs)
  ]

  All-insert_text : (s : String) (xs : List String) → P s → All P xs → All P (insert_text s xs)
  unfolding insert_text
  All-insert_text s [] p ps = (p, tt)
  All-insert_text s (t ∷ rest) p (q, qs) = elim (Bool-cases (str_eq s t)) [
    | inl same ↦ rw same (q, qs)
    | inr new ↦ rw new (either (All P) (text_lt s t) (p, (q, qs)) (q, All-insert_text s rest p qs))
  ]

  pub All-sorted_texts : (xs : List String) → All P xs → All P (sorted_texts xs)
  unfolding sorted_texts
  All-sorted_texts [] ps = tt
  All-sorted_texts (s ∷ rest) (p, ps) =
      All-insert_text s (sorted_texts rest) p (All-sorted_texts rest ps)

pub All-select :
    (test : String → Bool) (xs : List String) → All (λ x. test x ≡ true) (select test xs)
unfolding select
All-select test [] = tt
All-select test (x ∷ xs) = elim (Bool-cases (test x)) [
  | inl hit ↦ rw hit (hit, All-select test xs)
  | inr miss ↦ rw miss (All-select test xs)
]

is_day_of-append :
    (days : List ℕ) (day d : ℕ) → is_day_of (days ++ day ∷ []) d ≡ (is_day_of days d || day == d)
is_day_of-append [] day d = ground arith
is_day_of-append (e ∷ days) day d = ground (arith, is_day_of-append days day d)

pub NoRepeatedDays-insert_day :
    (day : ℕ) (days : List ℕ) → NoRepeatedDays days → NoRepeatedDays (insert_day day days)
unfolding insert_day
NoRepeatedDays-insert_day day days w = elim (Bool-cases (is_day_of days day)) [
  | inl found ↦ rw found w
  | inr new ↦ rw new (append days new w)
]
  where
    append :
        (xs : List ℕ)
        → is_day_of xs day ≡ false
        → NoRepeatedDays xs
        → NoRepeatedDays (xs ++ day ∷ [])
    append [] out w = (refl, tt)
    append (x ∷ xs) out (first, w) =
        (ground (arith, is_day_of-append xs day x), append xs (ground arith) w)

pub append_same :
    (id : String) (seen ids : List String)
    → ((s : String) → is_one_of seen s ≡ is_one_of ids s)
    → (s : String) → is_one_of (seen ++ id ∷ []) s ≡ is_one_of (ids ++ id ∷ []) s
append_same id seen ids same s =
    rw (is_one_of-append seen id s, is_one_of-append ids id s, same s) refl
