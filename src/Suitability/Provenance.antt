-- ===== src/Suitability/Provenance.antt =====
-- cloudmark/suitability.py: the runs and the items that stand behind the samples of a builder.
use cloud_mark.Prelude.{
  ℕ, suc, ◌*◌, ◌≤◌, ◌<◌, Bool, true, ◌&&◌, Option, none, some, List, [], ◌∷◌, ◌++◌, String, Float,
  ◌≡◌, refl, All, arith, ◌⊎◌, inl, inr, any, Bool-cases, ◌==◌,
}
use cloud_mark.Store.Schema.{Run}
use cloud_mark.Suitability.Evidence.{Evidence}
use cloud_mark.Suitability.Collecting.{Builder, Verified, insert_day, day_of}

-- A sample that was offered: the run, its three contracts, and its item of evidence.
pub record Sample : Type 0 where
  pub run : Run
  pub verified : Verified
  pub item : Evidence

abbrev pub run_ids_of : List Sample → List String
run_ids_of [] = []
run_ids_of (s ∷ rest) = s.run.id ∷ run_ids_of rest

abbrev pub values_of : List Sample → List Float
values_of [] = []
values_of (s ∷ rest) = s.item.value ∷ values_of rest

pub run_ids_of-append :
    (xs : List Sample) (s : Sample) → run_ids_of (xs ++ s ∷ []) ≡ run_ids_of xs ++ s.run.id ∷ []
run_ids_of-append [] s = refl
run_ids_of-append (x ∷ xs) s = rw (run_ids_of-append xs s) refl

pub values_of-append :
    (xs : List Sample) (s : Sample) → values_of (xs ++ s ∷ []) ≡ values_of xs ++ s.item.value ∷ []
values_of-append [] s = refl
values_of-append (x ∷ xs) s = rw (values_of-append xs s) refl

-- The contracts of the sample are verified, if the builder says so of all its samples.
pub record IsVouched (all_implementations all_executions all_storage : Bool) (s : Sample)
    : Type 0 where
  pub implementation : all_implementations ≡ true → s.verified.implementation ≡ true
  pub execution : all_executions ≡ true → s.verified.system_execution ≡ true
  pub storage : all_storage ≡ true → s.verified.storage ≡ true

abbrev pub VouchedBy : Builder → Sample → Type 0
VouchedBy b s =
    IsVouched b.implementation_verified b.system_execution_verified b.storage_contract_verified s

-- The builder's three flags, after the contracts of one more sample.
pub record IsChecked (b after : Builder) (s : Sample) : Type 0 where
  pub implementation :
      after.implementation_verified ≡ (b.implementation_verified && s.verified.implementation)
  pub execution :
      after.system_execution_verified ≡ (b.system_execution_verified && s.verified.system_execution)
  pub storage :
      after.storage_contract_verified ≡ (b.storage_contract_verified && s.verified.storage)

both_left : (a b c : Bool) → a ≡ (b && c) → a ≡ true → b ≡ true
both_left a b c e h = ground (arith, e, h)

both_right : (a b c : Bool) → a ≡ (b && c) → a ≡ true → c ≡ true
both_right a b c e h = ground (arith, e, h)

pub IsVouched-new : (b after : Builder) (s : Sample) → IsChecked b after s → VouchedBy after s
IsVouched-new b after s c = record {
  implementation = both_right _ _ _ c.implementation;
  execution = both_right _ _ _ c.execution;
  storage = both_right _ _ _ c.storage;
}

pub IsVouched-kept :
    (b after : Builder) (s : Sample) (xs : List Sample)
    → IsChecked b after s
    → All (VouchedBy b) xs
    → All (VouchedBy after) xs
IsVouched-kept b after s [] c ws = tt
IsVouched-kept b after s (x ∷ xs) c (w, ws) = (
  record {
    implementation = λ h. w.implementation (both_left _ _ _ c.implementation h);
    execution = λ h. w.execution (both_left _ _ _ c.execution h);
    storage = λ h. w.storage (both_left _ _ _ c.storage h);
  },
  IsVouched-kept b after s xs c ws,
)

-- The time stands on the day: between its first microsecond and that of the next one.
abbrev pub IsOn : Option ℕ → ℕ → Type 0
IsOn none day = ⊥
IsOn (some t) day = (day * 86400000000 ≤ t) × (t < suc day * 86400000000)

-- One of the samples was observed on the day.
abbrev pub HasDay : List Sample → ℕ → Type 0
HasDay [] day = ⊥
HasDay (s ∷ rest) day = IsOn s.item.observed_at day ⊎ HasDay rest day

pub day_of-IsOn : (t : ℕ) → IsOn (some t) (day_of t)
day_of-IsOn t = (omega arith, omega arith)

HasDay-append :
    (xs : List Sample) (s : Sample) (day : ℕ) → HasDay xs day → HasDay (xs ++ s ∷ []) day
HasDay-append [] s day h = absurd h
HasDay-append (x ∷ xs) s day (inl h) = inl h
HasDay-append (x ∷ xs) s day (inr h) = inr (HasDay-append xs s day h)

pub HasDay-last :
    (xs : List Sample) (s : Sample) (day : ℕ)
    → IsOn s.item.observed_at day
    → HasDay (xs ++ s ∷ []) day
HasDay-last [] s day h = inl h
HasDay-last (x ∷ xs) s day h = inr (HasDay-last xs s day h)

pub All-HasDay-append :
    (xs : List Sample) (s : Sample) (days : List ℕ)
    → All (HasDay xs) days
    → All (HasDay (xs ++ s ∷ [])) days
All-HasDay-append xs s [] hs = tt
All-HasDay-append xs s (d ∷ days) (h, hs) = (HasDay-append xs s d h, All-HasDay-append xs s days hs)

All-HasDay-new :
    (xs : List Sample) (day : ℕ) (days : List ℕ)
    → HasDay xs day
    → All (HasDay xs) days
    → All (HasDay xs) (days ++ day ∷ [])
All-HasDay-new xs day [] h hs = (h, tt)
All-HasDay-new xs day (d ∷ days) h (first, hs) = (first, All-HasDay-new xs day days h hs)

pub insert_day-HasDay :
    (xs : List Sample) (day : ℕ) (days : List ℕ)
    → HasDay xs day
    → All (HasDay xs) days
    → All (HasDay xs) (insert_day day days)
unfolding insert_day
insert_day-HasDay xs day days h hs = elim (Bool-cases (any (λ d. d == day) days)) [
  | inl found ↦ rw found hs
  | inr new ↦ rw new (All-HasDay-new xs day days h hs)
]

pub All-more :
    (P : Sample → Type 0) (xs : List Sample) (s : Sample) → All P xs → P s → All P (xs ++ s ∷ [])
All-more P [] s ps p = (p, tt)
All-more P (x ∷ xs) s (q, qs) p = (q, All-more P xs s qs p)
