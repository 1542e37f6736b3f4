-- ===== src/Prelude/Keys.antt =====
-- Tables with a primary key.
use Prim.Native.String.{String}
use mathlib.Core.Logic.{inl, inr}
use Prim.Native.Nat.{◌≤◌}
use mathlib.Core.Path.{◌≡◌, refl}
use mathlib.Core.Logic.{inl, inr}
use mathlib.Core.Bool.{Bool, true, false, ◌&&◌}
use mathlib.Core.Option.{Option, none, some}
use mathlib.Core.List.{List, [], ◌∷◌, ◌++◌}
use native.Mathlib.Omega.{arith}
use cloud_mark.Prelude.Tests.{◌==◌, Option-cases, if◌then◌else◌, Bool-cases, str_eq, str_eq_iff}
use cloud_mark.Prelude.Table.{
  update-none, select_one, update, row_count, select_one-append_none, select_one-update-none,
}

pub str_eq_sym : (s t : String) → str_eq s t ≡ str_eq t s
str_eq_sym s t = ground (arith, str_eq_iff s t, str_eq_iff t s)

pub str_ne : (s t k : String) → str_eq s k ≡ true → str_eq t k ≡ false → str_eq s t ≡ false
str_ne s t k h d = ground (arith, str_eq_iff s t, str_eq_iff s k, str_eq_iff t k)

abbrev pub kept_if {ℓ} : {A : Type ℓ} → (A → Bool) → Option A → Option A
kept_if test none = none
kept_if test (some x) = if test x then some x else none

module _ {ℓ} {A : Type ℓ} (key : A → String) where
  abbrev pub by_key : String → A → Bool
  by_key k x = str_eq (key x) k

  -- The primary key: no two rows have one key.
  abbrev pub Distinct : List A → Type ℓ
  Distinct [] = Unit
  Distinct (x ∷ xs) = (select_one (by_key (key x)) xs ≡ none) × Distinct xs

  pub select_one-key :
      (k : String) (xs : List A) (x : A) → select_one (by_key k) xs ≡ some x → key x ≡ k
  unfolding select_one
  select_one-key k [] x e = cc
  select_one-key k (y ∷ xs) x e = ground (arith, str_eq_iff (key y) k, select_one-key k xs x)

  pub Distinct-append :
      (xs : List A) (y : A)
      → select_one (by_key (key y)) xs ≡ none
      → Distinct xs
      → Distinct (xs ++ y ∷ [])
  unfolding select_one
  Distinct-append [] y e d = (refl, tt)
  Distinct-append (x ∷ xs) y e (out, d) = (
    ground (arith, select_one-append_none (by_key (key x)) xs y, str_eq_sym (key x) (key y)),
    Distinct-append xs y (ground arith) d,
  )

  pub Distinct-update :
      (test : A → Bool) (write : A → A) (xs : List A)
      → ((x : A) → key (write x) ≡ key x)
      → Distinct xs
      → Distinct (update test write xs)
  unfolding update
  Distinct-update test write [] keeps d = tt
  Distinct-update test write (x ∷ xs) keeps (out, d) = (
    rw same (select_one-update-none (by_key (key x)) test write xs (λ y. rw keeps) out),
    Distinct-update test write xs keeps d,
  )
    where
      same : key (if test x then write x else x) ≡ key x
      same = ground (arith, keeps x)

  pub row_count-key_none :
      (k : String) (test : A → Bool) (xs : List A)
      → select_one (by_key k) xs ≡ none
      → row_count (λ x. by_key k x && test x) xs ≡ 0
  unfolding row_count select_one
  row_count-key_none k test [] e = refl
  row_count-key_none k test (x ∷ xs) e = ground (arith, row_count-key_none k test xs)

  -- At most one row has the key, so the row count says whether that row passes the test.
  pub row_count-key :
      (k : String) (test : A → Bool) (xs : List A) (x : A)
      → Distinct xs
      → select_one (by_key k) xs ≡ some x
      → row_count (λ y. by_key k y && test y) xs ≡ (if test x then 1 else 0)
  unfolding row_count select_one
  row_count-key k test [] x d e = cc
  row_count-key k test (y ∷ xs) x (out, d) e = elim (Bool-cases (str_eq (key y) k)) [
    | inl hit ↦
        ground (arith, hit, row_count-key_none k test xs (ground (arith, str_eq_iff (key y) k)))
    | inr miss ↦ ground (arith, miss, row_count-key k test xs x d)
  ]

  pub row_count-key_le :
      (k : String) (test : A → Bool) (xs : List A)
      → Distinct xs
      → row_count (λ y. by_key k y && test y) xs ≤ 1
  row_count-key_le k test xs d = elim (Option-cases (select_one (by_key k) xs)) [
    | inl e ↦ rw (row_count-key_none k test xs e) (omega arith)
    | inr (x, e) ↦ rw (row_count-key k test xs x d e) (ground arith)
  ]

  -- A keyed update whose row count is not 1 has changed nothing.
  pub update-key_missed :
      (k : String) (test : A → Bool) (write : A → A) (xs : List A)
      → Distinct xs
      → (row_count (λ y. by_key k y && test y) xs == 1) ≡ false
      → update (λ y. by_key k y && test y) write xs ≡ xs
  update-key_missed k test write xs d missed =
      update-none (λ y. by_key k y && test y) write xs
        (ground (arith, row_count-key_le k test xs d))

  select_one-key_and_none :
      (k : String) (test : A → Bool) (xs : List A)
      → select_one (by_key k) xs ≡ none
      → select_one (λ y. by_key k y && test y) xs ≡ none
  unfolding select_one
  select_one-key_and_none k test [] e = refl
  select_one-key_and_none k test (x ∷ xs) e = ground (arith, select_one-key_and_none k test xs)

  -- A search by the key and a test looks at one row only.
  pub select_one-key_and :
      (k : String) (test : A → Bool) (xs : List A)
      → Distinct xs
      → select_one (λ y. by_key k y && test y) xs ≡ kept_if test (select_one (by_key k) xs)
  unfolding select_one
  select_one-key_and k test [] d = refl
  select_one-key_and k test (x ∷ xs) (out, d) = elim (Bool-cases (str_eq (key x) k)) [
    | inl hit ↦
        ground
          (arith, hit, select_one-key_and_none k test xs (ground (arith, str_eq_iff (key x) k)))
    | inr miss ↦ ground (arith, miss, select_one-key_and k test xs d)
  ]
