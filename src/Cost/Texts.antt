-- ===== src/Cost/Texts.antt =====
-- cloudmark/cost.py: a validated text is validated unchanged.
use Prim.Native.Char.{code}
use cloud_mark.Prelude.{
  either, ℕ, Bool, true, false, not, ◌&&◌, Option, none, some, String, str_eq, leb, ◌≡◌, refl,
  subst, arith, inl, inr, Bool-cases,
}
use cloud_mark.Python.{
  Value, null, bool, int, float, str, list, dict, ok, ok_injective, ◌>>◌, guard, >>=-eq-ok,
  cost_error, Platform, Url, squeeze, squeeze_from, is_space,
}
use cloud_mark.Cost.Parts.{
  has_control, utf8_size, bounded_string, bounded_text, check_url, has_space, checked_reference,
  source_reference, max_source_bytes,
}

-- Squeezing what is squeezed changes nothing.
squeeze_from_started :
    (pending : Bool) (s : String)
    → squeeze_from true false (squeeze_from true pending s) ≡ squeeze_from true pending s
unfolding squeeze_from is_space
squeeze_from_started pending String.[] = refl
squeeze_from_started true (String.◌∷◌ c s) = elim (Bool-cases (is_space (code c))) [
  | inl space ↦ rw space (squeeze_from_started true s)
  | inr word ↦ rw word (rw (word, squeeze_from_started false s) refl)
]
squeeze_from_started false (String.◌∷◌ c s) = elim (Bool-cases (is_space (code c))) [
  | inl space ↦ rw space (squeeze_from_started true s)
  | inr word ↦ rw word (rw (word, squeeze_from_started false s) refl)
]

squeeze_from_fresh :
    (pending : Bool) (s : String)
    → squeeze_from false false (squeeze_from false pending s) ≡ squeeze_from false pending s
unfolding squeeze_from is_space
squeeze_from_fresh pending String.[] = refl
squeeze_from_fresh pending (String.◌∷◌ c s) = elim (Bool-cases (is_space (code c))) [
  | inl space ↦ rw space (squeeze_from_fresh true s)
  | inr word ↦ rw word (rw (word, squeeze_from_started false s) refl)
]

squeeze_idem : (s : String) → squeeze (squeeze s) ≡ squeeze s
unfolding squeeze
squeeze_idem s = squeeze_from_fresh false s

has_control-squeeze_from :
    (started pending : Bool) (s : String)
    → has_control s ≡ false
    → has_control (squeeze_from started pending s) ≡ false
unfolding squeeze_from has_control
has_control-squeeze_from started pending String.[] h = refl
has_control-squeeze_from started pending (String.◌∷◌ c s) h =
    let clean : has_control s ≡ false = ground arith in
    elim (Bool-cases (is_space (code c))) [
      | inl space ↦ rw space (has_control-squeeze_from started true s clean)
      | inr word ↦ rw word (
          either (λ z. has_control z ≡ false) (started && pending)
            (ground (arith, has_control-squeeze_from true false s clean))
            (ground (arith, has_control-squeeze_from true false s clean)))
    ]

has_control-squeeze : (s : String) → has_control s ≡ false → has_control (squeeze s) ≡ false
unfolding squeeze
has_control-squeeze s h = has_control-squeeze_from false false s h

-- A validated text is validated unchanged.
bounded_string_idem :
    (s t label : String) (n : ℕ) → bounded_string s label n ≡ ok t → bounded_string t label n ≡ ok t
unfolding bounded_string
bounded_string_idem s t label n e =
    let clean : has_control s ≡ false = ground arith in
    let fits : (not (str_eq (squeeze s) "") && leb (utf8_size (squeeze s)) n) ≡ true =
      ground arith in
    let same : ok (squeeze s) ≡ ok t = ground (arith, clean, fits) in
    subst {A = String} (λ z. bounded_string z label n ≡ ok z) (ok_injective same)
      (rw (has_control-squeeze s clean, squeeze_idem s, fits) refl)

bounded_text_idem :
    (v : Value) (t label : String) (n : ℕ)
    → bounded_text v label n ≡ ok t
    → bounded_text (str t) label n ≡ ok t
unfolding bounded_text
bounded_text_idem (str s) t label n e = bounded_string_idem s t label n e
bounded_text_idem null t label n e = let no : ⊥ = cc in absurd no
bounded_text_idem (bool b) t label n e = let no : ⊥ = cc in absurd no
bounded_text_idem (int i) t label n e = let no : ⊥ = cc in absurd no
bounded_text_idem (float x) t label n e = let no : ⊥ = cc in absurd no
bounded_text_idem (list vs) t label n e = let no : ⊥ = cc in absurd no
bounded_text_idem (dict fs) t label n e = let no : ⊥ = cc in absurd no

check_url-same : (s r : String) (o : Option Url) → check_url s o ≡ ok r → s ≡ r
unfolding check_url
check_url-same s r none e = let no : ⊥ = cc in absurd no
check_url-same s r (some url) e =
    let (passed, done, last) = >>=-eq-ok (guard _ _) (λ u. ok s) e in ok_injective last

checked_reference-same :
    (py : Platform) (source_type s r : String) → checked_reference py source_type s ≡ ok r → s ≡ r
unfolding checked_reference
checked_reference-same py source_type s r e =
    elim (Bool-cases (not (str_eq source_type "provider-public-url"))) [
      | inl free ↦ ok_injective (ground (arith, free))
      | inr url ↦
          let rest : (guard (not (has_space s))
                  (cost_error "provider-public-url cannot contain whitespace.")
                >> check_url s (py.parse_url s))
              ≡ ok r =
            ground (arith, url) in
          let (passed, done, last) = >>=-eq-ok (guard (not (has_space s)) _) _ rest in
          check_url-same s r (py.parse_url s) last
    ]

-- A source reference that is accepted is accepted again, unchanged.
pub source_reference_idem :
    (py : Platform) (source_type : String) (v : Value) (r : String)
    → source_reference py source_type v ≡ ok r
    → source_reference py source_type (str r) ≡ ok r
unfolding source_reference
source_reference_idem py source_type v r e =
    let (s, bounded, checked) =
      >>=-eq-ok (bounded_text v "source_reference" max_source_bytes) _ e in
    let same : s ≡ r = checked_reference-same py source_type s r checked in
    subst {A = String} (λ z. source_reference py source_type (str z) ≡ ok r) same
      (rw (bounded_text_idem v s "source_reference" max_source_bytes bounded) checked)
