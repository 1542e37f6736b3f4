-- ===== src/Python/Text.antt =====
-- The methods of Python's `str` that the program calls. `lower` and `casefold` change the ASCII
-- letters; the other code points keep their value.
use Prim.Native.Char.{Char, code}
use cloud_mark.Prelude.{
  ℕ, zero, suc, ◌+◌, ◌-◌, Bool, true, false, ◌&&◌, ◌||◌, List, [], ◌∷◌, String, map, leb, ◌==◌,
  if◌then◌else◌, arith, ◌≡◌, refl,
}

-- The code points of a text.
abbrev pub codes : String → List ℕ
codes String.[] = []
codes (String.◌∷◌ c s) = code c ∷ codes s

-- str.isspace of one character.
unfoldable pub is_space : ℕ → Bool
is_space c =
    (leb 9 c && leb c 13)
    || (leb 28 c && leb c 32)
    || c == 0x85
    || c == 0xa0
    || c == 0x1680
    || (leb 0x2000 c && leb c 0x200a)
    || c == 0x2028
    || c == 0x2029
    || c == 0x202f
    || c == 0x205f
    || c == 0x3000

is_nil : String → Bool
is_nil String.[] = true
is_nil (String.◌∷◌ c s) = false

left_strip : String → String
unfolding is_space
left_strip String.[] = String.[]
left_strip (String.◌∷◌ c s) = if is_space (code c) then left_strip s else String.◌∷◌ c s

right_strip : String → String
unfolding is_space is_nil
right_strip String.[] = String.[]
right_strip (String.◌∷◌ c s) =
    let rest = right_strip s in
    if is_space (code c) && is_nil rest then String.[] else String.◌∷◌ c rest

-- str.strip()
unfoldable pub strip : String → String
unfolding left_strip right_strip
strip s = right_strip (left_strip s)

-- str.lower() of one code point.
unfoldable pub lower_code : ℕ → ℕ
lower_code c = if leb b'A' c && leb c b'Z' then c + 32 else c

-- str.lower(), as code points.
unfoldable pub lower : String → List ℕ
unfolding lower_code
lower s = map lower_code (codes s)

-- Equality of texts that are given by their code points.
unfoldable pub codes_eq : List ℕ → List ℕ → Bool
codes_eq [] [] = true
codes_eq (c ∷ s) (d ∷ t) = c == d && codes_eq s t
codes_eq _ _ = false

unfoldable pub starts_with : List ℕ → List ℕ → Bool
starts_with s [] = true
starts_with [] (d ∷ t) = false
starts_with (c ∷ s) (d ∷ t) = c == d && starts_with s t

-- needle in haystack
unfoldable pub contains : List ℕ → List ℕ → Bool
unfolding starts_with
contains [] needle = starts_with [] needle
contains (c ∷ s) needle = starts_with (c ∷ s) needle || contains s needle

pub codes_eq_refl : (s : List ℕ) → codes_eq s s ≡ true
unfolding codes_eq
codes_eq_refl [] = refl
codes_eq_refl (c ∷ s) = ground (arith, codes_eq_refl s)

pub codes_eq-sym : (s t : List ℕ) → codes_eq s t ≡ codes_eq t s
unfolding codes_eq
codes_eq-sym [] [] = refl
codes_eq-sym [] (d ∷ t) = refl
codes_eq-sym (c ∷ s) [] = refl
codes_eq-sym (c ∷ s) (d ∷ t) = ground (arith, codes_eq-sym s t)

strip_test : codes (strip "  a b\n") ≡ b'a' ∷ 32 ∷ b'b' ∷ []
unfolding strip
strip_test = refl

contains_test : contains (lower "Declared provider (UNVERIFIED)") (codes "unverified") ≡ true
unfolding contains lower
contains_test = refl

-- The words of a text, one space before each but the first.
unfoldable pub squeeze_from : (started pending : Bool) → String → String
unfolding is_space
squeeze_from started pending String.[] = String.[]
squeeze_from started pending (String.◌∷◌ c s) =
    let rest = squeeze_from started true s in
    let word = String.◌∷◌ c (squeeze_from true false s) in
    if is_space (code c) then rest else if started && pending then String.◌∷◌ " " word else word

-- " ".join(s.split())
unfoldable pub squeeze : String → String
unfolding squeeze_from
squeeze s = squeeze_from false false s

-- s.replace("|", "/")
unfoldable pub replace_bars : String → String
replace_bars String.[] = String.[]
replace_bars (String.◌∷◌ c s) = String.◌∷◌ (if code c == b'|' then "/" else c) (replace_bars s)

-- s[:n]
unfoldable pub take_text : ℕ → String → String
take_text zero s = String.[]
take_text (suc n) String.[] = String.[]
take_text (suc n) (String.◌∷◌ c s) = String.◌∷◌ c (take_text n s)

squeeze_test : squeeze " a  b\n" ≡ "a b"
unfolding squeeze
squeeze_test = refl

-- The character of an alphabet at an index, or the one given.
nth_char : ℕ → String → Char → Char
nth_char n String.[] c = c
nth_char zero (String.◌∷◌ a s) c = a
nth_char (suc n) (String.◌∷◌ a s) c = nth_char n s c

-- str.upper()
unfoldable pub upper : String → String
unfolding nth_char
upper String.[] = String.[]
upper (String.◌∷◌ c s) =
    String.◌∷◌
      (if leb b'a' (code c) && leb (code c) b'z'
        then nth_char (code c - b'a') "ABCDEFGHIJKLMNOPQRSTUVWXYZ" c
        else c)
      (upper s)

-- The characters of a text, and the text of some characters.
unfoldable pub chars : String → List Char
chars String.[] = []
chars (String.◌∷◌ c s) = c ∷ chars s

unfoldable pub text : List Char → String
text [] = String.[]
text (c ∷ cs) = String.◌∷◌ c (text cs)

pub chars-text : (cs : List Char) → chars (text cs) ≡ cs
unfolding chars text
chars-text [] = refl
chars-text (c ∷ cs) = rw (chars-text cs) refl
