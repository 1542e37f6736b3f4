-- ===== src/Cost/Cells.antt =====
-- cloudmark/cost.py: no exported text is a formula.
use cloud_mark.Prelude.{true, false, String, ◌≡◌, refl, subst, ap, arith, inl, inr, Bool-cases}
use cloud_mark.Python.{Value, null, bool, int, float, str, list, dict, Platform, text_of}
use cloud_mark.Cost.Csv.{Cell, text_cell, number_cell, is_formula, strip_blanks, neutral, csv_cell}

quote_is_safe : (t : String) → is_formula (String.◌∷◌ "'" t) ≡ false
unfolding is_formula strip_blanks
quote_is_safe t = refl

empty_is_safe : is_formula "" ≡ false
unfolding is_formula strip_blanks
empty_is_safe = refl

true_is_safe : is_formula "true" ≡ false
unfolding is_formula strip_blanks
true_is_safe = refl

false_is_safe : is_formula "false" ≡ false
unfolding is_formula strip_blanks
false_is_safe = refl

abbrev text_of_cell : Cell → String
text_of_cell (text_cell s) = s
text_of_cell (number_cell v) = ""

neutral-IsNeutral : (t s : String) → neutral t ≡ text_cell s → is_formula s ≡ false
unfolding neutral
neutral-IsNeutral t s e = elim (Bool-cases (is_formula t)) [
  | inl formula ↦
      let same : String.◌∷◌ "'" t ≡ s = ground (arith, ap text_of_cell e) in
      subst (λ z. is_formula z ≡ false) same (quote_is_safe t)
  | inr plain ↦
      let same : t ≡ s = ground (arith, ap text_of_cell e) in
      subst (λ z. is_formula z ≡ false) same plain
]

-- No text cell of the export is one that a spreadsheet would read as a formula: whatever a request or a
-- host put into the value, behind any blanks the cell does not begin with =, +, - or @.
pub csv_cell-IsNeutral :
    (py : Platform) (v : Value) (s : String) → csv_cell py v ≡ text_cell s → is_formula s ≡ false
unfolding csv_cell
csv_cell-IsNeutral py null s e = subst (λ z. is_formula z ≡ false) (ap text_of_cell e) empty_is_safe
csv_cell-IsNeutral py (bool true) s e =
    subst (λ z. is_formula z ≡ false) (ap text_of_cell e) true_is_safe
csv_cell-IsNeutral py (bool false) s e =
    subst (λ z. is_formula z ≡ false) (ap text_of_cell e) false_is_safe
csv_cell-IsNeutral py (int n) s e = let no : ⊥ = cc in absurd no
csv_cell-IsNeutral py (float x) s e = let no : ⊥ = cc in absurd no
csv_cell-IsNeutral py (str t) s e = neutral-IsNeutral (text_of py (str t)) s e
csv_cell-IsNeutral py (list vs) s e = neutral-IsNeutral (text_of py (list vs)) s e
csv_cell-IsNeutral py (dict fs) s e = neutral-IsNeutral (text_of py (dict fs)) s e
