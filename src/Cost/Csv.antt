-- ===== src/Cost/Csv.antt =====
-- cloudmark/cost.py: `_csv_cell`, and the lines that the writer prints.
use Prim.Native.Char.{code}
use Prim.Native.String.{◌++◌ as ◌++ₛ◌}
use cloud_mark.Prelude.{ℕ, Bool, true, false, ◌||◌, List, [], ◌∷◌, String, if◌then◌else◌, map, ◌==◌}
use cloud_mark.Python.{Value, null, bool, int, float, Platform, text_of, codes}

-- text.lstrip(" \t\r\n"), as code points.
unfoldable pub strip_blanks : List ℕ → List ℕ
strip_blanks [] = []
strip_blanks (c ∷ cs) = if c == 32 || c == 9 || c == 13 || c == 10 then strip_blanks cs else c ∷ cs

-- The first character is one of = + - @.
abbrev starts_formula : List ℕ → Bool
starts_formula [] = false
starts_formula (c ∷ cs) = c == b'=' || c == b'+' || c == b'-' || c == b'@'

unfoldable pub is_formula : String → Bool
unfolding strip_blanks
is_formula s = starts_formula (strip_blanks (codes s))

-- What a cell holds: a text, or a number as it is.
pub data Cell : Type 0 where
  text_cell : String → Cell
  number_cell : Value → Cell

unfoldable pub neutral : String → Cell
unfolding is_formula
neutral text = text_cell (if is_formula text then String.◌∷◌ "'" text else text)

is_special : String → Bool
is_special String.[] = false
is_special (String.◌∷◌ c s) =
    code c == b',' || code c == b'"' || code c == 13 || code c == 10 || is_special s

double_quotes : String → String
double_quotes String.[] = String.[]
double_quotes (String.◌∷◌ c s) =
    if code c == b'"'
    then String.◌∷◌ c (String.◌∷◌ c (double_quotes s))
    else String.◌∷◌ c (double_quotes s)

-- One field as the writer's minimal quoting prints it.
quoted : String → String
unfolding is_special double_quotes
quoted s = if is_special s then "\"" ++ₛ double_quotes s ++ₛ "\"" else s

module _ (py : Platform) where
  -- _csv_cell
  unfoldable pub csv_cell : Value → Cell
  unfolding neutral text_of
  csv_cell null = text_cell ""
  csv_cell (bool true) = text_cell "true"
  csv_cell (bool false) = text_cell "false"
  csv_cell (int n) = number_cell (int n)
  csv_cell (float x) = number_cell (float x)
  csv_cell v = neutral (text_of py v)

  cell_text : Cell → String
  unfolding text_of
  cell_text (text_cell s) = s
  cell_text (number_cell v) = text_of py v

  -- One row of cells.
  unfoldable pub cells_line : List Cell → String
  unfolding cell_text quoted
  cells_line [] = "\r\n"
  cells_line (c ∷ []) = quoted (cell_text c) ++ₛ "\r\n"
  cells_line (c ∷ d ∷ rest) = quoted (cell_text c) ++ₛ "," ++ₛ cells_line (d ∷ rest)

  unfoldable pub csv_line : List Value → String
  unfolding csv_cell cells_line
  csv_line vs = cells_line (map csv_cell vs)
