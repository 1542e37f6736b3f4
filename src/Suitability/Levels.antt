-- ===== src/Suitability/Levels.antt =====
-- cloudmark/suitability.py: the levels are ordered.
use cloud_mark.Prelude.{ℕ, Bool, true, ◌&&◌, List, [], ◌∷◌, Float, float_le, float_same}
use cloud_mark.Suitability.Rules.{
  Operator, at_least, at_most, equals, Level, essential, standard, demanding, at_level, Rule,
}

abbrev pub level_rank : Level → ℕ
level_rank essential = 0
level_rank standard = 1
level_rank demanding = 2

-- A value that satisfies the second threshold satisfies the first.
abbrev is_weaker : Operator → (easier harder : Float) → Bool
is_weaker at_least easier harder = float_le easier harder
is_weaker at_most easier harder = float_le harder easier
is_weaker equals easier harder = float_same easier harder

abbrev is_ordered : Rule → Bool
is_ordered r =
    is_weaker r.operator (at_level r.thresholds essential) (at_level r.thresholds essential)
    && is_weaker r.operator (at_level r.thresholds standard) (at_level r.thresholds standard)
    && is_weaker r.operator (at_level r.thresholds demanding) (at_level r.thresholds demanding)
    && is_weaker r.operator (at_level r.thresholds essential) (at_level r.thresholds standard)
    && is_weaker r.operator (at_level r.thresholds standard) (at_level r.thresholds demanding)
    && is_weaker r.operator (at_level r.thresholds essential) (at_level r.thresholds demanding)

abbrev all_ordered : List Rule → Bool
all_ordered [] = true
all_ordered (r ∷ rest) = is_ordered r && all_ordered rest
