-- ===== src/Suitability/Rules.antt =====
-- cloudmark/suitability.py: the form of a workload's gates.
use cloud_mark.Prelude.{List, String, Float}

-- The comparison of an observed value with its threshold.
pub data Operator : Type 0 where
  at_least at_most equals : Operator

-- REQUIREMENT_LEVELS.
pub data Level : Type 0 where
  essential standard demanding : Level

abbrev pub level_label : Level → String
level_label essential = "Essential"
level_label standard = "Standard"
level_label demanding = "Demanding"

pub record Threshold : Type 0 where
  pub essential_value : Float
  pub standard_value : Float
  pub demanding_value : Float

abbrev pub threshold : (essential_value standard_value demanding_value : Float) → Threshold
threshold e s d = record { essential_value = e; standard_value = s; demanding_value = d }

-- thresholds[level]
abbrev pub at_level : Threshold → Level → Float
at_level t essential = t.essential_value
at_level t standard = t.standard_value
at_level t demanding = t.demanding_value

pub record Rule : Type 0 where
  pub key : String
  pub label : String
  pub operator : Operator
  pub thresholds : Threshold
  pub unit : String

abbrev pub rule : String → String → Operator → Threshold → String → Rule
rule key label operator thresholds unit = record {
  key = key;
  label = label;
  operator = operator;
  thresholds = thresholds;
  unit = unit;
}

-- A missing list is an empty one.
pub record Requirement : Type 0 where
  pub rules : List Rule
  pub blockers : List String
  pub limitations : List String
  pub next_actions : List String
