-- ===== src/Cost/Parts.antt =====
-- cloudmark/cost.py: the validation of the single parts of a cost observation.
use Prim.Native.Char.{code, len_utf8}
use Prim.Native.String.{◌++◌ as ◌++ₛ◌}
use cloud_mark.Prelude.{
  ℕ, ◌+◌, ◌*◌, Bool, true, false, not, ◌&&◌, ◌||◌, Option, none, some, String, str_eq,
  if◌then◌else◌, leb, ltb, ◌==◌, Float, float_zero, float_one, float_le,
}
use cloud_mark.Python.{
  Value, Fields, null, bool, float, str, end, field, get_field, or_else, dict_or_empty, Result,
  raise, ok, ◌>>=◌, ◌>>◌, guard, cost_error, Platform, Url, squeeze, is_space,
}
use cloud_mark.Suitability.Evidence.{number}

abbrev is_control : ℕ → Bool
is_control c = ltb c 32 || c == 127

unfoldable pub has_control : String → Bool
has_control String.[] = false
has_control (String.◌∷◌ c s) = is_control (code c) || has_control s

-- len(s.encode("utf-8"))
unfoldable pub utf8_size : String → ℕ
utf8_size String.[] = 0
utf8_size (String.◌∷◌ c s) = len_utf8 c + utf8_size s

-- _bounded_text, once the value is a text.
unfoldable pub bounded_string : String → (label : String) → (maximum_bytes : ℕ) → Result String
unfolding has_control squeeze utf8_size
bounded_string s label maximum_bytes =
    let normalized = squeeze s in
    guard (not (has_control s)) (cost_error (label ++ₛ " contains a control character."))
    >> guard (not (str_eq normalized "") && leb (utf8_size normalized) maximum_bytes)
        (cost_error (label ++ₛ " is empty or exceeds the bounded length."))
    >> ok normalized

-- _bounded_text
unfoldable pub bounded_text : Value → (label : String) → (maximum_bytes : ℕ) → Result String
unfolding bounded_string
bounded_text (str s) label maximum_bytes = bounded_string s label maximum_bytes
bounded_text v label maximum_bytes = raise (cost_error (label ++ₛ " must be a string."))

-- COST_OBSERVATION_MAX_FUTURE_SKEW, in microseconds.
abbrev pub max_future_skew : ℕ
max_future_skew = 86400 * 1000000

abbrev pub max_source_bytes : ℕ
max_source_bytes = 512

count_chars : String → ℕ
count_chars String.[] = 0
count_chars (String.◌∷◌ c s) = 1 + count_chars s

-- A `Z` at the end is written as an offset.
with_offset : String → String
with_offset String.[] = String.[]
with_offset (String.◌∷◌ c String.[]) = if code c == b'Z' then "+00:00" else String.◌∷◌ c String.[]
with_offset (String.◌∷◌ c (String.◌∷◌ d s)) = String.◌∷◌ c (with_offset (String.◌∷◌ d s))

unfoldable pub has_space : String → Bool
unfolding is_space
has_space String.[] = false
has_space (String.◌∷◌ c s) = is_space (code c) || has_space s

abbrev pub is_absent : Value → Bool
is_absent null = true
is_absent (str s) = str_eq s ""
is_absent _ = false

abbrev present : Option String → Bool
present none = false
present (some s) = not (str_eq s "")

abbrev is_none : Option String → Bool
is_none none = true
is_none (some s) = false

unfoldable pub check_url : String → Option Url → Result String
check_url reference none = raise (cost_error "provider-public-url is malformed.")
check_url reference (some url) =
    guard
      (str_eq url.scheme "https"
        && present url.hostname
        && is_none url.username
        && is_none url.password
        && str_eq url.fragment "")
      (cost_error "provider-public-url requires an HTTPS URL without credentials or a fragment.")
    >> ok reference

module _ (py : Platform) where
  observed_instant : (now : ℕ) → Option (Bool × ℕ) → Result String
  observed_instant now none =
      raise (cost_error "observed_at must be a timezone-aware ISO 8601 timestamp.")
  observed_instant now (some (aware, instant)) =
      guard aware (cost_error "observed_at must include a timezone offset.")
      >> guard (leb instant (now + max_future_skew))
          (cost_error "observed_at is too far in the future.")
      >> ok (py.iso instant)

  -- _observed_at
  unfoldable pub observed_at : Value → (now : ℕ) → Result String
  unfolding count_chars with_offset observed_instant
  observed_at null now = ok (py.iso now)
  observed_at (str s) now =
      if str_eq s ""
      then ok (py.iso now)
      else (guard (leb (count_chars s) 64)
            (cost_error "observed_at must be a bounded timezone-aware ISO 8601 timestamp.")
          >> observed_instant now (py.from_iso (with_offset s)))
  observed_at v now =
      raise (cost_error "observed_at must be a bounded timezone-aware ISO 8601 timestamp.")

  -- The tests on the bounded text.
  unfoldable pub checked_reference : (source_type reference : String) → Result String
  unfolding has_space check_url
  checked_reference source_type reference =
      if not (str_eq source_type "provider-public-url")
      then ok reference
      else (guard (not (has_space reference))
            (cost_error "provider-public-url cannot contain whitespace.")
          >> check_url reference (py.parse_url reference))

  -- _source_reference
  unfoldable pub source_reference : (source_type : String) → Value → Result String
  unfolding bounded_text checked_reference
  source_reference source_type value =
      bounded_text value "source_reference" max_source_bytes >>= λ reference.
      checked_reference source_type reference

abbrev in_unit : Option Float → Float
in_unit none = float_zero
in_unit (some x) = if float_le float_zero x && float_le x float_one then x else float_zero

-- A finite number of the unit interval that is no bool, or 0.0.
unfoldable pub confidence_of : Value → Float
unfolding number
confidence_of (bool b) = float_zero
confidence_of v = in_unit (number v)

abbrev text_field : Fields → String → (default : String) → Value
text_field fs k default = or_else (get_field k fs) (str default)

-- The texts of a target's identity, once they are bounded.
pub record TargetNames : Type 0 where
  pub hostname : String
  pub provider : String
  pub provider_source : String
  pub instance_type : String
  pub region : String
  pub zone : String
  pub operating_system : String
  pub architecture : String

unfoldable pub target_names :
    (target_id : String) → (inventory provider operating_system : Fields) → Result TargetNames
unfolding get_field or_else bounded_text
target_names target_id inventory provider operating_system = do
  provider_name ←
      bounded_text
        (or_else (get_field "provider" provider)
          (or_else (get_field "name" provider) (str "Unknown")))
        "provider" 160
  instance_type ←
      bounded_text (text_field provider "instance_type" "unavailable") "instance_type" 160
  guard (not (str_eq provider_name "Unknown" || str_eq instance_type "unavailable")) (
      cost_error
        "Cost evidence requires a provider and product/SKU identity on the selected target.")
  hostname ← bounded_text (text_field inventory "hostname" target_id) "hostname" 160
  provider_source ← bounded_text (text_field provider "source" "unavailable") "provider_source" 160
  region ← bounded_text (text_field provider "region" "unspecified-region") "region" 160
  zone ← bounded_text (text_field provider "zone" "unspecified-zone") "zone" 160
  os_name ←
      bounded_text
        (or_else (get_field "distribution" operating_system)
          (or_else (get_field "system" operating_system) (str "unspecified-os")))
        "operating_system" 160
  architecture ←
      bounded_text (text_field operating_system "architecture" "unspecified-architecture")
        "architecture" 160
  ok (record {
    hostname = hostname;
    provider = provider_name;
    provider_source = provider_source;
    instance_type = instance_type;
    region = region;
    zone = zone;
    operating_system = os_name;
    architecture = architecture;
  })

unfoldable pub identity_fields : (target_id : String) → TargetNames → (confidence : Float) → Fields
identity_fields target_id n confidence = field "id" (str target_id) (
    field "hostname" (str n.hostname) (
      field "provider" (str n.provider) (
        field "provider_source" (str n.provider_source) (
          field "provider_confidence" (float confidence) (
            field "instance_type" (str n.instance_type) (
              field "region" (str n.region) (
                field "zone" (str n.zone) (
                  field "operating_system" (str n.operating_system)
                    (field "architecture" (str n.architecture) end)))))))))

-- _target_identity
unfoldable pub target_identity : (target_id : String) → Fields → Result Fields
unfolding get_field target_names confidence_of identity_fields
target_identity target_id system = do
  let inventory = dict_or_empty (get_field "inventory" system)
  let provider = dict_or_empty (get_field "provider" system)
  names ← target_names target_id inventory provider (dict_or_empty (get_field "os" inventory))
  ok (identity_fields target_id names (confidence_of (get_field "confidence" provider)))
