-- ===== src/Python/Host.antt =====
-- What the program takes from Python's own formatting and from the module ipaddress.
use cloud_mark.Prelude.{
  ℕ, Bool, true, false, Option, none, some, String, Float, fraction, float_zero, pos,
}
use cloud_mark.Python.Values.{Value, bool, int, float, str}

-- The properties of an `ipaddress.ip_address` that the program reads.
pub record Address : Type 0 where
  pub is_global : Bool
  pub is_loopback : Bool
  pub is_unspecified : Bool
  pub is_multicast : Bool
  pub is_link_local : Bool

-- What `urllib.parse.urlparse` finds in a reference.
pub record Url : Type 0 where
  pub scheme : String
  pub hostname : Option String
  pub username : Option String
  pub password : Option String
  pub fragment : String

-- `repr` prints the values that are no texts, `parse_float` is `float(text)` and `ip_address` is
-- `ipaddress.ip_address(text)`, each `none` for ValueError. `from_iso` is `datetime.fromisoformat`: whether
-- the time has an offset, and the instant; `iso` writes an instant of UTC. `dumps` is `json.dumps`. `parse_url` is `urlparse` with
-- its `hostname`, `none` for ValueError.
pub record Platform : Type 0 where
  pub repr : Value → String
  pub parse_float : String → Option Float
  pub ip_address : String → Option Address
  pub from_iso : String → Option (Bool × ℕ)
  pub iso : ℕ → String
  pub dumps : Value → String
  pub parse_url : String → Option Url

module _ (py : Platform) where
  -- str(v)
  unfoldable pub text_of : Value → String
  text_of (str s) = s
  text_of v = py.repr v

  -- float(v), with `none` for TypeError and ValueError.
  unfoldable pub float_of : Value → Option Float
  float_of (float x) = some x
  float_of (int n) = some (fraction n 0)
  float_of (bool true) = some (fraction (pos 1) 0)
  float_of (bool false) = some float_zero
  float_of (str s) = py.parse_float s
  float_of _ = none
