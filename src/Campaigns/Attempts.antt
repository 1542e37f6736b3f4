-- ===== src/Campaigns/Attempts.antt =====
-- cloudmark/campaigns.py: which attempts count as a window of a campaign.
use Prim.Native.String.{◌++◌ as ◌++ₛ◌}
use cloud_mark.Prelude.{
  ℕ, Bool, true, false, not, Option, none, some, List, [], ◌∷◌, String, str_eq, if◌then◌else◌, ◌&&◌,
  ◌||◌, leb, ◌==◌, ◌+◌, ◌*◌, ◌-◌, ◌%◌, is_some,
}
use cloud_mark.Python.{
  Value, Fields, dict, end, get, get_field, or_else, is_true, Result, ok, ◌>>=◌, Platform, text_of,
  value_eq, codes,
}
use cloud_mark.Store.Schema.{
  Status, queued, running, completed, failed, cancelled, other, is_completed, Run,
}
use cloud_mark.Campaigns.Contract.{text_or}

is_digit : ℕ → Bool
is_digit c = leb b'0' c && leb c b'9'

abbrev digit : ℕ → ℕ
digit c = c - b'0'

is_leap : ℕ → Bool
is_leap y = (y % 4 == 0 && not (y % 100 == 0)) || y % 400 == 0

days_in_month : ℕ → ℕ → ℕ
unfolding is_leap
days_in_month y m =
    if m == 2
    then (if is_leap y then 29 else 28)
    else if m == 4 || m == 6 || m == 9 || m == 11
    then 30
    else 31

is_date : ℕ → ℕ → ℕ → Bool
unfolding days_in_month
is_date y m d = leb 1000 y && leb 1 m && leb m 12 && leb 1 d && leb d (days_in_month y m)

-- Four digits, a dash, two digits, a dash and two digits that are a date of the calendar: the only
-- texts that `strptime` reads and `strftime` writes back. It writes no zero before a year under 1000.
is_day : List ℕ → Bool
unfolding is_digit is_date
is_day (y1 ∷ y2 ∷ y3 ∷ y4 ∷ h1 ∷ m1 ∷ m2 ∷ h2 ∷ d1 ∷ d2 ∷ []) =
    h1 == b'-'
    && h2 == b'-'
    && (is_digit y1
        && is_digit y2
        && is_digit y3
        && is_digit y4
        && is_digit m1
        && is_digit m2
        && is_digit d1
        && is_digit d2)
    && is_date (digit y1 * 1000 + digit y2 * 100 + digit y3 * 10 + digit y4)
        (digit m1 * 10 + digit m2) (digit d1 * 10 + digit d2)
is_day _ = false

unfoldable pub status_text : Status → String
status_text queued = "queued"
status_text running = "running"
status_text completed = "completed"
status_text failed = "failed"
status_text cancelled = "cancelled"
status_text (other s) = if str_eq s "" then "unknown" else s

module _ (py : Platform) where
  unfoldable pub valid_window_day : Value → Option String
  unfolding is_day text_of or_else
  valid_window_day v = let text = text_or py "" v in if is_day (codes text) then some text else none

  abbrev pub result_of : Run → Value
  result_of run = elim run.result [ none ↦ dict end | some v ↦ or_else v (dict end) ]

  abbrev pub differs : Fields → String → Fields → String → Bool
  differs a j b k = not (value_eq (get_field j a) (get_field k b))

  -- The last checks on an attempt: its comparison validity, and its day.
  unfoldable pub validity_status : Fields → Value → Result (Bool × String)
  unfolding get_field get or_else valid_window_day
  validity_status request result = do
    analysis ← get result "analysis"
    validity ← get (or_else analysis (dict end)) "validity"
    eligible ← get (or_else validity (dict end)) "comparison_eligible"
    ok (
        if not (is_true eligible)
        then (false, "comparison-validity-incomplete")
        else if not (is_some (valid_window_day (get_field "campaign_window_day" request)))
        then (false, "invalid-utc-window")
        else (true, "valid-window"))

  -- The session that the result names, if it names one.
  unfoldable pub session_status : Fields → Fields → Value → Result (Bool × String)
  unfolding get_field get or_else text_of validity_status
  session_status request contract result = do
    session ← get result "session"
    id ← get (or_else session (dict end)) "id"
    let named = text_or py "" id
    if not (str_eq named "") && not (str_eq named (text_or py "" (get_field "session_id" contract)))
        then ok (false, "result-session-mismatch")
        else validity_status request result

  unfoldable pub methodology_status : Fields → Fields → Value → Result (Bool × String)
  unfolding value_eq get_field get session_status
  methodology_status request contract result = do
    methodology_version ← get result "methodology_version"
    if not (value_eq methodology_version (get_field "methodology_version" contract))
        then ok (false, "methodology-version-mismatch")
        else session_status request contract result

  -- The checks on the result of a completed attempt.
  unfoldable pub result_status : Fields → Fields → Value → Result (Bool × String)
  unfolding value_eq get_field get methodology_status
  result_status request contract result = do
    profile_version ← get result "profile_version"
    if not (value_eq profile_version (get_field "profile_version" contract))
        then ok (false, "profile-version-mismatch")
        else methodology_status request contract result

  unfoldable pub attempt_contract_status : Run → Fields → Result (Bool × String)
  unfolding value_eq get_field result_status status_text
  attempt_contract_status run contract =
      if differs run.request "campaign_contract_version" contract "version"
      then ok (false, "campaign-contract-version-mismatch")
      else if not (is_true (get_field "confirm_network_load" run.request))
          || not (is_true (get_field "confirm_campaign_window" run.request))
      then ok (false, "campaign-confirmation-missing")
      else if differs run.request "session_id" contract "session_id"
          || differs run.request "profile" contract "profile"
      then ok (false, "campaign-contract-target-mismatch")
      else if not (is_completed run.status)
      then ok (false, "run-" ++ₛ status_text run.status)
      else result_status run.request contract (result_of run)
