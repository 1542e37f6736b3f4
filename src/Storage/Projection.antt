-- ===== src/Storage/Projection.antt =====
-- cloudmark/storage_campaigns.py: `project_storage_campaign`, the progress of a campaign and the decision on
-- its next window.
use cloud_mark.Prelude.{
  ℕ, suc, Bool, true, false, not, ◌&&◌, ◌||◌, Option, none, some, List, [], ◌∷◌, ◌++◌, String,
  str_eq, if◌then◌else◌, leb, ◌-◌, length, min, any, select_one, is_some,
}
use cloud_mark.Python.{
  Value, Fields, str, dict, end, get, get_field, dict_or_empty, is_true, value_eq, Result, ok,
  ◌>>=◌, Platform, text_of, or_else,
}
use cloud_mark.Store.Schema.{Run, Campaign, is_active}
use cloud_mark.Campaigns.Contract.{text_or}
use cloud_mark.Campaigns.Attempts.{status_text, valid_window_day}
use cloud_mark.Campaigns.Tally.{Tally, has_day, is_failure, sort_attempts, attempts_of, empty_tally}
use cloud_mark.Campaigns.Projection.{Decision, Clock, target_of, stored_status_of, sort_days}
use cloud_mark.Storage.Windows.{
  Window, refused, Expected, validate_storage_result, storage_profile, profile_or_empty,
}

abbrev same_day : Option String → Option String → Bool
same_day (some a) (some b) = str_eq a b
same_day _ _ = false

-- What the last lines of `_attempt_contract_status` make of a valid run and the declared day.
unfoldable pub declared_window : Window → (declared : Option String) → Window
declared_window w declared =
    if not w.valid
    then w
    else if not (is_some declared)
    then refused "invalid-utc-window" w.window_day
    else if not (same_day declared w.window_day)
    then refused "completion-window-mismatch" w.window_day
    else record { valid = true; reason_code = "valid-window"; window_day = w.window_day }

abbrev pub is_counted_day : String → List (String × String) → Bool
is_counted_day day days = any (has_day day) days

-- The day that an attempt adds, if it is valid and its day is new.
abbrev pub new_day : Window → List (String × String) → Option String
new_day w days = if not w.valid then none else elim w.window_day [
  | none ↦ none
  | some day ↦ if str_eq day "" || is_counted_day day days then none else some day
]

abbrev is_duplicate : Window → List (String × String) → Bool
is_duplicate w days =
    w.valid && elim w.window_day [ none ↦ false | some day ↦ is_counted_day day days ]

abbrev pub add_day : Option String → String → List (String × String) → List (String × String)
add_day none run_id days = days
add_day (some day) run_id days = days ++ (day, run_id) ∷ []

abbrev either_day : Option String → Option String → Option String
either_day none declared = declared
either_day (some day) declared = if str_eq day "" then declared else some day

-- One iteration of the loop over the attempts.
unfoldable pub count_attempt : (declared : Option String) → Tally → Run → Window → Tally
unfolding status_text get_field
count_attempt declared t run w =
    let counted = new_day w t.valid_days in
    record {
      valid_days = add_day counted run.id t.valid_days;
      active_run_id = if is_active run.status then some run.id else t.active_run_id;
      failed_attempts = if is_failure run.status then suc t.failed_attempts else t.failed_attempts;
      summaries =
          t.summaries
          ++ (record {
            run_id = run.id;
            status = status_text run.status;
            window_day = either_day w.window_day declared;
            attempt_number = get_field "campaign_attempt_number" run.request;
            window_number = get_field "campaign_window_number" run.request;
            valid_window = is_some counted;
            reason_code =
                if is_duplicate w t.valid_days then "duplicate-utc-window" else w.reason_code;
          })
            ∷ [];
    }

unfoldable pub effective_storage_status :
    (baseline_valid : Bool) → (valid target : ℕ) → (stored : String) → (current : Bool) → String
effective_storage_status baseline_valid valid target stored current =
    if not baseline_valid
    then "invalid"
    else if leb target valid
    then "completed"
    else if str_eq stored "active" && not current
    then "superseded"
    else stored

-- What the decision on the next window reads.
pub record StorageFacts : Type 0 where
  pub baseline : Window
  pub valid : ℕ
  pub target : ℕ
  pub stored : String
  pub current : Bool
  pub active_run : Bool
  pub today_done : Bool
  pub target_matches : Bool
  pub target_online : Bool
  pub tomorrow : String

abbrev pub status_of_facts : StorageFacts → String
status_of_facts f = effective_storage_status f.baseline.valid f.valid f.target f.stored f.current

abbrev deny : String → Decision
deny reason = record { eligible = false; reason_code = reason; earliest_at = none }

unfoldable pub decide_storage_window : (effective : String) → StorageFacts → Decision
decide_storage_window effective f =
    if str_eq effective "invalid"
    then deny f.baseline.reason_code
    else if str_eq effective "completed"
    then deny "campaign-complete"
    else if str_eq effective "superseded"
    then deny "campaign-profile-contract-superseded"
    else if not (str_eq f.stored "active")
    then deny "campaign-not-active"
    else if f.active_run
    then deny "campaign-run-active"
    else if f.today_done
    then record {
      eligible = false;
      reason_code = "utc-window-already-complete";
      earliest_at = some f.tomorrow;
    }
    else if not f.target_matches
    then deny "campaign-target-contract-mismatch"
    else if not f.target_online
    then deny "campaign-target-offline"
    else record { eligible = true; reason_code = "ready-for-manual-dispatch"; earliest_at = none }

pub record StorageProjection : Type 0 where
  pub status : String
  pub target_windows : ℕ
  pub remaining_windows : ℕ
  -- `distinct_utc_days` with `valid_run_ids`, by day.
  pub days : List (String × String)
  pub attempts : ℕ
  pub tally : Tally
  pub next : Decision
  pub window_number : ℕ
  pub attempt_number : ℕ
  pub window_day : String
  pub baseline_run_id : String
  pub baseline : Window
  pub complete : Bool

abbrev run_has_id : String → Run → Bool
run_has_id id run = str_eq run.id id

abbrev pub has_active : Option String → Bool
has_active none = false
has_active (some id) = not (str_eq id "")

abbrev pub matches_current : Option Fields → Value → Bool
matches_current none target = false
matches_current (some current) target = value_eq (dict current) target

-- The days before the attempts are counted: that of a valid baseline.
abbrev pub baseline_days : Window → String → List (String × String)
baseline_days w baseline_id = if not w.valid then [] else elim w.window_day [
  | none ↦ []
  | some day ↦ if str_eq day "" then [] else (day, baseline_id) ∷ []
]

abbrev pub baseline_run : String → List Run → Option Run
baseline_run baseline_id runs = select_one (run_has_id baseline_id) runs

module _ (py : Platform) where
  abbrev pub first_tally : (baseline : Window) → (baseline_id : String) → Tally
  first_tally baseline baseline_id = record (empty_tally py) {
    valid_days = baseline_days baseline baseline_id;
  }

  abbrev pub storage_attempts : Campaign → List Run → List Run
  storage_attempts campaign runs = sort_attempts [] (attempts_of py campaign.id runs)

  -- (contract.get(part) or {}).get(key)
  unfoldable pub part_field : Fields → (part key : String) → Result Value
  unfolding get_field or_else get
  part_field contract part key = get (or_else (get_field part contract) (dict end)) key

  unfoldable pub expected_of : Fields → Result Expected
  unfolding part_field get_field or_else text_of
  expected_of contract = do
    target_id ← part_field contract "target" "id"
    ok (record {
      profile_name = text_or py "" (get_field "profile" contract);
      profile_version = text_or py "" (get_field "profile_version" contract);
      methodology_version = text_or py "" (get_field "methodology_version" contract);
      target_id = text_or py "" target_id;
      target_contract = some (dict_or_empty (get_field "target" contract));
      storage_contract = some (text_or py "" (get_field "storage_contract" contract));
    })

  -- _attempt_contract_status
  unfoldable pub storage_attempt_status : Run → (contract : Fields) → Result Window
  unfolding get_field value_eq part_field expected_of validate_storage_result declared_window
      valid_window_day
  storage_attempt_status run contract =
      let request = run.request in
      if not
        (value_eq (get_field "campaign_contract_version" request) (get_field "version" contract))
      then ok (refused "campaign-contract-version-mismatch" none)
      else if not (is_true (get_field "confirm_write" request))
          || not (is_true (get_field "confirm_campaign_window" request))
      then ok (refused "campaign-confirmation-missing" none)
      else (part_field contract "target" "id" >>= λ id.
          if not (value_eq (get_field "campaign_target_id" request) id)
          then ok (refused "campaign-target-mismatch" none)
          else (expected_of contract >>= λ expected.
              validate_storage_result py expected run >>= λ w.
              ok (
                declared_window w (valid_window_day py (get_field "campaign_window_day" request)))))

  -- The loop over the attempts.
  unfoldable pub count_attempts : (contract : Fields) → Tally → List Run → Result Tally
  unfolding storage_attempt_status count_attempt valid_window_day get_field
  count_attempts contract t [] = ok t
  count_attempts contract t (run ∷ rest) = do
    w ← storage_attempt_status run contract
    count_attempts contract
        (count_attempt (valid_window_day py (get_field "campaign_window_day" run.request)) t run w)
        rest

  -- The baseline run's window: its day must be the contract's.
  unfoldable pub baseline_window : (contract : Fields) → Option Run → Result Window
  unfolding expected_of validate_storage_result part_field value_eq
  baseline_window contract none = ok (refused "baseline-run-unavailable" none)
  baseline_window contract (some run) = do
    expected ← expected_of contract
    w ← validate_storage_result py expected run
    day ← part_field contract "baseline" "window_day"
    ok (
        if value_eq (elim w.window_day [ none ↦ Value.null | some d ↦ str d ]) day
        then w
        else refused "baseline-window-mismatch" w.window_day)

  -- The installed profile is the one that the contract names.
  unfoldable pub storage_profile_is_current : Fields → Bool
  unfolding storage_profile get_field or_else text_of
  storage_profile_is_current contract =
      let installed =
        profile_or_empty (storage_profile (text_or py "" (get_field "profile" contract))) in
      str_eq (text_or py "" (get_field "profile_version" installed))
        (text_or py "" (get_field "profile_version" contract))
      && str_eq (text_or py "" (get_field "methodology_version" installed))
          (text_or py "" (get_field "methodology_version" contract))

  unfoldable pub storage_facts :
      Campaign
      → (baseline : Window) → Tally
      → (current_target : Option Fields) → (target_online : Bool) → Clock
      → StorageFacts
  unfolding get_field value_eq storage_profile_is_current
  storage_facts campaign baseline t current_target target_online clock = record {
    baseline = baseline;
    valid = length t.valid_days;
    target = target_of campaign;
    stored = stored_status_of campaign;
    current = storage_profile_is_current campaign.contract;
    active_run = has_active t.active_run_id;
    today_done = any (has_day clock.today) t.valid_days;
    target_matches = matches_current current_target (get_field "target" campaign.contract);
    target_online = target_online;
    tomorrow = clock.tomorrow;
  }

  unfoldable pub storage_projection :
      (attempts : ℕ) → (baseline_id : String) → Tally → StorageFacts → Clock → StorageProjection
  unfolding effective_storage_status decide_storage_window sort_days
  storage_projection attempts baseline_id t f clock =
      let effective = status_of_facts f in
      record {
        status = effective;
        target_windows = f.target;
        remaining_windows = f.target - f.valid;
        days = sort_days [] t.valid_days;
        attempts = attempts;
        tally = t;
        next = decide_storage_window effective f;
        window_number = min f.target (suc f.valid);
        attempt_number = suc attempts;
        window_day = clock.today;
        baseline_run_id = baseline_id;
        baseline = f.baseline;
        complete = str_eq effective "completed";
      }

  unfoldable pub project_storage_campaign :
      Campaign
      → List Run
      → (current_target : Option Fields) → (target_online : Bool) → Clock
      → Result StorageProjection
  unfolding part_field or_else text_of select_one baseline_window attempts_of sort_attempts
      count_attempts storage_facts storage_projection
  project_storage_campaign campaign runs current_target target_online clock = do
    named ← part_field campaign.contract "baseline" "run_id"
    let baseline_id = text_or py "" named
    baseline ← baseline_window campaign.contract (baseline_run baseline_id runs)
    let attempts = storage_attempts campaign runs
    t ← count_attempts campaign.contract (first_tally baseline baseline_id) attempts
    ok (
        storage_projection (length attempts) baseline_id t
          (storage_facts campaign baseline t current_target target_online clock) clock)
