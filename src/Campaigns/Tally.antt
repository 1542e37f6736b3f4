-- ===== src/Campaigns/Tally.antt =====
-- cloudmark/campaigns.py: the order of the attempts, and the loop that counts them.
use cloud_mark.Prelude.{
  ℕ, suc, Bool, true, false, Option, none, some, List, [], ◌∷◌, ◌++◌, String, str_eq, if◌then◌else◌,
  ltb, any,
}
use cloud_mark.Python.{Value, Fields, get_field, or_else, Result, ok, ◌>>=◌, Platform, text_of}
use cloud_mark.Store.Schema.{Status, failed, cancelled, is_active, Run}
use cloud_mark.Campaigns.Contract.{text_lt, text_or}
use cloud_mark.Campaigns.Attempts.{attempt_contract_status, valid_window_day, status_text}

-- What the attempts are sorted by: the text of a time stamp, or the run's id, which begins with a
-- letter and so stands behind every time stamp.
pub data SortKey : Type 0 where
  at : ℕ → SortKey
  named : String → SortKey

sort_key : Option ℕ → Option ℕ → String → SortKey
sort_key (some t) f id = at t
sort_key none (some f) id = at f
sort_key none none id = named id

key_lt : SortKey → SortKey → Bool
key_lt (at a) (at b) = ltb a b
key_lt (at a) (named b) = true
key_lt (named a) (at b) = false
key_lt (named a) (named b) = text_lt a b

run_key : Run → SortKey
unfolding sort_key
run_key r = sort_key r.started_at r.finished_at r.id

unfoldable pub insert_attempt : Run → List Run → List Run
unfolding key_lt run_key
insert_attempt r [] = r ∷ []
insert_attempt r (x ∷ xs) =
    if key_lt (run_key r) (run_key x) then r ∷ x ∷ xs else x ∷ insert_attempt r xs

unfoldable pub sort_attempts : List Run → List Run → List Run
unfolding insert_attempt
sort_attempts sorted [] = sorted
sort_attempts sorted (r ∷ rest) = sort_attempts (insert_attempt r sorted) rest

pub record AttemptSummary : Type 0 where
  pub run_id : String
  pub status : String
  pub window_day : Option String
  pub attempt_number : Value
  pub window_number : Value
  pub valid_window : Bool
  pub reason_code : String

-- The loop's variables. `valid_days` is a dictionary from a day to the first valid run of that day.
pub record Tally : Type 0 where
  pub valid_days : List (String × String)
  pub active_run_id : Option String
  pub failed_attempts : ℕ
  pub summaries : List AttemptSummary

abbrev pub has_day : String → String × String → Bool
has_day day entry = str_eq entry.0 day

-- valid_days.setdefault(day, run_id)
unfoldable pub set_default : String → String → List (String × String) → List (String × String)
set_default day run_id days = if any (has_day day) days then days else days ++ (day, run_id) ∷ []

abbrev pub note_day :
    Bool → Option String → String → List (String × String) → List (String × String)
note_day true (some day) run_id days = set_default day run_id days
note_day _ _ run_id days = days

abbrev pub is_failure : Status → Bool
is_failure failed = true
is_failure cancelled = true
is_failure _ = false

module _ (py : Platform) where
  unfoldable pub tally_run : Tally → Run → Bool × String → Tally
  unfolding set_default valid_window_day status_text get_field
  tally_run t run (valid, reason) =
      let window_day = valid_window_day py (get_field "campaign_window_day" run.request) in
      record {
        valid_days = note_day valid window_day run.id t.valid_days;
        active_run_id = if is_active run.status then some run.id else t.active_run_id;
        failed_attempts =
            if is_failure run.status then suc t.failed_attempts else t.failed_attempts;
        summaries =
            t.summaries
            ++ (record {
              run_id = run.id;
              status = status_text run.status;
              window_day = window_day;
              attempt_number = get_field "campaign_attempt_number" run.request;
              window_number = get_field "campaign_window_number" run.request;
              valid_window = valid;
              reason_code = reason;
            })
              ∷ [];
      }

  -- The loop over the attempts.
  unfoldable pub tally : Fields → Tally → List Run → Result Tally
  unfolding tally_run attempt_contract_status
  tally contract t [] = ok t
  tally contract t (run ∷ rest) = do
    verdict ← attempt_contract_status py run contract
    tally contract (tally_run t run verdict) rest

  abbrev pub empty_tally : Tally
  empty_tally = record {
    valid_days = [];
    active_run_id = none;
    failed_attempts = 0;
    summaries = [];
  }

  -- The runs of the campaign.
  unfoldable pub attempts_of : String → List Run → List Run
  unfolding get_field or_else text_of
  attempts_of campaign_id [] = []
  attempts_of campaign_id (run ∷ rest) =
      if str_eq (text_or py "" (get_field "campaign_id" run.request)) campaign_id
      then run ∷ attempts_of campaign_id rest
      else attempts_of campaign_id rest
