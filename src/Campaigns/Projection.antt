-- ===== src/Campaigns/Projection.antt =====
-- cloudmark/campaigns.py: `project_network_campaign`, the view of a campaign that the API serves and
-- that decides whether the next window may be dispatched.
use cloud_mark.Prelude.{
  ℕ, suc, Bool, true, false, not, Option, none, some, List, [], ◌∷◌, String, str_eq, if◌then◌else◌,
  ◌&&◌, leb, ◌==◌, ◌-◌, length, min, any,
}
use cloud_mark.Python.{Fields, get_field, or_else, Result, ok, ◌>>=◌, Platform, text_of}
use cloud_mark.Store.Schema.{Run, Campaign}
use cloud_mark.Store.Pairing.{SessionView}
use cloud_mark.Campaigns.Contract.{
  text_lt, text_or, network_profile, ProfileVersions, contract_matches_session, min_windows,
}
use cloud_mark.Campaigns.Tally.{
  sort_attempts, AttemptSummary, Tally, has_day, tally, empty_tally, attempts_of,
}

module _ (py : Platform) where
  abbrev versions_or_empty : Option ProfileVersions → String × String
  versions_or_empty none = ("", "")
  versions_or_empty (some v) = (v.profile_version, v.methodology_version)

  -- The installed profile is the one that the contract names.
  unfoldable pub profile_is_current : Fields → Bool
  unfolding network_profile get_field or_else text_of
  profile_is_current contract =
      let (profile_version, methodology_version) =
        versions_or_empty (network_profile (text_or py "" (get_field "profile" contract))) in
      str_eq profile_version (text_or py "" (get_field "profile_version" contract))
      && str_eq methodology_version (text_or py "" (get_field "methodology_version" contract))

-- int(campaign.get("target_windows") or NETWORK_CAMPAIGN_MIN_WINDOWS)
abbrev pub target_of : Campaign → ℕ
target_of c = if c.target_windows == 0 then min_windows else c.target_windows

-- str(campaign.get("status") or "active")
abbrev pub stored_status_of : Campaign → String
stored_status_of c = if str_eq c.status "" then "active" else c.status

unfoldable pub effective_status : (valid target : ℕ) → (stored : String) → (current : Bool) → String
effective_status valid target stored current =
    if leb target valid
    then "completed"
    else if str_eq stored "active" && not current
    then "superseded"
    else stored

pub record Decision : Type 0 where
  pub eligible : Bool
  pub reason_code : String
  pub earliest_at : Option String

abbrev refuse : String → Decision
refuse reason = record { eligible = false; reason_code = reason; earliest_at = none }

-- What the decision on the next window reads.
pub record Facts : Type 0 where
  pub effective : String
  pub stored : String
  pub active_run : Bool
  pub today_done : Bool
  pub session : Option SessionView
  pub session_matches : Bool
  pub tomorrow : String

unfoldable pub decide_session : Option SessionView → Bool → Decision
decide_session none session_matches = refuse "campaign-session-unavailable"
decide_session (some s) session_matches =
    if not session_matches
    then refuse "campaign-session-contract-mismatch"
    else if not s.ready
    then refuse "campaign-agents-not-ready"
    else record { eligible = true; reason_code = "ready-for-manual-dispatch"; earliest_at = none }

unfoldable pub decide : Facts → Decision
unfolding decide_session
decide f =
    if str_eq f.effective "completed"
    then refuse "campaign-complete"
    else if str_eq f.effective "superseded"
    then refuse "campaign-profile-contract-superseded"
    else if not (str_eq f.stored "active")
    then refuse "campaign-not-active"
    else if f.active_run
    then refuse "campaign-run-active"
    else if f.today_done
    then record {
      eligible = false;
      reason_code = "utc-window-already-complete";
      earliest_at = some f.tomorrow;
    }
    else decide_session f.session f.session_matches

pub record Projection : Type 0 where
  pub status : String
  pub valid_windows : ℕ
  pub target_windows : ℕ
  pub remaining_windows : ℕ
  -- `distinct_utc_days` with `valid_run_ids`, by day.
  pub days : List (String × String)
  pub attempts : ℕ
  pub failed_attempts : ℕ
  pub active_run_id : Option String
  pub next : Decision
  pub window_number : ℕ
  pub attempt_number : ℕ
  pub window_day : String
  pub summaries : List AttemptSummary
  pub complete : Bool

unfoldable pub insert_day : String × String → List (String × String) → List (String × String)
insert_day d [] = d ∷ []
insert_day d (x ∷ xs) = if text_lt d.0 x.0 then d ∷ x ∷ xs else x ∷ insert_day d xs

unfoldable pub sort_days : List (String × String) → List (String × String) → List (String × String)
unfolding insert_day
sort_days sorted [] = sorted
sort_days sorted (d ∷ rest) = sort_days (insert_day d sorted) rest

-- The clock: today's date, and the first instant of tomorrow, both in UTC.
pub record Clock : Type 0 where
  pub today : String
  pub tomorrow : String

module _ (py : Platform) where
  unfoldable pub matches_given : Fields → Option SessionView → Result Bool
  unfolding contract_matches_session
  matches_given contract none = ok false
  matches_given contract (some s) = contract_matches_session py contract s

  unfoldable pub facts : Campaign → Tally → Option SessionView → Bool → Clock → Facts
  unfolding profile_is_current effective_status
  facts campaign t session session_matches clock =
      let valid = length t.valid_days in
      record {
        effective =
            effective_status valid (target_of campaign) (stored_status_of campaign)
              (profile_is_current py campaign.contract);
        stored = stored_status_of campaign;
        active_run = elim t.active_run_id [ none ↦ false | some id ↦ not (str_eq id "") ];
        today_done = any (has_day clock.today) t.valid_days;
        session = session;
        session_matches = session_matches;
        tomorrow = clock.tomorrow;
      }

  unfoldable pub projection : Campaign → ℕ → Tally → Facts → Clock → Projection
  unfolding decide sort_days
  projection campaign attempts t f clock =
      let valid = length t.valid_days in
      let target = target_of campaign in
      record {
        status = f.effective;
        valid_windows = valid;
        target_windows = target;
        remaining_windows = target - valid;
        days = sort_days [] t.valid_days;
        attempts = attempts;
        failed_attempts = t.failed_attempts;
        active_run_id = t.active_run_id;
        next = decide f;
        window_number = min target (suc valid);
        attempt_number = suc attempts;
        window_day = clock.today;
        summaries = t.summaries;
        complete = str_eq f.effective "completed";
      }

  unfoldable pub project_network_campaign :
      Campaign → List Run → Option SessionView → Clock → Result Projection
  unfolding tally attempts_of sort_attempts matches_given facts projection
  project_network_campaign campaign runs session clock = do
    let attempts = sort_attempts [] (attempts_of py campaign.id runs)
    t ← tally py campaign.contract (empty_tally py) attempts
    session_matches ← matches_given campaign.contract session
    ok (
        projection campaign (length attempts) t (facts campaign t session session_matches clock)
          clock)
