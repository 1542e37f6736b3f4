-- ===== src/Campaigns/Windows.antt =====
-- What a projected campaign promises about its windows.
use Prim.Native.String.{◌++◌ as ◌++ₛ◌}
use cloud_mark.Prelude.{
  Bool, true, false, not, none, some, List, [], ◌∷◌, String, if◌then◌else◌, ◌||◌, is_some, any, ◌≡◌,
  refl, arith, ◌⊎◌, inl, inr, Bool-cases, Option-cases, All, All-append, Distinct, Distinct-append,
  select_one, subst, ap, ◌&&◌, str_eq,
}
use cloud_mark.Python.{
  Value, Fields, dict, end, get, get_field, or_else, is_true, Result, ok, Platform, value_eq,
  >>=-eq-ok, ok_injective,
}
use cloud_mark.Store.Schema.{is_completed, Run}
use cloud_mark.Campaigns.Contract.{text_or}
use cloud_mark.Campaigns.Attempts.{
  attempt_contract_status, result_status, methodology_status, session_status, validity_status,
  valid_window_day, status_text, differs, result_of,
}
use cloud_mark.Campaigns.Tally.{Tally, tally, tally_run, set_default, has_day}

-- What the contract asks of the result of an attempt: its versions, its session if it names one, and that
-- its analysis calls it eligible for comparison.
pub record IsResult (py : Platform) (contract : Fields) (result : Value) : Type 0 where
  pub profile_version : Value
  pub methodology_version : Value
  pub session : Value
  pub session_id : Value
  pub analysis : Value
  pub validity : Value
  pub eligible : Value
  pub profile_read : get result "profile_version" ≡ ok profile_version
  pub same_profile_version : value_eq profile_version (get_field "profile_version" contract) ≡ true
  pub methodology_read : get result "methodology_version" ≡ ok methodology_version
  pub same_methodology :
      value_eq methodology_version (get_field "methodology_version" contract) ≡ true
  pub session_read : get result "session" ≡ ok session
  pub session_id_read : get (or_else session (dict end)) "id" ≡ ok session_id
  pub same_session :
      str_eq (text_or py "" session_id) "" ≡ false
      → str_eq (text_or py "" session_id) (text_or py "" (get_field "session_id" contract)) ≡ true
  pub analysis_read : get result "analysis" ≡ ok analysis
  pub validity_read : get (or_else analysis (dict end)) "validity" ≡ ok validity
  pub eligible_read : get (or_else validity (dict end)) "comparison_eligible" ≡ ok eligible
  pub is_eligible : is_true eligible ≡ true

-- The evidence that the contract asks of an attempt.
pub record IsEvidence (py : Platform) (contract : Fields) (run : Run) : Type 0 where
  pub finished : is_completed run.status ≡ true
  pub load_confirmed : is_true (get_field "confirm_network_load" run.request) ≡ true
  pub window_confirmed : is_true (get_field "confirm_campaign_window" run.request) ≡ true
  pub same_version :
      value_eq (get_field "campaign_contract_version" run.request) (get_field "version" contract)
      ≡ true
  pub same_session :
      value_eq (get_field "session_id" run.request) (get_field "session_id" contract) ≡ true
  pub same_profile :
      value_eq (get_field "profile" run.request) (get_field "profile" contract) ≡ true
  pub dated : is_some (valid_window_day py (get_field "campaign_window_day" run.request)) ≡ true
  pub result : IsResult py contract (result_of py run)

-- A check that passes hands over to the next one.
passes :
    (failed_check : Bool) (why reason : String) (rest : Result (Bool × String))
    → (if failed_check then ok (false, why) else rest) ≡ ok (true, reason)
    → (failed_check ≡ false) × (rest ≡ ok (true, reason))
passes true why reason rest e = let never : ⊥ = cc in absurd never
passes false why reason rest e = (refl, e)

abbrev last_verdict : (eligible dated : Bool) → Bool × String
last_verdict eligible dated =
    if not eligible
    then (false, "comparison-validity-incomplete")
    else if not dated
    then (false, "invalid-utc-window")
    else (true, "valid-window")

marked :
    (eligible dated : Bool) (reason : String)
    → last_verdict eligible dated ≡ (true, reason)
    → (eligible ≡ true) × (dated ≡ true)
marked true true reason e = (refl, refl)
marked true false reason e = let never : ⊥ = ground (arith, ap (λ p. p.0) e) in absurd never
marked false dated reason e = let never : ⊥ = ground (arith, ap (λ p. p.0) e) in absurd never

negated : (b : Bool) → not b ≡ false → b ≡ true
negated true h = refl
negated false h = cc

module _ (py : Platform) where
  same_if_named : (a b : Bool) → (not a && not b) ≡ false → a ≡ false → b ≡ true
  same_if_named a b e h = ground (arith, e, h)

  result_status-IsResult :
      (request contract : Fields) (result : Value) (reason : String)
      → result_status py request contract result ≡ ok (true, reason)
      → IsResult py contract result
        × (is_some (valid_window_day py (get_field "campaign_window_day" request)) ≡ true)
  unfolding result_status methodology_status session_status validity_status
  result_status-IsResult request contract result reason e =
      let (v, profile_read, e1) = >>=-eq-ok (get result "profile_version") _ e in
      let (same_profile, m) = passes _ _ reason _ e1 in
      let (w, methodology_read, e2) = >>=-eq-ok (get result "methodology_version") _ m in
      let (same_method, s) = passes _ _ reason _ e2 in
      let (x, session_read, e3) = >>=-eq-ok (get result "session") _ s in
      let (y, id_read, e4) = >>=-eq-ok (get (or_else x (dict end)) "id") _ e3 in
      let (same_session, last) = passes _ _ reason _ e4 in
      let (a, analysis_read, e5) = >>=-eq-ok (get result "analysis") _ last in
      let (b, validity_read, e6) = >>=-eq-ok (get (or_else a (dict end)) "validity") _ e5 in
      let (c, eligible_read, e7) =
        >>=-eq-ok (get (or_else b (dict end)) "comparison_eligible") _ e6 in
      let (is_eligible, dated) = marked (is_true c) _ reason (ok_injective e7) in
      (
        record {
          profile_version = v;
          methodology_version = w;
          session = x;
          session_id = y;
          analysis = a;
          validity = b;
          eligible = c;
          profile_read = profile_read;
          same_profile_version = negated _ same_profile;
          methodology_read = methodology_read;
          same_methodology = negated _ same_method;
          session_read = session_read;
          session_id_read = id_read;
          same_session = same_if_named _ _ same_session;
          analysis_read = analysis_read;
          validity_read = validity_read;
          eligible_read = eligible_read;
          is_eligible = is_eligible;
        },
        dated,
      )

  -- An attempt counts only if it is a completed run that the operator confirmed as load and as a window,
  -- made for this contract's version, session and profile, and dated with a calendar day, whose
  -- result has the contract's versions, names no other session and is eligible for comparison.
  pub attempt_contract_status-IsEvidence :
      (run : Run) (contract : Fields) (reason : String)
      → attempt_contract_status py run contract ≡ ok (true, reason)
      → IsEvidence py contract run
  unfolding attempt_contract_status
  attempt_contract_status-IsEvidence run contract reason e =
      let (version, e1) =
        passes (differs py run.request "campaign_contract_version" contract "version")
          "campaign-contract-version-mismatch" reason _ e in
      let (confirmation, e2) =
        passes
          (not (is_true (get_field "confirm_network_load" run.request))
            || not (is_true (get_field "confirm_campaign_window" run.request)))
          "campaign-confirmation-missing" reason _ e1 in
      let (target, e3) =
        passes
          (differs py run.request "session_id" contract "session_id"
            || differs py run.request "profile" contract "profile")
          "campaign-contract-target-mismatch" reason _ e2 in
      let (finish, last) =
        passes (not (is_completed run.status)) ("run-" ++ₛ status_text run.status) reason _ e3 in
      let (result, dated) =
        result_status-IsResult run.request contract (result_of py run) reason last in
      record {
        finished = ground (arith, finish);
        load_confirmed = ground (arith, confirmation);
        window_confirmed = ground (arith, confirmation);
        same_version = ground (arith, version);
        same_session = ground (arith, target);
        same_profile = ground (arith, target);
        dated = dated;
        result = result;
      }

-- A run of the list.
abbrev pub Among : Run → List Run → Type 0
Among r [] = ⊥
Among r (x ∷ xs) = (x ≡ r) ⊎ Among r xs

-- A day that counts, with the run that it counts for.
pub record IsCounted (py : Platform) (contract : Fields) (attempts : List Run)
    (entry : String × String) : Type 0 where
  pub run : Run
  pub among : Among run attempts
  pub named : run.id ≡ entry.1
  pub day : valid_window_day py (get_field "campaign_window_day" run.request) ≡ some entry.0
  pub evidence : IsEvidence py contract run

-- The days are distinct, and each is backed by an attempt.
pub record IsTally (py : Platform) (contract : Fields) (attempts : List Run) (t : Tally)
    : Type 0 where
  pub distinct : Distinct (λ (d : String × String). d.0) t.valid_days
  pub counted : All (IsCounted py contract attempts) t.valid_days

any-select_one :
    (day : String) (days : List (String × String))
    → any (has_day day) days ≡ false
    → select_one (has_day day) days ≡ none
unfolding select_one
any-select_one day [] e = refl
any-select_one day (d ∷ ds) e = ground (arith, any-select_one day ds)

module _ (py : Platform) (contract : Fields) (attempts : List Run) where
  set_default-IsTally :
      (day run_id : String) (t : Tally)
      → IsCounted py contract attempts (day, run_id)
      → IsTally py contract attempts t
      → IsTally py contract attempts (record t { valid_days = set_default day run_id t.valid_days })
  unfolding set_default
  set_default-IsTally day run_id t c w = elim (Bool-cases (any (has_day day) t.valid_days)) [
    | inl there ↦ rw there w
    | inr new ↦ rw new (record {
      distinct =
          Distinct-append (λ d. d.0) t.valid_days (day, run_id)
            (any-select_one day t.valid_days new) w.distinct;
      counted = All-append (IsCounted py contract attempts) t.valid_days _ w.counted (c, tt);
    })
  ]

  tally_run-IsTally :
      (t : Tally) (run : Run) (valid : Bool) (reason : String)
      → Among run attempts
      → attempt_contract_status py run contract ≡ ok (valid, reason)
      → IsTally py contract attempts t
      → IsTally py contract attempts (tally_run py t run (valid, reason))
  unfolding tally_run
  tally_run-IsTally t run false reason member e w = record {
    distinct = w.distinct;
    counted = w.counted;
  }
  tally_run-IsTally t run true reason member e w =
      elim (Option-cases (valid_window_day py (get_field "campaign_window_day" run.request))) [
        | inl undated ↦ rw undated (record { distinct = w.distinct; counted = w.counted })
        | inr (day, dated) ↦
            let next =
              set_default-IsTally day run.id t
                (record {
                  run = run;
                  among = member;
                  named = refl;
                  day = dated;
                  evidence = attempt_contract_status-IsEvidence py run contract reason e;
                })
                w in
            rw dated (record { distinct = next.distinct; counted = next.counted })
      ]

  pub tally-IsTally :
      (rest : List Run) (t u : Tally)
      → ((r : Run) → Among r rest → Among r attempts)
      → tally py contract t rest ≡ ok u
      → IsTally py contract attempts t
      → IsTally py contract attempts u
  unfolding tally
  tally-IsTally [] t u inside e w = subst (IsTally py contract attempts) (ok_injective e) w
  tally-IsTally (run ∷ rest) t u inside e w =
      let (verdict, status, after) = >>=-eq-ok (attempt_contract_status py run contract) _ e in
      tally-IsTally rest (tally_run py t run verdict) u (λ r m. inside r (inr m)) after
        (tally_run-IsTally t run verdict.0 verdict.1 (inside run (inl refl)) status w)
