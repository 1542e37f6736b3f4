-- ===== src/Storage/Dispatch.antt =====
-- cloudmark/storage_campaigns.py: when the next window of a storage campaign may be dispatched.
use cloud_mark.Prelude.{
  Bool, true, false, not, ◌&&◌, Option, List, String, str_eq, if◌then◌else◌, leb, ◌≡◌, refl, arith,
  str_eq_refl, str_eq_iff, subst, none, some, select_one, Option-cases, inl, inr, All, length, ◌<◌,
  ℕ, sym, any, ap, ◌∙◌,
}
use cloud_mark.Python.{
  Value, str, dict, get_field, value_eq, Fields, ok, ok_injective, >>=-eq-ok, Platform,
}
use cloud_mark.Store.Schema.{Run, Campaign}
use cloud_mark.Campaigns.Contract.{text_or}
use cloud_mark.Campaigns.Projection.{Clock, target_of, stored_status_of}
use cloud_mark.Campaigns.Tally.{has_day}
use cloud_mark.Campaigns.Active.{
  is_idle, run_is_live, is_unnamed, belongs_to, any-attempts, attempts-named,
}
use cloud_mark.Storage.Windows.{Window, refused, Expected, validate_storage_result}
use cloud_mark.Storage.Counting.{IsCovered, count_attempts-IsCovered, count_attempts-idle}
use cloud_mark.Storage.Projection.{
  expected_of, storage_profile_is_current, has_active, matches_current, part_field, baseline_window,
  baseline_run, count_attempts, first_tally, storage_attempts, StorageFacts, status_of_facts,
  effective_storage_status, decide_storage_window, storage_projection, storage_facts,
  StorageProjection, project_storage_campaign,
}

-- The facts that the decision reads, when it lets the next window be dispatched.
record Clear (f : StorageFacts) : Type 0 where
  pub baseline_valid : f.baseline.valid ≡ true
  pub unfinished : leb f.target f.valid ≡ false
  pub active : str_eq f.stored "active" ≡ true
  pub current : f.current ≡ true
  pub none_running : f.active_run ≡ false
  pub not_today : f.today_done ≡ false
  pub same_target : f.target_matches ≡ true
  pub online : f.target_online ≡ true

past_status :
    (f : StorageFacts)
    → (decide_storage_window (status_of_facts f) f).eligible ≡ true
    → (str_eq (status_of_facts f) "invalid" ≡ false)
      × ((str_eq (status_of_facts f) "completed" ≡ false)
          × (str_eq (status_of_facts f) "superseded" ≡ false))
unfolding decide_storage_window
past_status f h = (ground arith, (ground arith, ground arith))

same_text : (s : String) → str_eq s s ≡ false → ⊥
unfolding str_eq
same_text s h = let same : str_eq s s ≡ true = str_eq_refl s in cc

-- A status that is none of the three words is the stored one.
from_tests :
    (valid done current : Bool) (stored : String)
    → str_eq stored "active" ≡ true
    → (status : String)
    → status ≡ (
        if not valid
        then "invalid"
        else if done
        then "completed"
        else if str_eq stored "active" && not current
        then "superseded"
        else stored)
    → str_eq status "invalid" ≡ false
    → str_eq status "completed" ≡ false
    → str_eq status "superseded" ≡ false
    → (valid ≡ true) × ((done ≡ false) × (current ≡ true))
from_tests false done current stored active status e x y z =
    absurd (same_text "invalid" (subst (λ s. str_eq s "invalid" ≡ false) e x))
from_tests true true current stored active status e x y z =
    absurd (same_text "completed" (subst (λ s. str_eq s "completed" ≡ false) e y))
from_tests true false false stored active status e x y z =
    let named : status ≡ "superseded" = rw active at e in
    absurd (same_text "superseded" (subst (λ s. str_eq s "superseded" ≡ false) named z))
from_tests true false true stored active status e x y z = (refl, (refl, refl))

eligible-Clear :
    (f : StorageFacts) → (decide_storage_window (status_of_facts f) f).eligible ≡ true → Clear f
unfolding decide_storage_window effective_storage_status
eligible-Clear f h =
    let (x, (y, z)) = past_status f h in
    let active : str_eq f.stored "active" ≡ true = ground arith in
    let (valid, (unfinished, current)) =
      from_tests f.baseline.valid (leb f.target f.valid) f.current f.stored active
        (status_of_facts f) refl x y z in
    record {
      baseline_valid = valid;
      unfinished = unfinished;
      active = active;
      current = current;
      none_running = ground arith;
      not_today = ground arith;
      same_target = ground arith;
      online = ground arith;
    }

-- The day of a window, as the contract keeps it.
abbrev day_value : Option String → Value
day_value none = Value.null
day_value (some day) = str day

short_of : (target valid : ℕ) → leb target valid ≡ false → valid < target
short_of target valid h = ground (arith, h)

no_run_id : (o : Option String) → has_active o ≡ false → is_idle o ≡ true
no_run_id none h = refl
no_run_id (some id) h = ground (arith, h)

none_live : (live : Bool) → (not live && true) ≡ true → live ≡ false
none_live true h = cc
none_live false h = refl

compared :
    (same : Bool) (v w : Window)
    → (if same then v else refused "baseline-window-mismatch" v.window_day) ≡ w
    → w.valid ≡ true
    → (same ≡ true) × (v.valid ≡ true)
compared true v w e h = (refl, ap (λ x. x.valid) e ∙ h)
compared false v w e h = let never : ⊥ = ground (arith, ap (λ x. x.valid) e, h) in absurd never

module _ (py : Platform) (campaign : Campaign) (runs : List Run) where
  -- The contract's baseline run is stored and is still a valid window, of the day that the contract names.
  pub record IsBaseline : Type 0 where
    pub baseline_id : Value
    pub run : Run
    pub expected : Expected
    pub window : Window
    pub day : Value
    pub named : part_field py campaign.contract "baseline" "run_id" ≡ ok baseline_id
    pub found : select_one (λ r. str_eq r.id (text_or py "" baseline_id)) runs ≡ some run
    pub expects : expected_of py campaign.contract ≡ ok expected
    pub checked : validate_storage_result py expected run ≡ ok window
    pub valid : window.valid ≡ true
    pub dated : part_field py campaign.contract "baseline" "window_day" ≡ ok day
    pub same_day : value_eq (day_value window.window_day) day ≡ true

  baseline_window-IsBaseline :
      (id : Value) (w : Window)
      → part_field py campaign.contract "baseline" "run_id" ≡ ok id
      → baseline_window py campaign.contract (baseline_run (text_or py "" id) runs) ≡ ok w
      → w.valid ≡ true
      → IsBaseline
  unfolding baseline_window
  baseline_window-IsBaseline id w named e valid =
      elim (Option-cases (baseline_run (text_or py "" id) runs)) [
        | inl missing ↦
            let refusal = ok_injective (rw missing at e) in
            let never : ⊥ = ground (arith, refusal, valid) in absurd never
        | inr (run, found) ↦
            let (ex, expects, e1) =
              >>=-eq-ok (expected_of py campaign.contract) _ (rw found at e) in
            let (v, checked, e2) = >>=-eq-ok (validate_storage_result py ex run) _ e1 in
            let (day, dated, e3) =
              >>=-eq-ok (part_field py campaign.contract "baseline" "window_day") _ e2 in
            let (same, v_valid) =
              compared (value_eq (day_value v.window_day) day) v w (ok_injective e3) valid in
            record {
              baseline_id = id;
              run = run;
              expected = ex;
              window = v;
              day = day;
              named = named;
              found = found;
              expects = expects;
              checked = checked;
              valid = v_valid;
              dated = dated;
              same_day = same;
            }
      ]

  -- What holds when the next window may be dispatched.
  pub record MayStore (current_target : Option Fields) (target_online : Bool) (clock : Clock)
      (p : StorageProjection) : Type 0 where
    pub baseline : IsBaseline
    pub covered :
        All (IsCovered py campaign.contract p.tally.valid_days) (storage_attempts py campaign runs)
    pub unfinished : length p.tally.valid_days < target_of campaign
    pub active : stored_status_of campaign ≡ "active"
    pub current : storage_profile_is_current py campaign.contract ≡ true
    pub none_running : any (λ r. belongs_to py campaign.id r && run_is_live r) runs ≡ false
    pub not_today : any (has_day clock.today) p.tally.valid_days ≡ false
    pub same_target :
        (t : Fields) × (current_target ≡ some t)
        × (value_eq (dict t) (get_field "target" campaign.contract) ≡ true)
    pub online : target_online ≡ true

  matches-some :
      (current_target : Option Fields) (target : Value)
      → matches_current current_target target ≡ true
      → (t : Fields) × (current_target ≡ some t) × (value_eq (dict t) target ≡ true)
  matches-some none target h = let never : ⊥ = cc in absurd never
  matches-some (some t) target h = (t, refl, h)

  -- Of runs that all have an id, a projection that lets the next window be dispatched is one of an active
  -- campaign whose baseline run is stored and still passes the storage checks on the contract's day,
  -- whose profile is the installed one, and none of whose runs is queued or running. The day of
  -- every valid attempt is counted; the days are fewer than the campaign aims at, and today is not
  -- one of them. The target is online and the one of the contract.
  pub project_storage_campaign-MayStore :
      (current_target : Option Fields) (target_online : Bool) (clock : Clock)
      (p : StorageProjection)
      → any is_unnamed runs ≡ false
      → project_storage_campaign py campaign runs current_target target_online clock ≡ ok p
      → p.next.eligible ≡ true
      → MayStore current_target target_online clock p
  unfolding project_storage_campaign storage_projection storage_facts
  project_storage_campaign-MayStore current_target target_online clock p all_named e eligible =
      let (id, named, e1) = >>=-eq-ok (part_field py campaign.contract "baseline" "run_id") _ e in
      let (baseline, window, e2) =
        >>=-eq-ok (baseline_window py campaign.contract (baseline_run (text_or py "" id) runs)) _
          e1 in
      let attempts = storage_attempts py campaign runs in
      let first = first_tally py baseline (text_or py "" id) in
      let (t, counted, e3) = >>=-eq-ok (count_attempts py campaign.contract first attempts) _ e2 in
      let made = ok_injective e3 in
      let facts = storage_facts py campaign baseline t current_target target_online clock in
      let clear = eligible-Clear facts (ap (λ q. q.next.eligible) made ∙ eligible) in
      let idle =
        count_attempts-idle py campaign.contract attempts first t
          (attempts-named py campaign.id runs all_named) counted in
      let live = any-attempts py run_is_live campaign.id runs in
      subst (MayStore current_target target_online clock) made (record {
        baseline = baseline_window-IsBaseline id baseline named window clear.baseline_valid;
        covered = count_attempts-IsCovered py campaign.contract attempts first t counted;
        unfinished = short_of (target_of campaign) (length t.valid_days) clear.unfinished;
        active = (str_eq_iff (stored_status_of campaign) "active").0 clear.active;
        current = clear.current;
        none_running =
            sym live ∙ none_live _ (sym idle ∙ no_run_id t.active_run_id clear.none_running);
        not_today = clear.not_today;
        same_target =
            matches-some current_target (get_field "target" campaign.contract) clear.same_target;
        online = clear.online;
      })
