-- ===== src/Campaigns/Dispatch.antt =====
-- When the next window of a campaign may be dispatched.
use cloud_mark.Prelude.{
  All, ◌||◌, ℕ, Bool, true, false, not, Option, none, some, List, [], String, str_eq, str_eq_iff,
  str_eq_refl, ◌&&◌, leb, ltb, ◌<◌, length, any, ◌≡◌, refl, arith, inl, inr, ◌↔◌, Bool-cases, subst,
  sym, ◌∙◌, ap,
}
use cloud_mark.Python.{ok, Platform, >>=-eq-ok, ok_injective}
use cloud_mark.Store.Schema.{Run, Campaign}
use cloud_mark.Store.Pairing.{SessionView}
use cloud_mark.Campaigns.Contract.{contract_matches_session}
use cloud_mark.Campaigns.Projection.{
  Projection, Facts, decide, decide_session, facts, projection, project_network_campaign, Clock,
  effective_status, target_of, stored_status_of, profile_is_current, matches_given,
}
use cloud_mark.Campaigns.Tally.{Tally, tally, empty_tally, has_day, sort_attempts, attempts_of}
use cloud_mark.Campaigns.Days.{any-sort_days}
use cloud_mark.Campaigns.Covering.{IsCovered, tally-IsCovered, All-IsCovered}
use cloud_mark.Campaigns.Active.{
  is_idle, run_is_live, is_unnamed, belongs_to, any-attempts, attempts-named, tally-idle,
}

abbrev session_fits : Option SessionView → Bool → Bool
session_fits none m = false
session_fits (some s) m = m && s.ready

session_fits-some :
    (given : Option SessionView) (m : Bool)
    → session_fits given m ≡ true
    → (s : SessionView) × (given ≡ some s) × (m ≡ true) × (s.ready ≡ true)
session_fits-some none m e = let never : ⊥ = cc in absurd never
session_fits-some (some s) m e = (s, refl, ground (arith, e), ground (arith, e))

-- Nothing stands against another window.
pub record MayDispatch (py : Platform) (campaign : Campaign) (given : Option SessionView)
    (clock : Clock) (p : Projection) (runs : List Run) : Type 0 where
  pub unfinished : p.valid_windows < p.target_windows
  pub active : stored_status_of campaign ≡ "active"
  pub current : profile_is_current py campaign.contract ≡ true
  pub idle : any (λ r. belongs_to py campaign.id r && run_is_live r) runs ≡ false
  pub new_day : any (has_day clock.today) p.days ≡ false
  pub session : SessionView
  pub session_given : given ≡ some session
  pub session_matches : contract_matches_session py campaign.contract session ≡ ok true
  pub session_ready : session.ready ≡ true

-- The tests that `decide` makes, in one conjunction.
passes_all : Facts → Bool
passes_all f =
    not (str_eq f.effective "completed")
    && (not (str_eq f.effective "superseded")
        && (str_eq f.stored "active"
            && (not f.active_run
                && (not f.today_done && session_fits f.session f.session_matches))))

decide-passes_all : (f : Facts) → (decide f).eligible ≡ passes_all f
unfolding decide decide_session passes_all
decide-passes_all f = ground arith

-- The status of an active campaign that is short of its target.
abbrev effective_open : Bool → String
effective_open true = "active"
effective_open false = "superseded"

effective-reached :
    (valid target : ℕ) (stored : String) (current : Bool)
    → leb target valid ≡ true
    → effective_status valid target stored current ≡ "completed"
unfolding effective_status
effective-reached valid target stored current e = rw e refl

effective-below :
    (valid target : ℕ) (current : Bool)
    → leb target valid ≡ false
    → effective_status valid target "active" current ≡ effective_open current
unfolding effective_status
effective-below valid target true e = rw (e, str_eq_refl "active") refl
effective-below valid target false e = rw (e, str_eq_refl "active") refl

open_current :
    (current : Bool)
    → (not (str_eq (effective_open current) "completed")
        && not (str_eq (effective_open current) "superseded"))
      ≡ current
unfolding str_eq
open_current true = refl
open_current false = refl

open_active :
    (valid target : ℕ) (current : Bool)
    → (not (str_eq (effective_status valid target "active" current) "completed")
        && not (str_eq (effective_status valid target "active" current) "superseded"))
      ≡ (ltb valid target && current)
open_active valid target current = elim (Bool-cases (leb target valid)) [
  | inl reached ↦
      let over : ltb valid target ≡ false = ground (arith, reached) in
      rw (effective-reached valid target "active" current reached, over, str_eq_refl "completed")
        refl
  | inr below ↦
      let under : ltb valid target ≡ true = ground (arith, below) in
      rw (effective-below valid target current below, under) (open_current current)
]

effective-open :
    (valid target : ℕ) (stored : String) (current : Bool)
    → (not (str_eq (effective_status valid target stored current) "completed")
        && (not (str_eq (effective_status valid target stored current) "superseded")
            && str_eq stored "active"))
      ≡ (ltb valid target && (current && str_eq stored "active"))
effective-open valid target stored current = elim (Bool-cases (str_eq stored "active")) [
  | inr inactive ↦ rw inactive (ground arith)
  | inl active ↦
      let is_active = (str_eq_iff stored "active").0 active in
      let opened = open_active valid target current in
      rw (is_active, str_eq_refl "active") (ground (arith, opened))
]

or_false : (b : Bool) → (b || false) ≡ b
or_false b = ground arith

module _ (py : Platform) (campaign : Campaign) (given : Option SessionView) (clock : Clock) where
  eligible-Bool :
      (attempts : ℕ) (t : Tally) (m : Bool)
      → let p = projection py campaign attempts t (facts py campaign t given m clock) clock in
        p.next.eligible ≡ (
          (ltb p.valid_windows p.target_windows
            && (profile_is_current py campaign.contract
                && str_eq (stored_status_of campaign) "active"))
          && (is_idle p.active_run_id
              && (not (any (has_day clock.today) p.days) && session_fits given m)))
  unfolding projection facts passes_all
  eligible-Bool attempts t m =
      let f = facts py campaign t given m clock in
      let opened =
        effective-open (length t.valid_days) (target_of campaign) (stored_status_of campaign)
          (profile_is_current py campaign.contract) in
      let sorted = any-sort_days clock.today [] t.valid_days in
      ground (arith, decide-passes_all f, opened, sorted)

  -- What a projection was made of.
  pub record IsProjected (runs : List Run) (p : Projection) : Type 0 where
    pub totals : Tally
    pub matched : Bool
    pub counted :
        tally py campaign.contract
          (empty_tally py)
          (sort_attempts [] (attempts_of py campaign.id runs))
        ≡ ok totals
    pub compared : matches_given py campaign.contract given ≡ ok matched
    pub made :
        projection py campaign
          (length (sort_attempts [] (attempts_of py campaign.id runs)))
          totals
          (facts py campaign totals given matched clock)
          clock
        ≡ p

  pub project-IsProjected :
      (runs : List Run) (p : Projection)
      → project_network_campaign py campaign runs given clock ≡ ok p
      → IsProjected runs p
  unfolding project_network_campaign
  project-IsProjected runs p e =
      let attempts = sort_attempts [] (attempts_of py campaign.id runs) in
      let (t, counted, e1) = >>=-eq-ok (tally py campaign.contract (empty_tally py) attempts) _ e in
      let (m, compared, e2) = >>=-eq-ok (matches_given py campaign.contract given) _ e1 in
      record {
        totals = t;
        matched = m;
        counted = counted;
        compared = compared;
        made = ok_injective e2;
      }

  abbrev allows : Bool → Projection → Bool
  allows m p =
      (ltb p.valid_windows p.target_windows
        && (profile_is_current py campaign.contract && str_eq (stored_status_of campaign) "active"))
      && (is_idle p.active_run_id
          && (not (any (has_day clock.today) p.days) && session_fits given m))

  eligible-allows :
      (runs : List Run) (p : Projection) (w : IsProjected runs p)
      → p.next.eligible ≡ allows w.matched p
  eligible-allows runs p w =
      subst (λ q. q.next.eligible ≡ allows w.matched q) w.made
        (eligible-Bool (length (sort_attempts [] (attempts_of py campaign.id runs))) w.totals
          w.matched)

  given-matches :
      (s : SessionView)
      → given ≡ some s
      → matches_given py campaign.contract given ≡ contract_matches_session py campaign.contract s
  unfolding matches_given
  given-matches s e = rw e refl

  -- The run id that a projection calls active is there exactly if an attempt is queued or running.
  projected-idle :
      (runs : List Run) (p : Projection) (w : IsProjected runs p)
      → any is_unnamed runs ≡ false
      → is_idle p.active_run_id ≡ not (any (λ r. belongs_to py campaign.id r && run_is_live r) runs)
  unfolding projection
  projected-idle runs p w named =
      let attempts = sort_attempts [] (attempts_of py campaign.id runs) in
      let kept = ap (λ q. is_idle q.active_run_id) (sym w.made) in
      let idle =
        tally-idle py campaign.contract attempts (empty_tally py) w.totals
          (attempts-named py campaign.id runs named) w.counted in
      let live = any-attempts py run_is_live campaign.id runs in ground (arith, kept, idle, live)

  MayDispatch-allows :
      (runs : List Run) (p : Projection) (m : Bool)
      → matches_given py campaign.contract given ≡ ok m
      → is_idle p.active_run_id ≡ not (any (λ r. belongs_to py campaign.id r && run_is_live r) runs)
      → MayDispatch py campaign given clock p runs
      → allows m p ≡ true
  MayDispatch-allows runs p m compared idle d =
      let matched : m ≡ true =
        ok_injective (sym compared ∙ given-matches d.session d.session_given ∙ d.session_matches) in
      let active = (str_eq_iff (stored_status_of campaign) "active").1 d.active in
      let fits : session_fits given m ≡ true =
        rw (d.session_given, matched, d.session_ready) refl in
      ground (arith, d.unfinished, active, d.current, idle, d.idle, d.new_day, fits)

  eligible_iff :
      (runs : List Run) (p : Projection) (w : IsProjected runs p)
      → any is_unnamed runs ≡ false
      → (p.next.eligible ≡ true) ↔ MayDispatch py campaign given clock p runs
  eligible_iff runs p w named =
      let same = eligible-allows runs p w in
      let idle = projected-idle runs p w named in
      (
        (λ yes.
            let (s, given_eq, matched, ready) =
              session_fits-some given w.matched (ground (arith, same, yes)) in
            record {
              unfinished = ground (arith, same, yes);
              active =
                  (str_eq_iff (stored_status_of campaign) "active").0 (ground (arith, same, yes));
              current = ground (arith, same, yes);
              idle = ground (arith, same, yes, idle);
              new_day = ground (arith, same, yes);
              session = s;
              session_given = given_eq;
              session_matches = sym (given-matches s given_eq) ∙ w.compared ∙ ap ok matched;
              session_ready = ready;
            }),
        (λ d. same ∙ MayDispatch-allows runs p w.matched w.compared idle d),
      )

  projected-IsCovered :
      (runs : List Run) (p : Projection) (w : IsProjected runs p)
      → All
          (IsCovered py campaign.contract p.days)
          (sort_attempts [] (attempts_of py campaign.id runs))
  unfolding projection
  projected-IsCovered runs p w =
      let attempts = sort_attempts [] (attempts_of py campaign.id runs) in
      let shown = ap (λ (q : Projection). q.days) (sym w.made) in
      All-IsCovered py campaign.contract w.totals.valid_days p.days attempts
        (λ day.
          ap (any (has_day day)) shown
          ∙ any-sort_days day [] w.totals.valid_days
          ∙ or_false (any (has_day day) w.totals.valid_days))
        (tally-IsCovered py campaign.contract attempts (empty_tally py) w.totals w.counted)

  -- Of runs that all have an id, a projected campaign calls its next window eligible if and only if fewer
  -- windows are valid than the target, the campaign is stored as active and names the installed
  -- profile, none of the runs that name the campaign is queued or running, today has no valid window
  -- yet, and the session is given, matches the contract and is ready. The day of every attempt that
  -- meets the contract is among the days with a valid window.
  pub eligible-MayDispatch :
      (runs : List Run) (p : Projection)
      → any is_unnamed runs ≡ false
      → project_network_campaign py campaign runs given clock ≡ ok p
      → ((p.next.eligible ≡ true) ↔ MayDispatch py campaign given clock p runs)
        × All
            (IsCovered py campaign.contract p.days)
            (sort_attempts [] (attempts_of py campaign.id runs))
  eligible-MayDispatch runs p named e =
      let w = project-IsProjected runs p e in
      (eligible_iff runs p w named, projected-IsCovered runs p w)
