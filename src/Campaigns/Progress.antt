-- ===== src/Campaigns/Progress.antt =====
-- The counts and the days of a projected campaign.
use cloud_mark.Prelude.{
  ℕ, suc, Bool, true, false, not, Option, List, [], String, str_eq, str_eq_iff, str_eq_refl,
  if◌then◌else◌, ◌&&◌, leb, ◌≤◌, ◌-◌, length, ◌≡◌, refl, arith, inl, inr, ◌↔◌, Bool-cases, All,
  Distinct, subst,
}
use cloud_mark.Python.{ok, Platform}
use cloud_mark.Store.Schema.{Run, Campaign}
use cloud_mark.Store.Pairing.{SessionView}
use cloud_mark.Campaigns.Projection.{
  Projection, facts, projection, project_network_campaign, Clock, effective_status, target_of,
  stored_status_of, profile_is_current,
}
use cloud_mark.Campaigns.Tally.{empty_tally, sort_attempts, attempts_of}
use cloud_mark.Campaigns.Days.{day_of, All-sort_days, sort_days-Distinct, length-sort_days}
use cloud_mark.Campaigns.Dispatch.{project-IsProjected}
use cloud_mark.Campaigns.Windows.{IsTally, IsCounted, tally-IsTally}

-- The days that a projection shows: as many as it counts, distinct, and each backed by an attempt of
-- the campaign that meets the contract.
pub record IsBackedByDays (py : Platform) (campaign : Campaign) (runs : List Run) (p : Projection)
    : Type 0 where
  pub as_many : p.valid_windows ≡ length p.days
  pub distinct : Distinct day_of p.days
  pub counted :
      All
        (IsCounted py campaign.contract (sort_attempts [] (attempts_of py campaign.id runs)))
        p.days

-- The counts of a projection agree with each other and with its status.
pub record IsProgress (campaign : Campaign) (p : Projection) : Type 0 where
  pub target : p.target_windows ≡ target_of campaign
  pub remaining : p.remaining_windows ≡ p.target_windows - p.valid_windows
  pub numbered : p.window_number ≤ p.target_windows
  pub next_attempt : p.attempt_number ≡ suc p.attempts
  pub done : (p.complete ≡ true) ↔ (p.target_windows ≤ p.valid_windows)
  pub done_status : (p.complete ≡ true) ↔ (p.status ≡ "completed")

superseded_or :
    (stored : String) (b : Bool)
    → str_eq stored "completed" ≡ false
    → str_eq (if b then "superseded" else stored) "completed" ≡ false
unfolding str_eq
superseded_or stored true e = refl
superseded_or stored false e = e

status_complete :
    (valid target : ℕ) (stored : String) (current : Bool)
    → str_eq stored "completed" ≡ false
    → str_eq (effective_status valid target stored current) "completed" ≡ leb target valid
unfolding effective_status
status_complete valid target stored current e = elim (Bool-cases (leb target valid)) [
  | inl reached ↦ rw reached (str_eq_refl "completed")
  | inr below ↦ rw below (superseded_or stored (str_eq stored "active" && not current) e)
]

module _ (py : Platform) (campaign : Campaign) (runs : List Run) (given : Option SessionView)
    (clock : Clock) where
  -- A projected campaign counts as many valid windows as it shows days; the days are distinct, and each
  -- is the day of a completed and confirmed attempt of the campaign, made for its contract, whose
  -- result has the contract's versions, names no other session and is eligible for comparison.
  pub project-IsBackedByDays :
      (p : Projection)
      → project_network_campaign py campaign runs given clock ≡ ok p
      → IsBackedByDays py campaign runs p
  unfolding projection
  project-IsBackedByDays p e =
      let w = project-IsProjected py campaign given clock runs p e in
      let attempts = sort_attempts [] (attempts_of py campaign.id runs) in
      let start : IsTally py campaign.contract attempts (empty_tally py) = record {
        distinct = tt;
        counted = tt;
      } in
      let t =
        tally-IsTally py campaign.contract attempts attempts (empty_tally py) w.totals (λ r m. m)
          w.counted start in
      let many = length-sort_days [] w.totals.valid_days in
      subst (IsBackedByDays py campaign runs) w.made (record {
        as_many = omega (arith, many);
        distinct = sort_days-Distinct w.totals.valid_days t.distinct;
        counted =
            All-sort_days (IsCounted py campaign.contract attempts) [] w.totals.valid_days tt
              t.counted;
      })

  -- In the projection of a campaign that is not stored as completed, what remains is the target less
  -- the valid windows, the next window's number stays within the target, and the campaign is complete if
  -- and only if the valid windows have reached the target, which is also when its status says so.
  pub project-IsProgress :
      (p : Projection)
      → str_eq (stored_status_of campaign) "completed" ≡ false
      → project_network_campaign py campaign runs given clock ≡ ok p
      → IsProgress campaign p
  unfolding projection facts
  project-IsProgress p stored e =
      let w = project-IsProjected py campaign given clock runs p e in
      let valid = length w.totals.valid_days in
      let current = profile_is_current py campaign.contract in
      let reached =
        status_complete valid (target_of campaign) (stored_status_of campaign) current stored in
      let status =
        effective_status valid (target_of campaign) (stored_status_of campaign) current in
      subst (IsProgress campaign) w.made (record {
        target = refl;
        remaining = refl;
        numbered = ground arith;
        next_attempt = refl;
        done = ((λ c. ground (arith, reached, c)), λ le. ground (arith, reached, le));
        done_status = str_eq_iff status "completed";
      })
