-- ===== src/Runner/Progress.antt =====
-- The reports of a run.
use cloud_mark.Prelude.{
  ℕ, zero, suc, Bool, true, false, Option, List, [], ◌∷◌, ◌++◌, String, if◌then◌else◌, ◌≤◌, min,
  pos, pos_part, min_one, div_ℕ, IsUnitInterval, All, All-append, ◌≡◌, refl, arith, inl, inr,
}
use cloud_mark.Python.{Value, Result-cases, Platform}
use cloud_mark.Store.Runs.{ProgressReport}
use cloud_mark.Runner.{
  JobContext, new_context, checkpoint, report, report_of, complete_step, JobCall, reports_phase,
  completes_step, job_step, run_job,
}

abbrev steps_of : ProgressReport → ℕ
steps_of r = pos_part r.completed_steps

-- No report counts fewer steps than an earlier one.
abbrev pub Ascending : List ProgressReport → Type 0
Ascending [] = Unit
Ascending (r ∷ rs) = All (λ s. steps_of r ≤ steps_of s) rs × Ascending rs

-- The report of a context that has this many steps in all and at most that many behind it.
pub record IsReport (total completed : ℕ) (r : ProgressReport) : Type 0 where
  pub total_kept : r.total_steps ≡ pos total
  pub within : steps_of r ≤ completed
  pub quotient : r.progress ≡ min_one (div_ℕ (steps_of r) total)
  pub bounded : IsUnitInterval r.progress

pub record IsOrderly (c : JobContext) : Type 0 where
  pub some_steps : 1 ≤ c.total_steps
  pub within : c.completed_steps ≤ c.total_steps
  pub reported : All (IsReport c.total_steps c.completed_steps) c.reports
  pub ascending : Ascending c.reports

Ascending-append :
    (n : ℕ) (rs : List ProgressReport) (r : ProgressReport)
    → n ≤ steps_of r
    → All (λ s. steps_of s ≤ n) rs
    → Ascending rs
    → Ascending (rs ++ r ∷ [])
Ascending-append n [] r le below w = (tt, tt)
Ascending-append n (x ∷ rs) r le (first, below) (over, w) = (
  All-append (λ s. steps_of x ≤ steps_of s) rs (r ∷ []) over (ground (arith, first, le), tt),
  Ascending-append n rs r le below w,
)

All-map {ℓ κ} :
    {A : Type ℓ} (P Q : A → Type κ) (xs : List A) → ((x : A) → P x → Q x) → All P xs → All Q xs
All-map P Q [] f ps = tt
All-map P Q (x ∷ xs) f (p, ps) = (f x p, All-map P Q xs f ps)

div-IsUnitInterval : (a b : ℕ) → 1 ≤ b → IsUnitInterval (min_one (div_ℕ a b))
div-IsUnitInterval a zero le = ground (arith, le)
div-IsUnitInterval a (suc b) le = ground arith

module _ (py : Platform) (phase : String) (job : Option String) (partial : Option Value) where
  send-IsOrderly :
      (on : Bool) (c : JobContext)
      → IsOrderly c
      → IsOrderly (
          if on
          then record c { reports = c.reports ++ report_of py phase job partial c ∷ [] }
          else c)
  send-IsOrderly false c w = w
  send-IsOrderly true c w = record {
    some_steps = w.some_steps;
    within = w.within;
    reported =
        All-append (IsReport c.total_steps c.completed_steps) c.reports
          (report_of py phase job partial c ∷ []) w.reported
          (
            record {
              total_kept = refl;
              within = omega arith;
              quotient = refl;
              bounded = div-IsUnitInterval c.completed_steps c.total_steps w.some_steps;
            },
            tt,
          );
    ascending =
        Ascending-append c.completed_steps c.reports (report_of py phase job partial c)
          (omega arith)
          (All-map (IsReport c.total_steps c.completed_steps) (λ s. steps_of s ≤ c.completed_steps)
            c.reports (λ s v. v.within) w.reported)
          w.ascending;
  }

  report-IsOrderly :
      (now : ℕ) (cancelled : Bool) (c : JobContext)
      → IsOrderly c
      → IsOrderly (report py now cancelled phase job partial c).0
  unfolding report
  report-IsOrderly now cancelled c w = elim (Result-cases (checkpoint py now cancelled c)) [
    | inl (u, passed) ↦ rw (report, passed) (send-IsOrderly c.on_progress c w)
    | inr (e, stopped) ↦ rw (report, stopped) w
  ]

  complete_step-IsOrderly :
      (now : ℕ) (cancelled : Bool) (c : JobContext)
      → IsOrderly c
      → IsOrderly (complete_step py now cancelled phase job partial c).0
  unfolding complete_step
  complete_step-IsOrderly now cancelled c w =
      report-IsOrderly now cancelled
        (record c { completed_steps = min c.total_steps (suc c.completed_steps) })
        (record {
          some_steps = w.some_steps;
          within = omega arith;
          reported =
              All-map (IsReport c.total_steps c.completed_steps)
                (IsReport c.total_steps (min c.total_steps (suc c.completed_steps))) c.reports
                (λ r v. record {
                  total_kept = v.total_kept;
                  within = omega (arith, v.within, w.within);
                  quotient = v.quotient;
                  bounded = v.bounded;
                })
                w.reported;
          ascending = w.ascending;
        })

module _ (py : Platform) where
  job_step-IsOrderly :
      (call : JobCall) (c : JobContext) → IsOrderly c → IsOrderly (job_step py call c).0
  unfolding job_step
  job_step-IsOrderly (reports_phase now cancelled phase job partial) c w =
      report-IsOrderly py phase job partial now cancelled c w
  job_step-IsOrderly (completes_step now cancelled phase job partial) c w =
      complete_step-IsOrderly py phase job partial now cancelled c w

  from-IsOrderly :
      (calls : List JobCall) (c : JobContext) → IsOrderly c → IsOrderly (run_job py calls c).0
  unfolding run_job
  from-IsOrderly [] c w = w
  from-IsOrderly (call ∷ rest) c w = elim (Result-cases (job_step py call c).1) [
    | inl (u, went_on) ↦
        rw (run_job, went_on)
          (from-IsOrderly rest (job_step py call c).0 (job_step-IsOrderly call c w))
    | inr (e, stopped) ↦ rw (run_job, stopped) (job_step-IsOrderly call c w)
  ]

  -- Whatever a benchmark does with its context, and wherever it is stopped, the completed steps stay
  -- within the total, every report sent carries their quotient, which lies in the unit interval,
  -- and no report counts fewer steps than one before it.
  pub run_job-IsOrderly :
      (run_id : String) (total_steps timeout_seconds : ℕ) (on_progress : Bool) (now : ℕ)
      (calls : List JobCall)
      → IsOrderly
          (run_job py calls (new_context run_id total_steps timeout_seconds on_progress now)).0
  unfolding new_context
  run_job-IsOrderly run_id total_steps timeout_seconds on_progress now calls =
      from-IsOrderly calls (new_context run_id total_steps timeout_seconds on_progress now)
        (record { some_steps = omega arith; within = omega arith; reported = tt; ascending = tt })
