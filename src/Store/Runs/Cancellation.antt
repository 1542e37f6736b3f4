-- ===== src/Store/Runs/Cancellation.antt =====
-- The cancellation flag of a run.
use cloud_mark.Prelude.{
  ℕ, Bool, false, Option, none, some, String, ◌≡◌, refl, arith, inl, inr, Option-cases, select_one,
  select_one-update, str_eq_iff, ◌||◌, Distinct, row_count-key, row_count-key_none, update-none,
  select_one-key,
}
use cloud_mark.Store.Schema.{is_active, Run, Database}
use cloud_mark.Store.Runs.{
  has_run_id, get_run, request_cancel, is_cancel_requested, active_run, cancel_marked, cancel_flag,
}

-- A run in that state can still be cancelled.
abbrev pub cancellable : Option Run → Bool
cancellable none = false
cancellable (some r) = is_active r.status

-- With run ids distinct, a cancellation request is accepted exactly when the run exists and is queued or
-- running; then the flag is set, and otherwise it is what it was.
pub request_cancel_lem :
    (now : ℕ) (run_id : String) (db : Database)
    → Distinct (λ r. r.id) db.runs
    → ((request_cancel now run_id db).1 ≡ cancellable (get_run db run_id))
      × (is_cancel_requested (request_cancel now run_id db).0 run_id
          ≡ (cancellable (get_run db run_id) || is_cancel_requested db run_id))
unfolding request_cancel is_cancel_requested get_run cancel_flag
request_cancel_lem now run_id db d = elim (Option-cases (select_one (has_run_id run_id) db.runs)) [
  | inl e ↦
      let counted = row_count-key_none (λ r. r.id) run_id (λ r. is_active r.status) db.runs e in
      (rw (counted, e), rw (update-none (active_run run_id) (cancel_marked now) db.runs counted, e))
  | inr (r, e) ↦
      let counted = row_count-key (λ r. r.id) run_id (λ r. is_active r.status) db.runs r d e in
      let after =
        select_one-update (has_run_id run_id) (active_run run_id) (cancel_marked now) db.runs r
          (λ y. refl) e in
      let at_id = select_one-key (λ r. r.id) run_id db.runs r e in
      (
        rw (counted, e) (ground arith),
        rw (after, e) (ground (arith, at_id, str_eq_iff r.id run_id)),
      )
]
