-- ===== src/Store/Tasks/WellFormed.antt =====
-- The invariant of the tasks and their secrets, operation by operation.
use cloud_mark.Prelude.{
  ℕ, Bool, Option, none, some, List, [], ◌∷◌, ◌++◌, String, ◌≡◌, refl, arith, inl, inr, Bool-cases,
  select_one, update, row_count, All, All-update, All-append, Distinct, Distinct-append,
  Distinct-update, update-key_missed, select_one-append_none, ◌==◌, ◌&&◌, IsUnitInterval,
  clamp_unit-IsUnitInterval, str_eq, str_eq_refl,
}
use cloud_mark.Python.{Value, Fields, Result-cases}
use cloud_mark.Store.Schema.{
  Status, is_terminal, is_running, is_active, Task, Database, Secret, empty,
}
use cloud_mark.Store.Runs.{
  ProgressReport, recover_incomplete_runs, task_is_active, interrupted_task,
}
use cloud_mark.Store.Tasks.{
  has_id, get_agent_task, create_agent_task, claim_row, finish_agent_task,
  update_agent_task_progress, abort_agent_task, cancel_queued_run_tasks, queued_id, claimed,
  running_of, finished, progressed_task, active_id, aborted, queued_of_run, cancelled_early,
  insertable, keep_secret, new_task,
}
use cloud_mark.Store.Secrets.{check_secret, remove_secret}
use cloud_mark.Store.Tasks.Secrets.{
  IsHeld, NoneStale, NoneStale-append, NoneStale-update, NoneStale-update-remove, NoneStale-set,
  NoneStale-update-remove_secrets, NoneStale-remove,
}
use cloud_mark.Store.Tasks.Calls.{or_unchanged, first_or_unchanged}

-- The primary key holds, every stored progress lies in the unit interval, and every secret in memory
-- belongs to a task that is queued or running.
pub record IsWellFormed (db : Database) : Type 0 where
  pub distinct : Distinct (λ t. t.id) db.tasks
  pub bounded : All (λ t. IsUnitInterval t.progress) db.tasks
  pub current : NoneStale db.tasks db.secrets

pub empty-IsWellFormed : IsWellFormed empty
empty-IsWellFormed = record { distinct = tt; bounded = tt; current = tt }

-- The table after one UPDATE, with the secrets given anew.
updated-IsWellFormed :
    (test : Task → Bool) (write : Task → Task) (secrets : List (String × Secret)) (db : Database)
    → ((t : Task) → (write t).id ≡ t.id)
    → ((t : Task) → IsUnitInterval t.progress → IsUnitInterval (write t).progress)
    → NoneStale (update test write db.tasks) secrets
    → IsWellFormed db
    → IsWellFormed (record db { tasks = update test write db.tasks; secrets = secrets })
updated-IsWellFormed test write secrets db keeps bounds current w = record {
  distinct = Distinct-update (λ t. t.id) test write db.tasks keeps w.distinct;
  bounded = All-update test write db.tasks (λ t b _. bounds t b) w.bounded;
  current = current;
}

module _ (db : Database) (w : IsWellFormed db) where
  pub create-IsWellFormed :
      (now : ℕ) (task_id run_id session_id agent_id kind : String) (payload : Fields)
      (secret : Option Secret)
      → IsWellFormed (
          or_unchanged db
            (create_agent_task now task_id run_id session_id agent_id kind payload secret db))
  unfolding create_agent_task insertable get_agent_task
  create-IsWellFormed now task_id run_id session_id agent_id kind payload secret =
      elim (Result-cases (check_secret secret)) [
        | inr (e, refused) ↦ rw (refused, create_agent_task) w
        | inl (_, accepted) ↦ elim (Bool-cases (insertable task_id run_id session_id agent_id db)) [
          | inl fits ↦
              rw (accepted, fits, create_agent_task) (inserted secret (ground (arith, fits)))
          | inr clash ↦ rw (accepted, clash, create_agent_task) w
        ]
      ]
    where
      task : Task
      task = new_task now task_id run_id session_id agent_id kind payload

      held : select_one (has_id task_id) db.tasks ≡ none → IsHeld (db.tasks ++ task ∷ []) task_id
      held out = record {
        task = task;
        found = rw (select_one-append_none (has_id task_id) db.tasks task out, str_eq_refl task_id);
        active = refl;
      }

      inserted :
          (s : Option Secret)
          → select_one (has_id task_id) db.tasks ≡ none
          → IsWellFormed (record db {
            tasks = db.tasks ++ task ∷ [];
            secrets = keep_secret task_id s db.secrets;
          })
      inserted s out = record {
        distinct = Distinct-append (λ t. t.id) db.tasks task out w.distinct;
        bounded =
            All-append (λ t. IsUnitInterval t.progress) db.tasks (task ∷ []) w.bounded
              ((refl, refl), tt);
        current = keep s;
      }
        where
          after : NoneStale (db.tasks ++ task ∷ []) db.secrets
          after = NoneStale-append db.tasks (task ∷ []) db.secrets w.current

          keep :
              (o : Option Secret)
              → NoneStale (db.tasks ++ task ∷ []) (keep_secret task_id o db.secrets)
          keep none = after
          keep (some x) = NoneStale-set task_id x _ db.secrets (held out) after

  pub claim_row-IsWellFormed : (now : ℕ) (o : Option Task) → IsWellFormed (claim_row now db o).0
  unfolding claim_row
  claim_row-IsWellFormed now none = w
  claim_row-IsWellFormed now (some row) =
      let after =
        updated-IsWellFormed (queued_id row.id) (claimed now) db.secrets db (λ t. refl) (λ t b. b)
          (NoneStale-update (queued_id row.id) (claimed now) db.tasks db.secrets (λ t. refl)
            (λ t _. refl) w.current)
          w in
      ground (arith, after)

  pub report-IsWellFormed :
      (now : ℕ) (task_id agent_id : String) (p : ProgressReport)
      → IsWellFormed (update_agent_task_progress now task_id agent_id p db).0
  unfolding update_agent_task_progress
  report-IsWellFormed now task_id agent_id p =
      let after =
        updated-IsWellFormed (running_of task_id agent_id) (progressed_task now p) db.secrets db
          (λ t. refl) (λ t b. clamp_unit-IsUnitInterval p.progress)
          (NoneStale-update (running_of task_id agent_id) (progressed_task now p) db.tasks
            db.secrets (λ t. refl) (λ t h. ground arith) w.current)
          w in
      ground (arith, after)

  pub cancel-IsWellFormed :
      (now : ℕ) (run_id : String) → IsWellFormed (cancel_queued_run_tasks now run_id db).0
  unfolding cancel_queued_run_tasks
  cancel-IsWellFormed now run_id =
      updated-IsWellFormed (queued_of_run run_id) (cancelled_early now) _ db (λ t. refl) (λ t b. b)
        (NoneStale-update-remove_secrets (queued_of_run run_id) (cancelled_early now) db.tasks
          db.secrets (λ t. refl) w.current)
        w

  pub recover-IsWellFormed : (now : ℕ) → IsWellFormed (recover_incomplete_runs now db).0
  unfolding recover_incomplete_runs
  recover-IsWellFormed now = record {
    distinct =
        Distinct-update (λ t. t.id) task_is_active (interrupted_task now) db.tasks (λ t. refl)
          w.distinct;
    bounded = All-update task_is_active (interrupted_task now) db.tasks (λ t b _. b) w.bounded;
    current = tt;
  }

  pub abort-IsWellFormed :
      (now : ℕ) (task_id error : String) → IsWellFormed (abort_agent_task now task_id error db).0
  unfolding abort_agent_task
  abort-IsWellFormed now task_id error =
      elim (Bool-cases (row_count (active_id task_id) db.tasks == 1)) [
        | inl hit ↦
            rw (hit, abort_agent_task)
              (updated-IsWellFormed (active_id task_id) (aborted now error)
                (remove_secret task_id db.secrets) db (λ t. refl) (λ t b. b)
                (NoneStale-update-remove task_id (active_id task_id) (aborted now error) db.tasks
                  db.secrets (λ t. refl) (λ t h. ground arith) w.current)
                w)
        | inr missed ↦
            rw
              (
                missed,
                abort_agent_task,
                update-key_missed (λ t. t.id) task_id (λ t. is_active t.status) (aborted now error)
                    db.tasks w.distinct missed,
              )
              w
      ]

  dropped-IsWellFormed :
      (task_id : String) → IsWellFormed (record db { secrets = remove_secret task_id db.secrets })
  dropped-IsWellFormed task_id = record {
    distinct = w.distinct;
    bounded = w.bounded;
    current = NoneStale-remove task_id db.tasks db.secrets w.current;
  }

  pub finish-IsWellFormed :
      (now : ℕ) (task_id agent_id : String) (s : Status) (result : Option Value)
      (error : Option String)
      → IsWellFormed
          (first_or_unchanged db (finish_agent_task now task_id agent_id s result error db))
  unfolding finish_agent_task
  finish-IsWellFormed now task_id agent_id s result error =
      let test = running_of task_id agent_id in
      let write = finished now s result error in
      let after =
        updated-IsWellFormed test write (remove_secret task_id db.secrets) db (λ t. refl) (λ t b. b)
          (NoneStale-update-remove task_id test write db.tasks db.secrets (λ t. refl)
            (λ t h. ground arith) w.current)
          w in
      elim (Bool-cases (is_terminal s)) [
        | inr invalid ↦ rw (invalid, finish_agent_task) w
        | inl terminal ↦ elim (Bool-cases (row_count test db.tasks == 1)) [
          | inl hit ↦ rw (terminal, hit, finish_agent_task) after
          | inr missed ↦
              rw
                (
                  terminal,
                  missed,
                  finish_agent_task,
                  update-key_missed (λ t. t.id) task_id
                      (λ t. str_eq t.agent_id agent_id && is_running t.status) write db.tasks
                      w.distinct missed,
                )
                (ground (arith, w, dropped-IsWellFormed task_id))
        ]
      ]
