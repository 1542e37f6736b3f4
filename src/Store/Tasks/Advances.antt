-- ===== src/Store/Tasks/Advances.antt =====
-- The later states of a task's row.
use cloud_mark.Prelude.{
  ℕ, Bool, true, false, Option, some, List, ◌++◌, String, ◌≡◌, refl, arith, inl, inr, Bool-cases,
  select_one, update, written, select_one-update, select_one-append,
}
use cloud_mark.Python.{Value}
use cloud_mark.Store.Schema.{
  Status, queued, running, completed, failed, cancelled, other, is_active, is_terminal, Task,
}
use cloud_mark.Store.Runs.{ProgressReport, task_is_active, interrupted_task}
use cloud_mark.Store.Tasks.{
  has_id, queued_id, claimed, running_of, finished, progressed_task, active_id, aborted,
  queued_of_run, cancelled_early,
}

-- The edges of the life of a task that is not over yet.
abbrev pub can_move : Status → Status → Bool
can_move queued queued = true
can_move queued running = true
can_move queued cancelled = true
can_move running running = true
can_move running completed = true
can_move running failed = true
can_move running cancelled = true
can_move _ _ = false

-- A later state of the same task.
pub record Advances (t u : Task) : Type 0 where
  pub same_id : u.id ≡ t.id
  pub same_run : u.run_id ≡ t.run_id
  pub same_session : u.session_id ≡ t.session_id
  pub same_agent : u.agent_id ≡ t.agent_id
  pub same_kind : u.kind ≡ t.kind
  pub same_payload : u.payload ≡ t.payload
  pub same_creation : u.created_at ≡ t.created_at
  pub moves : is_active t.status ≡ true → can_move t.status u.status ≡ true
  pub frozen : is_active t.status ≡ false → u ≡ t

Advances-refl : (t : Task) → Advances t t
Advances-refl t = record {
  same_id = refl;
  same_run = refl;
  same_session = refl;
  same_agent = refl;
  same_kind = refl;
  same_payload = refl;
  same_creation = refl;
  moves = stays t.status;
  frozen = λ _. refl;
}
  where
    stays : (s : Status) → is_active s ≡ true → can_move s s ≡ true
    stays queued h = refl
    stays running h = refl
    stays completed h = cc
    stays failed h = cc
    stays cancelled h = cc
    stays (other x) h = cc

-- Every row of the first table has a later state in the second.
abbrev pub Keeps : List Task → List Task → Type 0
Keeps xs ys =
    (task_id : String) (t : Task)
    → select_one (has_id task_id) xs ≡ some t
    → (u : Task) × (select_one (has_id task_id) ys ≡ some u) × Advances t u

pub Keeps-refl : (xs : List Task) → Keeps xs xs
Keeps-refl xs task_id t e = (t, e, Advances-refl t)

pub Keeps-append : (xs ys : List Task) → Keeps xs (xs ++ ys)
Keeps-append xs ys task_id t e = (t, select_one-append (has_id task_id) xs ys t e, Advances-refl t)

pub Keeps-update :
    (test : Task → Bool) (write : Task → Task) (xs : List Task)
    → ((t : Task) → (write t).id ≡ t.id)
    → ((t : Task) → test t ≡ true → Advances t (write t))
    → Keeps xs (update test write xs)
Keeps-update test write xs keeps h task_id t e = (
  written test write t,
  select_one-update (has_id task_id) test write xs t (λ y. rw keeps) e,
  elim (Bool-cases (test t)) [ inl hit ↦ rw hit (h t hit) | inr miss ↦ rw miss (Advances-refl t) ],
)

pub claimed-Advances :
    (now : ℕ) (task_id : String) (t : Task)
    → queued_id task_id t ≡ true
    → Advances t (claimed now t)
claimed-Advances now task_id t h = ground arith

pub finished-Advances :
    (now : ℕ) (task_id agent_id : String) (s : Status) (result : Option Value)
    (error : Option String) (t : Task)
    → is_terminal s ≡ true
    → running_of task_id agent_id t ≡ true
    → Advances t (finished now s result error t)
finished-Advances now task_id agent_id s result error t terminal h = ground arith

pub progressed_task-Advances :
    (now : ℕ) (task_id agent_id : String) (p : ProgressReport) (t : Task)
    → running_of task_id agent_id t ≡ true
    → Advances t (progressed_task now p t)
progressed_task-Advances now task_id agent_id p t h = ground arith

pub aborted-Advances :
    (now : ℕ) (task_id error : String) (t : Task)
    → active_id task_id t ≡ true
    → Advances t (aborted now error t)
aborted-Advances now task_id error t h = ground arith

pub cancelled_early-Advances :
    (now : ℕ) (run_id : String) (t : Task)
    → queued_of_run run_id t ≡ true
    → Advances t (cancelled_early now t)
cancelled_early-Advances now run_id t h = ground arith

pub interrupted_task-Advances :
    (now : ℕ) (t : Task) → task_is_active t ≡ true → Advances t (interrupted_task now t)
interrupted_task-Advances now t h = ground arith
