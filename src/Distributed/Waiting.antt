-- ===== src/Distributed/Waiting.antt =====
-- cloudmark/distributed.py: `wait_task`.
use Prim.Native.String.{◌++◌ as ◌++ₛ◌}
use cloud_mark.Prelude.{
  some_injective, ℕ, Bool, true, false, Option, none, some, List, [], ◌∷◌, String, if◌then◌else◌,
  ltb, ◌-◌, ◌*◌, pos, any, is_some, ◌≡◌, refl, subst, arith, ◌⊎◌, inl, inr, Bool-cases,
  Option-cases, ap, ◌∙◌,
}
use cloud_mark.Python.{
  ok_injective, int, Result, ok, raise, distributed_error, Platform, Result-cases,
}
use cloud_mark.Store.Schema.{
  Task, Database, Status, is_completed, queued, running, completed, failed, cancelled, other,
}
use cloud_mark.Store.Tasks.{get_agent_task}
use cloud_mark.Store.Tasks.Calls.{Call, run_calls}
use cloud_mark.Runner.{JobContext, checkpoint}
use cloud_mark.Remote.Dispatching.{text_or_default}

abbrev status_word : Status → String
status_word queued = "queued"
status_word running = "running"
status_word completed = "completed"
status_word failed = "failed"
status_word cancelled = "cancelled"
status_word (other s) = s

-- status in {"failed", "cancelled"}
abbrev is_unsuccessful : Status → Bool
is_unsuccessful failed = true
is_unsuccessful cancelled = true
is_unsuccessful _ = false

-- One iteration: what others do with the store before it, the clock and the cancellation token.
pub record Turn : Type 0 where
  pub before : List (ℕ × Call)
  pub monotonic : ℕ
  pub cancelled : Bool

module _ (py : Platform) where
  unfoldable pub check_context : Option JobContext → Turn → Result (Unit {0})
  unfolding checkpoint
  check_context none turn = ok tt
  check_context (some c) turn = checkpoint py turn.monotonic turn.cancelled c

  -- The verdict on a task that is there: `none` to go on waiting.
  unfoldable pub judge :
      (task_id : String) (late : Bool) (timeout_seconds : ℕ) → Task → Option (Result Task)
  judge task_id late timeout_seconds t =
      if is_completed t.status
      then some (ok t)
      else if is_unsuccessful t.status
      then some (
          raise (
            distributed_error (
              text_or_default t.error
                ("Distributed task " ++ₛ task_id ++ₛ " " ++ₛ status_word t.status ++ₛ "."))))
      else if late
      then some (
          raise (
            distributed_error (
              "Agent did not complete "
              ++ₛ t.kind
              ++ₛ " within "
              ++ₛ py.repr (int (pos timeout_seconds))
              ++ₛ " seconds.")))
      else none

  abbrev pub is_late : (started timeout_seconds : ℕ) → Turn → Bool
  is_late started timeout_seconds turn =
      ltb (timeout_seconds * 1_000_000) (turn.monotonic - started)

  unfoldable pub take_turn :
      Turn
      → (task_id : String) (started timeout_seconds : ℕ) → Option JobContext
      → Database
      → Option (Result Task)
  unfolding check_context get_agent_task judge
  take_turn turn task_id started timeout_seconds context db = elim (check_context context turn) [
    | raise e ↦ some (raise e)
    | ok _ ↦ elim (get_agent_task db task_id) [
      | none ↦
          some (raise (distributed_error ("Distributed task " ++ₛ task_id ++ₛ " disappeared.")))
      | some t ↦ judge task_id (is_late started timeout_seconds turn) timeout_seconds t
    ]
  ]

  unfoldable pub end_turn :
      Database
      → Option (Database × Result Task)
      → Option (Result Task)
      → Option (Database × Result Task)
  end_turn db rest none = rest
  end_turn db rest (some r) = some (db, r)

  -- The loop, on a schedule of its iterations: `none` if the schedule ends while it still waits.
  unfoldable pub wait_task :
      List Turn
      → (task_id : String) (started timeout_seconds : ℕ) → Option JobContext
      → Database
      → Option (Database × Result Task)
  unfolding run_calls take_turn end_turn
  wait_task [] task_id started timeout_seconds context db = none
  wait_task (turn ∷ turns) task_id started timeout_seconds context db =
      let seen = run_calls py.repr turn.before db in
      let rest = wait_task turns task_id started timeout_seconds context seen in
      end_turn seen rest (take_turn turn task_id started timeout_seconds context seen)

-- The store holds the task, and it is completed.
abbrev pub IsDelivered : String → Database → Result Task → Type 0
IsDelivered task_id db (ok t) =
    (get_agent_task db task_id ≡ some t) × (is_completed t.status ≡ true)
IsDelivered task_id db (raise e) = Unit

module _ (py : Platform) (task_id : String) (started timeout_seconds : ℕ)
    (context : Option JobContext) where
  judge-ends : (t : Task) → is_some (judge py task_id true timeout_seconds t) ≡ true
  unfolding judge
  judge-ends t = ground arith

  take_turn-ends :
      (turn : Turn) (db : Database)
      → is_late py started timeout_seconds turn ≡ true
      → is_some (take_turn py turn task_id started timeout_seconds context db) ≡ true
  unfolding take_turn
  take_turn-ends turn db late = elim (Result-cases (check_context py context turn)) [
    | inr (e, stopped) ↦ rw (take_turn, stopped) refl
    | inl (u, passed) ↦ elim (Option-cases (get_agent_task db task_id)) [
      | inl gone ↦ rw (take_turn, passed, gone) refl
      | inr (t, found) ↦ rw (take_turn, passed, found, late) (judge-ends t)
    ]
  ]

  end_turn-ends :
      (db : Database) (rest : Option (Database × Result Task)) (o : Option (Result Task))
      → (is_some o ≡ true) ⊎ (is_some rest ≡ true)
      → is_some (end_turn py db rest o) ≡ true
  unfolding end_turn
  end_turn-ends db rest none (inl e) = let never : ⊥ = cc in absurd never
  end_turn-ends db rest none (inr e) = e
  end_turn-ends db rest (some r) e = refl

  -- The wait for a task ends at the first iteration that finds its time over, if not before, with or
  -- without the context of a run.
  pub wait_task-ends :
      (turns : List Turn) (db : Database)
      → any (is_late py started timeout_seconds) turns ≡ true
      → is_some (wait_task py turns task_id started timeout_seconds context db) ≡ true
  unfolding wait_task
  wait_task-ends [] db e = cc
  wait_task-ends (turn ∷ turns) db e =
      let seen = run_calls py.repr turn.before db in
      elim (Bool-cases (is_late py started timeout_seconds turn)) [
        | inl late ↦ end_turn-ends seen _ _ (inl (take_turn-ends turn seen late))
        | inr early ↦
            end_turn-ends seen _ _ (inr (wait_task-ends turns seen (ground (arith, e, early))))
      ]

  judge-delivers :
      (late : Bool) (v t : Task)
      → judge py task_id late timeout_seconds v ≡ some (ok t)
      → (v ≡ t) × (is_completed v.status ≡ true)
  unfolding judge
  judge-delivers late v t h = elim (Bool-cases (is_completed v.status)) [
    | inl over ↦ (ok_injective (some_injective (rw over at h)), over)
    | inr open_still ↦ let never : ⊥ = ground (arith, h, open_still) in absurd never
  ]

  take_turn-IsDelivered :
      (turn : Turn) (db : Database) (r : Result Task)
      → take_turn py turn task_id started timeout_seconds context db ≡ some r
      → IsDelivered task_id db r
  unfolding take_turn
  take_turn-IsDelivered turn db (raise e) h = tt
  take_turn-IsDelivered turn db (ok t) h = elim (Result-cases (check_context py context turn)) [
    | inr (e, stopped) ↦ let never : ⊥ = ground (arith, h, stopped) in absurd never
    | inl (u, passed) ↦ elim (Option-cases (get_agent_task db task_id)) [
      | inl gone ↦ let never : ⊥ = ground (arith, h, passed, gone) in absurd never
      | inr (v, found) ↦
          let judged : judge py task_id (is_late py started timeout_seconds turn) timeout_seconds v
              ≡ some (ok t) =
            ground (arith, h, passed, found) in
          let (same, over) = judge-delivers (is_late py started timeout_seconds turn) v t judged in
          (found ∙ ap some same, rw same at over)
    ]
  ]

  end_turn-IsDelivered :
      (db after : Database) (rest : Option (Database × Result Task)) (o : Option (Result Task))
      (r : Result Task)
      → ((q : Result Task) → o ≡ some q → IsDelivered task_id db q)
      → (rest ≡ some (after, r) → IsDelivered task_id after r)
      → end_turn py db rest o ≡ some (after, r)
      → IsDelivered task_id after r
  unfolding end_turn
  end_turn-IsDelivered db after rest none r here later h = later h
  end_turn-IsDelivered db after rest (some q) r here later h =
      subst (λ p. IsDelivered task_id p.0 p.1) (some_injective h) (here q refl)

  -- What the wait returns is the task as the store then holds it, and it is completed.
  pub wait_task-IsDelivered :
      (turns : List Turn) (db after : Database) (r : Result Task)
      → wait_task py turns task_id started timeout_seconds context db ≡ some (after, r)
      → IsDelivered task_id after r
  unfolding wait_task
  wait_task-IsDelivered [] db after r h = let never : ⊥ = cc in absurd never
  wait_task-IsDelivered (turn ∷ turns) db after r h =
      let seen = run_calls py.repr turn.before db in
      end_turn-IsDelivered seen after _ _ r (take_turn-IsDelivered turn seen)
        (wait_task-IsDelivered turns seen after r) h
