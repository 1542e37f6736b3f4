-- ===== src/Remote/Ordering.antt =====
-- cloudmark/remote.py: whom the task of a dispatched benchmark is created for.
use cloud_mark.Prelude.{
  str_eq_refl, select_one, select_one-append_none, ◌++◌, some_injective, [], ◌∷◌, ℕ, true, Option,
  none, some, List, String, ◌≡◌, refl, subst, ◌∙◌, ap, Option-cases, Bool-cases, arith, inl, inr,
}
use cloud_mark.Python.{raise, Fields, Result-cases, Exception, Result, ok, ok_injective, Platform}
use cloud_mark.Store.Schema.{Secret, Agent, Task, Database}
use Prim.Native.String.{◌++◌ as ◌++ₛ◌}
use cloud_mark.Store.Tasks.{
  get_agent_task, has_active_agent_task, create_agent_task, insertable, new_task, keep_secret,
  has_id,
}
use cloud_mark.Store.Secrets.{check_secret}
use cloud_mark.Store.Tasks.Calls.{Call, step, run_calls}
use cloud_mark.Store.Tasks.Lifecycle.{step-Advances}
use cloud_mark.Runner.{JobContext}
use cloud_mark.Remote.Dispatching.{
  task_payload, settle, wait_remote, wait_created, Poll, stop_task, run_remote_benchmark,
}

-- The store holds the task, as it was created for a run and an Agent.
abbrev pub IsFor : (task_id run_id agent_id kind : String) → Fields → Database → Type 0
IsFor task_id run_id agent_id kind payload db =
    (t : Task) × (get_agent_task db task_id ≡ some t)
    × (t.run_id ≡ run_id)
    × (t.agent_id ≡ agent_id)
    × (t.kind ≡ kind)
    × (t.payload ≡ payload)

module _ (py : Platform) (task_id run_id agent_id kind : String) (request : Fields) where
  abbrev Held : Database → Type 0
  Held db = IsFor task_id run_id agent_id kind request db

  run_calls-IsFor :
      (cs : List (ℕ × Call)) (db : Database) → Held db → Held (run_calls py.repr cs db)
  unfolding run_calls
  run_calls-IsFor [] db h = h
  run_calls-IsFor (c ∷ cs) db (t, found, run, owner, same_kind, sent) =
      let (u, kept, advances) = step-Advances py.repr c db task_id t found in
      run_calls-IsFor cs (step py.repr c db) (
        u,
        kept,
        advances.same_run ∙ run,
        advances.same_agent ∙ owner,
        advances.same_kind ∙ same_kind,
        advances.same_payload ∙ sent,
      )

  inserted-IsFor :
      (now : ℕ) (session_id : String) (secret : Option Secret) (db : Database)
      → insertable task_id run_id session_id agent_id db ≡ true
      → Held (record db {
        tasks = db.tasks ++ new_task now task_id run_id session_id agent_id kind request ∷ [];
        secrets = keep_secret task_id secret db.secrets;
      })
  unfolding insertable get_agent_task
  inserted-IsFor now session_id secret db fits =
      let new : select_one (has_id task_id) db.tasks ≡ none =
        elim (Option-cases (select_one (has_id task_id) db.tasks)) [
          | inl missing ↦ missing
          | inr (t, there) ↦ let never : ⊥ = ground (arith, rw there at fits) in absurd never
        ] in
      (
        new_task now task_id run_id session_id agent_id kind request,
        select_one-append_none (has_id task_id) db.tasks _ new ∙ rw (str_eq_refl task_id) refl,
        refl,
        refl,
        refl,
        refl,
      )

  create_agent_task-IsFor :
      (now : ℕ) (session_id : String) (secret : Option Secret) (db created : Database)
      → create_agent_task now task_id run_id session_id agent_id kind request secret db ≡ ok created
      → Held created
  unfolding create_agent_task
  create_agent_task-IsFor now session_id secret db created e =
      elim (Result-cases (check_secret secret)) [
        | inr (x, refused) ↦
            let never : ⊥ = ground (arith, rw (refused, create_agent_task) at e) in absurd never
        | inl (_, accepted) ↦ elim (Bool-cases (insertable task_id run_id session_id agent_id db)) [
          | inl fits ↦
              subst Held (ok_injective (rw (accepted, fits, create_agent_task) at e))
                (inserted-IsFor now session_id secret db fits)
          | inr clash ↦
              let never : ⊥ = ground (arith, rw (accepted, clash, create_agent_task) at e) in
              absurd never
        ]
      ]

  module _ (other_text : Exception → String) (agent : Agent) (suite_name profile_name : String)
      (context : JobContext) where
    settle-IsFor :
        (poll : Poll) (seen : Database) (rest : Option (Database × Result Fields))
        (outcome : Option (Result Fields)) (after : Database) (result : Fields)
        → Held seen
        → (rest ≡ some (after, ok result) → Held after)
        → settle py other_text poll task_id seen rest outcome ≡ some (after, ok result)
        → Held after
    unfolding settle stop_task
    settle-IsFor poll seen rest none after result held later e = later e
    settle-IsFor poll seen rest (some (ok r)) after result held later e =
        subst Held (ap (λ p. p.0) (some_injective e)) held
    settle-IsFor poll seen rest (some (raise x)) after result held later e =
        let never : ⊥ = cc in absurd never

    wait_remote-IsFor :
        (polls : List Poll) (db after : Database) (result : Fields)
        → Held db
        → wait_remote py other_text polls task_id agent suite_name profile_name context db
          ≡ some (after, ok result)
        → Held after
    unfolding wait_remote
    wait_remote-IsFor [] db after result held e = let never : ⊥ = cc in absurd never
    wait_remote-IsFor (poll ∷ polls) db after result held e =
        let seen = run_calls py.repr poll.before db in
        let still = run_calls-IsFor poll.before db held in
        settle-IsFor poll seen _ _ after result still
          (wait_remote-IsFor polls seen after result still) e

    wait_created-IsFor :
        (made : Result Database) (polls : List Poll) (db after : Database) (result : Fields)
        → ((created : Database) → made ≡ ok created → Held created)
        → wait_created py other_text made polls task_id agent suite_name profile_name context db
          ≡ some (after, ok result)
        → Held after
    unfolding wait_created
    wait_created-IsFor (raise x) polls db after result held e = let never : ⊥ = cc in absurd never
    wait_created-IsFor (ok created) polls db after result held e =
        wait_remote-IsFor polls created after result (held created refl) e

module _ (py : Platform) (other_text : Exception → String) (task_id : String) (agent : Agent)
    (suite_name profile_name : String) where
  pub run_remote_benchmark-IsFor :
      (context : JobContext) (now : ℕ) (run_id : String) (timeout_seconds : ℕ) (polls : List Poll)
      (db after : Database) (result : Fields)
      → run_remote_benchmark py other_text now task_id run_id agent suite_name profile_name
          timeout_seconds context polls db
        ≡ some (after, ok result)
      → IsFor task_id run_id agent.id
          ("benchmark-" ++ₛ suite_name)
          (task_payload py suite_name profile_name timeout_seconds)
          after
  unfolding run_remote_benchmark
  run_remote_benchmark-IsFor context now run_id timeout_seconds polls db after result e =
      elim (Bool-cases (has_active_agent_task db agent.id)) [
        | inl busy ↦ let never : ⊥ = ground (arith, rw busy at e) in absurd never
        | inr free ↦
            wait_created-IsFor py task_id run_id agent.id ("benchmark-" ++ₛ suite_name)
              (task_payload py suite_name profile_name timeout_seconds) other_text agent suite_name
              profile_name context _ polls db after result
              (λ created made.
                create_agent_task-IsFor py task_id run_id agent.id ("benchmark-" ++ₛ suite_name)
                  (task_payload py suite_name profile_name timeout_seconds) now agent.session_id
                  none db created made)
              (rw free at e)
      ]
