-- ===== src/Remote/Outcome.antt =====
-- How a dispatched benchmark ends, whatever the Agent and the rest of the Controller do meanwhile.
use cloud_mark.Prelude.{
  some_injective, ℕ, Bool, true, false, Option, none, some, List, [], ◌∷◌, String, if◌then◌else◌,
  ◌||◌, ◌≡◌, refl, subst, arith, ◌⊎◌, inl, inr, Bool-cases, Option-cases, any, is_some,
}
use cloud_mark.Python.{Fields, Exception, Result, ok, raise, Result-cases, Platform}
use cloud_mark.Store.Schema.{
  Agent, Task, Database, Status, queued, running, completed, failed, cancelled, other, is_completed,
}
use cloud_mark.Store.Tasks.{has_active_agent_task, get_agent_task}
use cloud_mark.Store.Tasks.Calls.{run_calls}
use cloud_mark.Runner.{JobContext, checkpoint, is_over_time}
use cloud_mark.Remote.Dispatching.{
  look_as, Poll, poll_task, stop_task, wait_remote, run_remote_benchmark, settle, wait_created,
}
use cloud_mark.Remote.Results.{attributed_result}

-- The waiting is stopped by the token or by the time limit.
abbrev pub must_stop : JobContext → Poll → Bool
must_stop c p = p.cancelled || is_over_time c p.monotonic

checkpoint-passes :
    (py : Platform) (poll : Poll) (c : JobContext) (u : Unit {0})
    → checkpoint py poll.monotonic poll.cancelled c ≡ ok u
    → must_stop c poll ≡ false
unfolding checkpoint
checkpoint-passes py poll c u e = ground (arith, e)

checkpoint-stops :
    (py : Platform) (poll : Poll) (c : JobContext)
    → must_stop c poll ≡ true
    → (e : Exception) × (checkpoint py poll.monotonic poll.cancelled c ≡ raise e)
checkpoint-stops py poll c e = elim (Result-cases (checkpoint py poll.monotonic poll.cancelled c)) [
  | inl (u, passed) ↦
      let goes = checkpoint-passes py poll c u passed in let never : ⊥ = cc in absurd never
  | inr stopped ↦ stopped
]

-- How the loop is left: with the attributed result of a completed task that the store holds, or through
-- the handler of an exception.
pub data Exits (py : Platform) (other_text : Exception → String) (task_id : String) (agent : Agent)
    (suite_name profile_name : String) : Database → Result Fields → Type 0 where
  returns :
      (after : Database) (t : Task) (result : Fields)
      → get_agent_task after task_id ≡ some t
      → is_completed t.status ≡ true
      → attributed_result py t agent suite_name profile_name ≡ ok result
      → Exits py other_text task_id agent suite_name profile_name after (ok result)
  raises :
      (now : ℕ) (e : Exception) (db : Database)
      → Exits py other_text task_id agent suite_name profile_name
          (stop_task py other_text now task_id e db).0
          (stop_task py other_text now task_id e db).1

-- How the dispatch is left: refused, with the store as it was, or by the loop.
pub data Leaves (py : Platform) (other_text : Exception → String) (task_id : String) (agent : Agent)
    (suite_name profile_name : String) (db : Database) : Database → Result Fields → Type 0 where
  refuses :
      (e : Exception) → Leaves py other_text task_id agent suite_name profile_name db db (raise e)
  leaves :
      (after : Database) (r : Result Fields)
      → Exits py other_text task_id agent suite_name profile_name after r
      → Leaves py other_text task_id agent suite_name profile_name db after r

module _ (py : Platform) (other_text : Exception → String) (task_id : String) (agent : Agent)
    (suite_name profile_name : String) (context : JobContext) where
  abbrev waits : List Poll → Database → Option (Database × Result Fields)
  waits polls db = wait_remote py other_text polls task_id agent suite_name profile_name context db

  settle-ends :
      (poll : Poll) (seen : Database) (rest : Option (Database × Result Fields))
      (outcome : Option (Result Fields))
      → is_some outcome ≡ true ⊎ is_some rest ≡ true
      → is_some (settle py other_text poll task_id seen rest outcome) ≡ true
  unfolding settle
  settle-ends poll seen rest none (inl e) = let never : ⊥ = cc in absurd never
  settle-ends poll seen rest none (inr e) = e
  settle-ends poll seen rest (some (ok r)) e = refl
  settle-ends poll seen rest (some (raise x)) e = refl

  poll_task-stops :
      (poll : Poll) (db : Database)
      → must_stop context poll ≡ true
      → is_some (poll_task py poll task_id agent suite_name profile_name context db) ≡ true
  unfolding poll_task
  poll_task-stops poll db e =
      let (x, stopped) = checkpoint-stops py poll context e in rw (poll_task, stopped) refl

  -- The waiting ends at the first iteration that finds the run cancelled or over its time, if not before.
  wait_remote-ends :
      (polls : List Poll) (db : Database)
      → any (must_stop context) polls ≡ true
      → is_some (waits polls db) ≡ true
  unfolding wait_remote
  wait_remote-ends [] db e = cc
  wait_remote-ends (poll ∷ polls) db e =
      let seen = run_calls py.repr poll.before db in
      elim (Bool-cases (must_stop context poll)) [
        | inl now ↦ settle-ends poll seen _ _ (inl (poll_task-stops poll seen now))
        | inr later ↦
            settle-ends poll seen _ _ (inr (wait_remote-ends polls seen (ground (arith, e, later))))
      ]

  look_as-returns :
      (status : Status) (now : ℕ) (t : Task) (result : Fields)
      → look_as py status now agent suite_name profile_name t ≡ some (ok result)
      → (is_completed status ≡ true)
        × (attributed_result py t agent suite_name profile_name ≡ ok result)
  unfolding look_as
  look_as-returns completed now t result e = (refl, some_injective e)
  look_as-returns cancelled now t result e = let never : ⊥ = cc in absurd never
  look_as-returns failed now t result e = let never : ⊥ = cc in absurd never
  look_as-returns running now t result e = let never : ⊥ = ground (arith, e) in absurd never
  look_as-returns queued now t result e = let never : ⊥ = cc in absurd never
  look_as-returns (other s) now t result e = let never : ⊥ = cc in absurd never

  poll_task-returns :
      (poll : Poll) (db : Database) (result : Fields)
      → poll_task py poll task_id agent suite_name profile_name context db ≡ some (ok result)
      → Exits py other_text task_id agent suite_name profile_name db (ok result)
  unfolding poll_task
  poll_task-returns poll db result e =
      elim (Result-cases (checkpoint py poll.monotonic poll.cancelled context)) [
        | inr (x, stopped) ↦ let never : ⊥ = ground (arith, e, stopped) in absurd never
        | inl (u, passed) ↦ elim (Option-cases (get_agent_task db task_id)) [
          | inl gone ↦ let never : ⊥ = ground (arith, e, passed, gone) in absurd never
          | inr (t, found) ↦
              let seen : look_as py t.status poll.now agent suite_name profile_name t
                  ≡ some (ok result) =
                ground (arith, e, passed, found) in
              let (finished, result_eq) = look_as-returns t.status poll.now t result seen in
              returns db t result found finished result_eq
        ]
      ]

  settle-Exits :
      (poll : Poll) (seen : Database) (rest : Option (Database × Result Fields))
      (outcome : Option (Result Fields)) (after : Database) (r : Result Fields)
      → poll_task py poll task_id agent suite_name profile_name context seen ≡ outcome
      → (rest ≡ some (after, r) → Exits py other_text task_id agent suite_name profile_name after r)
      → settle py other_text poll task_id seen rest outcome ≡ some (after, r)
      → Exits py other_text task_id agent suite_name profile_name after r
  unfolding settle
  settle-Exits poll seen rest none after r e h s = h s
  settle-Exits poll seen rest (some (ok result)) after r e h s =
      subst (λ p. Exits py other_text task_id agent suite_name profile_name p.0 p.1)
        (some_injective s) (poll_task-returns poll seen result e)
  settle-Exits poll seen rest (some (raise x)) after r e h s =
      subst (λ p. Exits py other_text task_id agent suite_name profile_name p.0 p.1)
        (some_injective s) (raises poll.now x (run_calls py.repr poll.meanwhile seen))

  wait_remote-Exits :
      (polls : List Poll) (db after : Database) (r : Result Fields)
      → waits polls db ≡ some (after, r)
      → Exits py other_text task_id agent suite_name profile_name after r
  unfolding wait_remote
  wait_remote-Exits [] db after r e = let never : ⊥ = cc in absurd never
  wait_remote-Exits (poll ∷ polls) db after r e =
      let seen = run_calls py.repr poll.before db in
      settle-Exits poll seen _ _ after r refl (wait_remote-Exits polls seen after r) e

  wait_created-ends :
      (made : Result Database) (polls : List Poll) (db : Database)
      → any (must_stop context) polls ≡ true
      → is_some
          (wait_created py other_text made polls task_id agent suite_name profile_name context db)
        ≡ true
  unfolding wait_created
  wait_created-ends (raise e) polls db stops = refl
  wait_created-ends (ok created) polls db stops = wait_remote-ends polls created stops

  wait_created-Leaves :
      (made : Result Database) (polls : List Poll) (db after : Database) (r : Result Fields)
      → wait_created py other_text made polls task_id agent suite_name profile_name context db
        ≡ some (after, r)
      → Leaves py other_text task_id agent suite_name profile_name db after r
  unfolding wait_created
  wait_created-Leaves (raise e) polls db after r s =
      subst (λ p. Leaves py other_text task_id agent suite_name profile_name db p.0 p.1)
        (some_injective s) (refuses e)
  wait_created-Leaves (ok created) polls db after r s =
      leaves after r (wait_remote-Exits polls created after r s)

  refused-Leaves :
      (busy : Bool) (e : Exception) (waited : Option (Database × Result Fields))
      (db after : Database) (r : Result Fields)
      → (waited ≡ some (after, r)
          → Leaves py other_text task_id agent suite_name profile_name db after r)
      → (if busy then some (db, raise e) else waited) ≡ some (after, r)
      → Leaves py other_text task_id agent suite_name profile_name db after r
  refused-Leaves true e waited db after r h s =
      subst (λ p. Leaves py other_text task_id agent suite_name profile_name db p.0 p.1)
        (some_injective s) (refuses e)
  refused-Leaves false e waited db after r h s = h s

  pub run_remote_benchmark-Leaves :
      (now : ℕ) (run_id : String) (timeout_seconds : ℕ) (polls : List Poll) (db after : Database)
      (r : Result Fields)
      → run_remote_benchmark py other_text now task_id run_id agent suite_name profile_name
          timeout_seconds context polls db
        ≡ some (after, r)
      → Leaves py other_text task_id agent suite_name profile_name db after r
  unfolding run_remote_benchmark
  run_remote_benchmark-Leaves now run_id timeout_seconds polls db after r s =
      refused-Leaves (has_active_agent_task db agent.id) _ _ db after r
        (wait_created-Leaves _ polls db after r) s

  -- A dispatched benchmark ends: if some iteration of the wait finds the run cancelled or over its time,
  -- the dispatch returns or raises, whatever the Agent and the rest of the Controller do.
  pub run_remote_benchmark-ends :
      (now : ℕ) (run_id : String) (timeout_seconds : ℕ) (polls : List Poll) (db : Database)
      → any (must_stop context) polls ≡ true
      → is_some (
          run_remote_benchmark py other_text now task_id run_id agent suite_name profile_name
            timeout_seconds context polls db)
        ≡ true
  unfolding run_remote_benchmark
  run_remote_benchmark-ends now run_id timeout_seconds polls db stops =
      elim (Bool-cases (has_active_agent_task db agent.id)) [
        | inl busy ↦ rw busy refl
        | inr free ↦ rw free (wait_created-ends _ polls db stops)
      ]
