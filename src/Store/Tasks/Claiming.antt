-- ===== src/Store/Tasks/Claiming.antt =====
-- Who gets which task: `claim_agent_task`.
use cloud_mark.Prelude.{
  ℕ, Bool, true, false, Option, none, some, List, [], ◌∷◌, String, ◌≡◌, ◌≢◌, refl, arith, inl, inr,
  ◌≤◌, Bool-cases, Option-cases, select_one, update, row_count, All, Distinct, row_count-key,
  select_one-update, ◌==◌, str_eq_refl, str_eq_iff,
}
use cloud_mark.Python.{Value}
use cloud_mark.Store.Schema.{is_active, is_queued, Task, Secret, Database}
use cloud_mark.Store.Tasks.{
  has_id, get_agent_task, claim_agent_task, claim_row, oldest, queued_for, queued_id, claimed,
}
use cloud_mark.Store.Secrets.{find_secret}
use cloud_mark.Store.Tasks.Calls.{Call, claims, run_calls, step}
use cloud_mark.Store.Tasks.Lifecycle.{step-Advances}
use cloud_mark.Store.Tasks.Advances.{Advances}
use cloud_mark.Store.Tasks.Invariant.{from-IsWellFormed, step-IsWellFormed}
use cloud_mark.Store.Tasks.WellFormed.{IsWellFormed}

oldest-none :
    (test : Task → Bool) (xs : List Task) → oldest test xs ≡ none → All (λ t. test t ≡ false) xs
unfolding oldest
oldest-none test [] e = tt
oldest-none test (t ∷ ts) e = (ground arith, oldest-none test ts (ground arith))

oldest-holds :
    (test : Task → Bool) (xs : List Task) (r : Task) → oldest test xs ≡ some r → test r ≡ true
unfolding oldest
oldest-holds test [] r e = cc
oldest-holds test (t ∷ ts) r e = ground (arith, oldest-holds test ts r)

oldest-found :
    (test : Task → Bool) (xs : List Task) (r : Task)
    → Distinct (λ t. t.id) xs
    → oldest test xs ≡ some r
    → select_one (has_id r.id) xs ≡ some r
unfolding oldest select_one
oldest-found test [] r d e = cc
oldest-found test (t ∷ ts) r (out, d) e =
    ground (arith, oldest-found test ts r d, str_eq_refl r.id, str_eq_iff t.id r.id)

-- No row that passes the test is older.
abbrev pub NoneOlder : (Task → Bool) → Task → List Task → Type 0
NoneOlder test r xs = All (λ u. test u ≡ true → r.created_at ≤ u.created_at) xs

NoneOlder-mono :
    (test : Task → Bool) (r s : Task) (xs : List Task)
    → r.created_at ≤ s.created_at
    → NoneOlder test s xs
    → NoneOlder test r xs
NoneOlder-mono test r s [] h o = tt
NoneOlder-mono test r s (u ∷ us) h (o, os) =
    (λ hit. let near = o hit in omega arith, NoneOlder-mono test r s us h os)

NoneOlder-vacuous :
    (test : Task → Bool) (r : Task) (xs : List Task)
    → All (λ t. test t ≡ false) xs
    → NoneOlder test r xs
NoneOlder-vacuous test r [] h = tt
NoneOlder-vacuous test r (u ∷ us) (h, hs) = (λ hit. cc, NoneOlder-vacuous test r us hs)

oldest-NoneOlder :
    (test : Task → Bool) (xs : List Task) (r : Task) → oldest test xs ≡ some r → NoneOlder test r xs
unfolding oldest
oldest-NoneOlder test [] r e = tt
oldest-NoneOlder test (t ∷ ts) r e = elim (Option-cases (oldest test ts)) [
  | inl alone ↦ (λ hit. ground arith, NoneOlder-vacuous test r ts (oldest-none test ts alone))
  | inr (u, later) ↦ (
    λ hit. ground arith,
    NoneOlder-mono test r u ts (ground arith) (oldest-NoneOlder test ts u later),
  )
]

-- The outcome of a claim: nothing is waiting and nothing changes, or an oldest waiting task of the
-- Agent is handed out, now running, with its secret.
pub data Claims (now : ℕ) (agent_id : String) (db : Database)
    (result : Database × Option (Task × Option Secret)) : Type 0 where
  idle :
      All (λ t. queued_for agent_id t ≡ false) db.tasks
      → result ≡ (db, none)
      → Claims now agent_id db result
  takes :
      (row : Task)
      → get_agent_task db row.id ≡ some row
      → queued_for agent_id row ≡ true
      → NoneOlder (queued_for agent_id) row db.tasks
      → result ≡ (
        record db { tasks = update (queued_id row.id) (claimed now) db.tasks },
        some (claimed now row, find_secret row.id db.secrets),
      )
      → get_agent_task result.0 row.id ≡ some (claimed now row)
      → Claims now agent_id db result

module _ (now : ℕ) (agent_id : String) (db : Database) (w : IsWellFormed db) where
  claimed-found :
      (row : Task)
      → select_one (has_id row.id) db.tasks ≡ some row
      → is_queued row.status ≡ true
      → select_one (has_id row.id) (update (queued_id row.id) (claimed now) db.tasks)
        ≡ some (claimed now row)
  claimed-found row found waiting =
      rw
        (select_one-update (has_id row.id) (queued_id row.id) (claimed now) db.tasks row (λ y. refl)
          found)
        (ground (arith, waiting, str_eq_refl row.id))

  claimed-counted :
      (row : Task)
      → select_one (has_id row.id) db.tasks ≡ some row
      → is_queued row.status ≡ true
      → (row_count (queued_id row.id) db.tasks == 1) ≡ true
  claimed-counted row found waiting = rw (
    row_count-key (λ t. t.id) row.id (λ t. is_queued t.status) db.tasks row w.distinct found,
    waiting,
  )

  -- A claim hands out an oldest task that is queued for the Agent, marks exactly that task as running
  -- and returns its secret; if none is queued it returns nothing and changes nothing.
  pub claim_agent_task_lem : Claims now agent_id db (claim_agent_task now agent_id db)
  unfolding claim_agent_task claim_row get_agent_task
  claim_agent_task_lem = elim (Option-cases (oldest (queued_for agent_id) db.tasks)) [
    | inl e ↦ idle (oldest-none (queued_for agent_id) db.tasks e) (rw (e, claim_row))
    | inr (row, e) ↦
        let waits = oldest-holds (queued_for agent_id) db.tasks row e in
        let found = oldest-found (queued_for agent_id) db.tasks row w.distinct e in
        let waiting : is_queued row.status ≡ true = ground arith in
        let counted = claimed-counted row found waiting in
        let after = claimed-found row found waiting in
        takes row found waits (oldest-NoneOlder (queued_for agent_id) db.tasks row e)
          (rw (e, claim_row, counted, after)) (rw (e, claim_row, counted, after) after)
  ]

-- What a successful claim says of the row before and after.
handed_out :
    (now : ℕ) (agent_id : String) (db : Database)
    → IsWellFormed db
    → (t : Task) (s : Option Secret) → (claim_agent_task now agent_id db).1 ≡ some (t, s)
    → (row : Task) × (get_agent_task (claim_agent_task now agent_id db).0 t.id ≡ some t)
      × (is_queued t.status ≡ false)
      × (get_agent_task db t.id ≡ some row)
      × (is_queued row.status ≡ true)
handed_out now agent_id db w t s e = from_claims (claim_agent_task_lem now agent_id db w) e
  where
    from_claims :
        {result : Database × Option (Task × Option Secret)}
        → Claims now agent_id db result
        → result.1 ≡ some (t, s)
        → (row : Task) × (get_agent_task result.0 t.id ≡ some t)
          × (is_queued t.status ≡ false)
          × (get_agent_task db t.id ≡ some row)
          × (is_queued row.status ≡ true)
    from_claims (idle none_waits unchanged) f =
        let none_taken : ⊥ = ground arith in absurd none_taken
    from_claims (takes row found waits oldest_one equal after) f =
        let taken : t ≡ claimed now row = ground arith in
        rw taken (row, after, refl, found, ground arith)

claim_agent_task-IsWellFormed :
    (repr : Value → String) (now : ℕ) (agent_id : String) (db : Database)
    → IsWellFormed db
    → IsWellFormed (claim_agent_task now agent_id db).0
unfolding step
claim_agent_task-IsWellFormed repr now agent_id db w =
    step-IsWellFormed repr (now, claims agent_id) db w

-- A task that is no longer queued is never queued again.
stays_claimed :
    (t u : Task) → Advances t u → is_queued t.status ≡ false → is_queued u.status ≡ false
stays_claimed t u a h = elim (Bool-cases (is_active t.status)) [
  | inl active ↦ ground (arith, a.moves active)
  | inr over ↦ rw (a.frozen over) h
]

module _ (repr : Value → String) where
  run_calls-claimed :
      (cs : List (ℕ × Call)) (db : Database) (k : String) (t : Task)
      → get_agent_task db k ≡ some t
      → is_queued t.status ≡ false
      → (u : Task) × (get_agent_task (run_calls repr cs db) k ≡ some u)
        × (is_queued u.status ≡ false)
  unfolding run_calls
  run_calls-claimed [] db k t e h = (t, e, h)
  run_calls-claimed (c ∷ cs) db k t e h =
      let (u, found, a) = step-Advances repr c db k t e in
      run_calls-claimed cs (step repr c db) k u found (stays_claimed t u a h)

  -- No task is handed out twice: whatever calls follow a claim, no later claim, by whichever Agent,
  -- returns a task of the same id.
  pub claim-claim_ne :
      (now later : ℕ) (agent_id other_agent : String) (db : Database) (cs : List (ℕ × Call))
      (t u : Task) (s r : Option Secret)
      → IsWellFormed db
      → (claim_agent_task now agent_id db).1 ≡ some (t, s)
      → (claim_agent_task later other_agent
          (run_calls repr cs (claim_agent_task now agent_id db).0)).1
        ≡ some (u, r)
      → u.id ≢ t.id
  claim-claim_ne now later agent_id other_agent db cs t u s r w first second same =
      let (_, held, taken, _, _) = handed_out now agent_id db w t s first in
      let after = claim_agent_task-IsWellFormed repr now agent_id db w in
      let (v, kept, still) =
        run_calls-claimed cs (claim_agent_task now agent_id db).0 t.id t held taken in
      let (row, _, _, found, waits) =
        handed_out later other_agent (run_calls repr cs (claim_agent_task now agent_id db).0)
          (from-IsWellFormed repr cs (claim_agent_task now agent_id db).0 after) u r second in
      ground (arith, rw same at found)
