-- ===== src/Remote/Attribution.antt =====
-- What a dispatched benchmark leaves in the store, and what its result is attributed to.
use cloud_mark.Prelude.{
  ℕ, true, false, Option, none, some, List, String, str_eq, ◌&&◌, ◌≡◌, refl, subst, sym, ◌∙◌, ap,
  Option-cases, arith, inl, inr,
}
use cloud_mark.Python.{
  Value, Fields, dict, str, list, null, bool, int, float, get_field, set_field, value_eq, Exception,
  remote_error, Result, ok, ok_injective, >>=-eq-ok, guard-passes, get_field-set_field,
  get_field-set_field_ne, Platform,
}
use cloud_mark.Store.Schema.{
  Agent, Task, Database, is_active, is_completed, Status, queued, running, completed, failed,
  cancelled, other,
}
use Prim.Native.String.{◌++◌ as ◌++ₛ◌}
use cloud_mark.Store.Tasks.{get_agent_task}
use cloud_mark.Store.Tasks.Finishing.{abort_agent_task-inactive}
use cloud_mark.Profiles.{Profile}
use cloud_mark.Runner.{JobContext}
use cloud_mark.Remote.{parse_suite, find_profile, Suite, remote_methodology_version}
use cloud_mark.Remote.Dispatching.{task_payload, Poll, stop_task, run_remote_benchmark}
use cloud_mark.Remote.Results.{
  attributed, attributed_result, envelope, execution_of, with_evidence, installed_profile,
}
use cloud_mark.Remote.Envelopes.{envelope-carries}
use cloud_mark.Remote.Ordering.{IsFor, run_remote_benchmark-IsFor}
use cloud_mark.Remote.Outcome.{
  Exits, returns, raises, Leaves, refuses, leaves, run_remote_benchmark-Leaves,
}

-- The task is gone, or neither queued nor running.
abbrev pub IsOver : String → Database → Type 0
IsOver task_id db = (t : Task) → get_agent_task db task_id ≡ some t → is_active t.status ≡ false

completed-inactive : (s : Status) → is_completed s ≡ true → is_active s ≡ false
completed-inactive completed e = refl
completed-inactive queued e = cc
completed-inactive running e = cc
completed-inactive failed e = refl
completed-inactive cancelled e = refl
completed-inactive (other s) e = refl

module _ (py : Platform) (other_text : Exception → String) (task_id : String) (agent : Agent)
    (suite_name profile_name : String) where
  Exits-IsOver :
      {after : Database} {r : Result Fields}
      → Exits py other_text task_id agent suite_name profile_name after r
      → IsOver task_id after
  unfolding stop_task
  Exits-IsOver (returns after t result found finished e) u found_u = completed-inactive u.status (
      ap (λ (x : Option Task). elim x [ none ↦ true | some v ↦ is_completed v.status ])
        (sym found_u ∙ found)
      ∙ finished)
  Exits-IsOver (raises now e db) u found_u = abort_agent_task-inactive now task_id _ db u found_u

  Leaves-IsOver :
      {db after : Database} {r : Result Fields}
      → get_agent_task db task_id ≡ none
      → Leaves py other_text task_id agent suite_name profile_name db after r
      → IsOver task_id after
  Leaves-IsOver fresh_id (refuses e) t found = let never : ⊥ = cc in absurd never
  Leaves-IsOver fresh_id (leaves after r x) t found = Exits-IsOver x t found

  -- However the dispatch of a benchmark ends, by a result, by an exception of the wait or by a refusal,
  -- it leaves no task of the new id queued or running, if the id was new.
  pub run_remote_benchmark-IsOver :
      (context : JobContext) (now : ℕ) (run_id : String) (timeout_seconds : ℕ) (polls : List Poll)
      (db after : Database) (r : Result Fields)
      → get_agent_task db task_id ≡ none
      → run_remote_benchmark py other_text now task_id run_id agent suite_name profile_name
          timeout_seconds context polls db
        ≡ some (after, r)
      → IsOver task_id after
  run_remote_benchmark-IsOver context now run_id timeout_seconds polls db after r fresh_id e =
      Leaves-IsOver fresh_id (
        run_remote_benchmark-Leaves py other_text task_id agent suite_name profile_name context now
          run_id timeout_seconds polls db after r e)

-- v[k], or null where it is not there.
abbrev pub part_of : String → Value → Value
part_of k (dict fs) = get_field k fs
part_of k _ = null

-- The result is the benchmark that a completed task of the store brought, for the suite and the profile
-- asked for, in the versions of the installed profile, and it names the Agent of the task.
pub record IsAttributed (py : Platform) (task_id : String) (agent : Agent)
    (suite_name profile_name : String) (db : Database) (result : Fields) : Type 0 where
  pub task : Task
  pub found : get_agent_task db task_id ≡ some task
  pub finished : is_completed task.status ≡ true
  pub payload : Fields
  pub benchmark : Fields
  pub brought : task.result ≡ some (dict payload)
  pub carried : get_field "benchmark" payload ≡ dict benchmark
  pub protocol :
      value_eq (get_field "protocol_version" payload) (str remote_methodology_version) ≡ true
  pub kept :
      (k : String)
      → str_eq "target_evidence" k ≡ false
      → str_eq "execution" k ≡ false
      → get_field k result ≡ get_field k benchmark
  pub suite : Suite
  pub suite_known : parse_suite suite_name ≡ ok suite
  pub profile : Profile
  pub installed : find_profile suite profile_name ≡ some profile
  pub same_suite : value_eq (get_field "suite" result) (str suite_name) ≡ true
  pub same_profile : value_eq (get_field "profile" result) (str profile_name) ≡ true
  pub same_version :
      value_eq (get_field "profile_version" result) (str profile.profile_version) ≡ true
  pub same_methodology :
      value_eq (get_field "methodology_version" result) (str profile.methodology_version) ≡ true
  pub agent_named : part_of "id" (part_of "agent" (get_field "execution" result)) ≡ str agent.id
  pub named : get_field "execution" result ≡ execution_of py payload agent

with_evidence-field :
    (py : Platform) (k : String) (v : Value) (fs : Fields)
    → str_eq "target_evidence" k ≡ false
    → get_field k (with_evidence py v fs) ≡ get_field k fs
with_evidence-field py k (dict evidence) fs ne =
    get_field-set_field_ne "target_evidence" k (dict evidence) fs ne
with_evidence-field py k null fs ne = refl
with_evidence-field py k (bool b) fs ne = refl
with_evidence-field py k (int n) fs ne = refl
with_evidence-field py k (float x) fs ne = refl
with_evidence-field py k (str s) fs ne = refl
with_evidence-field py k (list vs) fs ne = refl

installed_profile-eq :
    (suite : Suite) (name : String) (p : Profile)
    → installed_profile suite name ≡ ok p
    → find_profile suite name ≡ some p
unfolding installed_profile
installed_profile-eq suite name p e = elim (Option-cases (find_profile suite name)) [
  | inl missing ↦ let never : ⊥ = ground (arith, e, missing) in absurd never
  | inr (q, found) ↦ ground (arith, e, found)
]

module _ (py : Platform) (payload benchmark : Fields) (agent : Agent) where
  abbrev signed : Fields
  signed =
      with_evidence py (get_field "evidence" payload)
        (set_field "execution" (execution_of py payload agent) benchmark)

  signed-field :
      (k : String)
      → str_eq "target_evidence" k ≡ false
      → str_eq "execution" k ≡ false
      → get_field k signed ≡ get_field k benchmark
  signed-field k ne other_ne =
      with_evidence-field py k (get_field "evidence" payload) _ ne
      ∙ get_field-set_field_ne "execution" k (execution_of py payload agent) benchmark other_ne

  signed-execution : get_field "execution" signed ≡ execution_of py payload agent
  unfolding str_eq
  signed-execution =
      with_evidence-field py "execution" (get_field "evidence" payload) _ refl
      ∙ get_field-set_field "execution" (execution_of py payload agent) benchmark

module _ (py : Platform) (task_id : String) (agent : Agent) (suite_name profile_name : String)
    (db : Database) (t : Task) (found : get_agent_task db task_id ≡ some t)
    (finished : is_completed t.status ≡ true) (result : Fields) where
  attributed-IsAttributed :
      (payload benchmark : Fields) (suite : Suite) (profile : Profile)
      → t.result ≡ some (dict payload)
      → get_field "benchmark" payload ≡ dict benchmark
      → value_eq (get_field "protocol_version" payload) (str remote_methodology_version) ≡ true
      → parse_suite suite_name ≡ ok suite
      → find_profile suite profile_name ≡ some profile
      → attributed py payload benchmark agent suite_name profile_name profile ≡ ok result
      → IsAttributed py task_id agent suite_name profile_name db result
  unfolding attributed str_eq
  attributed-IsAttributed payload benchmark suite profile brought carried protocol known installed
        e =
      let (names, e1) =
        guard-passes
          (value_eq (get_field "suite" benchmark) (str suite_name)
            && value_eq (get_field "profile" benchmark) (str profile_name))
          (remote_error "Agent result suite or profile does not match the dispatched task." none) _
          e in
      let (version, e2) =
        guard-passes
          (value_eq (get_field "profile_version" benchmark) (str profile.profile_version))
          (remote_error "Agent result profile version does not match the Controller profile." none)
          _ e1 in
      let (methodology, e3) =
        guard-passes
          (value_eq (get_field "methodology_version" benchmark) (str profile.methodology_version))
          (remote_error
            "Agent result methodology version does not match the Controller methodology." none)
          _ e2 in
      let kept = signed-field py payload benchmark agent in
      subst (IsAttributed py task_id agent suite_name profile_name db)
        {x = signed py payload benchmark agent} (ok_injective e3)
        (record {
          task = t;
          found = found;
          finished = finished;
          suite = suite;
          suite_known = known;
          profile = profile;
          installed = installed;
          same_suite = rw (kept "suite" refl refl) (ground (arith, names));
          same_profile = rw (kept "profile" refl refl) (ground (arith, names));
          same_version = rw (kept "profile_version" refl refl) (ground (arith, version));
          same_methodology =
              rw (kept "methodology_version" refl refl) (ground (arith, methodology));
          payload = payload;
          benchmark = benchmark;
          brought = brought;
          carried = carried;
          protocol = protocol;
          kept = kept;
          agent_named =
              ap (λ v. part_of "id" (part_of "agent" v))
                (signed-execution py payload benchmark agent);
          named = signed-execution py payload benchmark agent;
        })

  attributed_result-IsAttributed :
      attributed_result py t agent suite_name profile_name ≡ ok result
      → IsAttributed py task_id agent suite_name profile_name db result
  unfolding attributed_result
  attributed_result-IsAttributed e =
      let ((payload, benchmark), opened, e1) = >>=-eq-ok (envelope py t) _ e in
      let (brought, carried) = envelope-carries py t payload benchmark opened in
      let (protocol, e2) =
        guard-passes
          (value_eq (get_field "protocol_version" payload) (str remote_methodology_version))
          (remote_error "Agent returned an incompatible remote benchmark protocol version." none) _
          e1 in
      let (suite, known, e3) = >>=-eq-ok (parse_suite suite_name) _ e2 in
      let (profile, found_profile, e4) = >>=-eq-ok (installed_profile suite profile_name) _ e3 in
      attributed-IsAttributed payload benchmark suite profile brought carried protocol known
        (installed_profile-eq suite profile_name profile found_profile) e4

module _ (py : Platform) (other_text : Exception → String) (task_id : String) (agent : Agent)
    (suite_name profile_name : String) where
  Leaves-IsAttributed :
      (db after : Database) (r : Result Fields) (result : Fields)
      → r ≡ ok result
      → Leaves py other_text task_id agent suite_name profile_name db after r
      → IsAttributed py task_id agent suite_name profile_name after result
  unfolding stop_task
  Leaves-IsAttributed db after r result e (refuses x) = let never : ⊥ = cc in absurd never
  Leaves-IsAttributed db after r result e
        (leaves _ _ (returns _ t found_result found finished made)) =
      attributed_result-IsAttributed py task_id agent suite_name profile_name after t found finished
        result (made ∙ e)
  Leaves-IsAttributed db after r result e (leaves _ _ (raises now x seen)) =
      let never : ⊥ = cc in absurd never

  -- A result that the dispatch returns is the benchmark that a completed task of the store brought, in an
  -- envelope of this protocol: but for the evidence of its target and the record of its execution it
  -- is field by field that benchmark. Its suite and profile are those asked for, its versions are
  -- those of the installed profile, and it names the Agent. The task was created for the run, for
  -- that Agent by its id, and for the suite and the profile.
  pub run_remote_benchmark-IsAttributed :
      (context : JobContext) (now : ℕ) (run_id : String) (timeout_seconds : ℕ) (polls : List Poll)
      (db after : Database) (result : Fields)
      → run_remote_benchmark py other_text now task_id run_id agent suite_name profile_name
          timeout_seconds context polls db
        ≡ some (after, ok result)
      → IsAttributed py task_id agent suite_name profile_name after result
        × IsFor task_id run_id agent.id
            ("benchmark-" ++ₛ suite_name)
            (task_payload py suite_name profile_name timeout_seconds)
            after
  run_remote_benchmark-IsAttributed context now run_id timeout_seconds polls db after result e = (
    Leaves-IsAttributed db after (ok result) result refl (
        run_remote_benchmark-Leaves py other_text task_id agent suite_name profile_name context now
          run_id timeout_seconds polls db after (ok result) e),
    run_remote_benchmark-IsFor py other_text task_id agent suite_name profile_name context now
        run_id timeout_seconds polls db after result e,
  )
