-- ===== src/Suitability/Collecting.antt =====
-- cloudmark/suitability.py: the samples that `_provider_observations` collects for each contract.
use cloud_mark.Prelude.{
  ℕ, ◌/◌, ◌*◌, Bool, true, false, not, ◌&&◌, ◌||◌, Option, none, some, List, [], ◌∷◌, ◌++◌, String,
  str_eq, if◌then◌else◌, any, select, select_one, Float, ◌==◌,
}
use cloud_mark.Python.{Result, ok, ◌>>=◌, Platform, text_of, or_else}
use cloud_mark.Store.Schema.{Run}
use cloud_mark.Campaigns.Contract.{text_or}
use cloud_mark.Suitability.Evidence.{Item, Evidence, microseconds, run_is_fresh}
use cloud_mark.Suitability.Extraction.{extract_run_evidence}
use cloud_mark.Suitability.Runs.{is_one_of, insert_id, union_ids, run_targets}
use cloud_mark.Suitability.Verdict.{sorted_texts}
use cloud_mark.Suitability.Metrics.{Metric, comparison_metrics}
use cloud_mark.Suitability.Contracts.{run_topology_contract, run_implementation_contract}
use cloud_mark.Suitability.Boundaries.{system_execution_contract}
use cloud_mark.Suitability.StorageContract.{storage_run_contract}
use cloud_mark.Suitability.Cohorts.{ContractKey, contract_texts, texts_eq}

-- A window is a UTC day, counted from the epoch.
pub record Builder : Type 0 where
  pub values : List Float
  pub run_ids : List String
  pub target_ids : List String
  pub windows : List ℕ
  pub observed_at : List ℕ
  pub implementation_verified : Bool
  pub system_execution_verified : Bool
  pub storage_contract_verified : Bool
  pub seen_runs : List String

abbrev pub empty_builder : Builder
empty_builder = record {
  values = [];
  run_ids = [];
  target_ids = [];
  windows = [];
  observed_at = [];
  implementation_verified = true;
  system_execution_verified = true;
  storage_contract_verified = true;
  seen_runs = [];
}

-- Whether the run's three contracts are verified.
pub record Verified : Type 0 where
  pub implementation : Bool
  pub system_execution : Bool
  pub storage : Bool

unfoldable pub insert_day : ℕ → List ℕ → List ℕ
insert_day day days = if any (λ d. d == day) days then days else days ++ day ∷ []

-- observed_at[:10]
abbrev pub day_of : ℕ → ℕ
day_of t = t / (86400 * microseconds)

abbrev pub note_time : Option ℕ → Builder → Builder
note_time none b = b
note_time (some t) b = record b {
  observed_at = b.observed_at ++ t ∷ [];
  windows = insert_day (day_of t) b.windows;
}

-- What one item of a run adds to its builder.
unfoldable pub add_sample :
    (run_id : String) → List String → Verified → Evidence → Builder → Builder
unfolding union_ids insert_day insert_id
add_sample run_id participating verified item b =
    let checked : Builder = record b {
      implementation_verified = b.implementation_verified && verified.implementation;
      system_execution_verified = b.system_execution_verified && verified.system_execution;
      storage_contract_verified = b.storage_contract_verified && verified.storage;
      target_ids = union_ids b.target_ids participating;
    } in
    if is_one_of b.seen_runs run_id
    then checked
    else note_time item.observed_at (record checked {
      seen_runs = insert_id run_id b.seen_runs;
      values = b.values ++ item.value ∷ [];
      run_ids = b.run_ids ++ run_id ∷ [];
    })

-- The builder of a key, or a new one.
unfoldable pub update_builder :
    ContractKey → (Builder → Builder) → List (ContractKey × Builder) → List (ContractKey × Builder)
unfolding texts_eq
update_builder key write [] = (key, write empty_builder) ∷ []
update_builder key write ((k, b) ∷ rest) =
    if texts_eq (contract_texts k) (contract_texts key)
    then (k, write b) ∷ rest
    else (k, b) ∷ update_builder key write rest

abbrev text_of_option : Option String → String
text_of_option none = ""
text_of_option (some s) = s

abbrev pub find_metric : String → Option Metric
find_metric key = select_one (λ m. str_eq m.key key) comparison_metrics

abbrev pub is_subset : List String → List String → Bool
is_subset ids peers = not (any (λ id. not (is_one_of peers id)) ids)

-- The loop's variables: `runs_by_id` and `metric_builders`.
pub record Collected : Type 0 where
  pub runs_by_id : List (String × Run)
  pub builders : List (ContractKey × Builder)

-- runs_by_id[run_id] = run
unfoldable pub set_run : String → Run → List (String × Run) → List (String × Run)
set_run id run [] = (id, run) ∷ []
set_run id run ((k, r) ∷ rest) =
    if str_eq k id then (k, run) ∷ rest else (k, r) ∷ set_run id run rest

module _ (py : Platform) (now : ℕ) where
  sample_key :
      Run
      → (metric_key : String) → Evidence
      → (execution : String) → (scope evidence implementation storage : String) → ContractKey
  unfolding text_of or_else
  sample_key run metric_key item execution scope evidence implementation storage = record {
    metric_key = metric_key;
    profile = text_of_option item.profile;
    methodology = text_or py "" item.methodology_version;
    unit = item.unit;
    topology_scope = scope;
    topology_evidence = evidence;
    implementation_contract = implementation;
    system_execution_contract = execution;
    storage_contract = storage;
  }

  -- The loop's body for an item whose metric is known or not, and that is stale or not.
  unfoldable pub add_known_item :
      Run
      → (participating : List String) → (metric_key : String) → Option Metric
      → (stale : Bool) → Evidence
      → List (ContractKey × Builder)
      → Result (List (ContractKey × Builder))
  unfolding run_topology_contract run_implementation_contract system_execution_contract
      storage_run_contract update_builder add_sample sample_key
  add_known_item run participating metric_key (some metric) false item builders = do
    execution ← system_execution_contract py run
    let topology = run_topology_contract py run
    let implementation = run_implementation_contract py run
    let storage = storage_run_contract py run
    let verified : Verified = record {
      implementation = implementation.1;
      system_execution = execution.1;
      storage = storage.1;
    }
    ok (
        update_builder
          (sample_key run metric_key item execution.0 topology.0 topology.1 implementation.0
            storage.0)
          (add_sample run.id participating verified item) builders)
  add_known_item run participating metric_key _ _ item builders = ok builders

  unfoldable pub add_item :
      Run
      → (participating : List String) → String × Item
      → List (ContractKey × Builder)
      → Result (List (ContractKey × Builder))
  unfolding comparison_metrics select_one add_known_item
  add_item run participating (metric_key, item) builders =
      add_known_item run participating metric_key (find_metric metric_key)
        item.public_evidence.stale item.public_evidence builders

  unfoldable pub add_items :
      Run
      → (participating : List String) → List (String × Item)
      → List (ContractKey × Builder)
      → Result (List (ContractKey × Builder))
  unfolding add_item
  add_items run participating [] builders = ok builders
  add_items run participating (entry ∷ rest) builders = do
    more ← add_item run participating entry builders
    add_items run participating rest more

  -- The items of a run that some of the peers took part in.
  unfoldable pub add_participating :
      (participating : List String) → Collected → Run → Result Collected
  unfolding extract_run_evidence add_items
  add_participating [] c run = ok c
  add_participating (id ∷ ids) c run = do
    evidence ← extract_run_evidence py now [] run
    builders ← add_items run (id ∷ ids) evidence c.builders
    ok (record c { builders = builders })

  unfoldable pub add_measured_run :
      (peer_ids targets : List String) → Collected → Run → Result Collected
  unfolding set_run sorted_texts select add_participating
  add_measured_run peer_ids targets c run =
      if str_eq run.suite "network" && not (is_subset targets peer_ids)
      then ok c
      else add_participating (sorted_texts (select (is_one_of peer_ids) targets))
          (record c { runs_by_id = set_run run.id run c.runs_by_id }) run

  -- One run of a peer.
  unfoldable pub add_run : (peer_ids : List String) → Collected → Run → Result Collected
  unfolding run_is_fresh run_targets add_measured_run
  add_run peer_ids c run =
      if not (run_is_fresh now run) || str_eq run.id ""
      then ok c
      else (run_targets py run >>= λ targets. add_measured_run peer_ids targets c run)

  unfoldable pub add_runs : (peer_ids : List String) → Collected → List Run → Result Collected
  unfolding add_run
  add_runs peer_ids c [] = ok c
  add_runs peer_ids c (run ∷ rest) = do more ← add_run peer_ids c run; add_runs peer_ids more rest
