-- ===== src/Suitability/Counting.antt =====
-- cloudmark/suitability.py: the runs of a group keep its samples counted.
use cloud_mark.Prelude.{
  ℕ, Bool, true, false, not, ◌&&◌, ◌||◌, Option, none, some, List, [], ◌∷◌, String, str_eq, select,
  ◌≡◌, ◌⊎◌, refl, subst, All, arith, inl, inr, Bool-cases,
}
use cloud_mark.Python.{ok, >>=-eq-ok, ok_injective, Platform}
use cloud_mark.Store.Schema.{Run}
use cloud_mark.Suitability.Evidence.{Item, Evidence, run_is_fresh}
use cloud_mark.Suitability.Extraction.{extract_run_evidence}
use cloud_mark.Suitability.Runs.{is_one_of, run_targets}
use cloud_mark.Suitability.Verdict.{sorted_texts}
use cloud_mark.Suitability.Cohorts.{ContractKey, Target}
use cloud_mark.Suitability.Metrics.{Metric}
use cloud_mark.Suitability.Contracts.{run_implementation_contract}
use cloud_mark.Suitability.StorageContract.{storage_run_contract}
use cloud_mark.Suitability.Provenance.{Sample}
use cloud_mark.Suitability.Boundaries.{system_execution_contract}
use cloud_mark.Suitability.Collecting.{
  set_run, find_metric, is_subset, add_known_item, add_participating, add_measured_run, Builder,
  Collected, add_item, add_items, add_run, add_runs,
}
use cloud_mark.Suitability.Observations.{collect_peers}
use cloud_mark.Suitability.Distinct.{All-sorted_texts, All-select}
use cloud_mark.Suitability.Builders.{EachCounted, add_sample-EachCounted}

abbrev pub IsAmong : List Run → Run → Type 0
IsAmong [] run = ⊥
IsAmong (r ∷ rest) run = (r ≡ run) ⊎ IsAmong rest run

-- The run is one of a target of the group.
abbrev pub IsOfGroup : List Target → Run → Type 0
IsOfGroup [] run = ⊥
IsOfGroup (t ∷ rest) run = IsAmong t.runs run ⊎ IsOfGroup rest run

-- A sample is a current item of a fresh run of the group, and what is known of its three contracts is what
-- the run's own evidence says of them.
pub record IsTaken (py : Platform) (now : ℕ) (peers : List Target) (s : Sample) : Type 0 where
  pub of_group : IsOfGroup peers s.run
  pub fresh : run_is_fresh now s.run ≡ true
  pub current : s.item.stale ≡ false
  pub implementation : (run_implementation_contract py s.run).1 ≡ s.verified.implementation
  pub boundary : String
  pub execution : system_execution_contract py s.run ≡ ok (boundary, s.verified.system_execution)
  pub storage : (storage_run_contract py s.run).1 ≡ s.verified.storage

-- What runs that some of the peers took part in leave of the builders.
module _ (py : Platform) (now : ℕ) (peers : List Target) (peer_ids : List String) where
  abbrev Counted : List (ContractKey × Builder) → Type 0
  Counted builders = EachCounted (IsTaken py now peers) peer_ids builders

  abbrev Members : List String → Type 0
  Members ids = All (λ id. is_one_of peer_ids id ≡ true) ids

  add_known_item-EachCounted :
      (run : Run) (participating : List String) (metric_key : String) (o : Option Metric)
      (stale : Bool) (item : Evidence) (builders after : List (ContractKey × Builder))
      → IsOfGroup peers run
      → run_is_fresh now run ≡ true
      → item.stale ≡ stale
      → Members participating
      → add_known_item py now run participating metric_key o stale item builders ≡ ok after
      → Counted builders
      → Counted after
  unfolding add_known_item
  add_known_item-EachCounted run participating metric_key (some m) false item builders after
        of_group fresh current members e ws =
      let (execution, ran, last) = >>=-eq-ok (system_execution_contract py run) _ e in
      subst Counted (ok_injective last) (
        add_sample-EachCounted (IsTaken py now peers) peer_ids _ participating
          (record {
            run = run;
            verified = record {
              implementation = (run_implementation_contract py run).1;
              system_execution = execution.1;
              storage = (storage_run_contract py run).1;
            };
            item = item;
          })
          builders members
          (record {
            of_group = of_group;
            fresh = fresh;
            current = current;
            implementation = refl;
            boundary = execution.0;
            execution = ran;
            storage = refl;
          })
          ws)
  add_known_item-EachCounted run participating metric_key (some m) true item builders after of_group
        fresh current members e ws =
      subst Counted (ok_injective e) ws
  add_known_item-EachCounted run participating metric_key none stale item builders after of_group
        fresh current members e ws =
      subst Counted (ok_injective e) ws

  add_items-EachCounted :
      (run : Run) (participating : List String) (entries : List (String × Item))
      (builders after : List (ContractKey × Builder))
      → IsOfGroup peers run
      → run_is_fresh now run ≡ true
      → Members participating
      → add_items py now run participating entries builders ≡ ok after
      → Counted builders
      → Counted after
  unfolding add_items add_item
  add_items-EachCounted run participating [] builders after of_group fresh members e ws =
      subst Counted (ok_injective e) ws
  add_items-EachCounted run participating ((k, item) ∷ rest) builders after of_group fresh members e
        ws =
      let (more, first, others) =
        >>=-eq-ok
          (add_known_item py now run participating k (find_metric k) item.public_evidence.stale
            item.public_evidence builders)
          _ e in
      add_items-EachCounted run participating rest more after of_group fresh members others (
        add_known_item-EachCounted run participating k _ _ _ builders more of_group fresh refl
          members first ws)

  add_participating-EachCounted :
      (participating : List String) (c after : Collected) (run : Run)
      → IsOfGroup peers run
      → run_is_fresh now run ≡ true
      → Members participating
      → add_participating py now participating c run ≡ ok after
      → Counted c.builders
      → Counted after.builders
  unfolding add_participating
  add_participating-EachCounted [] c after run of_group fresh members e ws =
      subst {A = Collected} (λ z. Counted z.builders) (ok_injective e) ws
  add_participating-EachCounted (id ∷ ids) c after run of_group fresh members e ws =
      let (evidence, found, e1) = >>=-eq-ok (extract_run_evidence py now [] run) _ e in
      let (builders, added, e2) =
        >>=-eq-ok (add_items py now run (id ∷ ids) evidence c.builders) _ e1 in
      subst {A = Collected} (λ z. Counted z.builders) (ok_injective e2)
        (add_items-EachCounted run (id ∷ ids) evidence c.builders builders of_group fresh members
          added ws)

  add_measured_run-EachCounted :
      (targets : List String) (c after : Collected) (run : Run)
      → IsOfGroup peers run
      → run_is_fresh now run ≡ true
      → add_measured_run py now peer_ids targets c run ≡ ok after
      → Counted c.builders
      → Counted after.builders
  unfolding add_measured_run
  add_measured_run-EachCounted targets c after run of_group fresh e ws =
      elim (Bool-cases (str_eq run.suite "network" && not (is_subset targets peer_ids))) [
        | inl outside ↦
            let same : ok c ≡ ok after = ground (arith, outside) in
            subst {A = Collected} (λ z. Counted z.builders) (ok_injective same) ws
        | inr inside ↦
            add_participating-EachCounted (sorted_texts (select (is_one_of peer_ids) targets))
              (record c { runs_by_id = set_run run.id run c.runs_by_id }) after run of_group fresh
              (All-sorted_texts (λ id. is_one_of peer_ids id ≡ true)
                (select (is_one_of peer_ids) targets) (All-select (is_one_of peer_ids) targets))
              (ground (arith, inside)) ws
      ]

  add_run-EachCounted :
      (c after : Collected) (run : Run)
      → IsOfGroup peers run
      → add_run py now peer_ids c run ≡ ok after
      → Counted c.builders
      → Counted after.builders
  unfolding add_run
  add_run-EachCounted c after run of_group e ws =
      elim (Bool-cases (not (run_is_fresh now run) || str_eq run.id "")) [
        | inl skipped ↦
            let same : ok c ≡ ok after = ground (arith, skipped) in
            subst {A = Collected} (λ z. Counted z.builders) (ok_injective same) ws
        | inr taken ↦
            let fresh : run_is_fresh now run ≡ true = ground (arith, taken) in
            let (targets, found, added) =
              >>=-eq-ok (run_targets py run)
                (λ targets. add_measured_run py now peer_ids targets c run)
                (ground (arith, taken)) in
            add_measured_run-EachCounted targets c after run of_group fresh added ws
      ]

  add_runs-EachCounted :
      (c after : Collected) (runs : List Run)
      → ((run : Run) → IsAmong runs run → IsOfGroup peers run)
      → add_runs py now peer_ids c runs ≡ ok after
      → Counted c.builders
      → Counted after.builders
  unfolding add_runs
  add_runs-EachCounted c after [] inside e ws =
      subst {A = Collected} (λ z. Counted z.builders) (ok_injective e) ws
  add_runs-EachCounted c after (run ∷ rest) inside e ws =
      let (more, first, others) = >>=-eq-ok (add_run py now peer_ids c run) _ e in
      add_runs-EachCounted more after rest (λ r h. inside r (inr h)) others
        (add_run-EachCounted c more run (inside run (inl refl)) first ws)

  pub collect_peers-EachCounted :
      (c after : Collected) (rest : List Target)
      → ((run : Run) → IsOfGroup rest run → IsOfGroup peers run)
      → collect_peers py now peer_ids c rest ≡ ok after
      → Counted c.builders
      → Counted after.builders
  unfolding collect_peers
  collect_peers-EachCounted c after [] inside e ws =
      subst {A = Collected} (λ z. Counted z.builders) (ok_injective e) ws
  collect_peers-EachCounted c after (t ∷ rest) inside e ws =
      let (more, first, others) = >>=-eq-ok (add_runs py now peer_ids c t.runs) _ e in
      collect_peers-EachCounted more after rest (λ r h. inside r (inr h)) others
        (add_runs-EachCounted c more t.runs (λ r h. inside r (inl h)) first ws)
