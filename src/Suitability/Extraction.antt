-- ===== src/Suitability/Extraction.antt =====
-- cloudmark/suitability.py: `_extract_run_evidence`. Each suite gives the calls of `_put` that its branch
-- makes, in their order.
use cloud_mark.Prelude.{ℕ, none, some, List, [], String, str_eq, if◌then◌else◌}
use cloud_mark.Python.{Value, null, Result, ok, ◌>>=◌, Platform}
use cloud_mark.Store.Schema.{Run}
use cloud_mark.Suitability.Evidence.{Item, put_all}
use cloud_mark.Suitability.Candidates.{
  compute_candidates, memory_candidates, storage_candidates, network_candidates,
}
use cloud_mark.Suitability.Services.{database_candidates, web_candidates}

module _ (py : Platform) (now : ℕ) (run : Run) where
  -- The calls of `_put` of `_extract_run_evidence`.
  unfoldable pub run_candidates : Result (List (String × Item))
  unfolding compute_candidates memory_candidates storage_candidates network_candidates
      database_candidates web_candidates
  run_candidates =
      let result : Value = elim run.result [ none ↦ null | some v ↦ v ] in
      if str_eq run.suite "compute"
      then compute_candidates py now run result
      else if str_eq run.suite "memory"
      then memory_candidates py now run result
      else if str_eq run.suite "storage"
      then storage_candidates py now run result
      else if str_eq run.suite "network"
      then network_candidates py now run result
      else if str_eq run.suite "database"
      then database_candidates py now run result
      else if str_eq run.suite "web"
      then web_candidates py now run result
      else ok []

-- _extract_run_evidence
unfoldable pub extract_run_evidence :
    Platform → (now : ℕ) → List (String × Item) → Run → Result (List (String × Item))
unfolding run_candidates put_all
extract_run_evidence py now evidence run = do
  candidates ← run_candidates py now run
  ok (put_all evidence candidates)
