-- ===== src/Cost/Serving.antt =====
-- cloudmark/database.py and cloudmark/cost.py: the export of what the store lists.
use Prim.Native.String.{◌++◌ as ◌++ₛ◌}
use cloud_mark.Prelude.{
  ℕ, zero, suc, ◌≤◌, true, some, List, [], ◌∷◌, String, leb, length, ◌≡◌, refl, subst, sym, All,
  arith, inl, inr, Bool-cases, ℤ, pos_part, min, max, take, map, length-take-le, either,
}
use cloud_mark.Python.{Value, Fields, dict, Result, ok, raise, ◌>>=◌, cost_error, Platform}
use cloud_mark.Store.Schema.{CostRow, Database, empty}
use cloud_mark.Store.Costs.{insert_cost_row, order_costs, comes_first, list_cost_observations}
use cloud_mark.Store.Costs.Immutable.{Extends, extends, Stores, run_calls-Extends}
use cloud_mark.Store.Tasks.Calls.{Call, run_calls}
use cloud_mark.Cost.Parts.{utf8_size}
use cloud_mark.Cost.Observation.{build_cost_observation}
use cloud_mark.Cost.Export.{
  export_records, write_rows, insert_observation, latest_first, all_dicts, cost_observation_csv,
  bounded_payload, export_max_bytes, export_max_rows, header_line, row_values, text_count, later,
  order_key,
}
use cloud_mark.Cost.Csv.{csv_line}
use cloud_mark.Cost.Refusals.{IsChecked, length-latest_first}
use cloud_mark.Cost.Exporting.{build_cost_observation-IsExportable}

-- An observation that `build_cost_observation` returned.
pub record IsBuilt (py : Platform) (observation : Fields) : Type 0 where
  pub observation_id : String
  pub request : Fields
  pub target_id : String
  pub system : Fields
  pub now : ℕ
  pub returned :
      build_cost_observation py observation_id request target_id system now ≡ ok observation

-- An export either returns its payload or is refused for its size, and for nothing else.
pub data IsServed (r : Result String) : Type 0 where
  served : (payload : String) → r ≡ ok payload → IsServed r
  too_big :
      r ≡ raise (cost_error "Cost observation export exceeds the bounded response size.")
      → IsServed r

-- The listing keeps what is true of all rows.
module _ (P : CostRow → Type 0) where
  insert_cost_row-All :
      (row : CostRow) (xs : List CostRow) → P row → All P xs → All P (insert_cost_row row xs)
  unfolding insert_cost_row
  insert_cost_row-All row [] p ps = (p, tt)
  insert_cost_row-All row (x ∷ xs) p (q, qs) =
      either (All P) (comes_first row x) (p, (q, qs)) (q, insert_cost_row-All row xs p qs)

  order_costs-All :
      (sorted rows : List CostRow) → All P sorted → All P rows → All P (order_costs sorted rows)
  unfolding order_costs
  order_costs-All sorted [] ps qs = ps
  order_costs-All sorted (row ∷ rest) ps (q, qs) =
      order_costs-All (insert_cost_row row sorted) rest (insert_cost_row-All row sorted q ps) qs

  take-All : (n : ℕ) (xs : List CostRow) → All P xs → All P (take n xs)
  take-All zero xs ps = tt
  take-All (suc n) [] ps = tt
  take-All (suc n) (x ∷ xs) (p, ps) = (p, take-All n xs ps)

module _ (Q : Fields → Type 0) where
  observations-All :
      (rows : List CostRow)
      → All (λ row. Q row.observation) rows
      → All Q (map (λ row. row.observation) rows)
  observations-All [] qs = tt
  observations-All (row ∷ rest) (q, qs) = (q, observations-All rest qs)

  list_cost_observations-All :
      (limit : ℤ) (db : Database)
      → All (λ row. Q row.observation) db.cost_observations
      → All Q (list_cost_observations limit db)
  unfolding list_cost_observations
  list_cost_observations-All limit db qs = observations-All _ (
      take-All (λ row. Q row.observation) _ _
        (order_costs-All (λ row. Q row.observation) [] db.cost_observations tt qs))

length-observations :
    (rows : List CostRow) → length (map (λ row. row.observation) rows) ≡ length rows
length-observations [] = refl
length-observations (row ∷ rest) = omega (arith, length-observations rest)

list_cost_observations-le :
    (limit : ℤ) (db : Database) → length (list_cost_observations limit db) ≤ 1000
unfolding list_cost_observations
list_cost_observations-le limit db =
    let n = max 1 (min (pos_part limit) 1000) in
    let rows = order_costs [] db.cost_observations in
    omega (arith, length-observations (take n rows), length-take-le n rows)

module _ (py : Platform) where
  insert_observation-All :
      (o : Fields) (os : List Fields)
      → IsChecked py o
      → All (IsChecked py) os
      → All (IsChecked py) (insert_observation py o os)
  unfolding insert_observation
  insert_observation-All o [] w ws = (w, tt)
  insert_observation-All o (p ∷ rest) w (v, vs) =
      either (All (IsChecked py)) (later py (order_key py p) (order_key py o))
        (v, insert_observation-All o rest w vs) (w, (v, vs))

  latest_first-All :
      (os : List Fields) → All (IsChecked py) os → All (IsChecked py) (latest_first py os)
  unfolding latest_first
  latest_first-All [] ws = tt
  latest_first-All (o ∷ rest) (w, ws) =
      insert_observation-All o (latest_first py rest) w (latest_first-All rest ws)

  write_rows-IsServed :
      (output : String) (os : List Fields)
      → All (IsChecked py) os
      → IsServed (write_rows py output os)
  unfolding write_rows
  write_rows-IsServed output [] ws = served output refl
  write_rows-IsServed output (o ∷ rest) (w, ws) =
      let more = output ++ₛ csv_line py (row_values py o) in
      elim (Bool-cases (leb (text_count more) export_max_bytes)) [
        | inl small ↦ rw (w, small) (write_rows-IsServed more rest ws)
        | inr big ↦ too_big (rw (w, big) refl)
      ]

  bounded_payload-IsServed : (payload : String) → IsServed (bounded_payload py payload)
  unfolding bounded_payload
  bounded_payload-IsServed payload = elim (Bool-cases (leb (utf8_size payload) export_max_bytes)) [
    | inl small ↦ served payload (rw (bounded_payload, small) refl)
    | inr big ↦ too_big (rw (bounded_payload, big) refl)
  ]

  then_IsServed :
      (r : Result String) → IsServed r → IsServed (r >>= λ payload. bounded_payload py payload)
  then_IsServed r (served payload e) = rw e (bounded_payload-IsServed payload)
  then_IsServed r (too_big e) = too_big (rw e refl)

  all_dicts-dict : (os : List Fields) → all_dicts py (map dict os) ≡ some os
  unfolding all_dicts
  all_dicts-dict [] = refl
  all_dicts-dict (o ∷ rest) = rw (all_dicts-dict rest) refl

  export_records-IsServed :
      (os : List Fields)
      → All (IsChecked py) os
      → length os ≤ 1000
      → IsServed (export_records py os)
  unfolding export_records
  export_records-IsServed os ws few =
      let fits : leb (length (latest_first py os)) export_max_rows ≡ true =
        ground (arith, length-latest_first py os) in
      rw fits (
        then_IsServed _
          (write_rows-IsServed header_line (latest_first py os) (latest_first-All os ws)))

  built_All :
      (rows : List CostRow)
      → All (λ row. IsBuilt py row.observation) rows
      → All (λ row. IsChecked py row.observation) rows
  built_All [] bs = tt
  built_All (row ∷ rest) (b, bs) = (
    build_cost_observation-IsExportable py b.observation_id b.request b.target_id b.system b.now
        row.observation b.returned,
    built_All rest bs,
  )

  rows_checked :
      (rows : List CostRow)
      → Extends (IsBuilt py) [] rows
      → All (λ row. IsChecked py row.observation) rows
  rows_checked rows (extends new e bs) =
      subst (All (λ row. IsChecked py row.observation)) (sym e) (built_All new bs)

  stored :
      (repr : Value → String) (cs : List (ℕ × Call))
      → All (Stores (IsBuilt py)) cs
      → All (λ row. IsChecked py row.observation) (run_calls repr cs empty).cost_observations
  stored repr cs built = rows_checked _ (run_calls-Extends (IsBuilt py) repr cs empty built)

  -- What the store lists can always be exported: after any history of calls whose stored observations were
  -- built by `build_cost_observation`, and for every limit, the export of the listed observations
  -- returns its payload, or is refused because that is larger than 4 MiB; no row is refused, and the
  -- bound on the rows is never met.
  pub cost_observation_csv-IsServed :
      (repr : Value → String) (cs : List (ℕ × Call)) (limit : ℤ)
      → All (Stores (IsBuilt py)) cs
      → IsServed (
          cost_observation_csv py
            (map dict (list_cost_observations limit (run_calls repr cs empty))))
  unfolding cost_observation_csv
  cost_observation_csv-IsServed repr cs limit built =
      let db = run_calls repr cs empty in
      let listed = list_cost_observations limit db in
      rw (all_dicts-dict listed) (
        export_records-IsServed listed
          (list_cost_observations-All (IsChecked py) limit db (stored repr cs built))
          (list_cost_observations-le limit db))
