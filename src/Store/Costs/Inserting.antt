-- ===== src/Store/Costs/Inserting.antt =====
-- cloudmark/database.py: `create_cost_observation` inserts one row or changes nothing.
use cloud_mark.Prelude.{String, ◌≡◌, refl}
use cloud_mark.Python.{Value, Fields, Result, ok, raise, ◌>>=◌, get_field, dict_or_empty}
use cloud_mark.Store.Schema.{CostRow, Database}
use cloud_mark.Store.Costs.{item_at, insert_cost, create_cost_observation}
use cloud_mark.Store.Tasks.Calls.{or_unchanged}

module _ {κ} (P : Database → Type κ) (db : Database) (same : P db) where
  unchanged_after {ℓ} :
      {A : Type ℓ} (r : Result A) (next : A → Result Database)
      → ((a : A) → P (or_unchanged db (next a)))
      → P (or_unchanged db (r >>= next))
  unchanged_after (raise e) next h = same
  unchanged_after (ok a) next h = h a

  pub after_insert :
      (repr : Value → String) (observation : Fields)
      → ((row : CostRow) → row.observation ≡ observation → P (or_unchanged db (insert_cost row db)))
      → P (or_unchanged db (create_cost_observation repr observation db))
  unfolding create_cost_observation
  after_insert repr observation h = unchanged_after (item_at "id" observation) _ λ id.
      unchanged_after (item_at "id" (dict_or_empty (get_field "target" observation))) _ λ target_id.
        unchanged_after (item_at "observed_at" observation) _
          λ observed_at. unchanged_after (item_at "created_at" observation) _ λ created_at. h _ refl
