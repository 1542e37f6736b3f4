-- ===== src/Store/Costs.antt =====
-- cloudmark/database.py: the table cost_observations. The JSON text of a column stands for its value.
pub mod Inserting
pub mod Immutable
use cloud_mark.Prelude.{
  ℕ, Bool, true, false, not, List, [], ◌∷◌, ◌++◌, String, str_eq, if◌then◌else◌, any, max, min,
  take, map, ℤ, pos_part,
}
use cloud_mark.Python.{
  Value, Fields, end, field, get_field, dict_or_empty, Result, ok, raise, ◌>>=◌, key_error,
  integrity_error,
}
use cloud_mark.Campaigns.Contract.{text_lt}
use cloud_mark.Store.Schema.{CostRow, Database}
use cloud_mark.Store.Runs.{to_str}

-- fields[key]
unfoldable pub item_at : String → Fields → Result Value
item_at key end = raise key_error
item_at key (field k v rest) = if str_eq key k then ok v else item_at key rest

abbrev cost_is : String → CostRow → Bool
cost_is id row = str_eq row.id id

-- The INSERT: the id is the primary key.
unfoldable pub insert_cost : CostRow → Database → Result Database
insert_cost row db =
    if any (cost_is row.id) db.cost_observations
    then raise integrity_error
    else ok (record db { cost_observations = db.cost_observations ++ row ∷ [] })

unfoldable pub create_cost_observation :
    (repr : Value → String) (observation : Fields) → Database → Result Database
unfolding get_field item_at insert_cost to_str
create_cost_observation repr observation db = do
  id ← item_at "id" observation
  target_id ← item_at "id" (dict_or_empty (get_field "target" observation))
  observed_at ← item_at "observed_at" observation
  created_at ← item_at "created_at" observation
  insert_cost
      (record {
        id = to_str repr id;
        target_id = to_str repr target_id;
        observed_at = to_str repr observed_at;
        created_at = to_str repr created_at;
        observation = observation;
      })
      db

-- A row of a greater rowid comes before another one.
unfoldable pub comes_first : CostRow → CostRow → Bool
comes_first row other =
    if str_eq row.observed_at other.observed_at
    then not (text_lt row.created_at other.created_at)
    else text_lt other.observed_at row.observed_at

-- One more row, of a greater rowid, into ORDER BY observed_at DESC, created_at DESC, rowid DESC.
unfoldable pub insert_cost_row : CostRow → List CostRow → List CostRow
unfolding comes_first
insert_cost_row row [] = row ∷ []
insert_cost_row row (x ∷ xs) =
    if comes_first row x then row ∷ x ∷ xs else x ∷ insert_cost_row row xs

unfoldable pub order_costs : List CostRow → List CostRow → List CostRow
unfolding insert_cost_row
order_costs sorted [] = sorted
order_costs sorted (row ∷ rest) = order_costs (insert_cost_row row sorted) rest

unfoldable pub list_cost_observations : ℤ → Database → List Fields
unfolding order_costs
list_cost_observations limit db =
    map (λ row. row.observation)
      (take (max 1 (min (pos_part limit) 1000)) (order_costs [] db.cost_observations))
