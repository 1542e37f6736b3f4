-- ===== src/Samples/Costs.antt =====
-- Worked examples of cost observations.
use cloud_mark.Prelude.{str_eq, [], ◌∷◌, String, ◌≡◌, refl, false}
use cloud_mark.Python.{Fields, bool, str, dict, field, end, Result, ok, raise}
use cloud_mark.Cost.Amounts.{price_amount}
use cloud_mark.Cost.RoundTrip.{price_amount_idem}
use cloud_mark.Cost.Observation.{build_cost_observation}
use cloud_mark.Cost.Export.{check_observation, cost_observation_csv}
use cloud_mark.Cost.Csv.{csv_cell, text_cell, is_formula}
use cloud_mark.Cost.Cells.{csv_cell-IsNeutral}
use cloud_mark.Cost.Exporting.{build_cost_observation-IsExportable}
use cloud_mark.Cost.Refusals.{IsSound, cost_observation_csv-IsSound}
use cloud_mark.Samples.{platform}

read_price : price_amount (str "0012.500") ≡ ok "12.5"
unfolding price_amount
read_price = refl

price_amount_idem_example : price_amount (str "12.5") ≡ ok "12.5"
price_amount_idem_example = price_amount_idem (str "0012.500") "12.5" read_price

formula_cell : csv_cell platform (str " =1+1") ≡ text_cell "' =1+1"
unfolding csv_cell
formula_cell = refl

csv_cell-IsNeutral_example : is_formula "' =1+1" ≡ false
csv_cell-IsNeutral_example = csv_cell-IsNeutral platform (str " =1+1") "' =1+1" formula_cell

abbrev pub request : Fields
request = field "amount" (str "12.50") (
    field "currency" (str "eur") (
      field "billing_unit" (str "month") (
        field "commitment" (str "on-demand") (
          field "tax_included" (bool false) (
            field "source_type" (str "operator-reference")
              (field "source_reference" (str "Invoice  7") end))))))

abbrev pub system : Fields
system =
    field "provider"
      (dict (field "provider" (str "Acme") (field "instance_type" (str "small") end))) end

abbrev built : Result Fields → Fields
built (ok fs) = fs
built (raise e) = end

abbrev pub observation : Fields
observation = built (build_cost_observation platform "o1" request "a1" system 9)

pub returned_observation :
    build_cost_observation platform "o1" request "a1" system 9 ≡ ok observation
unfolding build_cost_observation str_eq
returned_observation = refl

build_cost_observation-IsExportable_example : check_observation platform observation ≡ ok tt
build_cost_observation-IsExportable_example =
    build_cost_observation-IsExportable platform "o1" request "a1" system 9 observation
      returned_observation

abbrev payload_of : Result String → String
payload_of (ok s) = s
payload_of (raise e) = ""

abbrev payload : String
payload = payload_of (cost_observation_csv platform (dict observation ∷ []))

returned_payload : cost_observation_csv platform (dict observation ∷ []) ≡ ok payload
unfolding cost_observation_csv build_cost_observation str_eq
returned_payload = refl

cost_observation_csv-IsSound_example : IsSound platform (dict observation ∷ []) payload
cost_observation_csv-IsSound_example =
    cost_observation_csv-IsSound platform (dict observation ∷ []) payload returned_payload
