-- ===== src/Cost/Refusals.antt =====
-- cloudmark/cost.py: what an export that is returned holds.
use Prim.Native.String.{◌++◌ as ◌++ₛ◌}
use cloud_mark.Prelude.{
  suc, ◌≤◌, Bool, true, false, Option, none, some, List, [], ◌∷◌, String, if◌then◌else◌, leb,
  length, ◌≡◌, refl, subst, All, arith, inl, inr, Bool-cases, leb→le,
}
use cloud_mark.Python.{
  Value, Fields, Result, ok, ok_injective, ◌>>=◌, ◌>>◌, >>=-eq-ok, guard, Exception, Platform,
}
use cloud_mark.Cost.Parts.{utf8_size}
use cloud_mark.Cost.Export.{
  export_found, export_records, check_observation, write_rows, insert_observation, latest_first,
  all_dicts, cost_observation_csv, bounded_payload, export_max_bytes, export_max_rows, header_line,
  row_values, text_count, later, order_key,
}
use cloud_mark.Cost.Csv.{csv_line}

module _ (py : Platform) where
  abbrev pub IsChecked : Fields → Type 0
  IsChecked o = check_observation py o ≡ ok tt

  write_rows-IsChecked :
      (output payload : String) (os : List Fields)
      → write_rows py output os ≡ ok payload
      → All IsChecked os
  unfolding write_rows
  write_rows-IsChecked output payload [] e = tt
  write_rows-IsChecked output payload (o ∷ rest) e =
      let (done, checked, e1) = >>=-eq-ok (check_observation py o) _ e in
      let more = output ++ₛ csv_line py (row_values py o) in
      elim (Bool-cases (leb (text_count more) export_max_bytes)) [
        | inl small ↦
            let others : write_rows py more rest ≡ ok payload = ground (arith, small) in
            (checked, write_rows-IsChecked more payload rest others)
        | inr big ↦ let no : ⊥ = ground (arith, big) in absurd no
      ]

  inserted_at :
      (b : Bool) (o p : Fields) (rest more : List Fields)
      → (All IsChecked more → IsChecked o × All IsChecked rest)
      → All IsChecked (if b then p ∷ more else o ∷ p ∷ rest)
      → IsChecked o × All IsChecked (p ∷ rest)
  inserted_at true o p rest more next (w, ws) = let (v, others) = next ws in (v, (w, others))
  inserted_at false o p rest more next (w, ws) = (w, ws)

  inserted :
      (o : Fields) (os : List Fields)
      → All IsChecked (insert_observation py o os)
      → IsChecked o × All IsChecked os
  unfolding insert_observation
  inserted o [] (w, ws) = (w, tt)
  inserted o (p ∷ rest) ws =
      inserted_at (later py (order_key py p) (order_key py o)) o p rest
        (insert_observation py o rest) (inserted o rest) ws

  unsorted : (os : List Fields) → All IsChecked (latest_first py os) → All IsChecked os
  unfolding latest_first
  unsorted [] ws = tt
  unsorted (o ∷ rest) ws =
      let (w, others) = inserted o (latest_first py rest) ws in (w, unsorted rest others)

  length-insert_observation :
      (o : Fields) (os : List Fields) → length (insert_observation py o os) ≡ suc (length os)
  unfolding insert_observation
  length-insert_observation o [] = refl
  length-insert_observation o (p ∷ rest) = ground (arith, length-insert_observation o rest)

  pub length-latest_first : (os : List Fields) → length (latest_first py os) ≡ length os
  unfolding latest_first
  length-latest_first [] = refl
  length-latest_first (o ∷ rest) =
      omega (arith, length-insert_observation o (latest_first py rest), length-latest_first rest)

  bounded_payload-le :
      (written payload : String)
      → bounded_payload py written ≡ ok payload
      → utf8_size payload ≤ export_max_bytes
  unfolding bounded_payload
  bounded_payload-le written payload e =
      elim (Bool-cases (leb (utf8_size written) export_max_bytes)) [
        | inl small ↦
            let same : ok written ≡ ok payload = ground (arith, small) in
            subst (λ z. utf8_size z ≤ export_max_bytes) (ok_injective same) (leb→le _ _ small)
        | inr big ↦ let no : ⊥ = ground (arith, big) in absurd no
      ]

-- What an export that is returned was made of.
pub record IsSound (py : Platform) (observations : List Value) (payload : String) : Type 0 where
  pub records : List Fields
  pub all_records : all_dicts py observations ≡ some records
  pub checked : All (IsChecked py) records
  pub row_bound : length records ≤ export_max_rows
  pub size_bound : utf8_size payload ≤ export_max_bytes

records_found :
    (py : Platform) (o : Option (List Fields)) (payload : String)
    → export_found py o ≡ ok payload
    → (os : List Fields) × ((o ≡ some os) × (export_records py os ≡ ok payload))
records_found py none payload e = let no : ⊥ = cc in absurd no
records_found py (some os) payload e = (os, (refl, e))

past_bound :
    (test : Bool) (x : Exception) (next : Result String) {payload : String}
    → (guard test x >> next) ≡ ok payload
    → (test ≡ true) × (next ≡ ok payload)
past_bound true x next e = (refl, e)
past_bound false x next e = let no : ⊥ = cc in absurd no

records_bound :
    (py : Platform) (os : List Fields) (payload : String)
    → export_records py os ≡ ok payload
    → (leb (length (latest_first py os)) export_max_rows ≡ true)
      × ((write_rows py header_line (latest_first py os) >>= λ written. bounded_payload py written)
          ≡ ok payload)
unfolding export_records
records_bound py os payload e = past_bound (leb (length (latest_first py os)) export_max_rows) _ _ e

-- An export is refused unless every item is an observation that passes all the tests: what is returned holds
-- at most 1000 rows and 4 MiB, and one observation that is no dictionary, has another version or is
-- inconsistent makes the whole export fail.
pub cost_observation_csv-IsSound :
    (py : Platform) (observations : List Value) (payload : String)
    → cost_observation_csv py observations ≡ ok payload
    → IsSound py observations payload
unfolding cost_observation_csv
cost_observation_csv-IsSound py observations payload e =
    let (os, (all, exported)) = records_found py (all_dicts py observations) payload e in
    let (few, e1) = records_bound py os payload exported in
    let (written, rows, sized) = >>=-eq-ok (write_rows py header_line (latest_first py os)) _ e1 in
    record {
      records = os;
      all_records = all;
      checked =
          unsorted py os (write_rows-IsChecked py header_line written (latest_first py os) rows);
      row_bound = rw (← length-latest_first py os) (leb→le _ _ few);
      size_bound = bounded_payload-le py written payload sized;
    }
