-- ===== src/Suitability/StorageContract.antt =====
-- cloudmark/suitability.py: `storage_run_contract`, the filesystem and device that a storage run measured.
use Prim.Native.String.{◌++◌ as ◌++ₛ◌}
use cloud_mark.Prelude.{
  Bool, true, false, not, ◌&&◌, List, [], ◌∷◌, String, str_eq, if◌then◌else◌, take, map,
}
use cloud_mark.Python.{
  Value, Items, Fields, bool, int, str, list, nil, cons, get_field, truthy, value_eq, is_bool,
  Platform,
}
use cloud_mark.Store.Schema.{Run}
use cloud_mark.Campaigns.Contract.{text_lt}
use cloud_mark.Suitability.Runs.{is_one_of}
use cloud_mark.Suitability.Contracts.{dict_at, result_fields, contract_token}

-- isinstance(v, int): a bool is one.
abbrev pub is_integer : Value → Bool
is_integer (int n) = true
is_integer (bool b) = true
is_integer _ = false

abbrev pub text_is : Value → String → Bool
text_is v s = value_eq v (str s)

-- A Boolean's name in lower case, or `unknown`.
abbrev pub flag_text : Value → String
flag_text (bool true) = "true"
flag_text (bool false) = "false"
flag_text _ = "unknown"

list_of : Items → List Value
list_of nil = []
list_of (cons v vs) = v ∷ list_of vs

abbrev values_of : Value → List Value
values_of (list vs) = list_of vs
values_of _ = []

insert_option : String → List String → List String
insert_option s [] = s ∷ []
insert_option s (t ∷ rest) = if text_lt s t then s ∷ t ∷ rest else t ∷ insert_option s rest

-- sorted(…), which keeps equal texts.
sort_options : List String → List String → List String
unfolding insert_option
sort_options sorted [] = sorted
sort_options sorted (s ∷ rest) = sort_options (insert_option s sorted) rest

join_commas : List String → String
join_commas [] = ""
join_commas (s ∷ []) = s
join_commas (s ∷ t ∷ rest) = s ++ₛ "," ++ₛ join_commas (t ∷ rest)

abbrev text_or_default : (default : String) → String → String
text_or_default default s = if str_eq s "" then default else s

module _ (py : Platform) where
  abbrev token : Fields → String → String
  token fs k = contract_token py (get_field k fs) "unknown"

  abbrev mount_options : Fields → String
  mount_options mount = text_or_default "none-observed" (
      join_commas (
        sort_options [] (
          map (λ item. contract_token py item "unknown")
            (take 32 (values_of (get_field "mount_options" mount))))))

  base_contract : (environment mount tool : Fields) → String
  unfolding list_of contract_token get_field sort_options join_commas
  base_contract environment mount tool =
      "environment="
      ++ₛ token environment "methodology_version"
      ++ₛ ";filesystem="
      ++ₛ token mount "filesystem_type"
      ++ₛ ";source="
      ++ₛ token mount "source_class"
      ++ₛ ";mount-options="
      ++ₛ mount_options mount
      ++ₛ ";tool="
      ++ₛ token tool "name"
      ++ₛ ":"
      ++ₛ token tool "version"

  unfoldable pub mount_verified : (environment mount tool : Fields) → Bool
  unfolding contract_token get_field value_eq truthy
  mount_verified environment mount tool =
      text_is (get_field "methodology_version" environment) "storage-environment-v1"
      && text_is (get_field "evidence_status" environment) "complete"
      && text_is (get_field "status" mount) "observed"
      && not (str_eq (token mount "filesystem_type") "unknown")
      && is_one_of
          ("block-device" ∷ "network-filesystem" ∷ "memory-filesystem" ∷ "overlay-filesystem" ∷ [])
          (token mount "source_class")
      && truthy (get_field "name" tool)
      && truthy (get_field "version" tool)

  block_contract : (block scheduler : Fields) → String
  unfolding contract_token get_field
  block_contract block scheduler =
      "type="
      ++ₛ token block "device_type"
      ++ₛ ";scheduler="
      ++ₛ token scheduler "selected"
      ++ₛ ";rotational="
      ++ₛ flag_text (get_field "rotational" block)
      ++ₛ ";logical="
      ++ₛ token block "logical_block_size_bytes"
      ++ₛ ";physical="
      ++ₛ token block "physical_block_size_bytes"
      ++ₛ ";write-cache="
      ++ₛ token block "write_cache"
      ++ₛ ";stacked-slaves="
      ++ₛ contract_token py (get_field "stacked_slave_count" block) "0"

  unfoldable pub block_verified : (block scheduler : Fields) → Bool
  unfolding get_field value_eq truthy
  block_verified block scheduler =
      text_is (get_field "status" block) "observed"
      && truthy (get_field "selected" scheduler)
      && is_bool (get_field "rotational" block)
      && is_integer (get_field "logical_block_size_bytes" block)
      && is_integer (get_field "physical_block_size_bytes" block)

  -- storage_run_contract
  unfoldable pub storage_run_contract : Run → String × Bool
  unfolding get_field contract_token base_contract mount_verified block_contract block_verified
  storage_run_contract run =
      if not (str_eq run.suite "storage")
      then ("not-applicable", true)
      else (let environment = dict_at "storage_environment" (result_fields run) in
          let mount = dict_at "mount" environment in
          let block = dict_at "block_device" environment in
          let tool = dict_at "tool" (result_fields run) in
          let base = base_contract environment mount tool in
          if not (str_eq (token mount "source_class") "block-device")
          then (base ++ₛ ";block=not-applicable", mount_verified environment mount tool)
          else (
            base ++ₛ ";block=" ++ₛ block_contract block (dict_at "scheduler" block),
            mount_verified environment mount tool
                && block_verified block (dict_at "scheduler" block),
          ))
