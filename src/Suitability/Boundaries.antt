-- ===== src/Suitability/Boundaries.antt =====
-- cloudmark/suitability.py: `_system_execution_contract`, the tool and the resource boundary that a compute
-- or memory run was measured in. A conjunction stops at the first test that fails.
use Prim.Native.String.{◌++◌ as ◌++ₛ◌}
use cloud_mark.Prelude.{
  ℕ, Bool, true, false, not, ◌&&◌, ◌||◌, Option, none, some, [], ◌∷◌, String, str_eq, if◌then◌else◌,
  leb, is_some, Float, pos,
}
use cloud_mark.Python.{
  Value, Fields, int, float, list, dict, get_field, is_true, is_bool, is_null, value_eq, Result,
  raise, ok, ◌>>=◌, type_error, Platform, text_of,
}
use cloud_mark.Store.Schema.{Run}
use cloud_mark.Suitability.Runs.{is_one_of}
use cloud_mark.Suitability.Contracts.{
  dict_at, result_fields, contract_token, positive_integer, finite_positive_number,
}
use cloud_mark.Suitability.StorageContract.{is_integer, text_is, flag_text}

-- if not test: the conjunction is false, and what follows is not evaluated.
abbrev and_then : Bool → Result Bool → Result Bool
and_then false rest = ok false
and_then true rest = rest

-- v in {None, "v1", "v2"}: a list or a dictionary has no hash.
unfoldable pub is_cgroup_version : Value → Result Bool
unfolding value_eq
is_cgroup_version (list vs) = raise type_error
is_cgroup_version (dict fs) = raise type_error
is_cgroup_version v = ok (is_null v || (text_is v "v1" || text_is v "v2"))

abbrev within : Option ℕ → Option ℕ → Bool
within (some a) (some b) = leb a b
within _ _ = true

pub record CpuBoundary : Type 0 where
  pub tool_name : String
  pub tool_version : String
  pub host_cores : Option ℕ
  pub affinity_cores : Option ℕ
  pub effective_cores : Option ℕ
  pub affinity_respected : Value
  pub quota_verified : Value
  pub quota_applied : Value
  pub quota_version : Value
  pub quota_capacity : Option Float
  pub quota_ceiling : Option ℕ

abbrev is_known : String → Bool
is_known version = not (is_one_of ("unknown" ∷ "unknown-version" ∷ []) version)

abbrev is_natural : Value → Bool
is_natural (int (pos n)) = true
is_natural _ = false

module _ (py : Platform) where
  unfoldable pub cpu_boundary : (cpu tool : Fields) → CpuBoundary
  unfolding get_field contract_token finite_positive_number
  cpu_boundary cpu tool = record {
    tool_name = contract_token py (get_field "name" tool) "unknown";
    tool_version = contract_token py (get_field "version" tool) "unknown";
    host_cores = positive_integer (get_field "host_logical_cores" cpu);
    affinity_cores = positive_integer (get_field "affinity_logical_cores" cpu);
    effective_cores = positive_integer (get_field "effective_logical_cores" cpu);
    affinity_respected = get_field "affinity_respected" cpu;
    quota_verified = get_field "cgroup_cpu_quota_verified" cpu;
    quota_applied = get_field "cgroup_cpu_quota_applied" cpu;
    quota_version = get_field "cgroup_version" cpu;
    quota_capacity = finite_positive_number (get_field "quota_capacity_cores" cpu);
    quota_ceiling = positive_integer (get_field "quota_thread_ceiling" cpu);
  }

  -- The conjuncts before the test of the cgroup version.
  unfoldable pub cpu_observed : Fields → CpuBoundary → Bool
  unfolding get_field
  cpu_observed cpu b =
      not (str_eq b.tool_name "unknown")
      && is_known b.tool_version
      && is_some b.host_cores
      && is_some b.effective_cores
      && is_bool b.affinity_respected
      && (if is_true b.affinity_respected
          then is_some b.affinity_cores
          else is_null (get_field "affinity_logical_cores" cpu))
      && is_true b.quota_verified
      && is_bool b.quota_applied

  -- The conjuncts behind it.
  unfoldable pub cpu_consistent : Fields → CpuBoundary → Bool
  unfolding get_field
  cpu_consistent cpu b =
      (if is_true b.quota_applied
        then is_some b.quota_capacity && is_some b.quota_ceiling
        else is_null (get_field "quota_capacity_cores" cpu)
          && is_null (get_field "quota_thread_ceiling" cpu))
      && within b.effective_cores b.host_cores
      && within b.effective_cores b.affinity_cores
      && within b.effective_cores b.quota_ceiling

  unfoldable pub cpu_verified : Fields → CpuBoundary → Result Bool
  unfolding cpu_observed is_cgroup_version cpu_consistent
  cpu_verified cpu b =
      and_then (cpu_observed cpu b)
        (is_cgroup_version b.quota_version >>= λ known. ok (known && cpu_consistent cpu b))

  abbrev count_text : (missing : String) → Option ℕ → String
  count_text missing none = missing
  count_text missing (some n) = text_of py (int (pos n))

  abbrev capacity_text : Option Float → String
  capacity_text none = "unlimited"
  capacity_text (some x) = text_of py (float x)

  cpu_contract : CpuBoundary → String
  unfolding text_of contract_token
  cpu_contract b =
      "tool="
      ++ₛ b.tool_name
      ++ₛ ":"
      ++ₛ b.tool_version
      ++ₛ ";host-threads="
      ++ₛ count_text "unknown" b.host_cores
      ++ₛ ";affinity-threads="
      ++ₛ count_text "unavailable" b.affinity_cores
      ++ₛ ";effective-threads="
      ++ₛ count_text "unknown" b.effective_cores
      ++ₛ ";cpu-cgroup="
      ++ₛ contract_token py b.quota_version "none-observed"
      ++ₛ ";quota-cores="
      ++ₛ capacity_text b.quota_capacity
      ++ₛ ";quota-thread-ceiling="
      ++ₛ count_text "unlimited" b.quota_ceiling

  memory_observed : (preflight memory tool : Fields) → Bool
  unfolding get_field contract_token value_eq
  memory_observed preflight memory tool =
      is_known (contract_token py (get_field "compiler_version" tool) "unknown")
      && is_some (positive_integer (get_field "array_bytes" preflight))
      && is_some (positive_integer (get_field "safety_reserve_bytes" preflight))
      && text_is (get_field "status" memory) "observed"
      && is_true (get_field "cgroup_headroom_verified" memory)
      && is_true (get_field "read_only" memory)

  memory_consistent : (memory environment paging hugepage zswap : Fields) → Bool
  unfolding get_field contract_token value_eq
  memory_consistent memory environment paging hugepage zswap =
      is_bool (get_field "finite_cgroup_limit_detected" memory)
      && (if is_true (get_field "finite_cgroup_limit_detected" memory)
          then is_some (positive_integer (get_field "cgroup_limit_bytes" memory))
          else is_null (get_field "cgroup_limit_bytes" memory))
      && text_is (get_field "methodology_version" environment) "memory-environment-v2"
      && text_is (get_field "evidence_status" environment) "complete"
      && is_some (positive_integer (get_field "page_size_bytes" environment))
      && is_some (positive_integer (get_field "node_count" environment))
      && text_is (get_field "status" paging) "observed"
      && is_natural (get_field "swap_total_bytes" paging)
      && is_natural (get_field "huge_pages_total" paging)
      && not (str_eq (contract_token py (get_field "enabled_policy" hugepage) "unknown") "unknown")
      && not (str_eq (contract_token py (get_field "defrag_policy" hugepage) "unknown") "unknown")
      && is_bool (get_field "enabled" zswap)

  unfoldable pub memory_verified :
      (cpu : Bool)
      → (preflight memory tool environment paging hugepage zswap : Fields) → Result Bool
  unfolding get_field is_cgroup_version memory_observed memory_consistent
  memory_verified cpu preflight memory tool environment paging hugepage zswap =
      and_then (cpu && memory_observed preflight memory tool) (
        is_cgroup_version (get_field "cgroup_version" memory) >>= λ known.
        ok (known && memory_consistent memory environment paging hugepage zswap))

  abbrev integer_text : Value → String
  integer_text v = if is_integer v then text_of py v else "unknown"

  memory_contract : (preflight memory tool environment paging hugepage zswap : Fields) → String
  unfolding get_field text_of contract_token
  memory_contract preflight memory tool environment paging hugepage zswap =
      "compiler="
      ++ₛ contract_token py (get_field "compiler_version" tool) "unknown"
      ++ₛ ";array-bytes="
      ++ₛ count_text "unknown" (positive_integer (get_field "array_bytes" preflight))
      ++ₛ ";reserve-bytes="
      ++ₛ count_text "unknown" (positive_integer (get_field "safety_reserve_bytes" preflight))
      ++ₛ ";memory-cgroup="
      ++ₛ contract_token py (get_field "cgroup_version" memory) "none-observed"
      ++ₛ ";memory-limit-bytes="
      ++ₛ count_text "unlimited" (positive_integer (get_field "cgroup_limit_bytes" memory))
      ++ₛ ";environment="
      ++ₛ contract_token py (get_field "methodology_version" environment) "unknown"
      ++ₛ ";page-bytes="
      ++ₛ count_text "unknown" (positive_integer (get_field "page_size_bytes" environment))
      ++ₛ ";numa-nodes="
      ++ₛ count_text "unknown" (positive_integer (get_field "node_count" environment))
      ++ₛ ";swap-total-bytes="
      ++ₛ integer_text (get_field "swap_total_bytes" paging)
      ++ₛ ";huge-pages-total="
      ++ₛ integer_text (get_field "huge_pages_total" paging)
      ++ₛ ";thp="
      ++ₛ contract_token py (get_field "enabled_policy" hugepage) "unknown"
      ++ₛ ";thp-defrag="
      ++ₛ contract_token py (get_field "defrag_policy" hugepage) "unknown"
      ++ₛ ";zswap="
      ++ₛ flag_text (get_field "enabled" zswap)

  with_memory :
      (cpu_text : String) → (cpu : Bool) → (preflight tool : Fields) → Result (String × Bool)
  unfolding get_field memory_verified memory_contract
  with_memory cpu_text cpu preflight tool = do
    let memory = dict_at "memory_allocation_boundary" preflight
    let environment = dict_at "memory_environment" preflight
    let paging = dict_at "paging" environment
    let hugepage = dict_at "transparent_hugepage" paging
    let zswap = dict_at "zswap" paging
    verified ← memory_verified cpu preflight memory tool environment paging hugepage zswap
    ok (
      "system-execution-v1;"
          ++ₛ cpu_text
          ++ₛ ";"
          ++ₛ memory_contract preflight memory tool environment paging hugepage zswap,
      verified,
    )

  -- _system_execution_contract
  unfoldable pub system_execution_contract : Run → Result (String × Bool)
  unfolding get_field cpu_boundary cpu_verified cpu_contract with_memory
  system_execution_contract run =
      if not (is_one_of ("compute" ∷ "memory" ∷ []) run.suite)
      then ok ("not-applicable", true)
      else do
        let preflight = dict_at "preflight" (result_fields run)
        let tool = dict_at "tool" (result_fields run)
        let cpu = dict_at "cpu_execution_boundary" preflight
        let boundary = cpu_boundary cpu tool
        verified ← cpu_verified cpu boundary
        if str_eq run.suite "compute"
            then ok ("system-execution-v1;" ++ₛ cpu_contract boundary, verified)
            else with_memory (cpu_contract boundary) verified preflight tool
