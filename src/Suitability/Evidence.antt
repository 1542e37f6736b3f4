-- ===== src/Suitability/Evidence.antt =====
-- cloudmark/suitability.py: one piece of evidence, how fresh and how good it is, and the dictionary that
-- keeps the best piece under each key.
use cloud_mark.Prelude.{
  ℕ, suc, ◌+◌, ◌*◌, Bool, true, false, not, ◌&&◌, ◌||◌, Option, none, some, List, [], ◌∷◌, String,
  str_eq, if◌then◌else◌, ltb, leb, ◌++◌, Float, fraction, float_one, float_zero, is_finite,
}
use cloud_mark.Python.{
  Value, null, bool, int, float, str, dict, end, get_field, or_else, optional_text, truthy, get,
  Result, ok, ◌>>=◌, codes, contains,
}
use cloud_mark.Store.Schema.{Run}

abbrev pub microseconds : ℕ
microseconds = 1000000

-- EVIDENCE_MAX_AGE_DAYS, in microseconds.
abbrev pub evidence_max_age : ℕ
evidence_max_age = 30 * 86400 * microseconds

-- EVIDENCE_FUTURE_SKEW_SECONDS, in microseconds.
abbrev pub evidence_future_skew : ℕ
evidence_future_skew = 86400 * microseconds

abbrev get_if_dict : String → Value → Value
get_if_dict k (dict fs) = get_field k fs
get_if_dict k _ = null

-- _nested(v, *path)
unfoldable pub nested : Value → List String → Value
unfolding get_field
nested v [] = v
nested v (k ∷ path) = nested (get_if_dict k v) path

unfoldable pub number : Value → Option Float
number (bool true) = some float_one
number (bool false) = some float_zero
number (int n) = some (fraction n 0)
number (float x) = if is_finite x then some x else none
number _ = none

-- Part of a text, as `in` tests it.
abbrev in_text : String → String → Bool
in_text token text = contains (codes text) (codes token)

unfoldable pub profile_quality : String → String × ℕ
unfolding contains
profile_quality profile =
    if in_text "standard" profile
      || (in_text "sustained" profile
          || (in_text "throughput" profile || in_text "database" profile))
    then ("standard", 2)
    else if in_text "quick" profile
    then ("quick", 1)
    else ("specialized", 2)

unfoldable pub timestamp_is_fresh : (now : ℕ) → Option ℕ → Bool
timestamp_is_fresh now none = false
timestamp_is_fresh now (some observed) =
    leb observed (now + evidence_future_skew) && leb now (observed + evidence_max_age)

-- run.get("finished_at") or run.get("started_at")
abbrev pub observed_at_of : Run → Option ℕ
observed_at_of run = elim run.finished_at [ none ↦ run.started_at | some t ↦ some t ]

unfoldable pub run_is_fresh : (now : ℕ) → Run → Bool
unfolding timestamp_is_fresh
run_is_fresh now run = timestamp_is_fresh now (observed_at_of run)

-- The part of an item that `_public_evidence` shows: the keys without an underscore.
pub record Evidence : Type 0 where
  pub value : Float
  pub unit : String
  pub source : String
  pub run_id : Option String
  pub profile : Option String
  pub methodology_version : Value
  pub observed_at : Option ℕ
  pub quality : String
  pub stale : Bool

pub record Item : Type 0 where
  pub public_evidence : Evidence
  pub rank : ℕ

-- _evidence_item without a run.
unfoldable pub inventory_item : (now : ℕ) → Float → String → Option ℕ → Item
unfolding timestamp_is_fresh
inventory_item now value unit observed_at = record {
  public_evidence = record {
    value = value;
    unit = unit;
    source = "inventory";
    run_id = none;
    profile = none;
    methodology_version = str "inventory-v1";
    observed_at = observed_at;
    quality = "observed-fact";
    stale = not (timestamp_is_fresh now observed_at);
  };
  rank = 3;
}

abbrev pub result_value : Run → Value
result_value run = elim run.result [ none ↦ null | some v ↦ v ]

-- _evidence_item of a run.
unfoldable pub run_item : (now : ℕ) → Run → (source : String) → Float → (unit : String) → Item
unfolding timestamp_is_fresh profile_quality nested or_else
run_item now run source value unit = record {
  public_evidence = record {
    value = value;
    unit = unit;
    source = source;
    run_id = some run.id;
    profile = some run.profile;
    methodology_version =
        or_else (nested (result_value run) ("methodology_version" ∷ []))
          (optional_text run.methodology_version);
    observed_at = observed_at_of run;
    quality = (profile_quality run.profile).0;
    stale = not (timestamp_is_fresh now (observed_at_of run));
  };
  rank = (profile_quality run.profile).1;
}

-- str(observed_at or ""): no time stands before every time.
abbrev stamp : Option ℕ → ℕ
stamp none = 0
stamp (some t) = suc t

-- candidate_order > existing_order
unfoldable pub outranks : Item → Item → Bool
outranks candidate existing =
    let fresh = not candidate.public_evidence.stale in
    let was_fresh = not existing.public_evidence.stale in
    if fresh && not was_fresh
    then true
    else if was_fresh && not fresh
    then false
    else if ltb existing.rank candidate.rank
    then true
    else if ltb candidate.rank existing.rank
    then false
    else ltb (stamp existing.public_evidence.observed_at)
        (stamp candidate.public_evidence.observed_at)

-- evidence.get(key)
unfoldable pub find_item : String → List (String × Item) → Option Item
find_item key [] = none
find_item key ((k, item) ∷ rest) = if str_eq k key then some item else find_item key rest

unfoldable pub put : String → Item → List (String × Item) → List (String × Item)
unfolding outranks
put key item [] = (key, item) ∷ []
put key item ((k, existing) ∷ rest) =
    if str_eq k key
    then (if outranks item existing then (k, item) ∷ rest else (k, existing) ∷ rest)
    else (k, existing) ∷ put key item rest

-- The calls of `_put` of one function, in their order.
unfoldable pub put_all : List (String × Item) → List (String × Item) → List (String × Item)
unfolding put
put_all evidence [] = evidence
put_all evidence ((key, item) ∷ rest) = put_all (put key item evidence) rest

abbrev number_candidate :
    (now : ℕ) → String → Option Float → String → Option ℕ → List (String × Item)
number_candidate now key none unit observed_at = []
number_candidate now key (some x) unit observed_at =
    (key, inventory_item now x unit observed_at) ∷ []

-- The calls of `_put` of `_inventory_evidence`.
unfoldable pub inventory_candidates : (now : ℕ) → Value → Option ℕ → Result (List (String × Item))
unfolding inventory_item nested number or_else get truthy
inventory_candidates now system observed_at = do
  found ← get system "inventory"
  let inventory = or_else found (dict end)
  named ← get inventory "capabilities"
  let capabilities = or_else named (dict end)
  docker ← get capabilities "docker"
  podman ← get capabilities "podman"
  let cores = number (nested inventory ("cpu" ∷ "logical_cores" ∷ []))
  let memory = number (nested inventory ("memory" ∷ "total_bytes" ∷ []))
  let runtime = if truthy docker || truthy podman then float_one else float_zero
  ok (
      number_candidate now "inventory.logical_cores" cores "cores" observed_at
      ++ number_candidate now "inventory.memory_bytes" memory "B" observed_at
      ++ ("inventory.container_runtime", inventory_item now runtime "boolean" observed_at) ∷ [])

-- _inventory_evidence
unfoldable pub inventory_evidence :
    (now : ℕ) → List (String × Item) → Value → Option ℕ → Result (List (String × Item))
unfolding inventory_candidates put_all
inventory_evidence now evidence system observed_at = do
  candidates ← inventory_candidates now system observed_at
  ok (put_all evidence candidates)
