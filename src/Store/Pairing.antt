-- ===== src/Store/Pairing.antt =====
-- cloudmark/database.py: the tables sessions and agents.
pub mod Readiness
use cloud_mark.Prelude.{
  ℕ, ◌+◌, Bool, true, false, not, Option, none, some, List, [], ◌∷◌, ◌++◌, String, str_eq,
  if◌then◌else◌, ◌&&◌, ◌||◌, select, select_one, update, row_count, leb, ltb, max, min, take, ℤ,
  pos_part, is_some, map, any,
}
use cloud_mark.Python.{Value, Fields, str, dict, field, end, Result, ok, raise, integrity_error}
use cloud_mark.Store.Schema.{Session, Agent, Database}

abbrev pub session_is : String → Session → Bool
session_is session_id s = str_eq s.id session_id

abbrev pub agent_is : String → Agent → Bool
agent_is agent_id a = str_eq a.id agent_id

abbrev pub agent_of : String → Agent → Bool
agent_of session_id a = str_eq a.session_id session_id

-- `json.dumps(topology or {})`
topology_column : Option Fields → Value
topology_column none = dict end
topology_column (some fs) = dict fs

unfoldable pub create_session :
    (now : ℕ) (session_id label join_token_hash expires_at : String) (topology : Option Fields)
    → Database
    → Result Database
unfolding topology_column
create_session now session_id label join_token_hash expires_at topology db =
    if is_some (select_one (session_is session_id) db.sessions)
    then raise integrity_error
    else ok (record db {
      sessions =
          db.sessions
          ++ (record {
            id = session_id;
            label = label;
            join_token_hash = join_token_hash;
            ready = false;
            created_at = now;
            expires_at = expires_at;
            topology = topology_column topology;
          })
            ∷ [];
    })

-- What `get_session` returns: the session's columns, its decoded topology and its Agents.
pub record SessionView : Type 0 where
  pub id : String
  pub label : String
  pub ready : Bool
  pub created_at : ℕ
  pub expires_at : String
  pub topology : Fields
  pub agents : List Agent

-- `topology if isinstance(topology, dict) and topology else {…}`
abbrev pub declared_topology : Value → Fields
declared_topology (dict (field k v fs)) = field k v fs
declared_topology _ = field "scope" (str "undeclared") (field "source" (str "unavailable") end)

abbrev pub online_window : ℕ
online_window = 30_000_000

-- last_seen is missing, or before online_cutoff.
is_stale : ℕ → Option ℕ → Bool
is_stale now none = true
is_stale now (some t) = ltb (t + online_window) now

unfoldable pub viewed_agent : ℕ → Agent → Agent
unfolding is_stale
viewed_agent now a = if is_stale now a.last_seen_at then record a { status = "offline" } else a

-- One more row, of a greater rowid, into ORDER BY joined_at.
unfoldable pub insert_joined : Agent → List Agent → List Agent
insert_joined a [] = a ∷ []
insert_joined a (x ∷ xs) =
    if ltb a.joined_at x.joined_at then a ∷ x ∷ xs else x ∷ insert_joined a xs

unfoldable pub by_joined : List Agent → List Agent → List Agent
unfolding insert_joined
by_joined sorted [] = sorted
by_joined sorted (a ∷ rest) = by_joined (insert_joined a sorted) rest

abbrev pub online_as : String → Agent → Bool
online_as role a = str_eq a.status "online" && str_eq a.role role

unfoldable pub session_view : ℕ → Database → Session → SessionView
unfolding viewed_agent by_joined
session_view now db s =
    let agents = map (viewed_agent now) (by_joined [] (select (agent_of s.id) db.agents)) in
    record {
      id = s.id;
      label = s.label;
      ready = any (online_as "target") agents && any (online_as "generator") agents;
      created_at = s.created_at;
      expires_at = s.expires_at;
      topology = declared_topology s.topology;
      agents = agents;
    }

view_row : ℕ → Database → Option Session → Option SessionView
unfolding session_view
view_row now db none = none
view_row now db (some s) = some (session_view now db s)

unfoldable pub get_session : ℕ → Database → String → Option SessionView
unfolding view_row
get_session now db session_id = view_row now db (select_one (session_is session_id) db.sessions)

insert_recent : Session → List Session → List Session
insert_recent s [] = s ∷ []
insert_recent s (x ∷ xs) =
    if ltb x.created_at s.created_at then s ∷ x ∷ xs else x ∷ insert_recent s xs

recent_first : List Session → List Session → List Session
unfolding insert_recent
recent_first sorted [] = sorted
recent_first sorted (s ∷ rest) = recent_first (insert_recent s sorted) rest

views : ℕ → Database → List Session → List SessionView
unfolding get_session
views now db [] = []
views now db (s ∷ rest) = elim (get_session now db s.id) [
  | none ↦ views now db rest
  | some v ↦ v ∷ views now db rest
]

unfoldable pub list_sessions : ℕ → ℤ → Database → List SessionView
unfolding views recent_first
list_sessions now limit db =
    views now db (take (max 1 (min (pos_part limit) 100)) (recent_first [] db.sessions))

token_column : Option Session → Option String
token_column none = none
token_column (some s) = some s.join_token_hash

unfoldable pub get_session_token_hash : Database → String → Option String
unfolding token_column
get_session_token_hash db session_id = token_column (select_one (session_is session_id) db.sessions)

abbrev joined_agent :
    ℕ → (agent_id session_id name role : String) → Fields → String → Option Fields → Agent
joined_agent now agent_id session_id name role system token_hash endpoint = record {
  id = agent_id;
  session_id = session_id;
  name = name;
  role = role;
  status = "online";
  joined_at = now;
  last_seen_at = some now;
  token_hash = token_hash;
  endpoint = elim endpoint [ none ↦ end | some fs ↦ fs ];
  system = system;
}

unfoldable pub add_agent :
    (now : ℕ) (agent_id session_id name role : String) (system : Fields) (token_hash : String)
    (endpoint : Option Fields)
    → Database
    → Result Database
add_agent now agent_id session_id name role system token_hash endpoint db =
    let agents : List Agent =
      db.agents ++ joined_agent now agent_id session_id name role system token_hash endpoint ∷ [] in
    if is_some (select_one (agent_is agent_id) db.agents)
      || not (is_some (select_one (session_is session_id) db.sessions))
    then raise integrity_error
    else ok (record db {
      agents = agents;
      sessions =
          update (session_is session_id)
            (λ s. record s { ready = leb 2 (row_count (agent_of session_id) agents) }) db.sessions;
    })

token_matches : Option Agent → String → Bool
token_matches none token_hash = false
token_matches (some a) token_hash = not (str_eq a.token_hash "") && str_eq a.token_hash token_hash

unfoldable pub authenticate_agent : Database → (agent_id token_hash : String) → Bool
unfolding token_matches
authenticate_agent db agent_id token_hash =
    token_matches (select_one (agent_is agent_id) db.agents) token_hash

abbrev pub beat : ℕ → Option Fields → Agent → Agent
beat now none a = record a { status = "online"; last_seen_at = some now }
beat now (some system) a = record a { status = "online"; last_seen_at = some now; system = system }

-- The new state, and the Agent's row.
unfoldable pub heartbeat_agent : ℕ → String → Option Fields → Database → Database × Option Agent
heartbeat_agent now agent_id system db =
    let agents : List Agent = update (agent_is agent_id) (beat now system) db.agents in
    (record db { agents = agents }, select_one (agent_is agent_id) agents)

unfoldable pub get_agent : Database → String → Option Agent
get_agent db agent_id = select_one (agent_is agent_id) db.agents
