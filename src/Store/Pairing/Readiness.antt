-- ===== src/Store/Pairing/Readiness.antt =====
-- When a pairing session is ready.
use cloud_mark.Prelude.{
  subst, ℕ, Bool, false, Option, none, some, List, [], ◌∷◌, ◌≡◌, refl, ◌∙◌, arith, inl, inr, ltb,
  String, ◌&&◌, ◌||◌, not, ◌+◌, any, any-select, select, select_one, map, str_eq, Option-cases,
  select_one-key,
}
use cloud_mark.Store.Schema.{Agent, Session, Database}
use cloud_mark.Store.Pairing.{
  SessionView, session_is, agent_of, viewed_agent, is_stale, online_as, by_joined, insert_joined,
  session_view, get_session, view_row, online_window,
}

-- Seen within the last thirty seconds.
abbrev pub seen_lately : ℕ → Option ℕ → Bool
seen_lately now none = false
seen_lately now (some t) = not (ltb (t + online_window) now)

-- The row of an Agent of that session and role that is online and was seen lately.
abbrev pub is_live : ℕ → (session_id role : String) → Agent → Bool
is_live now session_id role a =
    str_eq a.session_id session_id
    && (str_eq a.status "online" && str_eq a.role role && seen_lately now a.last_seen_at)

any-insert_joined :
    (test : Agent → Bool) (a : Agent) (xs : List Agent)
    → any test (insert_joined a xs) ≡ (test a || any test xs)
unfolding insert_joined
any-insert_joined test a [] = refl
any-insert_joined test a (x ∷ xs) = ground (arith, any-insert_joined test a xs)

any-by_joined :
    (test : Agent → Bool) (sorted rows : List Agent)
    → any test (by_joined sorted rows) ≡ (any test rows || any test sorted)
unfolding by_joined
any-by_joined test sorted [] = refl
any-by_joined test sorted (a ∷ rows) =
    ground
      (arith, any-by_joined test (insert_joined a sorted) rows, any-insert_joined test a sorted)

offline_ne : (role : String) (a : Agent) → online_as role (record a { status = "offline" }) ≡ false
unfolding str_eq
offline_ne role a = refl

-- The online mark of a viewed Agent says that it was seen lately.
any-viewed :
    (now : ℕ) (role : String) (xs : List Agent)
    → any (online_as role) (map (viewed_agent now) xs)
      ≡ any
          (λ a. str_eq a.status "online" && str_eq a.role role && seen_lately now a.last_seen_at)
          xs
unfolding viewed_agent is_stale
any-viewed now role [] = refl
any-viewed now role (a ∷ xs) = ground (arith, any-viewed now role xs, offline_ne role a)

or_false : (b : Bool) → (b || false) ≡ b
or_false b = ground arith

any-agents :
    (now : ℕ) (role session_id : String) (rows : List Agent)
    → any
        (online_as role)
        (map (viewed_agent now) (by_joined [] (select (agent_of session_id) rows)))
      ≡ any (is_live now session_id role) rows
any-agents now role session_id rows =
    let live = λ (a : Agent).
      str_eq a.status "online" && str_eq a.role role && seen_lately now a.last_seen_at in
    any-viewed now role (by_joined [] (select (agent_of session_id) rows))
    ∙ (any-by_joined live [] (select (agent_of session_id) rows)
        ∙ (or_false (any live (select (agent_of session_id) rows))
            ∙ any-select live (agent_of session_id) rows))

session_view-ready :
    (now : ℕ) (db : Database) (s : Session)
    → (session_view now db s).ready
      ≡ (any (is_live now s.id "target") db.agents && any (is_live now s.id "generator") db.agents)
unfolding session_view
session_view-ready now db s =
    rw (any-agents now "target" s.id db.agents, any-agents now "generator" s.id db.agents)

view_row-none : (now : ℕ) (db : Database) (v : SessionView) → view_row now db none ≡ some v → ⊥
unfolding view_row
view_row-none now db v e = cc

view_row-some :
    (now : ℕ) (db : Database) (s : Session) (v : SessionView)
    → view_row now db (some s) ≡ some v
    → session_view now db s ≡ v
unfolding view_row
view_row-some now db s v e = cc

-- A session that is there is ready exactly when, among the rows of its Agents, a target and a generator
-- are online and were seen within the last thirty seconds. The order in which the Agents are
-- listed and the stored status of the session have no part in it.
pub get_session-ready :
    (now : ℕ) (db : Database) (session_id : String) (v : SessionView)
    → get_session now db session_id ≡ some v
    → v.ready ≡ (
        any (is_live now session_id "target") db.agents
        && any (is_live now session_id "generator") db.agents)
unfolding get_session
get_session-ready now db session_id v e =
    elim (Option-cases (select_one (session_is session_id) db.sessions)) [
      | inl missing ↦ absurd (view_row-none now db v (rw missing at e))
      | inr (s, found) ↦
          let same = view_row-some now db s v (rw found at e) in
          let at_id = select_one-key (λ s. s.id) session_id db.sessions s found in
          rw (← same, ← at_id) (session_view-ready now db s)
    ]

-- The session is ready as its own list of Agents says.
pub get_session-listed :
    (now : ℕ) (db : Database) (session_id : String) (v : SessionView)
    → get_session now db session_id ≡ some v
    → v.ready ≡ (any (online_as "target") v.agents && any (online_as "generator") v.agents)
unfolding get_session session_view
get_session-listed now db session_id v e =
    elim (Option-cases (select_one (session_is session_id) db.sessions)) [
      | inl missing ↦ absurd (view_row-none now db v (rw missing at e))
      | inr (s, found) ↦
          subst
            (λ (w : SessionView).
              w.ready ≡ (any (online_as "target") w.agents && any (online_as "generator") w.agents))
            (view_row-some now db s v (rw found at e)) refl
    ]
