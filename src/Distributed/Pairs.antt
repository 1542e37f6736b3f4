-- ===== src/Distributed/Pairs.antt =====
-- What a validated pair of Agents is.
use cloud_mark.Prelude.{
  ℕ, true, false, not, Option, none, some, List, [], ◌∷◌, String, str_eq, str_eq_iff, ◌&&◌, any,
  select_one, ◌≡◌, refl, subst, arith, inl, inr, Bool-cases, Option-cases, ◌∙◌,
}
use Prim.Native.String.{◌++◌ as ◌++ₛ◌}
use cloud_mark.Python.{
  dict, ok, value_error, distributed_error, Platform, Address, >>=-eq-ok, guard-passes,
  ok_injective,
}
use cloud_mark.Store.Schema.{Agent, Database}
use cloud_mark.Store.Pairing.{SessionView, get_session, online_as}
use cloud_mark.Store.Pairing.Readiness.{get_session-listed}
use cloud_mark.Topology.{Assessment, assess_pairing_topology}
use cloud_mark.Remote.{get_or_empty}
use cloud_mark.Distributed.{
  is_unusable, advertised, peer_address, missing_capabilities, validate_member, member_as,
  validate_members, validate_session, validate_pair, is_empty, join_names,
}

-- The Agent is online, and its advertised address is one that a peer can reach.
pub record IsMember (py : Platform) (role : String) (agents : List Agent) (agent : Agent)
    : Type 0 where
  pub found : select_one (member_as role) agents ≡ some agent
  pub online : agent.status ≡ "online"
  pub address : Address
  pub parsed : py.ip_address (advertised py agent) ≡ some address
  pub usable : is_unusable address ≡ false

-- The pair of a stored session, which is ready.
pub record IsPair (py : Platform) (now : ℕ) (session_id : String) (db : Database)
    (session : SessionView) (target generator : Agent) : Type 0 where
  pub stored : get_session now db session_id ≡ some session
  pub ready : session.ready ≡ true
  pub target_member : IsMember py "target" session.agents target
  pub generator_member : IsMember py "generator" session.agents generator

any-online :
    (role : String) (agents : List Agent) (agent : Agent)
    → select_one (member_as role) agents ≡ some agent
    → str_eq agent.status "online" ≡ true
    → any (online_as role) agents ≡ true
unfolding select_one
any-online role [] agent e h = cc
any-online role (a ∷ rest) agent e h = elim (Bool-cases (member_as role a)) [
  | inl here ↦
      let same : a ≡ agent = ground (arith, e, here) in
      let online : str_eq a.status "online" ≡ true = rw same h in ground (arith, here, online)
  | inr later ↦ ground (arith, any-online role rest agent (ground (arith, e, later)) h)
]

module _ (py : Platform) where
  peer_address-usable :
      (agent : Agent) (text : String)
      → peer_address py agent ≡ ok text
      → (a : Address) × (py.ip_address (advertised py agent) ≡ some a) × (is_unusable a ≡ false)
  unfolding peer_address
  peer_address-usable agent text e =
      let (_, e1) =
        guard-passes (not (str_eq (advertised py agent) ""))
          (distributed_error
            ("Agent " ++ₛ agent.id ++ₛ " did not advertise a peer-reachable address."))
          _ e in
      elim (Option-cases (py.ip_address (advertised py agent))) [
        | inl invalid ↦ let never : ⊥ = ground (arith, e1, invalid) in absurd never
        | inr (a, parsed) ↦ (a, parsed, ground (arith, e1, parsed))
      ]

  validate_member-IsMember :
      (role : String) (agents : List Agent) (agent : Agent) (required : List String) (u : Unit {0})
      → select_one (member_as role) agents ≡ some agent
      → validate_member py agent required ≡ ok u
      → IsMember py role agents agent
  unfolding validate_member
  validate_member-IsMember role agents agent required u found e =
      let (online, e1) =
        guard-passes (str_eq agent.status "online")
          (value_error (
            "Agent " ++ₛ agent.name
            ++ₛ " is offline. Start its persistent worker before running the profile."))
          _ e in
      let (inventory, _, e2) = >>=-eq-ok (get_or_empty (dict agent.system) "inventory") _ e1 in
      let (capabilities, _, e3) = >>=-eq-ok (get_or_empty inventory "capabilities") _ e2 in
      let (missing, _, e4) = >>=-eq-ok (missing_capabilities py capabilities required) _ e3 in
      let (_, e5) =
        guard-passes (is_empty missing)
          (value_error (
            "Agent "
            ++ₛ agent.name
            ++ₛ " is missing required capabilities: "
            ++ₛ join_names missing
            ++ₛ "."))
          _ e4 in
      let (text, reached, _) = >>=-eq-ok (peer_address py agent) _ e5 in
      let (a, parsed, usable) = peer_address-usable agent text reached in
      record {
        found = found;
        online = (str_eq_iff agent.status "online").0 online;
        address = a;
        parsed = parsed;
        usable = usable;
      }

  validate_members-each :
      (session : SessionView) (a b : Option Agent) (needs_a needs_b : List String) (t g : Agent)
      → select_one (member_as "target") session.agents ≡ a
      → select_one (member_as "generator") session.agents ≡ b
      → validate_members py a b needs_a needs_b ≡ ok (t, g)
      → IsMember py "target" session.agents t × IsMember py "generator" session.agents g
  unfolding validate_members
  validate_members-each session none b needs_a needs_b t g x y e =
      let never : ⊥ = cc in absurd never
  validate_members-each session (some a) none needs_a needs_b t g x y e =
      let never : ⊥ = cc in absurd never
  validate_members-each session (some a) (some b) needs_a needs_b t g x y e =
      let (u, first, e1) = >>=-eq-ok (validate_member py a needs_a) _ e in
      let (v, second, e2) = >>=-eq-ok (validate_member py b needs_b) _ e1 in
      let left = validate_member-IsMember "target" session.agents a needs_a u x first in
      let right = validate_member-IsMember "generator" session.agents b needs_b v y second in
      subst
        (λ (p : Agent × Agent).
          IsMember py "target" session.agents p.0 × IsMember py "generator" session.agents p.1)
        (ok_injective e2) (left, right)

  members-ready :
      (session : SessionView) (t g : Agent)
      → IsMember py "target" session.agents t
      → IsMember py "generator" session.agents g
      → (any (online_as "target") session.agents && any (online_as "generator") session.agents)
        ≡ true
  members-ready session t g v w =
      rw
        (
          any-online "target" session.agents t v.found ((str_eq_iff t.status "online").1 v.online),
          any-online "generator" session.agents g w.found
              ((str_eq_iff g.status "online").1 w.online),
        )
        refl

  validate_session-IsPair :
      (now : ℕ) (session_id : String) (needs_t needs_g : List String) (db : Database)
      (o : Option SessionView) (session : SessionView) (topology : Assessment) (t g : Agent)
      → get_session now db session_id ≡ o
      → validate_session py o needs_t needs_g ≡ ok ((session, topology), (t, g))
      → IsPair py now session_id db session t g
  unfolding validate_session
  validate_session-IsPair now session_id needs_t needs_g db none session topology t g e h =
      let never : ⊥ = cc in absurd never
  validate_session-IsPair now session_id needs_t needs_g db (some s) session topology t g e h =
      let (a, _, h1) = >>=-eq-ok (assess_pairing_topology py s.topology s.agents) _ h in
      let ((x, y), found, h2) =
        >>=-eq-ok
          (validate_members py (select_one (member_as "target") s.agents)
            (select_one (member_as "generator") s.agents) needs_t needs_g)
          _ h1 in
      let (left, right) = validate_members-each s _ _ needs_t needs_g x y refl refl found in
      subst
        (λ (p : (SessionView × Assessment) × (Agent × Agent)).
          IsPair py now session_id db p.0.0 p.1.0 p.1.1)
        {x = ((s, a), (x, y))} (ok_injective h2)
        (record {
          stored = e;
          ready = get_session-listed now db session_id s e ∙ members-ready s x y left right;
          target_member = left;
          generator_member = right;
        })

  -- A pair that passes the validation belongs to a stored session, which is ready; its target and its
  -- generator are the first Agents of those roles there, are online, and advertise addresses that
  -- are not loopback, unspecified, multicast or link-local.
  pub validate_pair-IsPair :
      (now : ℕ) (session_id : String) (target_capabilities generator_capabilities : List String)
      (db : Database) (session : SessionView) (topology : Assessment) (target generator : Agent)
      → validate_pair py now session_id target_capabilities generator_capabilities db
        ≡ ok ((session, topology), (target, generator))
      → IsPair py now session_id db session target generator
  unfolding validate_pair
  validate_pair-IsPair now session_id needs_t needs_g db session topology target generator e =
      validate_session-IsPair now session_id needs_t needs_g db (get_session now db session_id)
        session topology target generator refl e
