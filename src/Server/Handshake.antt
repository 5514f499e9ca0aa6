-- ===== src/Server/Handshake.antt =====
-- The WS entry point of internal/server/server.go: `authenticate` and what `handleWS`,
-- `serveControl` and `serveData` decide before they serve. `ConstantTimeCompare` is equality.
pub mod Examples
use ws_tunnel.Prelude.{
  ℕ, ◌≡◌, ◌≢◌, ◌↔◌, refl, ◌⊎◌, inl, inr, Bool, true, false, ◌&&◌, ◌||◌, not, Option, none, some,
  List, [], ◌∷◌, arith, if◌then◌else◌, Str, ◌==◌, str_eq, str_beq, str_beq_iff, is_some,
  Option-cases, Bool-cases, beq_refl, sym, ap, ◌∙◌,
}
use ws_tunnel.Prelude.Dict.{lookup}
use ws_tunnel.Protocol.Header.{codes}
use ws_tunnel.Protocol.Message.{NodeConfig}
use ws_tunnel.Config.{Config, NodeSpec, node_by_key, node_config}
use ws_tunnel.Config.Valid.{IsValid}
use ws_tunnel.Config.Lookup.{node_by_key_iff}
use ws_tunnel.Server.Registry.{SessionRef, Registry, get, register, stats_of}

-- The fields of a `hello` that the server reads.
pub record Hello : Type 0 where
  pub typ : Str
  pub role : Str
  pub node : Str
  pub key : Str
  pub session : Str

key_matches : Option NodeSpec → Str → Option NodeSpec
key_matches none key = none
key_matches (some spec) key = if spec.key == key then some spec else none

-- `authenticate`; `none` is an error.
pub authenticate : Config → Hello → Option NodeSpec
unfolding key_matches
authenticate c m =
    if m.key == []
    then none
    else if not (m.node == [])
    then key_matches (lookup m.node c.nodes) m.key
    else node_by_key c m.key

pub data Reject : Type 0 where
  auth_failed node_busy bad_session bad_request internal : Reject

-- What becomes of a connection: an error message and a close, a control channel with its session
-- registered, or a data channel of a session.
pub data Outcome : Type 0 where
  rejected : Reject → Outcome
  control : SessionRef → NodeConfig → Outcome
  data_channel : SessionRef → Outcome

-- `serveControl` up to the welcome; `fresh` makes the new session object for a name.
serve_control : Config → (Str → SessionRef) → NodeSpec → Registry → Outcome × Registry
serve_control c fresh spec r =
    let (ok, r') = register (fresh spec.name) (stats_of spec.name r).1 in
    elim (node_config c spec.name) [
      | none ↦ (rejected internal, r)
      | some n ↦ if ok then (control (fresh spec.name) n, r') else (rejected node_busy, r')
    ]

same_session : Option SessionRef → Str → Outcome
same_session none session = rejected bad_session
same_session (some s) session =
    if (session == []) || not (session == s.id) then rejected bad_session else data_channel s

-- `serveData` up to the welcome.
serve_data : NodeSpec → Hello → Registry → Outcome × Registry
unfolding same_session
serve_data spec m r = (same_session (get spec.name r) m.session, r)

serve_role : Config → (Str → SessionRef) → NodeSpec → Hello → Registry → Outcome × Registry
unfolding serve_control serve_data
serve_role c fresh spec m r =
    if m.role == codes "control"
    then serve_control c fresh spec r
    else if m.role == codes "data"
    then serve_data spec m r
    else (rejected bad_request, r)

-- `handleWS` on a first message that was read.
pub handle_hello : Config → (Str → SessionRef) → Hello → Registry → Outcome × Registry
unfolding serve_role
handle_hello c fresh m r =
    if not (m.typ == codes "hello") then (rejected bad_request, r) else elim (authenticate c m) [
      | none ↦ (rejected auth_failed, r)
      | some spec ↦ serve_role c fresh spec m r
    ]

-- Who a hello may stand for: the node has the hello's key, and its name if it gives one.
abbrev pub Credentials : Config → Hello → NodeSpec → Type 0
Credentials c m spec =
    (lookup spec.name c.nodes ≡ some spec)
    × (spec.key ≡ m.key)
    × ((m.node ≡ []) ⊎ (m.node ≡ spec.name))

key_matches_iff :
    (o : Option NodeSpec) (key : Str) (spec : NodeSpec)
    → (key_matches o key ≡ some spec) ↔ ((o ≡ some spec) × (spec.key ≡ key))
unfolding key_matches
key_matches_iff none key spec = (λ e. cc, λ h. cc)
key_matches_iff (some n) key spec =
    (λ e. fwd e, λ h. let (e, k) = h in ground (arith, e, k, str_beq_iff n.key key))
  where
    fwd :
        (if n.key == key then some n else none) ≡ some spec
        → (some n ≡ some spec) × (spec.key ≡ key)
    fwd e = elim (Bool-cases (n.key == key)) [
      | inl h ↦
          let q : n ≡ spec = ground (arith, h, e) in
          (ap some q, ap NodeSpec.key (sym q) ∙ (str_beq_iff n.key key).0 h)
      | inr h ↦ ground (arith, h, e)
    ]

-- With a valid configuration `authenticate` accepts a hello as a node exactly when that node is
-- configured with the hello's key, and has the hello's name or the hello gives no name.
pub authenticate_iff :
    (c : Config) (m : Hello) (spec : NodeSpec)
    → IsValid c
    → (authenticate c m ≡ some spec) ↔ Credentials c m spec
unfolding authenticate
authenticate_iff c m spec v = elim (Bool-cases (m.key == [])) [
  | inl h ↦ (
    λ e. ground (arith, h, e),
    λ k. absurd ((v.nodes spec.name spec k.0).1 (k.1 ∙ (str_beq_iff m.key []).0 h)),
  )
  | inr h ↦ elim (Bool-cases (m.node == [])) [
    | inl g ↦ (
      λ e. by_key g (ground (arith, h, g, e)),
      λ k. ground (arith, h, g, (node_by_key_iff c m.key spec v).1 (spec.name, k.0, k.1)),
    )
    | inr g ↦ (λ e. by_name (ground (arith, h, g, e)), λ k. named h g k.0 k.1 k.2)
  ]
]
  where
    by_key : (m.node == []) ≡ true → node_by_key c m.key ≡ some spec → Credentials c m spec
    by_key g e =
        let (n, l, k) = (node_by_key_iff c m.key spec v).0 e in
        let q : spec.name ≡ n = (v.nodes n spec l).0 in
        (ap (λ z. lookup z c.nodes) q ∙ l, k, inl ((str_beq_iff m.node []).0 g))

    by_name : key_matches (lookup m.node c.nodes) m.key ≡ some spec → Credentials c m spec
    by_name e =
        let (l, k) = (key_matches_iff (lookup m.node c.nodes) m.key spec).0 e in
        let q : spec.name ≡ m.node = (v.nodes m.node spec l).0 in
        (ap (λ z. lookup z c.nodes) q ∙ l, k, inr (sym q))

    named :
        (m.key == []) ≡ false
        → (m.node == []) ≡ false
        → lookup spec.name c.nodes ≡ some spec
        → spec.key ≡ m.key
        → (m.node ≡ []) ⊎ (m.node ≡ spec.name)
        → authenticate c m ≡ some spec
    named h g l k (inl z) = ground (arith, g, (str_beq_iff m.node []).1 z)
    named h g l k (inr z) =
        let e = (key_matches_iff (lookup m.node c.nodes) m.key spec).1 (rw z l, k) in
        ground (arith, h, g, e)

same_session_data :
    (o : Option SessionRef) (session : Str) (s : SessionRef)
    → same_session o session ≡ data_channel s
    → (o ≡ some s) × (session ≡ s.id) × (session ≢ [])
unfolding same_session
same_session_data none session s e = ground (arith, e)
same_session_data (some t) session s e = elim (Bool-cases (session == [])) [
  | inl h ↦ ground (arith, h, e)
  | inr h ↦ elim (Bool-cases (session == t.id)) [
    | inr g ↦ ground (arith, h, g, e)
    | inl g ↦
        let q : t ≡ s = ground (arith, h, g, e) in
        (
          ap some q,
          (str_beq_iff session t.id).0 g ∙ ap SessionRef.id q,
          λ z. ground (arith, h, (str_beq_iff session []).1 z),
        )
  ]
]

-- What `handleWS` must have seen before it serves a data channel of session `s` and leaves the
-- registry `r'`.
abbrev pub DataAdmitted : Config → Hello → Registry → SessionRef → Registry → Type 0
DataAdmitted c m r s r' =
    (spec : NodeSpec) × Credentials c m spec
    × (get spec.name r ≡ some s)
    × (m.session ≡ s.id)
    × (m.session ≢ [])
    × (r' ≡ r)

serve_role_data :
    (c : Config) (fresh : Str → SessionRef) (spec : NodeSpec) (m : Hello) (r r' : Registry)
    (s : SessionRef)
    → serve_role c fresh spec m r ≡ (data_channel s, r')
    → (same_session (get spec.name r) m.session ≡ data_channel s) × (r' ≡ r)
unfolding serve_role serve_control serve_data
serve_role_data c fresh spec m r r' s e = ground (arith, e)

-- A data channel is served only for a hello whose credentials are those of a node that has a live
-- session, and whose session id is that session's and not empty; the registry is unchanged.
pub handle_hello_data :
    (c : Config) (fresh : Str → SessionRef) (m : Hello) (r r' : Registry) (s : SessionRef)
    → IsValid c
    → handle_hello c fresh m r ≡ (data_channel s, r')
    → DataAdmitted c m r s r'
unfolding handle_hello
handle_hello_data c fresh m r r' s v e = elim (Bool-cases (m.typ == codes "hello")) [
  | inr h ↦ ground (arith, h, e)
  | inl h ↦ elim (Option-cases (authenticate c m)) [
    | inl z ↦ ground (arith, h, z, e)
    | inr (spec, z) ↦
        let (d, kept) = serve_role_data c fresh spec m r r' s (ground (arith, h, z, e)) in
        let (live, id, non_empty) = same_session_data (get spec.name r) m.session s d in
        (spec, (authenticate_iff c m spec v).0 z, live, id, non_empty, kept)
  ]
]
