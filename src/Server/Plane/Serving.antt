-- ===== src/Server/Plane/Serving.antt =====
-- The listeners as an implementation of what the configuration and the sessions ask for.
use ws_tunnel.Prelude.{
  ℕ, ◌≡◌, inl, inr, Bool, true, false, Option, none, some, arith, if◌then◌else◌, Str, str_eq,
  is_some, Option-cases, sym, ◌∙◌, ap, some-injective,
}
use ws_tunnel.Protocol.Control.{Message}
use ws_tunnel.Config.{Config}
use ws_tunnel.Config.Valid.{IsValid}
use ws_tunnel.Config.Diff.Ports.{owner}
use ws_tunnel.Server.Registry.{SessionRef, Registry, get}
use ws_tunnel.Server.Listener.Holding.{holding, owns, is_node_iff}
use ws_tunnel.Server.Plane.{Peer, Server, Endpoints}
use ws_tunnel.Server.Plane.Peers.{is_done}
use ws_tunnel.Server.Plane.Serves.{Serves}
use ws_tunnel.Server.Plane.Steps.{Reach, new_server, InTime, IsWhole, Reach-covered, Reach-Sound}

-- What a server with this configuration and these sessions serves: a port for its node, while that
-- has a session.
pub serving : Config → Registry → ℕ → Option Str
serving c r p = elim (owner c p) [
  | none ↦ none
  | some n ↦ if is_some (get n r) then some n else none
]

Serves-serving :
    {covered : Str → Bool} (s : Server) (p : ℕ)
    → Serves covered s
    → ((n : Str) → owner s.cfg p ≡ some n → covered n ≡ true)
    → ((n : Str) (sess : SessionRef)
        → owner s.cfg p ≡ some n
        → get n s.registry ≡ some sess
        → is_done s sess.ptr ≡ false)
    → holding s.listeners p ≡ serving s.cfg s.registry p
unfolding serving
Serves-serving s p sv mine awake = elim (Option-cases (owner s.cfg p)) [
  | inl e ↦ rw (e, serving) (free (λ n h. ground (arith, e, (sv.only p n h).0)))
  | inr (n, e) ↦ elim (Option-cases (get n s.registry)) [
    | inr (sess, g) ↦ rw (e, g, serving) (sv.all p n sess (mine n e) e g (awake n sess e g))
    | inl g ↦ rw (e, g, serving) (free (λ k h. offline n k e g (sv.only p k h)))
  ]
]
  where
    free : ((n : Str) → holding s.listeners p ≡ some n → ⊥) → holding s.listeners p ≡ none
    free never = elim (Option-cases (holding s.listeners p)) [
      | inl e ↦ e
      | inr (n, e) ↦ absurd (never n e)
    ]

    offline :
        (n k : Str)
        → owner s.cfg p ≡ some n
        → get n s.registry ≡ none
        → (owner s.cfg p ≡ some k) × (is_some (get k s.registry) ≡ true)
        → ⊥
    offline n k e g (o, on) =
        let same : n ≡ k = some-injective n k (sym e ∙ o) in
        let gone : get k s.registry ≡ none = ap (λ x. get x s.registry) (sym same) ∙ g in
        ground (arith, gone, on)

-- Start with a valid configuration and let control channels come and go, reloads for valid
-- configurations be applied, drains end (also beside a new session of their node) and sessions
-- close, in any order, but each of these undivided: reloads and ends of drains are single steps,
-- and control channels come and go in one (`IsWhole`). A port is then held by a listener of node
-- `n` only if the present configuration gives it to `n` and `n` has a session.
pub Reach-held :
    (w : ℕ → Message → Bool) (binds : Str → Bool) (c : Config) (e : Endpoints) (at : ℕ → Peer)
    (s : Server) (p : ℕ) (n : Str)
    → IsValid c
    → (r : Reach w binds (new_server c e at) s) → IsWhole r
    → holding s.listeners p ≡ some n
    → (owner s.cfg p ≡ some n) × (is_some (get n s.registry) ≡ true)
Reach-held w binds c e at s p n v r whole h =
    (Reach-Sound w binds c e at s v r whole).serves.only p n h

-- Start with a valid configuration and let control channels come and go, reloads for valid
-- configurations be applied, drains end and sessions close, in any order, but each of these
-- undivided: reloads and ends of drains are single steps, and control channels come and go in one
-- (`IsWhole`). Take a port, and suppose that no drain of the node that the present configuration
-- gives it to has ended beside another session of that node, and that this node has no session that
-- has ended and not departed. Then the listeners implement, at this port, the simple server that
-- `serving` describes: the port is held by its configured node if that has a session, and else by
-- none. Where the listeners were opened and closed on the way does not matter.
pub Reach-serving :
    (w : ℕ → Message → Bool) (binds : Str → Bool) (c : Config) (e : Endpoints) (at : ℕ → Peer)
    (s : Server) (p : ℕ)
    → IsValid c
    → (r : Reach w binds (new_server c e at) s) → IsWhole r
    → ((n : Str) → owner s.cfg p ≡ some n → InTime n r)
    → ((n : Str) (sess : SessionRef)
        → owner s.cfg p ≡ some n
        → get n s.registry ≡ some sess
        → is_done s sess.ptr ≡ false)
    → holding s.listeners p ≡ serving s.cfg s.registry p
Reach-serving w binds c e at s p v r whole in_time awake =
    Serves-serving s p
      (Reach-covered {covered = λ n. owns s.cfg n p} w binds c e at s v r whole
        (λ n k. in_time n ((is_node_iff (owner s.cfg p) n).0 k))).serves
      (λ n o. (is_node_iff (owner s.cfg p) n).1 o) awake
