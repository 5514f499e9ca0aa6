-- ===== src/Connection/Control.antt =====
-- The configuration on both sides of a control channel: what the server of internal/server/server.go
-- sent, and what `runSession` of internal/client/client.go makes of it.
pub mod Examples
use ws_tunnel.Prelude.{
  ℕ, ◌^◌, ◌<◌, ◌≡◌, refl, Bool, true, false, Option, none, some, List, [], ◌∷◌, arith, map, length,
  Str, ◌==◌, str_eq, nat_eq, sym, ◌∙◌, ap, some-injective,
}
use ws_tunnel.Prelude.Dict.{lookup}
use ws_tunnel.Protocol.Message.{NodeConfig}
use ws_tunnel.Protocol.Control.{Message}
use ws_tunnel.Protocol.Control.View.{seen}
use ws_tunnel.Config.{Config, NodeSpec, PortSpec, node_config}
use ws_tunnel.Config.Text.{itoa}
use ws_tunnel.Config.Valid.{IsValid}
use ws_tunnel.Config.Pushed.{owned, allowed, node_config-allowed}
use ws_tunnel.Config.Diff.Nodes.{spec_config, SamePush, node_config-some}
use ws_tunnel.Server.Registry.{SessionRef, get}
use ws_tunnel.Server.Plane.{Peer, Endpoints, Server}
use ws_tunnel.Server.Plane.Peers.{is_done, is_draining}
use ws_tunnel.Server.Plane.Steps.{Reach, IsWhole, new_server, Reach-Sound}
use ws_tunnel.Server.Plane.Told.{Reach-Told}
use ws_tunnel.Client.{Client, remote_for}
use ws_tunnel.Client.Session.{Session, runs, waits, received, run_session}
use ws_tunnel.Client.Session.Follows.{Follows, workers_of, asks_drain, pongs, run_session-Follows}

-- The remote address of a port, or the empty string.
abbrev pub or_empty : Option Str → Str
or_empty none = []
or_empty (some r) = r

-- The server asked to drain, behind its first message.
abbrev pub told_to_drain : List Message → Bool
told_to_drain [] = false
told_to_drain (m ∷ ms) = asks_drain ms

-- A client that reads all of these messages is up, with the port list and the workers that the
-- configuration gives the node, and drains if one of the messages told it to.
abbrev pub Mirrors : (Message → Bool) → Client → List Message → Config → Str → ℕ → Type 0
Mirrors w c ms cfg n p =
    (spec : NodeSpec) × (t : Session) × (lookup n cfg.nodes ≡ some spec)
    × (run_session w none (map received ms) c ≡ runs (waits t))
    × (remote_for p (t.client).cfg ≡ or_empty (owned n (lookup p cfg.ports)))
    × (length (t.sup).workers ≡ spec.channels)
    × ((t.client).draining ≡ told_to_drain ms)

remote_for-or_empty :
    (p : ℕ) (k : NodeConfig) → remote_for p (some k) ≡ or_empty (lookup (itoa p) k.ports)
remote_for-or_empty p k = go (lookup (itoa p) k.ports)
  where
    go : (o : Option Str) → elim o as (λ _. Str) [ none ↦ [] | some v ↦ v ] ≡ or_empty o
    go none = refl
    go (some v) = refl

seen-Mirrors :
    (w : Message → Bool) (c : Client) (ms : List Message) (cfg : Config) (n : Str) (p : ℕ)
    (k : NodeConfig) (spec : NodeSpec)
    → IsValid cfg
    → lookup n cfg.nodes ≡ some spec
    → SamePush k (spec_config cfg n spec)
    → p < 2 ^ 63
    → seen ms ≡ some k
    → Mirrors w c ms cfg n p
unfolding seen
seen-Mirrors w c [] cfg n p k spec v l same hp e = cc
seen-Mirrors w c (m ∷ ms) cfg n p k spec v l same hp e =
    let (t, run, f, _) = run_session-Follows w m ms k c e in
    let (k', pushed, _, _, _, _, ports) = node_config-allowed cfg n spec p v l hp in
    let is : k' ≡ spec_config cfg n spec =
      some-injective _ _ (sym pushed ∙ node_config-some cfg n spec l) in
    let list : lookup (itoa p) k.ports ≡ owned n (lookup p cfg.ports) =
      same.1 (itoa p) ∙ ap (λ x. allowed x p) (sym is) ∙ ports in
    let channels = (v.nodes n spec l).2 in
    (
      spec,
      t,
      l,
      run,
      ap (remote_for p) f.cfg ∙ remote_for-or_empty p k ∙ ap or_empty list,
      ground (arith, f.workers, same.0.0, channels),
      f.draining,
    )

-- In every state that the control plane reaches from its start with a valid configuration, reloads
-- being single steps and control channels coming and going in one (`IsWhole`), if every write of
-- the server succeeds: take a session that is registered for a node, has not ended and does not
-- drain. A client, in whatever state, that reads everything written to that session is up; for
-- every port (any number below 2^63) the remote address that it looks up is what the server's
-- present configuration gives, the port's if the port is the node's and else none; it runs as many
-- workers as the configuration gives the node channels; and it drains if and only if a message told
-- it to.
pub client-Mirrors :
    (w : ℕ → Message → Bool) (binds : Str → Bool) (c : Config) (e : Endpoints) (at : ℕ → Peer)
    (s : Server) (n : Str) (sess : SessionRef) (wc : Message → Bool) (client : Client) (p : ℕ)
    → ((q : ℕ) (m : Message) → w q m ≡ true)
    → IsValid c
    → (r : Reach w binds (new_server c e at) s) → IsWhole r
    → get n s.registry ≡ some sess
    → is_done s sess.ptr ≡ false
    → is_draining s sess.ptr ≡ false
    → p < 2 ^ 63
    → Mirrors wc client (s.peers sess.ptr).sent s.cfg n p
client-Mirrors w binds c e at s n sess wc client p reliable v r whole g d f hp =
    let ok = Reach-Sound w binds c e at s v r whole in
    let (spec, l, same, _) = ok.synced n sess g d f in
    seen-Mirrors wc client (s.peers sess.ptr).sent s.cfg n p (s.peers sess.ptr).cfg spec ok.valid l
      same hp (Reach-Told w binds c e at s reliable v r whole n sess g d)
