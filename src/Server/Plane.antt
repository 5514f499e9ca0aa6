-- ===== src/Server/Plane.antt =====
-- The control plane of internal/server/server.go: what joins, leaves and reloads do to the
-- configuration, the registry, the listeners, the sessions and the endpoints together.
-- A write on a control channel succeeds as `w` says, and an address can be bound as `binds` says.
pub mod Ports
pub mod Peers
pub mod Freed
pub mod Pushes
pub mod Serves
pub mod Synced
pub mod Joins
pub mod Leaves
pub mod Steps
pub mod Overlap
pub mod Told
pub mod Serving
pub mod Down
pub mod Rebind
pub mod Sample
pub mod Examples
use ws_tunnel.Prelude.{
  ℕ, ◌+◌, Bool, true, false, ◌&&◌, ◌||◌, not, Option, none, some, List, [], ◌∷◌, ◌++◌, nat_beq, ltb,
  if◌then◌else◌, Str, ◌==◌, str_eq, nat_eq, is_some,
}
use ws_tunnel.Prelude.Dict.{lookup}
use ws_tunnel.Prelude.Sets.{contains}
use ws_tunnel.Protocol.Message.{NodeConfig}
use ws_tunnel.Protocol.Control.{
  Message, welcome_message, reload_message, drain_message, bye_message,
}
use ws_tunnel.Protocol.Header.{codes}
use ws_tunnel.Config.{Config, NodeSpec, node_config}
use ws_tunnel.Config.Diff.{Diff, diff_config, is_empty}
use ws_tunnel.Server.Session.{DataChannel, NodeSession, set_config, close_session}
use ws_tunnel.Server.Session.Steps.{new_session}
use ws_tunnel.Server.Registry.{SessionRef, Registry, register, unregister, get, stats_of}
use ws_tunnel.Server.Handshake.{Reject, internal, node_busy}
use ws_tunnel.Server.Listener.{Manager, start_node, start_port, stop_node, stop_port, stop_all}

-- A `NodeSession` as the control plane sees it: `pool` is its data channels and its queue, `sent`
-- what was written on its control channel.
pub record Peer : Type 0 where
  pub name : Str
  pub cfg : NodeConfig
  pub queue_timeout : ℕ
  pub pool : NodeSession
  pub reason : Str
  pub sent : List Message

-- The addresses that are served; `retired` are those that were replaced.
pub record Endpoints : Type 0 where
  pub ws : Option Str
  pub status : Option Str
  pub retired : List Str

-- A goroutine of `drainNode`, which waits for the streams of a session.
pub record Drain : Type 0 where
  pub sess : SessionRef
  pub deadline : ℕ
  pub reason : Str

-- `Server`; `peers` gives the session that a pointer stands for.
pub record Server : Type 0 where
  pub cfg : Config
  pub registry : Registry
  pub listeners : Manager
  pub peers : ℕ → Peer
  pub endpoints : Endpoints
  pub drains : List Drain

-- The session at a pointer changes.
pub on_peer : ℕ → (Peer → Peer) → Server → Server
on_peer p f s = record s { peers = λ q. if nat_beq p q then f (s.peers q) else s.peers q }

-- `newNodeSession`: `heap` gives the data channels that the session will have.
pub new_peer : (ℕ → DataChannel) → Config → NodeSpec → NodeConfig → Registry → Peer
new_peer heap c spec n r = record {
  name = spec.name;
  cfg = n;
  queue_timeout = c.settings.queue_timeout;
  pool = new_session heap n.max_streams_per_conn (stats_of spec.name r).0;
  reason = [];
  sent = [];
}

-- `SetConfig` of a session.
pub set_peer_config : NodeConfig → ℕ → Peer → Peer
set_peer_config n timeout x = record x {
  cfg = n;
  queue_timeout = timeout;
  pool = set_config n.max_streams_per_conn x.pool;
}

-- `SetDraining`.
pub set_draining : Bool → Peer → Peer
set_draining v x = record x { pool = record x.pool { draining = v } }

-- `Close` of a session; the first reason stays.
pub close_peer : Str → Peer → Peer
close_peer reason x = record x {
  reason = if x.pool.done then x.reason else reason;
  pool = close_session x.pool;
}

-- `SendControl`.
pub send_control : (ℕ → Message → Bool) → ℕ → Message → Server → Server
send_control w p m s =
    if w p m then on_peer p (λ x. record x { sent = x.sent ++ (m ∷ []) }) s else s

-- What becomes of a client that asks for the control channel of a node.
pub data Admission : Type 0 where
  declined : Reject → Admission
  lost : Admission
  online : Admission

-- The welcome was written: the node's listeners are started.
pub go_online : SessionRef → Server → Server
go_online sess s = record s { listeners = start_node s.cfg s.registry sess.name s.listeners }

-- It was not.
pub give_up_welcome : ℕ → SessionRef → Server → Server
unfolding on_peer close_peer
give_up_welcome now sess s =
    on_peer sess.ptr (close_peer (codes "welcome write failed"))
      (record s { registry = unregister sess (codes "welcome write failed") now s.registry })

-- The welcome, and what follows it.
pub welcome : (ℕ → Message → Bool) → ℕ → SessionRef → NodeConfig → Server → Admission × Server
unfolding send_control go_online give_up_welcome
welcome w now sess n s =
    let m = welcome_message sess.id n in
    let s' = send_control w sess.ptr m s in
    if w sess.ptr m then (online, go_online sess s') else (lost, give_up_welcome now sess s')

-- `Stats` and `newNodeSession`: the new session's object, at a pointer that is not in use.
pub create : (ℕ → DataChannel) → SessionRef → NodeSpec → NodeConfig → Server → Server
unfolding on_peer new_peer
create heap sess spec n s =
    on_peer sess.ptr (λ _. new_peer heap s.cfg spec n s.registry)
      (record s { registry = (stats_of spec.name s.registry).1 })

pub admit : (ℕ → Message → Bool) → ℕ → SessionRef → NodeConfig → Server → Admission × Server
unfolding welcome
admit w now sess n s =
    let (ok, r) = register sess s.registry in
    if ok then welcome w now sess n (record s { registry = r }) else (declined node_busy, s)

-- `serveControl` up to its loops.
pub join :
    (ℕ → Message → Bool) → (ℕ → DataChannel) → ℕ → ℕ → Str → NodeSpec → Server → Admission × Server
unfolding create admit
join w heap now ptr id spec s =
    let sess : SessionRef = record { ptr = ptr; name = spec.name; id = id; connected_at = now } in
    elim (node_config s.cfg spec.name) [
      | none ↦ (declined internal, s)
      | some n ↦ admit w now sess n (create heap sess spec n s)
    ]

-- The end of `serveControl`.
pub depart : SessionRef → Str → ℕ → Server → Server
unfolding on_peer close_peer
depart sess reason now s = on_peer sess.ptr (close_peer reason) (record s {
  listeners = stop_node sess.name false s.listeners;
  registry = unregister sess reason now s.registry;
})

-- `pushConfig` to the session of the node, and then as a whole.
pub push_session : (ℕ → Message → Bool) → ℕ → NodeConfig → SessionRef → Server → Server
unfolding on_peer send_control set_peer_config
push_session w timeout n sess s =
    send_control w sess.ptr (reload_message n) (on_peer sess.ptr (set_peer_config n timeout) s)

pub push_config : (ℕ → Message → Bool) → Str → Config → Server → Server
unfolding push_session
push_config w node c s = elim (get node s.registry) [
  | none ↦ s
  | some sess ↦ elim (node_config c node) [
    | none ↦ s
    | some n ↦ push_session w c.settings.queue_timeout n sess s
  ]
]

-- `drainNode` on the session of the node, with the goroutine that it starts in `drains`, and then
-- as a whole.
pub drain_session : (ℕ → Message → Bool) → ℕ → Str → Str → SessionRef → Server → Server
unfolding on_peer send_control set_draining
drain_session w deadline reason node sess s =
    let s' = on_peer sess.ptr (set_draining true) s in
    let s'' = send_control w sess.ptr (drain_message deadline) s' in
    record s'' {
      listeners = stop_node node true s''.listeners;
      drains = s''.drains ++ (record { sess = sess; deadline = deadline; reason = reason } ∷ []);
    }

pub drain_node : (ℕ → Message → Bool) → ℕ → Str → Str → Server → Server
unfolding drain_session
drain_node w deadline reason node s = elim (get node s.registry) [
  | none ↦ s
  | some sess ↦ drain_session w deadline reason node sess s
]

-- `waitDrained` may return: no stream is left, the deadline is over, or the session has ended.
pub is_drained : ℕ → ℕ → Peer → Bool
is_drained now deadline x = nat_beq x.pool.active_streams 0 || ltb deadline now || x.pool.done

-- The goroutine of `drainNode` after `waitDrained`.
pub finish_drain : (ℕ → Message → Bool) → Drain → Server → Server
unfolding on_peer send_control close_peer
finish_drain w d s =
    let s' = send_control w d.sess.ptr (bye_message d.reason) s in
    on_peer d.sess.ptr (close_peer d.reason)
      (record s' { listeners = stop_node d.sess.name false s'.listeners })

-- The loop over the nodes that were removed.
pub drain_nodes : (ℕ → Message → Bool) → ℕ → List Str → Server → Server
unfolding drain_node
drain_nodes w deadline [] s = s
drain_nodes w deadline (node ∷ nodes) s =
    drain_nodes w deadline nodes (drain_node w deadline (codes "node removed from config") node s)

-- The loop over the nodes whose key changed.
pub drop_session : Str → SessionRef → Server → Server
unfolding on_peer close_peer
drop_session node sess s =
    on_peer sess.ptr (close_peer (codes "node key changed"))
      (record s { listeners = stop_node node false s.listeners })

pub drop_node : Str → Server → Server
unfolding drop_session
drop_node node s = elim (get node s.registry) [ none ↦ s | some sess ↦ drop_session node sess s ]

pub drop_nodes : List Str → Server → Server
unfolding drop_node
drop_nodes [] s = s
drop_nodes (node ∷ nodes) s = drop_nodes nodes (drop_node node s)

-- The loops over the ports.
pub stop_ports : List ℕ → Manager → Manager
stop_ports [] m = m
stop_ports (p ∷ ps) m = stop_ports ps (stop_port p true m)

pub start_added : Config → Registry → List ℕ → Manager → Manager
start_added c r [] m = m
start_added c r (p ∷ ps) m =
    start_added c r ps (elim (lookup p c.ports) [ none ↦ m | some spec ↦ start_port r spec m ])

-- `retireServer`.
retire : Option Str → List Str → List Str
retire none retired = retired
retire (some addr) retired = retired ++ (addr ∷ [])

-- The two halves of `rebindEndpoints`.
pub rebind_ws : (Str → Bool) → Str → Str → Endpoints → Endpoints
unfolding retire
rebind_ws binds old cur e =
    if (old == cur) || not (binds cur)
    then e
    else record e { ws = some cur; retired = retire e.ws e.retired }

pub rebind_status : (Str → Bool) → Str → Str → Endpoints → Endpoints
unfolding retire
rebind_status binds old cur e =
    let next : Option Str = if cur == [] then none else some cur in
    if (old == cur) || (is_some next && not (binds cur))
    then e
    else record e { status = next; retired = retire e.status e.retired }

-- `rebindEndpoints`.
pub rebind_endpoints : (Str → Bool) → Config → Config → Endpoints → Endpoints
unfolding rebind_ws rebind_status
rebind_endpoints binds old cur e =
    rebind_status binds old.status_listen cur.status_listen
      (rebind_ws binds old.listen cur.listen e)

-- The loop over the nodes whose configuration changed.
pub push_nodes : (ℕ → Message → Bool) → List Str → Config → Server → Server
unfolding push_config
push_nodes w [] c s = s
push_nodes w (node ∷ nodes) c s = push_nodes w nodes c (push_config w node c s)

-- `List` of the registry.
pub names_of : List (Str × SessionRef) → List Str
names_of [] = []
names_of ((_, sess) ∷ live) = sess.name ∷ names_of live

-- The loop over all sessions, less the nodes of `pushed`.
pub push_rest : (ℕ → Message → Bool) → List Str → List Str → Config → Server → Server
unfolding push_config
push_rest w pushed [] c s = s
push_rest w pushed (node ∷ nodes) c s =
    push_rest w pushed nodes c (if contains node pushed then s else push_config w node c s)

-- `applyReload` past its first test.
pub apply_diff : (ℕ → Message → Bool) → (Str → Bool) → ℕ → Config → Diff → Server → Server
unfolding drain_nodes drop_nodes stop_ports rebind_endpoints start_added push_nodes push_rest
    names_of
apply_diff w binds deadline cur d s =
    let s1 = drop_nodes d.key_changed_nodes (drain_nodes w deadline d.removed_nodes s) in
    let s2 : Server = record s1 {
      cfg = cur;
      listeners =
          start_added cur s1.registry d.added_ports (stop_ports d.removed_ports s1.listeners);
      endpoints = rebind_endpoints binds s.cfg cur s1.endpoints;
    } in
    let s3 = push_nodes w d.changed_nodes cur s2 in
    if d.settings_changed
    then push_rest w d.changed_nodes (names_of s3.registry.live) cur s3
    else s3

-- `applyReload` at a time that makes `deadline` the end of the grace period.
pub apply_reload : (ℕ → Message → Bool) → (Str → Bool) → ℕ → Config → Server → Server
unfolding apply_diff
apply_reload w binds deadline cur s =
    let d = diff_config (some s.cfg) cur in
    let relisted =
      not (s.cfg.listen == cur.listen) || not (s.cfg.status_listen == cur.status_listen) in
    if is_empty d && not d.settings_changed && not relisted
    then record s { cfg = cur }
    else apply_diff w binds deadline cur d s
