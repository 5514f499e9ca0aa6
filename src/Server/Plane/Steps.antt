-- ===== src/Server/Plane/Steps.antt =====
-- The control plane as a sequence of steps: control channels that come and go, reloads, drains
-- that end, and what the sessions do meanwhile.
use ws_tunnel.Prelude.{
  ℕ, ◌≡◌, refl, inl, inr, Bool, true, false, ◌&&◌, ◌≢◌, nat_eq, nat_beq_iff, ap, arith, ◌||◌, not,
  some, List, [], ◌∷◌, ◌++◌, Str, ◌==◌, str_eq, Bool-cases, sym, ◌∙◌, subst,
}
use ws_tunnel.Prelude.Dict.{lookup}
use ws_tunnel.Protocol.Control.{Message}
use ws_tunnel.Config.{Config, NodeSpec, node_config}
use ws_tunnel.Config.Valid.{IsValid}
use ws_tunnel.Config.Diff.{diff_config, is_empty}
use ws_tunnel.Server.Session.{DataChannel, NodeSession}
use ws_tunnel.Server.Session.Same.{SameFlags}
use ws_tunnel.Server.Registry.{SessionRef, get, empty}
use ws_tunnel.Server.Registry.{register, unregister}
use ws_tunnel.Server.Listener.{stop_node}
use ws_tunnel.Protocol.Message.{NodeConfig}
use ws_tunnel.Protocol.Control.{welcome_message}
use ws_tunnel.Server.Plane.{
  create, send_control, go_online, Peer, Server, Endpoints, Drain, on_peer, close_peer, join,
  depart, finish_drain, is_drained, apply_reload,
}
use ws_tunnel.Server.Plane.Peers.{Quiet, on_peer-AllQuiet, on_peer-AllQuiet_at, close_peer-Quiet}
use ws_tunnel.Server.Plane.Pushes.{Named, Named-Rest, pushes, pushes-Rest}
use ws_tunnel.Server.Plane.Serves.{relisted, relisted-Named, apply_diff_lem, apply_reload-Serves}
use ws_tunnel.Server.Plane.Synced.{apply_reload_cfg, apply_reload-Synced}
use ws_tunnel.Server.Plane.Joins.{Sound, Unused, join-Sound}
use ws_tunnel.Server.Plane.Leaves.{on_peer-Sound, depart-Sound, finish_drain-Sound}

-- `New` with a configuration that was loaded; `at` is the session that no pointer stands for yet.
unfoldable pub new_server : Config → Endpoints → (ℕ → Peer) → Server
new_server c e at = record {
  cfg = c;
  registry = empty;
  listeners = record { items = []; next_id = 0; stopped = [] };
  peers = at;
  endpoints = e;
  drains = [];
}

-- A session's pool after any of its own operations but `Close` and `SetDraining`.
pub set_pool : NodeSession → Peer → Peer
set_pool n x = record x { pool = n }

-- The goroutine of a drain is gone.
unfoldable pub without_drain : List Drain → Server → Server
without_drain ds s = record s { drains = ds }

-- What happens to the control plane: `w` says which writes succeed and `binds` which addresses can
-- be bound. `joins` and `leaves` are `serveControl` before and after its loops without anything in
-- between; the constructors from `creates` on are its parts, each under its own lock, with whatever
-- configuration was read before, so that a run may have reloads and other steps between them. A
-- drain may end beside another session of its node. A reload and the end of a drain are single
-- steps; that other operations may run between their parts is left out.
pub data Step (w : ℕ → Message → Bool) (binds : Str → Bool) (s : Server) : Server → Type 0 where
  joins :
      (heap : ℕ → DataChannel) (now ptr : ℕ) (id : Str) (spec : NodeSpec)
      → Unused s ptr
      → Step w binds s (join w heap now ptr id spec s).1
  leaves :
      (sess : SessionRef) (reason : Str) (now : ℕ)
      → get sess.name s.registry ≡ some sess
      → Step w binds s (depart sess reason now s)
  reloads :
      (deadline : ℕ) (cur : Config)
      → IsValid cur
      → Step w binds s (apply_reload w binds deadline cur s)
  drained :
      (before after : List Drain) (d : Drain) (now : ℕ)
      → s.drains ≡ before ++ (d ∷ after)
      → is_drained now d.deadline (s.peers d.sess.ptr) ≡ true
      → Step w binds s (without_drain (before ++ after) (finish_drain w d s))
  closes : (p : ℕ) (reason : Str) → Step w binds s (on_peer p (close_peer reason) s)
  works :
      (p : ℕ) (n : NodeSession)
      → SameFlags (s.peers p).pool n
      → Step w binds s (on_peer p (set_pool n) s)
  creates :
      (heap : ℕ → DataChannel) (sess : SessionRef) (spec : NodeSpec) (n : NodeConfig)
      (read : Config)
      → Unused s sess.ptr
      → node_config read spec.name ≡ some n
      → Step w binds s (record (create heap sess spec n (record s { cfg = read })) { cfg = s.cfg })
  registers :
      (sess : SessionRef)
      → (register sess s.registry).0 ≡ true
      → Step w binds s (record s { registry = (register sess s.registry).1 })
  greets :
      (sess : SessionRef) (n : NodeConfig)
      → get sess.name s.registry ≡ some sess
      → Step w binds s (send_control w sess.ptr (welcome_message sess.id n) s)
  opens : (sess : SessionRef) → Step w binds s (go_online sess s)
  stops :
      (sess : SessionRef)
      → Step w binds s (record s { listeners = stop_node sess.name false s.listeners })
  unregisters :
      (sess : SessionRef) (reason : Str) (now : ℕ)
      → Step w binds s (record s { registry = unregister sess reason now s.registry })

pub data Reach (w : ℕ → Message → Bool) (binds : Str → Bool) (s : Server) : Server → Type 0 where
  here : Reach w binds s s
  next : {t u : Server} → Reach w binds s t → Step w binds t u → Reach w binds s u

apply_reload-Named :
    (w : ℕ → Message → Bool) (binds : Str → Bool) (deadline : ℕ) (cur : Config) (s : Server)
    → Named (relisted w binds deadline cur (diff_config (some s.cfg) cur) s)
    → Named s
    → Named (apply_reload w binds deadline cur s)
unfolding apply_reload
apply_reload-Named w binds deadline cur s after before =
    let d = diff_config (some s.cfg) cur in
    let t = relisted w binds deadline cur d s in
    let moves =
      not (s.cfg.listen == cur.listen) || not (s.cfg.status_listen == cur.status_listen) in
    elim (Bool-cases (is_empty d && not d.settings_changed && not moves)) [
      | inl h ↦ rw (h, apply_reload) before
      | inr h ↦
          rw (h, apply_reload, apply_diff_lem w binds deadline cur d s)
            (Named-Rest t (pushes w cur d t) (pushes-Rest w cur d t after) after)
    ]

pub apply_reload-Sound :
    {covered : Str → Bool} (w : ℕ → Message → Bool) (binds : Str → Bool) (deadline : ℕ)
    (cur : Config) (s : Server)
    → IsValid cur
    → Sound covered s
    → Sound covered (apply_reload w binds deadline cur s)
apply_reload-Sound w binds deadline cur s vc ok =
    let named = relisted-Named w binds deadline cur s ok.valid vc ok.serves ok.named in
    record {
      valid = subst IsValid (sym (apply_reload_cfg w binds deadline cur s named)) vc;
      named = apply_reload-Named w binds deadline cur s named ok.named;
      serves = apply_reload-Serves w binds deadline cur s ok.valid vc ok.named ok.serves;
      synced = apply_reload-Synced w binds deadline cur s ok.valid vc ok.named ok.serves ok.synced;
    }

without_drain-Sound :
    {covered : Str → Bool} (ds : List Drain) (s : Server)
    → Sound covered s
    → Sound covered (without_drain ds s)
unfolding without_drain
without_drain-Sound ds s ok = record {
  valid = ok.valid;
  named = ok.named;
  serves = record { books = ok.serves.books; only = ok.serves.only; all = ok.serves.all };
  synced = ok.synced;
}

pub set_pool-Quiet : (n : NodeSession) (x : Peer) → SameFlags x.pool n → Quiet x (set_pool n x)
unfolding set_pool
set_pool-Quiet n x f = record {
  name = refl;
  cfg = refl;
  queue_timeout = refl;
  seen = λ e. refl;
  done = λ e. sym f.done ∙ e;
  draining = λ e. sym f.draining ∙ e;
}

-- The node of a drain that ends, if it has another session by then.
abbrev pub LateFor : Str → Drain → Server → Type 0
LateFor n d s =
    (d.sess.name ≡ n) × ((x : SessionRef) × (get n s.registry ≡ some x) × (x.ptr ≢ d.sess.ptr))

-- The step does not end a drain of the node beside another session of it.
abbrev pub StepInTime :
    {w : ℕ → Message → Bool} {binds : Str → Bool} {s t : Server} → Str → Step w binds s t → Type 0
StepInTime n (joins heap now ptr id spec u) = Unit {0}
StepInTime n (leaves sess reason now g) = Unit {0}
StepInTime n (reloads deadline cur v) = Unit {0}
StepInTime {s = s} n (drained before after d now e o) = LateFor n d s → ⊥
StepInTime n (closes p reason) = Unit {0}
StepInTime n (works p m f) = Unit {0}
StepInTime n (creates heap sess spec k read u e) = Unit {0}
StepInTime n (registers sess ok) = Unit {0}
StepInTime n (greets sess k g) = Unit {0}
StepInTime n (opens sess) = Unit {0}
StepInTime n (stops sess) = Unit {0}
StepInTime n (unregisters sess reason now) = Unit {0}

-- The step is no part of a control channel's coming or going.
abbrev pub IsWholeStep :
    {w : ℕ → Message → Bool} {binds : Str → Bool} {s t : Server} → Step w binds s t → Type 0
IsWholeStep (joins heap now ptr id spec u) = Unit {0}
IsWholeStep (leaves sess reason now g) = Unit {0}
IsWholeStep (reloads deadline cur v) = Unit {0}
IsWholeStep (drained before after d now e o) = Unit {0}
IsWholeStep (closes p reason) = Unit {0}
IsWholeStep (works p m f) = Unit {0}
IsWholeStep (creates heap sess spec n read u e) = ⊥
IsWholeStep (registers sess ok) = ⊥
IsWholeStep (greets sess n g) = ⊥
IsWholeStep (opens sess) = ⊥
IsWholeStep (stops sess) = ⊥
IsWholeStep (unregisters sess reason now) = ⊥

-- Control channels come and go undivided all the way.
abbrev pub IsWhole :
    {w : ℕ → Message → Bool} {binds : Str → Bool} {s t : Server} → Reach w binds s t → Type 0
IsWhole here = Unit {0}
IsWhole (next r st) = IsWhole r × IsWholeStep st

-- No drain of the node ends beside another session of it, all the way.
abbrev pub InTime :
    {w : ℕ → Message → Bool} {binds : Str → Bool} {s t : Server} → Str → Reach w binds s t → Type 0
InTime n here = Unit {0}
InTime n (next r st) = InTime n r × StepInTime n st

alone :
    (n : Str) (d : Drain) (s : Server)
    → (LateFor n d s → ⊥)
    → (x : SessionRef) → d.sess.name ≡ n
    → get d.sess.name s.registry ≡ some x
    → x.ptr ≡ d.sess.ptr
alone n d s in_time x e g = elim (Bool-cases (x.ptr == d.sess.ptr)) [
  | inl h ↦ (nat_beq_iff x.ptr d.sess.ptr).0 h
  | inr h ↦ absurd (
      in_time (
        e,
        (
          x,
          ap (λ m. get m s.registry) (sym e) ∙ g,
          λ z. ground (arith, h, (nat_beq_iff x.ptr d.sess.ptr).1 z),
        ),
      ))
]

Step-Sound :
    {covered : Str → Bool} (w : ℕ → Message → Bool) (binds : Str → Bool) (s t : Server)
    → (st : Step w binds s t) → IsWholeStep st
    → ((n : Str) → covered n ≡ true → StepInTime n st)
    → Sound covered s
    → Sound covered t
Step-Sound w binds s _ (joins heap now ptr id spec unused) whole in_time ok =
    join-Sound w heap now ptr id spec s unused ok
Step-Sound w binds s _ (leaves sess reason now g) whole in_time ok =
    depart-Sound sess reason now s g ok
Step-Sound w binds s _ (reloads deadline cur vc) whole in_time ok =
    apply_reload-Sound w binds deadline cur s vc ok
Step-Sound w binds s _ (drained before after d now _ _) whole in_time ok =
    without_drain-Sound (before ++ after) (finish_drain w d s) (
      finish_drain-Sound w d s (λ x k g. alone d.sess.name d s (in_time d.sess.name k) x refl g) ok)
Step-Sound w binds s _ (closes p reason) whole in_time ok =
    on_peer-Sound p (close_peer reason) s
      (on_peer-AllQuiet p (close_peer reason) s (close_peer-Quiet reason)) ok
Step-Sound w binds s _ (works p n f) whole in_time ok =
    on_peer-Sound p (set_pool n) s
      (on_peer-AllQuiet_at p (set_pool n) s (set_pool-Quiet n (s.peers p) f)) ok
Step-Sound w binds s _ (creates _ _ _ _ _ _ _) whole in_time ok = absurd whole
Step-Sound w binds s _ (registers _ _) whole in_time ok = absurd whole
Step-Sound w binds s _ (greets _ _ _) whole in_time ok = absurd whole
Step-Sound w binds s _ (opens _) whole in_time ok = absurd whole
Step-Sound w binds s _ (stops _) whole in_time ok = absurd whole
Step-Sound w binds s _ (unregisters _ _ _) whole in_time ok = absurd whole

new_server-Sound :
    {covered : Str → Bool} (c : Config) (e : Endpoints) (at : ℕ → Peer)
    → IsValid c
    → Sound covered (new_server c e at)
unfolding new_server empty lookup
new_server-Sound c e at v = record {
  valid = v;
  named = λ n sess g. cc;
  serves = record {
    books = record { once = tt; all = refl };
    only = λ p n h. cc;
    all = λ p n sess k o g d. cc;
  };
  synced = λ n sess g d f. cc;
}

-- What holds in every state that is reached, of the nodes that are covered if none of their drains
-- ends late.
pub Reach-covered :
    {covered : Str → Bool} (w : ℕ → Message → Bool) (binds : Str → Bool) (c : Config)
    (e : Endpoints) (at : ℕ → Peer) (s : Server)
    → IsValid c
    → (r : Reach w binds (new_server c e at) s) → IsWhole r
    → ((n : Str) → covered n ≡ true → InTime n r)
    → Sound covered s
Reach-covered w binds c e at _ v here whole in_time = new_server-Sound c e at v
Reach-covered w binds c e at s v (next {t} r st) whole in_time =
    Step-Sound w binds t s st whole.1 (λ n k. (in_time n k).1)
      (Reach-covered w binds c e at t v r whole.0 (λ n k. (in_time n k).0))

-- Of no node is it asked when its drains end.
abbrev pub no_node : Str → Bool
no_node n = false

pub Reach-Sound :
    (w : ℕ → Message → Bool) (binds : Str → Bool) (c : Config) (e : Endpoints) (at : ℕ → Peer)
    (s : Server)
    → IsValid c
    → (r : Reach w binds (new_server c e at) s) → IsWhole r
    → Sound no_node s
Reach-Sound w binds c e at s v r whole =
    Reach-covered {covered = no_node} w binds c e at s v r whole (λ n k. absurd (ground (arith, k)))
