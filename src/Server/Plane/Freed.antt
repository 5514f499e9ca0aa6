-- ===== src/Server/Plane/Freed.antt =====
-- What the loops of `applyReload` over removed and re-keyed nodes do: they free ports of these
-- nodes, and close sessions.
use ws_tunnel.Prelude.{
  ℕ, ◌≡◌, refl, inl, inr, Bool, true, false, some, List, [], ◌∷◌, arith, Str, ◌==◌, str_eq,
  str_beq_iff, Option-cases, Bool-cases, ◌∙◌, ap,
}
use ws_tunnel.Prelude.Sets.{contains}
use ws_tunnel.Protocol.Header.{codes}
use ws_tunnel.Protocol.Control.{Message, drain_message}
use ws_tunnel.Protocol.Control.View.{drain-unseen}
use ws_tunnel.Server.Session.Same.{close_session_done}
use ws_tunnel.Server.Registry.{SessionRef, get}
use ws_tunnel.Server.Listener.{Manager, stop_node}
use ws_tunnel.Server.Listener.Laws.{Books}
use ws_tunnel.Server.Listener.Holding.{holding, stop_node-holding}
use ws_tunnel.Server.Plane.{
  Server, on_peer, send_control, set_draining, close_peer, drain_session, drain_node, drain_nodes,
  drop_session, drop_node, drop_nodes,
}
use ws_tunnel.Server.Plane.Peers.{
  AllQuiet, is_done, is_draining, refl-Quiet, trans-Quiet, on_peer-AllQuiet, send_control-AllQuiet,
  set_draining-Quiet, close_peer-Quiet,
}

-- Only ports of `nodes` were freed, and no session was changed but by closing it.
pub record Freed (nodes : List Str) (s t : Server) : Type 0 where
  pub cfg : t.cfg ≡ s.cfg
  pub registry : t.registry ≡ s.registry
  pub endpoints : t.endpoints ≡ s.endpoints
  pub books : Books t.listeners
  pub only : (p : ℕ) (n : Str) → holding t.listeners p ≡ some n → holding s.listeners p ≡ some n
  pub rest :
      (p : ℕ) (n : Str)
      → contains n nodes ≡ false
      → holding s.listeners p ≡ some n
      → holding t.listeners p ≡ some n
  pub peers : AllQuiet s t

refl-Freed : (nodes : List Str) (s : Server) → Books s.listeners → Freed nodes s s
refl-Freed nodes s b = record {
  cfg = refl;
  registry = refl;
  endpoints = refl;
  books = b;
  only = λ p n e. e;
  rest = λ p n c e. e;
  peers = λ q. refl-Quiet (s.peers q);
}

trans-Freed :
    (n : Str) (ns : List Str) (s t u : Server)
    → Freed (n ∷ []) s t
    → Freed ns t u
    → Freed (n ∷ ns) s u
trans-Freed n ns s t u a b = record {
  cfg = b.cfg ∙ a.cfg;
  registry = b.registry ∙ a.registry;
  endpoints = b.endpoints ∙ a.endpoints;
  books = b.books;
  only = λ p k e. a.only p k (b.only p k e);
  rest = λ p k c e. b.rest p k (ground arith) (a.rest p k (ground arith) e);
  peers = λ q. trans-Quiet (s.peers q) (t.peers q) (u.peers q) (a.peers q) (b.peers q);
}

pub stop_node-only :
    (node : Str) (graceful : Bool) (m : Manager) (p : ℕ) (n : Str)
    → Books m
    → holding (stop_node node graceful m) p ≡ some n
    → holding m p ≡ some n
stop_node-only node graceful m p n b e =
    ground (arith, e, (stop_node-holding node graceful m b).1 p)

pub stop_node-rest :
    (node : Str) (graceful : Bool) (m : Manager) (p : ℕ) (n : Str)
    → Books m
    → contains n (node ∷ []) ≡ false
    → holding m p ≡ some n
    → holding (stop_node node graceful m) p ≡ some n
stop_node-rest node graceful m p n b c e =
    ground (
      arith,
      e,
      c,
      (stop_node-holding node graceful m b).1 p,
      str_beq_iff n node,
      str_beq_iff node n,
    )

-- A write touches no more than a session.
pub send_control_rest :
    (w : ℕ → Message → Bool) (p : ℕ) (m : Message) (s : Server)
    → ((send_control w p m s).cfg ≡ s.cfg)
      × ((send_control w p m s).registry ≡ s.registry)
      × ((send_control w p m s).listeners ≡ s.listeners)
      × ((send_control w p m s).endpoints ≡ s.endpoints)
unfolding send_control on_peer
send_control_rest w p m s = elim (Bool-cases (w p m)) [
  | inl e ↦ rw e (refl, refl, refl, refl)
  | inr e ↦ rw e (refl, refl, refl, refl)
]

drain_session-Freed :
    (w : ℕ → Message → Bool) (deadline : ℕ) (reason node : Str) (sess : SessionRef) (s : Server)
    → Books s.listeners
    → Freed (node ∷ []) s (drain_session w deadline reason node sess s)
unfolding drain_session on_peer
drain_session-Freed w deadline reason node sess s b =
    let s' = on_peer sess.ptr (set_draining true) s in
    let s'' = send_control w sess.ptr (drain_message deadline) s' in
    let (c, r, l, e) = send_control_rest w sess.ptr (drain_message deadline) s' in
    record {
      cfg = c;
      registry = r;
      endpoints = e;
      books = rw l ((stop_node-holding node true s.listeners b).0);
      only = λ p n h. stop_node-only node true s.listeners p n b (rw l at h);
      rest = λ p n h k. rw l (stop_node-rest node true s.listeners p n b h k);
      peers = λ q.
          trans-Quiet (s.peers q) (s'.peers q) (s''.peers q)
            (on_peer-AllQuiet sess.ptr (set_draining true) s set_draining-Quiet q)
            (send_control-AllQuiet w sess.ptr (drain_message deadline) s' (drain-unseen deadline)
              q);
    }

drain_node-Freed :
    (w : ℕ → Message → Bool) (deadline : ℕ) (reason node : Str) (s : Server)
    → Books s.listeners
    → Freed (node ∷ []) s (drain_node w deadline reason node s)
unfolding drain_node
drain_node-Freed w deadline reason node s b = elim (Option-cases (get node s.registry)) [
  | inl e ↦ rw (e, drain_node) (refl-Freed (node ∷ []) s b)
  | inr (sess, e) ↦ rw (e, drain_node) (drain_session-Freed w deadline reason node sess s b)
]

pub drain_nodes-Freed :
    (w : ℕ → Message → Bool) (deadline : ℕ) (nodes : List Str) (s : Server)
    → Books s.listeners
    → Freed nodes s (drain_nodes w deadline nodes s)
unfolding drain_nodes
drain_nodes-Freed w deadline [] s b = refl-Freed [] s b
drain_nodes-Freed w deadline (node ∷ nodes) s b =
    let t = drain_node w deadline (codes "node removed from config") node s in
    let first = drain_node-Freed w deadline (codes "node removed from config") node s b in
    trans-Freed node nodes s t (drain_nodes w deadline nodes t) first
      (drain_nodes-Freed w deadline nodes t first.books)

drop_session-Freed :
    (node : Str) (sess : SessionRef) (s : Server)
    → Books s.listeners
    → Freed (node ∷ []) s (drop_session node sess s)
unfolding drop_session on_peer
drop_session-Freed node sess s b = record {
  cfg = refl;
  registry = refl;
  endpoints = refl;
  books = (stop_node-holding node false s.listeners b).0;
  only = λ p n h. stop_node-only node false s.listeners p n b h;
  rest = λ p n h k. stop_node-rest node false s.listeners p n b h k;
  peers =
      on_peer-AllQuiet sess.ptr (close_peer (codes "node key changed")) s
        (close_peer-Quiet (codes "node key changed"));
}

-- The session is closed, too.
drop_session-is_done :
    (node : Str) (sess : SessionRef) (s : Server)
    → is_done (drop_session node sess s) sess.ptr ≡ true
unfolding drop_session on_peer close_peer
drop_session-is_done node sess s = ground (arith, close_session_done (s.peers sess.ptr).pool)

drop_node-is_done :
    (node : Str) (sess : SessionRef) (s : Server)
    → get node s.registry ≡ some sess
    → is_done (drop_node node s) sess.ptr ≡ true
unfolding drop_node
drop_node-is_done node sess s e = rw (e, drop_node) (drop_session-is_done node sess s)

drop_node-Freed :
    (node : Str) (s : Server) → Books s.listeners → Freed (node ∷ []) s (drop_node node s)
unfolding drop_node
drop_node-Freed node s b = elim (Option-cases (get node s.registry)) [
  | inl e ↦ rw (e, drop_node) (refl-Freed (node ∷ []) s b)
  | inr (sess, e) ↦ rw (e, drop_node) (drop_session-Freed node sess s b)
]

pub drop_nodes-Freed :
    (nodes : List Str) (s : Server) → Books s.listeners → Freed nodes s (drop_nodes nodes s)
unfolding drop_nodes
drop_nodes-Freed [] s b = refl-Freed [] s b
drop_nodes-Freed (node ∷ nodes) s b =
    let t = drop_node node s in
    let first = drop_node-Freed node s b in
    trans-Freed node nodes s t (drop_nodes nodes t) first (drop_nodes-Freed nodes t first.books)

-- Every live session of these nodes is closed.
pub drop_nodes-is_done :
    (nodes : List Str) (s : Server) (n : Str) (sess : SessionRef)
    → Books s.listeners
    → contains n nodes ≡ true
    → get n s.registry ≡ some sess
    → is_done (drop_nodes nodes s) sess.ptr ≡ true
unfolding drop_nodes
drop_nodes-is_done [] s n sess b c g = cc
drop_nodes-is_done (node ∷ nodes) s n sess b c g =
    let t = drop_node node s in
    let first = drop_node-Freed node s b in
    let later = drop_nodes-Freed nodes t first.books in
    elim (Bool-cases (node == n)) [
      | inl e ↦
          let same : node ≡ n = (str_beq_iff node n).0 e in
          let here : is_done t sess.ptr ≡ true = now (ap (λ k. get k s.registry) same ∙ g) in
          ground (arith, here, (later.peers sess.ptr).done)
      | inr e ↦
          drop_nodes-is_done nodes t n sess first.books (ground (arith, c, e))
            (ap (get n) first.registry ∙ g)
    ]
  where
    now : get node s.registry ≡ some sess → is_done (drop_node node s) sess.ptr ≡ true
    now h = drop_node-is_done node sess s h

drain_session-is_draining :
    (w : ℕ → Message → Bool) (deadline : ℕ) (reason node : Str) (sess : SessionRef) (s : Server)
    → is_draining (drain_session w deadline reason node sess s) sess.ptr ≡ true
unfolding drain_session on_peer set_draining send_control
drain_session-is_draining w deadline reason node sess s =
    elim (Bool-cases (w sess.ptr (drain_message deadline))) [
      | inl e ↦ rw e (ground arith)
      | inr e ↦ rw e (ground arith)
    ]

drain_node-is_draining :
    (w : ℕ → Message → Bool) (deadline : ℕ) (reason node : Str) (sess : SessionRef) (s : Server)
    → get node s.registry ≡ some sess
    → is_draining (drain_node w deadline reason node s) sess.ptr ≡ true
unfolding drain_node
drain_node-is_draining w deadline reason node sess s e =
    rw (e, drain_node) (drain_session-is_draining w deadline reason node sess s)

-- Every live session of these nodes takes no new streams.
pub drain_nodes-is_draining :
    (w : ℕ → Message → Bool) (deadline : ℕ) (nodes : List Str) (s : Server) (n : Str)
    (sess : SessionRef)
    → Books s.listeners
    → contains n nodes ≡ true
    → get n s.registry ≡ some sess
    → is_draining (drain_nodes w deadline nodes s) sess.ptr ≡ true
unfolding drain_nodes
drain_nodes-is_draining w deadline [] s n sess b c g = cc
drain_nodes-is_draining w deadline (node ∷ nodes) s n sess b c g =
    let t = drain_node w deadline (codes "node removed from config") node s in
    let first = drain_node-Freed w deadline (codes "node removed from config") node s b in
    let later = drain_nodes-Freed w deadline nodes t first.books in
    elim (Bool-cases (node == n)) [
      | inl e ↦
          let same : node ≡ n = (str_beq_iff node n).0 e in
          let here =
            drain_node-is_draining w deadline (codes "node removed from config") node sess s
              (ap (λ k. get k s.registry) same ∙ g) in
          ground (arith, here, (later.peers sess.ptr).draining)
      | inr e ↦
          drain_nodes-is_draining w deadline nodes t n sess first.books (ground (arith, c, e))
            (ap (get n) first.registry ∙ g)
    ]
