-- ===== src/Server/Plane/Leaves.antt =====
-- What a session that ends, and a drain that is over, do to the control plane.
use ws_tunnel.Prelude.{
  ◌≢◌, ℕ, ◌≡◌, refl, inl, inr, Bool, true, false, [], ◌∷◌, some, arith, nat_beq, Str, ◌==◌, str_eq,
  str_beq_iff, is_some, Bool-cases, ◌∙◌, ap,
}
use ws_tunnel.Prelude.Sets.{contains}
use ws_tunnel.Protocol.Control.{Message, bye_message}
use ws_tunnel.Server.Session.Same.{close_session_done}
use ws_tunnel.Server.Registry.{SessionRef, get, unregister, get-unregister}
use ws_tunnel.Server.Listener.{stop_node}
use ws_tunnel.Server.Listener.Laws.{Books}
use ws_tunnel.Server.Listener.Holding.{holding, is_node_iff, stop_node-holding}
use ws_tunnel.Server.Plane.{
  Peer, Server, Drain, on_peer, send_control, close_peer, depart, finish_drain,
}
use ws_tunnel.Server.Plane.Peers.{
  AllQuiet, is_done, on_peer-AllQuiet, close_peer-Quiet, bye-AllQuiet,
}
use ws_tunnel.Server.Plane.Freed.{send_control_rest, stop_node-only, stop_node-rest}
use ws_tunnel.Server.Plane.Synced.{Quiet-UpToDate}
use ws_tunnel.Server.Plane.Joins.{Sound, send_control-other}

-- Sessions and listeners only went away, and a listener of a covered node
-- only with its session.
record Less (covered : Str → Bool) (s t : Server) : Type 0 where
  cfg : t.cfg ≡ s.cfg
  nodes :
      (n : Str) (sess : SessionRef) → get n t.registry ≡ some sess → get n s.registry ≡ some sess
  books : Books t.listeners
  only :
      (p : ℕ) (n : Str)
      → holding t.listeners p ≡ some n
      → (holding s.listeners p ≡ some n) × (get n t.registry ≡ get n s.registry)
  rest :
      (p : ℕ) (n : Str) (sess : SessionRef)
      → covered n ≡ true
      → get n t.registry ≡ some sess
      → is_done t sess.ptr ≡ false
      → holding s.listeners p ≡ some n
      → holding t.listeners p ≡ some n
  peers : AllQuiet s t

Less-Sound :
    {covered : Str → Bool} (s t : Server) → Less covered s t → Sound covered s → Sound covered t
Less-Sound s t l ok = record {
  valid = rw l.cfg ok.valid;
  named = λ n sess g.
      let (peer, name) = ok.named n sess (l.nodes n sess g) in
      ((l.peers sess.ptr).name ∙ peer, name);
  serves = record {
    books = l.books;
    only = λ p n h.
        let (was, same) = l.only p n h in
        let (o, on) = ok.serves.only p n was in (rw l.cfg o, ap is_some same ∙ on);
    all = λ p n sess k o g d.
        l.rest p n sess k g d
          (ok.serves.all p n sess k (rw l.cfg at o) (l.nodes n sess g) ((l.peers sess.ptr).done d));
  };
  synced = λ n sess g d f. rw l.cfg (
      Quiet-UpToDate s.cfg n (s.peers sess.ptr) (t.peers sess.ptr) (l.peers sess.ptr) (
        ok.synced n sess (l.nodes n sess g) ((l.peers sess.ptr).done d)
          ((l.peers sess.ptr).draining f)));
}

-- A change of a session that keeps its configuration.
pub on_peer-Sound :
    {covered : Str → Bool} (p : ℕ) (f : Peer → Peer) (s : Server)
    → AllQuiet s (on_peer p f s)
    → Sound covered s
    → Sound covered (on_peer p f s)
unfolding on_peer
on_peer-Sound p f s quiet ok =
    Less-Sound s (on_peer p f s)
      (record {
        cfg = refl;
        nodes = λ n x g. g;
        books = ok.serves.books;
        only = λ q n h. (h, refl);
        rest = λ q n x k g d h. h;
        peers = quiet;
      })
      ok

-- The end of a session's control loop keeps the control plane sound, if it is the session that is
-- registered for its node.
pub depart-Sound :
    {covered : Str → Bool} (sess : SessionRef) (reason : Str) (now : ℕ) (s : Server)
    → get sess.name s.registry ≡ some sess
    → Sound covered s
    → Sound covered (depart sess reason now s)
unfolding depart on_peer
depart-Sound sess reason now s current ok =
    let b = ok.serves.books in
    Less-Sound s (depart sess reason now s)
      (record {
        cfg = refl;
        nodes = λ n x g. ground (arith, get-unregister sess reason now n s.registry, g);
        books = (stop_node-holding sess.name false s.listeners b).0;
        only = λ p n h.
            let was = stop_node-only sess.name false s.listeners p n b h in
            let gone : (sess.name == n) ≡ false = freed p n h in
            (was, ground (arith, get-unregister sess reason now n s.registry, gone));
        rest =
            λ p n x k g d h. stop_node-rest sess.name false s.listeners p n b (elsewhere n x g) h;
        peers = on_peer-AllQuiet sess.ptr (close_peer reason) s (close_peer-Quiet reason);
      })
      ok
  where
    freed :
        (p : ℕ) (n : Str)
        → holding (stop_node sess.name false s.listeners) p ≡ some n
        → (sess.name == n) ≡ false
    freed p n h =
        let l = (stop_node-holding sess.name false s.listeners ok.serves.books).1 p in
        elim (Bool-cases (sess.name == n)) [
          | inr e ↦ e
          | inl e ↦ ground (
            arith,
            l,
            h,
            is_node_iff (holding s.listeners p) sess.name,
            str_beq_iff sess.name n,
            e,
          )
        ]

    elsewhere :
        (n : Str) (x : SessionRef)
        → get n (unregister sess reason now s.registry) ≡ some x
        → contains n (sess.name ∷ []) ≡ false
    elsewhere n x g =
        let self : nat_beq sess.ptr sess.ptr ≡ true = ground arith in
        ground (arith, get-unregister sess reason now n s.registry, g, current, self)

finish_drain-is_done :
    (w : ℕ → Message → Bool) (d : Drain) (s : Server)
    → is_done (finish_drain w d s) d.sess.ptr ≡ true
unfolding finish_drain on_peer close_peer
finish_drain-is_done w d s = ground (
  arith,
  close_session_done ((send_control w d.sess.ptr (bye_message d.reason) s).peers d.sess.ptr).pool,
)

-- The end of a drain does so, if the node has no other session by then or is not
-- covered.
pub finish_drain-Sound :
    {covered : Str → Bool} (w : ℕ → Message → Bool) (d : Drain) (s : Server)
    → ((x : SessionRef)
        → covered d.sess.name ≡ true
        → get d.sess.name s.registry ≡ some x
        → x.ptr ≡ d.sess.ptr)
    → Sound covered s
    → Sound covered (finish_drain w d s)
unfolding finish_drain on_peer
finish_drain-Sound {covered = covered} w d s alone ok =
    let b = ok.serves.books in
    let s' = send_control w d.sess.ptr (bye_message d.reason) s in
    let (c, r, l, _) = send_control_rest w d.sess.ptr (bye_message d.reason) s in
    let s'' : Server = record s' { listeners = stop_node d.sess.name false s'.listeners } in
    Less-Sound s (finish_drain w d s)
      (record {
        cfg = c;
        nodes = λ n x g. rw r at g;
        books = rw l ((stop_node-holding d.sess.name false s.listeners b).0);
        only =
            λ p n h. (stop_node-only d.sess.name false s.listeners p n b (rw l at h), ap (get n) r);
        rest = λ p n x c' g e h. elim (Bool-cases (d.sess.name == n)) [
          | inr k ↦ rw l (stop_node-rest d.sess.name false s.listeners p n b (ground (arith, k)) h)
          | inl k ↦
              let here =
                ap (λ m. get m s.registry) ((str_beq_iff d.sess.name n).0 k) ∙ (rw r at g) in
              let same : x.ptr ≡ d.sess.ptr =
                alone x (ap covered ((str_beq_iff d.sess.name n).0 k) ∙ c') here in
              let ended = finish_drain-is_done w d s in
              ground (arith, ended, ap (is_done (finish_drain w d s)) same, e)
        ];
        peers = λ q. bye-AllQuiet w d.sess.ptr d.reason s q;
      })
      ok

-- A drain whose node has a session again by the time that it is over: that session goes on, if it
-- has not ended, but its node holds no port afterwards, whatever the configuration gives it.
pub late_drain_stops_successor :
    (w : ℕ → Message → Bool) (d : Drain) (s : Server) (next : SessionRef) (p : ℕ)
    → Books s.listeners
    → get d.sess.name s.registry ≡ some next
    → next.ptr ≢ d.sess.ptr
    → let t = finish_drain w d s in
      (get d.sess.name t.registry ≡ some next)
      × (is_done t next.ptr ≡ is_done s next.ptr)
      × (holding t.listeners p ≢ some d.sess.name)
unfolding finish_drain on_peer
late_drain_stops_successor w d s next p b g ne =
    let (_, r, l, _) = send_control_rest w d.sess.ptr (bye_message d.reason) s in
    (
      rw r g,
      ground (
        arith,
        ne,
        ap (λ x. x.pool.done)
            (send_control-other w d.sess.ptr (bye_message d.reason) s next.ptr ne),
      ),
      λ h.
          let held = (stop_node-holding d.sess.name false s.listeners b).1 p in
          let now : holding (stop_node d.sess.name false s.listeners) p ≡ some d.sess.name =
            rw l at h in
          ground (arith, held, now, is_node_iff (holding s.listeners p) d.sess.name),
    )
