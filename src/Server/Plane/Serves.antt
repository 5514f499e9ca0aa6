-- ===== src/Server/Plane/Serves.antt =====
-- The listeners are those of the configured ports whose nodes are online: `applyReload`.
use ws_tunnel.Prelude.{
  ℕ, ◌≡◌, refl, inl, inr, Bool, true, false, ◌&&◌, ◌||◌, not, Option, none, some, arith,
  if◌then◌else◌, Str, ◌==◌, str_eq, is_some, Bool-cases, sym, ◌∙◌, ap, nat_eq,
}
use ws_tunnel.Prelude.Dict.{lookup}
use ws_tunnel.Prelude.Sets.{contains}
use ws_tunnel.Protocol.Control.{Message}
use ws_tunnel.Config.{Config, PortSpec}
use ws_tunnel.Config.Valid.{IsValid}
use ws_tunnel.Config.Diff.{Diff, diff_config, is_empty}
use ws_tunnel.Config.Diff.Ports.{owner, owner_of, not_removed, not_added, kept_not_removed}
use ws_tunnel.Config.Diff.Reload.{configured_not_removed, is_empty_lem}
use ws_tunnel.Server.Registry.{SessionRef, get}
use ws_tunnel.Server.Listener.Laws.{Books}
use ws_tunnel.Server.Listener.Holding.{holding, is_online}
use ws_tunnel.Server.Plane.{
  Server, drain_nodes, drop_nodes, stop_ports, start_added, rebind_endpoints, apply_diff,
  apply_reload,
}
use ws_tunnel.Server.Plane.Peers.{is_done, AllQuiet, trans-Quiet}
use ws_tunnel.Server.Plane.Freed.{Freed, drain_nodes-Freed, drop_nodes-Freed, drop_nodes-is_done}
use ws_tunnel.Server.Plane.Ports.{stop_ports-holding, start_added-holding}
use ws_tunnel.Server.Plane.Pushes.{Rest, Named, pushes, pushes-Rest}

-- What the listeners promise: a port is held only by the node that the configuration gives it to,
-- while that node has a session; and a port whose node is covered and has a session that has not
-- ended is held.
pub record Serves (covered : Str → Bool) (s : Server) : Type 0 where
  pub books : Books s.listeners
  pub only :
      (p : ℕ) (n : Str)
      → holding s.listeners p ≡ some n
      → (owner s.cfg p ≡ some n) × (is_some (get n s.registry) ≡ true)
  pub all :
      (p : ℕ) (n : Str) (sess : SessionRef)
      → covered n ≡ true
      → owner s.cfg p ≡ some n
      → get n s.registry ≡ some sess
      → is_done s sess.ptr ≡ false
      → holding s.listeners p ≡ some n

-- The state of `applyReload` after its first two loops.
unfoldable pub dropped : (ℕ → Message → Bool) → ℕ → Diff → Server → Server
dropped w deadline d s = drop_nodes d.key_changed_nodes (drain_nodes w deadline d.removed_nodes s)

-- The state before the new configuration is pushed.
unfoldable pub relisted : (ℕ → Message → Bool) → (Str → Bool) → ℕ → Config → Diff → Server → Server
unfolding dropped
relisted w binds deadline cur d s =
    let s1 = dropped w deadline d s in
    record s1 {
      cfg = cur;
      listeners =
          start_added cur s1.registry d.added_ports (stop_ports d.removed_ports s1.listeners);
      endpoints = rebind_endpoints binds s.cfg cur s1.endpoints;
    }

owner_configured :
    (c : Config) (p : ℕ) (n : Str)
    → IsValid c
    → owner c p ≡ some n
    → is_some (lookup n c.nodes) ≡ true
owner_configured c p n v e = go (lookup p c.ports) refl e
  where
    go :
        (o : Option PortSpec)
        → lookup p c.ports ≡ o
        → owner_of o ≡ some n
        → is_some (lookup n c.nodes) ≡ true
    go none l e = cc
    go (some spec) l e = ground (arith, (v.ports p spec l).4, e)

module _ {covered : Str → Bool} (w : ℕ → Message → Bool) (binds : Str → Bool) (deadline : ℕ)
    (cur : Config) (s : Server) (vo : IsValid s.cfg) (vc : IsValid cur)
    (sv : Serves covered s) where
  abbrev pub diff : Diff
  diff = diff_config (some s.cfg) cur

  drained : Freed diff.removed_nodes s (drain_nodes w deadline diff.removed_nodes s)
  drained = drain_nodes-Freed w deadline diff.removed_nodes s sv.books

  rekeyed :
      let t = drain_nodes w deadline diff.removed_nodes s in
      Freed diff.key_changed_nodes t (drop_nodes diff.key_changed_nodes t)
  rekeyed =
      drop_nodes-Freed diff.key_changed_nodes (drain_nodes w deadline diff.removed_nodes s)
        drained.books

  same_registry : (dropped w deadline diff s).registry ≡ s.registry
  unfolding dropped
  same_registry = rekeyed.registry ∙ drained.registry

  pub same_node : (n : Str) → get n (dropped w deadline diff s).registry ≡ get n s.registry
  same_node n = ap (get n) same_registry

  started :
      let t = dropped w deadline diff s in
      let m =
        start_added cur t.registry diff.added_ports (stop_ports diff.removed_ports t.listeners) in
      Books m
      × ((p : ℕ)
          → holding m p ≡ (
              if contains p diff.added_ports && is_online t.registry (owner cur p)
              then owner cur p
              else if contains p diff.removed_ports
              then none
              else holding t.listeners p))
  unfolding dropped
  started =
      let t = dropped w deadline diff s in
      let (b, l) = stop_ports-holding diff.removed_ports t.listeners rekeyed.books in
      let (b', l') =
        start_added-holding cur t.registry diff.added_ports
          (stop_ports diff.removed_ports t.listeners) (λ q spec e. (vc.ports q spec e).0) b in
      (b', λ p. ground (arith, l p, l' p))

  -- A port that is held belongs to its new owner, which is online.
  moved_only :
      (p : ℕ) (n : Str)
      → holding (relisted w binds deadline cur diff s).listeners p ≡ some n
      → (owner cur p ≡ some n) × (is_some (get n s.registry) ≡ true)
  unfolding relisted dropped
  moved_only p n h =
      let t = dropped w deadline diff s in
      elim (Bool-cases (contains p diff.added_ports && is_online t.registry (owner cur p))) [
        | inl e ↦
            let now : owner cur p ≡ some n = ground (arith, started.1 p, h, e) in
            (now, ground (arith, e, now, same_node n))
        | inr e ↦
            let kept : contains p diff.removed_ports ≡ false = ground (arith, started.1 p, h, e) in
            let before : holding t.listeners p ≡ some n = ground (arith, started.1 p, h, e, kept) in
            let (was, on) = sv.only p n (drained.only p n (rekeyed.only p n before)) in
            (not_removed s.cfg cur p n kept was, on)
      ]

  -- A port that is not started and whose owner is online is left in its hands.
  kept_all :
      (p : ℕ) (n : Str) (sess : SessionRef)
      → covered n ≡ true
      → contains p diff.added_ports ≡ false
      → owner cur p ≡ some n
      → get n s.registry ≡ some sess
      → is_done (dropped w deadline diff s) sess.ptr ≡ false
      → holding (dropped w deadline diff s).listeners p ≡ some n
  unfolding dropped
  kept_all p n sess k a o g d =
      let t = drain_nodes w deadline diff.removed_nodes s in
      let awake = (drained.peers sess.ptr).done ((rekeyed.peers sess.ptr).done d) in
      let held = sv.all p n sess k (not_added s.cfg cur p n a o) g awake in
      let stays = configured_not_removed s.cfg cur n (owner_configured cur p n vc o) in
      rekeyed.rest p n same_key (drained.rest p n stays held)
    where
      same_key : contains n diff.key_changed_nodes ≡ false
      same_key = elim (Bool-cases (contains n diff.key_changed_nodes)) [
        | inr e ↦ e
        | inl e ↦
            let closed =
              drop_nodes-is_done diff.key_changed_nodes
                (drain_nodes w deadline diff.removed_nodes s) n sess drained.books e
                (ap (get n) drained.registry ∙ g) in
            ground (arith, closed, d)
      ]

  moved_all :
      (p : ℕ) (n : Str) (sess : SessionRef)
      → covered n ≡ true
      → owner cur p ≡ some n
      → get n s.registry ≡ some sess
      → is_done (dropped w deadline diff s) sess.ptr ≡ false
      → holding (relisted w binds deadline cur diff s).listeners p ≡ some n
  unfolding relisted
  moved_all p n sess k o g d = elim (Bool-cases (contains p diff.added_ports)) [
    | inl e ↦ let on = same_node n in ground (arith, started.1 p, e, o, on, g)
    | inr e ↦
        let keeps = kept_not_removed s.cfg cur p n (not_added s.cfg cur p n e o) o in
        ground (arith, started.1 p, e, keeps, kept_all p n sess k e o g d)
  ]

  relisted-Serves : Serves covered (relisted w binds deadline cur diff s)
  unfolding relisted
  relisted-Serves = record {
    books = started.0;
    only = λ p n h. let (o, on) = moved_only p n h in (o, ap is_some (same_node n) ∙ on);
    all = λ p n sess k o g d. moved_all p n sess k o (sym (same_node n) ∙ g) d;
  }

  pub relisted-Named : Named s → Named (relisted w binds deadline cur diff s)
  unfolding relisted dropped
  relisted-Named named n sess g =
      let (peer, name) = named n sess (sym (same_node n) ∙ g) in
      ((rekeyed.peers sess.ptr).name ∙ (drained.peers sess.ptr).name ∙ peer, name)

pub moved_node :
    (w : ℕ → Message → Bool) (binds : Str → Bool) (deadline : ℕ) (cur : Config) (s : Server)
    (n : Str)
    → let d = diff_config (some s.cfg) cur in
      get n (dropped w deadline d s).registry ≡ get n (relisted w binds deadline cur d s).registry
unfolding relisted
moved_node w binds deadline cur s n = refl

-- What comes before the pushes changes no session but by closing or draining it.
pub relisted-Quiet :
    {covered : Str → Bool} (w : ℕ → Message → Bool) (binds : Str → Bool) (deadline : ℕ)
    (cur : Config) (s : Server)
    → Serves covered s
    → AllQuiet s (relisted w binds deadline cur (diff_config (some s.cfg) cur) s)
unfolding relisted dropped
relisted-Quiet w binds deadline cur s sv q =
    let d = diff_config (some s.cfg) cur in
    let t = drain_nodes w deadline d.removed_nodes s in
    let a = drain_nodes-Freed w deadline d.removed_nodes s sv.books in
    let b = drop_nodes-Freed d.key_changed_nodes t a.books in
    trans-Quiet (s.peers q) (t.peers q) ((drop_nodes d.key_changed_nodes t).peers q) (a.peers q)
      (b.peers q)

-- Pushes touch neither a listener nor the registry.
Serves-Rest : {covered : Str → Bool} (s t : Server) → Rest s t → Serves covered s → Serves covered t
Serves-Rest s t r sv = record {
  books = rw r.listeners sv.books;
  only = λ p n h. let (o, on) = sv.only p n (rw r.listeners at h) in (rw r.cfg o, rw r.registry on);
  all = λ p n sess k o g d.
      rw r.listeners
        (sv.all p n sess k (rw r.cfg at o) (rw r.registry at g) (sym (r.done sess.ptr) ∙ d));
}

pub apply_diff_lem :
    (w : ℕ → Message → Bool) (binds : Str → Bool) (deadline : ℕ) (cur : Config) (d : Diff)
    (s : Server)
    → apply_diff w binds deadline cur d s ≡ pushes w cur d (relisted w binds deadline cur d s)
unfolding apply_diff pushes relisted dropped
apply_diff_lem w binds deadline cur d s = refl

-- The owner of a port is the same when a diff is empty.
empty-owner :
    (old cur : Config) (p : ℕ) (n : Str)
    → is_empty (diff_config (some old) cur) ≡ true
    → (owner old p ≡ some n → owner cur p ≡ some n) × (owner cur p ≡ some n → owner old p ≡ some n)
empty-owner old cur p n e =
    let d = diff_config (some old) cur in
    let (_, a, r, _, _) = is_empty_lem d e in
    (not_removed old cur p n (ap (contains p) r), not_added old cur p n (ap (contains p) a))

empty-Serves :
    {covered : Str → Bool} (cur : Config) (s : Server)
    → is_empty (diff_config (some s.cfg) cur) ≡ true
    → Serves covered s
    → Serves covered (record s { cfg = cur })
empty-Serves cur s e sv = record {
  books = sv.books;
  only = λ p n h. let (o, on) = sv.only p n h in ((empty-owner s.cfg cur p n e).0 o, on);
  all = λ p n sess k o g d. sv.all p n sess k ((empty-owner s.cfg cur p n e).1 o) g d;
}

-- Reloading a valid configuration for a valid one keeps what the listeners promise: afterwards a
-- port is held only by the node that the new configuration gives it to, while that node has a
-- session, and every port is held whose node is covered and has a session that has not ended.
pub apply_reload-Serves :
    {covered : Str → Bool} (w : ℕ → Message → Bool) (binds : Str → Bool) (deadline : ℕ)
    (cur : Config) (s : Server)
    → IsValid s.cfg
    → IsValid cur
    → Named s
    → Serves covered s
    → Serves covered (apply_reload w binds deadline cur s)
unfolding apply_reload
apply_reload-Serves w binds deadline cur s vo vc named sv =
    let d = diff_config (some s.cfg) cur in
    let t = relisted w binds deadline cur d s in
    let moves =
      not (s.cfg.listen == cur.listen) || not (s.cfg.status_listen == cur.status_listen) in
    elim (Bool-cases (is_empty d && not d.settings_changed && not moves)) [
      | inl h ↦ rw (h, apply_reload) (empty-Serves cur s (ground (arith, h)) sv)
      | inr h ↦
          rw (h, apply_reload, apply_diff_lem w binds deadline cur d s)
            (Serves-Rest t (pushes w cur d t)
              (pushes-Rest w cur d t (relisted-Named w binds deadline cur s vo vc sv named))
              (relisted-Serves w binds deadline cur s vo vc sv))
    ]
