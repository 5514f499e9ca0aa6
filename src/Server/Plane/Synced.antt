-- ===== src/Server/Plane/Synced.antt =====
-- Every session has the configuration of its node: `applyReload`.
use ws_tunnel.Prelude.{
  ℕ, ◌≡◌, refl, inl, inr, Bool, true, false, ◌&&◌, ◌||◌, not, some, arith, Str, ◌==◌, str_eq,
  is_some, Bool-cases, Option-cases, sym, ◌∙◌, ap, subst,
}
use ws_tunnel.Prelude.Dict.{lookup}
use ws_tunnel.Prelude.Sets.{contains}
use ws_tunnel.Protocol.Message.{NodeConfig}
use ws_tunnel.Protocol.Control.{Message}
use ws_tunnel.Config.{Config, NodeSpec}
use ws_tunnel.Config.Valid.{IsValid}
use ws_tunnel.Config.Diff.{Diff, diff_config, is_empty}
use ws_tunnel.Config.Diff.Nodes.{spec_config, SamePush, node_config-some}
use ws_tunnel.Config.Diff.Reload.{
  unchanged-SamePush, settings_kept, unconfigured_removed, is_empty_lem,
}
use ws_tunnel.Server.Registry.{SessionRef, get}
use ws_tunnel.Server.Plane.{Peer, Server, drain_nodes, apply_reload}
use ws_tunnel.Server.Plane.Peers.{Quiet, is_done, is_draining}
use ws_tunnel.Server.Plane.Freed.{
  drain_nodes-Freed, drop_nodes-Freed, drop_nodes-is_done, drain_nodes-is_draining,
}
use ws_tunnel.Server.Plane.Pushes.{Named, Carries, pushes, pushes-Rest, pushes-Updated}
use ws_tunnel.Server.Plane.Serves.{
  Serves, dropped, relisted, relisted-Named, same_node, moved_node, relisted-Quiet, apply_diff_lem,
}

-- A session stands for a node of the configuration and has what is pushed to that.
abbrev pub UpToDate : Config → Str → Peer → Type 0
UpToDate c n x =
    (spec : NodeSpec) × (lookup n c.nodes ≡ some spec)
    × SamePush x.cfg (spec_config c n spec)
    × (x.queue_timeout ≡ c.settings.queue_timeout)

-- Every registered session that has not ended and takes new streams is so.
abbrev pub SyncedTo : Config → Server → Type 0
SyncedTo c s =
    (n : Str) (sess : SessionRef)
    → get n s.registry ≡ some sess
    → is_done s sess.ptr ≡ false
    → is_draining s sess.ptr ≡ false
    → UpToDate c n (s.peers sess.ptr)

abbrev pub Synced : Server → Type 0
Synced s = SyncedTo s.cfg s

trans-SamePush : (a b c : NodeConfig) → SamePush a b → SamePush b c → SamePush a c
trans-SamePush a b c ((e, f, g, h), p) ((e', f', g', h'), p') =
    ((e ∙ e', f ∙ f', g ∙ g', h ∙ h'), λ k. p k ∙ p' k)

pub Quiet-UpToDate :
    (c : Config) (n : Str) (x y : Peer) → Quiet x y → UpToDate c n x → UpToDate c n y
Quiet-UpToDate c n x y q (a, la, same, timeout) =
    (a, la, subst (λ k. SamePush k (spec_config c n a)) (sym q.cfg) same, q.queue_timeout ∙ timeout)

-- A configuration for which the diff lists neither the node nor new settings.
UpToDate-kept :
    (old cur : Config) (n : Str) (x : Peer)
    → IsValid old
    → IsValid cur
    → is_some (lookup n cur.nodes) ≡ true
    → contains n (diff_config (some old) cur).changed_nodes ≡ false
    → contains n (diff_config (some old) cur).key_changed_nodes ≡ false
    → (diff_config (some old) cur).settings_changed ≡ false
    → UpToDate old n x
    → UpToDate cur n x
UpToDate-kept old cur n x vo vc here hc hk hs (a, la, same, timeout) =
    elim (Option-cases (lookup n cur.nodes)) [
      | inl e ↦ ground (arith, here, e)
      | inr (b, lb) ↦ (
        b,
        lb,
        trans-SamePush x.cfg (spec_config old n a) (spec_config cur n b) same
            (unchanged-SamePush old cur n a b vo vc la lb hc hk),
        timeout ∙ settings_kept old cur hs,
      )
    ]

module _ {covered : Str → Bool} (w : ℕ → Message → Bool) (binds : Str → Bool) (deadline : ℕ)
    (cur : Config) (s : Server) (vo : IsValid s.cfg) (vc : IsValid cur) (named : Named s)
    (sv : Serves covered s) (sy : Synced s) (n : Str) (sess : SessionRef)
    (g : get n s.registry ≡ some sess) where
  abbrev d : Diff
  d = diff_config (some s.cfg) cur

  abbrev left : Server
  left = relisted w binds deadline cur d s

  left-Quiet : Quiet (s.peers sess.ptr) (left.peers sess.ptr)
  left-Quiet = relisted-Quiet w binds deadline cur s sv sess.ptr

  -- A session that goes on does so under its old key, and its node stays configured.
  stays :
      is_done left sess.ptr ≡ false
      → is_draining left sess.ptr ≡ false
      → (contains n d.removed_nodes ≡ false) × (contains n d.key_changed_nodes ≡ false)
  unfolding relisted dropped
  stays awake free =
      let t = drain_nodes w deadline d.removed_nodes s in
      let a = drain_nodes-Freed w deadline d.removed_nodes s sv.books in
      let b = drop_nodes-Freed d.key_changed_nodes t a.books in
      (
        elim (Bool-cases (contains n d.removed_nodes)) [
          | inr e ↦ e
          | inl e ↦
              let drains =
                drain_nodes-is_draining w deadline d.removed_nodes s n sess sv.books e g in
              ground (arith, drains, (b.peers sess.ptr).draining free)
        ],
        elim (Bool-cases (contains n d.key_changed_nodes)) [
          | inr e ↦ e
          | inl e ↦
              let ended =
                drop_nodes-is_done d.key_changed_nodes t n sess a.books e
                  (ap (get n) a.registry ∙ g) in
              ground (arith, ended, awake)
        ],
      )

  -- Its node is in both configurations.
  both :
      is_done left sess.ptr ≡ false
      → is_draining left sess.ptr ≡ false
      → UpToDate s.cfg n (s.peers sess.ptr) × (is_some (lookup n cur.nodes) ≡ true)
  both awake free =
      let old = sy n sess g (left-Quiet.done awake) (left-Quiet.draining free) in
      let (a, la, _, _) = old in
      (
        old,
        elim (Option-cases (lookup n cur.nodes)) [
          | inr (b, e) ↦ ground (arith, e)
          | inl e ↦
              let gone = unconfigured_removed s.cfg cur n vo (ground (arith, la)) e in
              ground (arith, gone, (stays awake free).0)
        ],
      )

  left_registered : get n left.registry ≡ some sess
  unfolding relisted
  left_registered = same_node w binds deadline cur s vo vc sv n ∙ g

  carried :
      (b : NodeSpec) (x : Peer)
      → lookup n cur.nodes ≡ some b
      → Carries cur (spec_config cur n b) x
      → UpToDate cur n x
  carried b x lb (e, timeout) = (
    b,
    lb,
    subst (λ k. SamePush k (spec_config cur n b)) (sym e) ((refl, refl, refl, refl), λ k. refl),
    timeout,
  )

  -- A session that `applyReload` leaves in service gets the new configuration of its node.
  pushed-UpToDate :
      is_done (pushes w cur d left) sess.ptr ≡ false
      → is_draining (pushes w cur d left) sess.ptr ≡ false
      → UpToDate cur n ((pushes w cur d left).peers sess.ptr)
  pushed-UpToDate awake free =
      let named' = relisted-Named w binds deadline cur s vo vc sv named in
      let r = pushes-Rest w cur d left named' in
      let awake' = sym (r.done sess.ptr) ∙ awake in
      let free' = sym (r.draining sess.ptr) ∙ free in
      let (old, here) = both awake' free' in
      let still = left_registered in
      elim (Option-cases (lookup n cur.nodes)) [
        | inl e ↦ ground (arith, e, here)
        | inr (b, e) ↦
            elim (pushes-Updated w cur d left n sess (spec_config cur n b) named' still
              (node_config-some cur n b e)) [
                | inl c ↦ carried b ((pushes w cur d left).peers sess.ptr) e c
                | inr (hc, hs, same) ↦
                    let (_, hk) = stays awake' free' in
                    subst (UpToDate cur n) (sym same) (
                      UpToDate-kept s.cfg cur n (left.peers sess.ptr) vo vc here hc hk hs (
                        Quiet-UpToDate s.cfg n (s.peers sess.ptr) (left.peers sess.ptr) left-Quiet
                          old))
              ]
      ]

pub apply_reload_cfg :
    (w : ℕ → Message → Bool) (binds : Str → Bool) (deadline : ℕ) (cur : Config) (s : Server)
    → Named (relisted w binds deadline cur (diff_config (some s.cfg) cur) s)
    → (apply_reload w binds deadline cur s).cfg ≡ cur
unfolding apply_reload relisted
apply_reload_cfg w binds deadline cur s named =
    let d = diff_config (some s.cfg) cur in
    let moves =
      not (s.cfg.listen == cur.listen) || not (s.cfg.status_listen == cur.status_listen) in
    elim (Bool-cases (is_empty d && not d.settings_changed && not moves)) [
      | inl h ↦ rw (h, apply_reload) refl
      | inr h ↦
          rw (h, apply_reload, apply_diff_lem w binds deadline cur d s)
            (pushes-Rest w cur d (relisted w binds deadline cur d s) named).cfg
    ]

empty-SyncedTo :
    (cur : Config) (s : Server)
    → IsValid s.cfg
    → IsValid cur
    → is_empty (diff_config (some s.cfg) cur) ≡ true
    → (diff_config (some s.cfg) cur).settings_changed ≡ false
    → Synced s
    → SyncedTo cur s
empty-SyncedTo cur s vo vc e hs sy n sess g awake free =
    let (gone, _, _, k, c) = is_empty_lem (diff_config (some s.cfg) cur) e in
    let old = sy n sess g awake free in
    let (a, la, _, _) = old in
    elim (Option-cases (lookup n cur.nodes)) [
      | inl z ↦
          let left = unconfigured_removed s.cfg cur n vo (ground (arith, la)) z in
          let none_left = ap (contains n) gone in ground (arith, left, none_left)
      | inr (b, z) ↦
          UpToDate-kept s.cfg cur n (s.peers sess.ptr) vo vc (ground (arith, z)) (ap (contains n) c)
            (ap (contains n) k) hs old
    ]

apply_reload-SyncedTo :
    {covered : Str → Bool} (w : ℕ → Message → Bool) (binds : Str → Bool) (deadline : ℕ)
    (cur : Config) (s : Server)
    → IsValid s.cfg
    → IsValid cur
    → Named s
    → Serves covered s
    → Synced s
    → SyncedTo cur (apply_reload w binds deadline cur s)
unfolding apply_reload
apply_reload-SyncedTo w binds deadline cur s vo vc named sv sy =
    let d = diff_config (some s.cfg) cur in
    let t = relisted w binds deadline cur d s in
    let r = pushes-Rest w cur d t (relisted-Named w binds deadline cur s vo vc sv named) in
    let moves =
      not (s.cfg.listen == cur.listen) || not (s.cfg.status_listen == cur.status_listen) in
    elim (Bool-cases (is_empty d && not d.settings_changed && not moves)) [
      | inl h ↦
          rw (h, apply_reload)
            (empty-SyncedTo cur s vo vc (ground (arith, h)) (ground (arith, h)) sy)
      | inr h ↦
          rw (h, apply_reload, apply_diff_lem w binds deadline cur d s)
            (λ n sess g. pushed-UpToDate w binds deadline cur s vo vc named sv sy n sess (
              sym (same_node w binds deadline cur s vo vc sv n)
              ∙ moved_node w binds deadline cur s n
              ∙ sym (ap (get n) r.registry)
              ∙ g))
    ]

-- Take a state in which every session is registered under its name (`Named`), and a port is held
-- only for the node that the configuration gives it to, while that has a session (`Serves`; whether
-- every such port is held does not matter: `covered` may be any set of nodes). Reloading a valid
-- configuration for a valid one keeps every session up to date that it leaves in service (not ended,
-- and not told to drain): the session belongs to a node of the new
-- configuration, and has the channels, settings and port list that this configuration gives the
-- node, although only nodes that the diff lists, or all if settings changed, are sent anything.
pub apply_reload-Synced :
    {covered : Str → Bool} (w : ℕ → Message → Bool) (binds : Str → Bool) (deadline : ℕ)
    (cur : Config) (s : Server)
    → IsValid s.cfg
    → IsValid cur
    → Named s
    → Serves covered s
    → Synced s
    → Synced (apply_reload w binds deadline cur s)
apply_reload-Synced w binds deadline cur s vo vc named sv sy =
    subst (λ c. SyncedTo c (apply_reload w binds deadline cur s))
      (sym (
        apply_reload_cfg w binds deadline cur s
          (relisted-Named w binds deadline cur s vo vc sv named)))
      (apply_reload-SyncedTo w binds deadline cur s vo vc named sv sy)
