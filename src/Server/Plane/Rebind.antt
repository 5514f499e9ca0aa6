-- ===== src/Server/Plane/Rebind.antt =====
-- The addresses that are served: `rebindEndpoints` in a reload.
use ws_tunnel.Prelude.{
  ◌≢◌, false, true, str_beq_iff, sym, ◌≡◌, inl, inr, Bool, ◌&&◌, ◌||◌, not, Option, none, some,
  arith, if◌then◌else◌, ℕ, Str, ◌==◌, str_eq, Bool-cases, ◌∙◌, ap, [],
}
use ws_tunnel.Protocol.Control.{Message}
use ws_tunnel.Config.{Config}
use ws_tunnel.Config.Valid.{IsValid}
use ws_tunnel.Config.Diff.{diff_config, is_empty}
use ws_tunnel.Server.Listener.Laws.{Books}
use ws_tunnel.Server.Plane.{
  Peer, Server, Endpoints, rebind_ws, rebind_status, rebind_endpoints, apply_reload, drain_nodes,
}
use ws_tunnel.Server.Plane.Freed.{drain_nodes-Freed, drop_nodes-Freed}
use ws_tunnel.Server.Plane.Pushes.{Named, pushes-Rest}
use ws_tunnel.Server.Plane.Synced.{apply_reload_cfg}
use ws_tunnel.Server.Plane.Steps.{Reach, new_server, IsWhole, Reach-Sound, apply_reload-Sound}
use ws_tunnel.Server.Plane.Serves.{Serves, dropped, relisted, relisted-Named, apply_diff_lem}

-- Which address serves clients after a reload: the new one, if it differs and can be bound.
abbrev pub ws_after : (Str → Bool) → Str → Str → Option Str → Option Str
ws_after binds old cur ws = if not (old == cur) && binds cur then some cur else ws

-- The same for the status endpoint; the empty address turns it off.
abbrev pub status_after : (Str → Bool) → Str → Str → Option Str → Option Str
status_after binds old cur status =
    if old == cur
    then status
    else if cur == []
    then none
    else if binds cur
    then some cur
    else status

rebind_lem :
    (binds : Str → Bool) (old cur : Config) (e : Endpoints)
    → ((rebind_endpoints binds old cur e).ws ≡ ws_after binds old.listen cur.listen e.ws)
      × ((rebind_endpoints binds old cur e).status
          ≡ status_after binds old.status_listen cur.status_listen e.status)
unfolding rebind_endpoints rebind_ws rebind_status
rebind_lem binds old cur e = ground arith

dropped-endpoints :
    (w : ℕ → Message → Bool) (deadline : ℕ) (cur : Config) (s : Server)
    → Books s.listeners
    → (dropped w deadline (diff_config (some s.cfg) cur) s).endpoints ≡ s.endpoints
unfolding dropped
dropped-endpoints w deadline cur s b =
    let d = diff_config (some s.cfg) cur in
    let a = drain_nodes-Freed w deadline d.removed_nodes s b in
    let t = drain_nodes w deadline d.removed_nodes s in
    (drop_nodes-Freed d.key_changed_nodes t a.books).endpoints ∙ a.endpoints

-- Both endpoints after a reload between valid configurations.
pub apply_reload_endpoints :
    {covered : Str → Bool} (w : ℕ → Message → Bool) (binds : Str → Bool) (deadline : ℕ)
    (cur : Config) (s : Server)
    → IsValid s.cfg
    → IsValid cur
    → Named s
    → Serves covered s
    → let e = (apply_reload w binds deadline cur s).endpoints in
      (e.ws ≡ ws_after binds s.cfg.listen cur.listen s.endpoints.ws)
      × (e.status ≡ status_after binds s.cfg.status_listen cur.status_listen s.endpoints.status)
unfolding apply_reload relisted
apply_reload_endpoints w binds deadline cur s vo vc named sv =
    let d = diff_config (some s.cfg) cur in
    let t = relisted w binds deadline cur d s in
    let r = pushes-Rest w cur d t (relisted-Named w binds deadline cur s vo vc sv named) in
    let before = dropped-endpoints w deadline cur s sv.books in
    let (ws, status) = rebind_lem binds s.cfg cur (dropped w deadline d s).endpoints in
    let moves =
      not (s.cfg.listen == cur.listen) || not (s.cfg.status_listen == cur.status_listen) in
    elim (Bool-cases (is_empty d && not d.settings_changed && not moves)) [
      | inl h ↦ rw (h, apply_reload) (ground (arith, h), ground (arith, h))
      | inr h ↦
          rw (h, apply_reload, apply_diff_lem w binds deadline cur d s, r.endpoints)
            (
              ws ∙ ap (λ x. ws_after binds s.cfg.listen cur.listen x.ws) before,
              status
                  ∙ ap (λ x. status_after binds s.cfg.status_listen cur.status_listen x.status)
                      before,
            )
    ]

-- From any state that the control plane reaches from its start with a valid configuration, reloads
-- being single steps and control channels coming and going in one (`IsWhole`): if a reload names a
-- new listen address that cannot be bound, clients go on to be served at the old address, or at
-- none if there was none, but the configuration names the new one; and a later reload for a
-- configuration with that same address leaves it so, whether or not the address can be bound by
-- then.
pub failed_rebind_stays :
    (w : ℕ → Message → Bool) (binds first second : Str → Bool) (c : Config) (e : Endpoints)
    (at : ℕ → Peer) (deadline later : ℕ) (cur next : Config) (s : Server)
    → IsValid c
    → (r : Reach w binds (new_server c e at) s) → IsWhole r
    → IsValid cur
    → IsValid next
    → cur.listen ≢ s.cfg.listen
    → first cur.listen ≡ false
    → next.listen ≡ cur.listen
    → let t = apply_reload w first deadline cur s in
      let u = apply_reload w second later next t in
      (t.endpoints.ws ≡ s.endpoints.ws)
      × (t.cfg.listen ≡ cur.listen)
      × (u.endpoints.ws ≡ s.endpoints.ws)
      × (u.cfg.listen ≡ cur.listen)
failed_rebind_stays w binds first second c e at deadline later cur next s v r whole vc vn moved
      taken same =
    let ok = Reach-Sound w binds c e at s v r whole in
    let t = apply_reload w first deadline cur s in
    let ok' = apply_reload-Sound w first deadline cur s vc ok in
    let cfg =
      apply_reload_cfg w first deadline cur s
        (relisted-Named w first deadline cur s ok.valid vc ok.serves ok.named) in
    let cfg' =
      apply_reload_cfg w second later next t
        (relisted-Named w second later next t ok'.valid vn ok'.serves ok'.named) in
    let (ws, _) = apply_reload_endpoints w first deadline cur s ok.valid vc ok.named ok.serves in
    let (ws', _) = apply_reload_endpoints w second later next t ok'.valid vn ok'.named ok'.serves in
    let kept : t.endpoints.ws ≡ s.endpoints.ws = ground (arith, ws, taken) in
    let named : t.cfg.listen ≡ cur.listen = ap Config.listen cfg in
    let unmoved : (t.cfg.listen == next.listen) ≡ true =
      (str_beq_iff t.cfg.listen next.listen).1 (named ∙ sym same) in
    (kept, named, ground (arith, ws', unmoved, kept), ap Config.listen cfg' ∙ same)
