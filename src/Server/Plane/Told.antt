-- ===== src/Server/Plane/Told.antt =====
-- What the client of each session was told.
use ws_tunnel.Prelude.{
  ℕ, ◌≡◌, refl, inl, inr, Bool, true, false, ◌&&◌, ◌||◌, not, some, [], ◌∷◌, ◌++◌, arith,
  if◌then◌else◌, Str, ◌==◌, str_eq, Bool-cases, Option-cases, sym, ◌∙◌, ap, subst,
}
use ws_tunnel.Prelude.Dict.{lookup}
use ws_tunnel.Protocol.Message.{NodeConfig}
use ws_tunnel.Protocol.Control.{Message, welcome_message, bye_message}
use ws_tunnel.Config.{Config, NodeSpec, node_config}
use ws_tunnel.Config.Valid.{IsValid}
use ws_tunnel.Config.Diff.{diff_config, is_empty}
use ws_tunnel.Server.Session.{DataChannel}
use ws_tunnel.Server.Registry.{SessionRef, empty, get, register, get-register, get-unregister}
use ws_tunnel.Server.Plane.{
  Peer, Server, Endpoints, Drain, on_peer, close_peer, send_control, create, admit, go_online,
  give_up_welcome, join, depart, finish_drain, apply_reload,
}
use ws_tunnel.Protocol.Control.View.{welcome-seen, seen}
use ws_tunnel.Server.Plane.Peers.{
  AllQuiet, Quiet, sent_view, on_peer-AllQuiet, close_peer-Quiet, bye-AllQuiet, on_peer-AllQuiet_at,
}
use ws_tunnel.Server.Plane.Freed.{send_control_rest}
use ws_tunnel.Server.Plane.Pushes.{PeerTold, pushes-Rest, pushes-PeerTold}
use ws_tunnel.Server.Plane.Serves.{
  relisted, relisted-Named, same_node, moved_node, relisted-Quiet, apply_diff_lem,
}
use ws_tunnel.Server.Plane.Joins.{
  Sound, Unused, Aside, Unused-Aside, create-Aside, create-peer, Entered, either, online-Entered,
  welcome_lem, Aside-Sound,
}
use ws_tunnel.Server.Plane.Steps.{
  Step, joins, leaves, reloads, drained, closes, works, creates, registers, greets, opens, stops,
  unregisters, IsWhole, IsWholeStep, Reach, here, next, new_server, Reach-Sound, set_pool,
  set_pool-Quiet, without_drain,
}

abbrev pub Told : Server → Type 0
Told s = (n : Str) (sess : SessionRef) → get n s.registry ≡ some sess → PeerTold (s.peers sess.ptr)

Quiet-PeerTold : (x y : Peer) → Quiet x y → PeerTold x → PeerTold y
Quiet-PeerTold x y q t e = q.seen e ∙ t (q.done e) ∙ ap some (sym q.cfg)

-- Sessions only went away or stayed as they were.
fewer-Told :
    (s t : Server)
    → ((n : Str) (sess : SessionRef) → get n t.registry ≡ some sess → get n s.registry ≡ some sess)
    → AllQuiet s t
    → Told s
    → Told t
fewer-Told s t nodes quiet told n sess g =
    Quiet-PeerTold (s.peers sess.ptr) (t.peers sess.ptr) (quiet sess.ptr)
      (told n sess (nodes n sess g))

depart-Told :
    (sess : SessionRef) (reason : Str) (now : ℕ) (s : Server)
    → Told s
    → Told (depart sess reason now s)
unfolding depart on_peer
depart-Told sess reason now s =
    fewer-Told s (depart sess reason now s)
      (λ n x g. ground (arith, get-unregister sess reason now n s.registry, g))
      (on_peer-AllQuiet sess.ptr (close_peer reason) s (close_peer-Quiet reason))

finish_drain-Told :
    (w : ℕ → Message → Bool) (d : Drain) (s : Server) → Told s → Told (finish_drain w d s)
unfolding finish_drain on_peer
finish_drain-Told w d s =
    let (_, r, _, _) = send_control_rest w d.sess.ptr (bye_message d.reason) s in
    fewer-Told s (finish_drain w d s) (λ n x g. rw r at g)
      (λ q. bye-AllQuiet w d.sess.ptr d.reason s q)

Aside-Told : (p : ℕ) (s t : Server) → Aside p s t → Unused s p → Told s → Told t
Aside-Told p s t a unused told n sess g =
    let g' = sym (a.nodes n) ∙ g in rw (a.peers sess.ptr (unused n sess g')) (told n sess g')

reload-Told :
    {covered : Str → Bool} (w : ℕ → Message → Bool) (binds : Str → Bool) (deadline : ℕ)
    (cur : Config) (s : Server)
    → ((p : ℕ) (m : Message) → w p m ≡ true)
    → IsValid cur
    → Sound covered s
    → Told s
    → Told (apply_reload w binds deadline cur s)
unfolding apply_reload
reload-Told w binds deadline cur s reliable vc ok told =
    let d = diff_config (some s.cfg) cur in
    let t = relisted w binds deadline cur d s in
    let named = relisted-Named w binds deadline cur s ok.valid vc ok.serves ok.named in
    let r = pushes-Rest w cur d t named in
    let moves =
      not (s.cfg.listen == cur.listen) || not (s.cfg.status_listen == cur.status_listen) in
    elim (Bool-cases (is_empty d && not d.settings_changed && not moves)) [
      | inl h ↦ rw (h, apply_reload) told
      | inr h ↦
          rw (h, apply_reload, apply_diff_lem w binds deadline cur d s)
            (λ n sess g. pushes-PeerTold w cur d t sess.ptr reliable (
              Quiet-PeerTold (s.peers sess.ptr) (t.peers sess.ptr)
                (relisted-Quiet w binds deadline cur s ok.serves sess.ptr)
                (told n sess (
                  sym (same_node w binds deadline cur s ok.valid vc ok.serves n)
                  ∙ moved_node w binds deadline cur s n
                  ∙ sym (ap (get n) r.registry)
                  ∙ g))))
    ]

send_control-sent :
    (w : ℕ → Message → Bool) (p : ℕ) (m : Message) (s : Server)
    → w p m ≡ true
    → ((send_control w p m s).peers p).sent ≡ (s.peers p).sent ++ (m ∷ [])
unfolding send_control on_peer
send_control-sent w p m s e = rw e (ground arith)

Entered-Told :
    {covered : Str → Bool} (sess : SessionRef) (k : NodeConfig) (s t : Server)
    → Entered sess k s t
    → Unused s sess.ptr
    → Sound covered s
    → node_config s.cfg sess.name ≡ some k
    → sent_view (t.peers sess.ptr) ≡ some k
    → Told s
    → Told t
Entered-Told sess k s t e unused ok pushed sent told n x g =
    elim (either sess k s t e unused ok pushed n x g) [
      | inr (g', kept) ↦ rw kept (told n x g')
      | inl (_, new) ↦
          subst (λ y. PeerTold (t.peers y.ptr)) (sym new) (λ d. sent ∙ ap some (sym e.config))
    ]

go_online_sent :
    (sess : SessionRef) (s : Server)
    → ((go_online sess s).peers sess.ptr).sent ≡ (s.peers sess.ptr).sent
unfolding go_online
go_online_sent sess s = refl

admit-Told :
    {covered : Str → Bool} (w : ℕ → Message → Bool) (now : ℕ) (sess : SessionRef) (n : NodeConfig)
    (s : Server)
    → w sess.ptr (welcome_message sess.id n) ≡ true
    → Unused s sess.ptr
    → Sound covered s
    → node_config s.cfg sess.name ≡ some n
    → (s.peers sess.ptr).name ≡ sess.name
    → (s.peers sess.ptr).cfg ≡ n
    → (s.peers sess.ptr).queue_timeout ≡ s.cfg.settings.queue_timeout
    → (s.peers sess.ptr).sent ≡ []
    → Told s
    → Told (admit w now sess n s).1
unfolding admit
admit-Told w now sess n s e unused ok pushed name config timeout blank told =
    let answer = (get-register sess sess.name s.registry).0 in
    let t : Server = record s { registry = (register sess s.registry).1 } in
    let t' = send_control w sess.ptr (welcome_message sess.id n) t in
    elim (Option-cases (get sess.name s.registry)) [
      | inr (old, g) ↦
          let no : (register sess s.registry).0 ≡ false = ground (arith, answer, g) in
          rw (no, admit) told
      | inl free ↦
          let yes : (register sess s.registry).0 ≡ true = ground (arith, answer, free) in
          let entered =
            online-Entered w sess n s ok.valid ok.serves.books free name config timeout in
          let sent = send_control-sent w sess.ptr (welcome_message sess.id n) t e in
          let first = ap (λ ms. seen (ms ++ (welcome_message sess.id n ∷ []))) blank in
          rw (yes, admit, welcome_lem w now sess n t)
            (subst (λ x. Told (if x then go_online sess t' else give_up_welcome now sess t'))
              (sym e)
              (Entered-Told sess n s (go_online sess t') entered unused ok pushed
                (ap seen (go_online_sent sess t' ∙ sent) ∙ first ∙ welcome-seen sess.id n) told))
    ]

join-Told :
    {covered : Str → Bool} (w : ℕ → Message → Bool) (heap : ℕ → DataChannel) (now ptr : ℕ)
    (id : Str) (spec : NodeSpec) (s : Server)
    → ((p : ℕ) (m : Message) → w p m ≡ true)
    → Unused s ptr
    → Sound covered s
    → Told s
    → Told (join w heap now ptr id spec s).1
unfolding join
join-Told w heap now ptr id spec s reliable unused ok told =
    let sess : SessionRef = record { ptr = ptr; name = spec.name; id = id; connected_at = now } in
    elim (Option-cases (node_config s.cfg spec.name)) [
      | inl e ↦ rw (e, join) told
      | inr (n, e) ↦
          let t = create heap sess spec n s in
          let a = create-Aside heap sess spec n s in
          let (name, config, timeout, sent) = create-peer heap sess spec n s in
          rw (e, join)
            (admit-Told w now sess n t (reliable ptr (welcome_message id n))
              (Unused-Aside ptr s t a unused) (Aside-Sound ptr s t a unused ok) (rw a.cfg e) name
              config (rw a.cfg timeout) sent (Aside-Told ptr s t a unused told))
    ]

Step-Told :
    {covered : Str → Bool} (w : ℕ → Message → Bool) (binds : Str → Bool) (s t : Server)
    → ((p : ℕ) (m : Message) → w p m ≡ true)
    → (st : Step w binds s t) → IsWholeStep st
    → Sound covered s
    → Told s
    → Told t
unfolding on_peer without_drain
Step-Told w binds s _ reliable (joins heap now ptr id spec unused) whole ok told =
    join-Told w heap now ptr id spec s reliable unused ok told
Step-Told w binds s _ reliable (leaves sess reason now g) whole ok told =
    depart-Told sess reason now s told
Step-Told w binds s _ reliable (reloads deadline cur vc) whole ok told =
    reload-Told w binds deadline cur s reliable vc ok told
Step-Told w binds s _ reliable (drained before after d now _ _) whole ok told =
    finish_drain-Told w d s told
Step-Told w binds s _ reliable (closes p reason) whole ok told =
    fewer-Told s (on_peer p (close_peer reason) s) (λ n x g. g)
      (on_peer-AllQuiet p (close_peer reason) s (close_peer-Quiet reason)) told
Step-Told w binds s _ reliable (works p n f) whole ok told =
    fewer-Told s (on_peer p (set_pool n) s) (λ m x g. g)
      (on_peer-AllQuiet_at p (set_pool n) s (set_pool-Quiet n (s.peers p) f)) told
Step-Told w binds s _ reliable (creates _ _ _ _ _ _ _) whole ok told = absurd whole
Step-Told w binds s _ reliable (registers _ _) whole ok told = absurd whole
Step-Told w binds s _ reliable (greets _ _ _) whole ok told = absurd whole
Step-Told w binds s _ reliable (opens _) whole ok told = absurd whole
Step-Told w binds s _ reliable (stops _) whole ok told = absurd whole
Step-Told w binds s _ reliable (unregisters _ _ _) whole ok told = absurd whole

new_server-Told : (c : Config) (e : Endpoints) (at : ℕ → Peer) → Told (new_server c e at)
unfolding new_server empty lookup
new_server-Told c e at n sess g = cc

-- If every write succeeds, then the client of each registered session that has not ended was last
-- sent the configuration that the session has, if control channels came and went undivided.
pub Reach-Told :
    (w : ℕ → Message → Bool) (binds : Str → Bool) (c : Config) (e : Endpoints) (at : ℕ → Peer)
    (s : Server)
    → ((p : ℕ) (m : Message) → w p m ≡ true)
    → IsValid c
    → (r : Reach w binds (new_server c e at) s) → IsWhole r
    → Told s
Reach-Told w binds c e at _ reliable v here whole = new_server-Told c e at
Reach-Told w binds c e at s reliable v (next {t} r st) whole =
    Step-Told w binds t s reliable st whole.1 (Reach-Sound w binds c e at t v r whole.0)
      (Reach-Told w binds c e at t reliable v r whole.0)
