-- ===== src/Server/Plane/Joins.antt =====
-- What a client that joins and a session that leaves do to the control plane.
use ws_tunnel.Prelude.{
  ℕ, ◌≡◌, ◌≢◌, refl, inl, inr, ◌⊎◌, Bool, true, false, none, some, [], arith, nat_beq,
  if◌then◌else◌, Str, ◌==◌, str_eq, str_beq_iff, is_some, Bool-cases, Option-cases, sym, ◌∙◌, ap,
  subst, some-injective, beq_refl,
}
use ws_tunnel.Prelude.Dict.{lookup}
use ws_tunnel.Protocol.Header.{codes}
use ws_tunnel.Protocol.Message.{NodeConfig}
use ws_tunnel.Protocol.Control.{Message, welcome_message}
use ws_tunnel.Config.{NodeSpec, node_config}
use ws_tunnel.Config.Valid.{IsValid}
use ws_tunnel.Config.Pushed.{node_config_unknown}
use ws_tunnel.Config.Diff.Ports.{owner}
use ws_tunnel.Config.Diff.Nodes.{spec_config, SamePush, node_config-some}
use ws_tunnel.Server.Session.{DataChannel}
use ws_tunnel.Server.Registry.{
  SessionRef, get, register, unregister, stats_of_live, get-register, get-unregister,
}
use ws_tunnel.Server.Listener.Laws.{Books}
use ws_tunnel.Server.Listener.Holding.{holding, start_node-holding, is_node_iff, owns}
use ws_tunnel.Server.Plane.{
  Peer, Server, on_peer, new_peer, send_control, go_online, give_up_welcome, welcome, create, admit,
  join,
}
use ws_tunnel.Server.Plane.Freed.{send_control_rest}
use ws_tunnel.Server.Plane.Pushes.{Named}
use ws_tunnel.Server.Plane.Serves.{Serves}
use ws_tunnel.Server.Plane.Synced.{Synced, UpToDate}

-- What holds of the control plane between any two operations.
pub record Sound (covered : Str → Bool) (s : Server) : Type 0 where
  pub valid : IsValid s.cfg
  pub named : Named s
  pub serves : Serves covered s
  pub synced : Synced s

-- A pointer at which no registered session stands.
abbrev pub Unused : Server → ℕ → Type 0
Unused s p = (n : Str) (sess : SessionRef) → get n s.registry ≡ some sess → sess.ptr ≢ p

-- Nothing changed but at one pointer.
pub record Aside (p : ℕ) (s t : Server) : Type 0 where
  pub cfg : t.cfg ≡ s.cfg
  pub nodes : (n : Str) → get n t.registry ≡ get n s.registry
  pub listeners : t.listeners ≡ s.listeners
  pub peers : (q : ℕ) → q ≢ p → t.peers q ≡ s.peers q

pub Aside-Sound :
    {covered : Str → Bool} (p : ℕ) (s t : Server)
    → Aside p s t
    → Unused s p
    → Sound covered s
    → Sound covered t
Aside-Sound p s t a unused ok = record {
  valid = rw a.cfg ok.valid;
  named = λ n sess g.
      let g' = sym (a.nodes n) ∙ g in rw (a.peers sess.ptr (unused n sess g')) (ok.named n sess g');
  serves = record {
    books = rw a.listeners ok.serves.books;
    only = λ q n h.
        let (o, on) = ok.serves.only q n (rw a.listeners at h) in
        (rw a.cfg o, ap is_some (a.nodes n) ∙ on);
    all = λ q n sess k o g d.
        let g' = sym (a.nodes n) ∙ g in
        rw a.listeners (
          ok.serves.all q n sess k (rw a.cfg at o) g'
            (ap (λ x. x.pool.done) (sym (a.peers sess.ptr (unused n sess g'))) ∙ d));
  };
  synced = λ n sess g d f.
      let g' = sym (a.nodes n) ∙ g in
      let same = a.peers sess.ptr (unused n sess g') in
      rw (a.cfg, same)
        (ok.synced n sess g' (ap (λ x. x.pool.done) (sym same) ∙ d)
          (ap (λ x. x.pool.draining) (sym same) ∙ f));
}

trans-Aside : (p : ℕ) (s t u : Server) → Aside p s t → Aside p t u → Aside p s u
trans-Aside p s t u a b = record {
  cfg = b.cfg ∙ a.cfg;
  nodes = λ n. b.nodes n ∙ a.nodes n;
  listeners = b.listeners ∙ a.listeners;
  peers = λ q ne. b.peers q ne ∙ a.peers q ne;
}

-- A session that was taken in, with its node's listeners.
pub record Entered (sess : SessionRef) (k : NodeConfig) (s t : Server) : Type 0 where
  pub cfg : t.cfg ≡ s.cfg
  pub free : get sess.name s.registry ≡ none
  pub nodes :
      (n : Str) → get n t.registry ≡ (if sess.name == n then some sess else get n s.registry)
  pub books : Books t.listeners
  pub listeners :
      (p : ℕ)
      → holding t.listeners p
        ≡ (if owns s.cfg sess.name p then some sess.name else holding s.listeners p)
  pub peers : (q : ℕ) → q ≢ sess.ptr → t.peers q ≡ s.peers q
  pub name : (t.peers sess.ptr).name ≡ sess.name
  pub config : (t.peers sess.ptr).cfg ≡ k
  pub timeout : (t.peers sess.ptr).queue_timeout ≡ s.cfg.settings.queue_timeout

module _ {covered : Str → Bool} (sess : SessionRef) (k : NodeConfig) (s t : Server)
    (e : Entered sess k s t) (unused : Unused s sess.ptr) (ok : Sound covered s)
    (pushed : node_config s.cfg sess.name ≡ some k) where
  -- A registered session is the new one, or was registered before.
  pub either :
      (n : Str) (x : SessionRef)
      → get n t.registry ≡ some x
      → ((sess.name ≡ n) × (x ≡ sess))
        ⊎ ((get n s.registry ≡ some x) × (t.peers x.ptr ≡ s.peers x.ptr))
  either n x g = elim (Bool-cases (sess.name == n)) [
    | inl h ↦ inl ((str_beq_iff sess.name n).0 h, ground (arith, e.nodes n, g, h))
    | inr h ↦
        let g' : get n s.registry ≡ some x = ground (arith, e.nodes n, g, h) in
        inr (g', e.peers x.ptr (unused n x g'))
  ]

  Entered-Named : Named t
  Entered-Named n x g = elim (either n x g) [
    | inl (same, new) ↦
        (ap (λ y. (t.peers y.ptr).name) new ∙ e.name ∙ same, ap SessionRef.name new ∙ same)
    | inr (g', kept) ↦ let (peer, name) = ok.named n x g' in (ap Peer.name kept ∙ peer, name)
  ]

  Entered-Serves : Serves covered t
  Entered-Serves = record {
    books = e.books;
    only = λ p n h. elim (Bool-cases (owns s.cfg sess.name p)) [
      | inl o ↦
          let same : sess.name ≡ n = ground (arith, e.listeners p, h, o) in
          let mine = (is_node_iff (owner s.cfg p) sess.name).0 o in
          let here = (str_beq_iff sess.name n).1 same in
          (rw e.cfg (mine ∙ ap some same), ground (arith, e.nodes n, here))
      | inr o ↦
          let (was, on) = ok.serves.only p n (ground (arith, e.listeners p, h, o)) in
          (rw e.cfg was, ground (arith, e.nodes n, on))
    ];
    all = λ p n x k o g d. elim (either n x g) [
      | inl (same, _) ↦
          let mine =
            (is_node_iff (owner s.cfg p) sess.name).1 (sym (ap some same ∙ sym (rw e.cfg at o))) in
          ground (arith, e.listeners p, mine, same)
      | inr (g', kept) ↦
          let held =
            ok.serves.all p n x k (rw e.cfg at o) g' (ap (λ y. y.pool.done) (sym kept) ∙ d) in
          elim (Bool-cases (owns s.cfg sess.name p)) [
            | inr h ↦ ground (arith, e.listeners p, h, held)
            | inl h ↦
                let same =
                  some-injective sess.name n
                    (sym ((is_node_iff (owner s.cfg p) sess.name).0 h) ∙ (rw e.cfg at o)) in
                ground (arith, e.listeners p, h, same)
          ]
    ];
  }

  Entered-Synced : Synced t
  Entered-Synced n x g d f = elim (either n x g) [
    | inr (g', kept) ↦
        rw (e.cfg, kept)
          (ok.synced n x g' (ap (λ y. y.pool.done) (sym kept) ∙ d)
            (ap (λ y. y.pool.draining) (sym kept) ∙ f))
    | inl (same, new) ↦
        subst (λ m. UpToDate t.cfg m (t.peers x.ptr)) same
          (subst (λ y. UpToDate t.cfg sess.name (t.peers y.ptr)) (sym new) fresh)
  ]
    where
      fresh : UpToDate t.cfg sess.name (t.peers sess.ptr)
      fresh = elim (Option-cases (lookup sess.name s.cfg.nodes)) [
        | inl z ↦ ground (arith, node_config_unknown s.cfg sess.name z, pushed)
        | inr (spec, z) ↦
            let is : k ≡ spec_config s.cfg sess.name spec =
              some-injective _ _ (sym pushed ∙ node_config-some s.cfg sess.name spec z) in
            rw e.cfg (
              spec,
              z,
              subst (λ y. SamePush y (spec_config s.cfg sess.name spec)) (sym (e.config ∙ is))
                  ((refl, refl, refl, refl), λ q. refl),
              e.timeout,
            )
      ]

  Entered-Sound : Sound covered t
  Entered-Sound = record {
    valid = rw e.cfg ok.valid;
    named = Entered-Named;
    serves = Entered-Serves;
    synced = Entered-Synced;
  }

pub create-Aside :
    (heap : ℕ → DataChannel) (sess : SessionRef) (spec : NodeSpec) (n : NodeConfig) (s : Server)
    → Aside sess.ptr s (create heap sess spec n s)
unfolding create on_peer
create-Aside heap sess spec n s = record {
  cfg = refl;
  nodes = λ m. ap (lookup m) (stats_of_live spec.name s.registry);
  listeners = refl;
  peers = λ q ne. ground (arith, ne);
}

-- The object of the new session.
pub create-peer :
    (heap : ℕ → DataChannel) (sess : SessionRef) (spec : NodeSpec) (n : NodeConfig) (s : Server)
    → let x = (create heap sess spec n s).peers sess.ptr in
      (x.name ≡ spec.name)
      × (x.cfg ≡ n)
      × (x.queue_timeout ≡ s.cfg.settings.queue_timeout)
      × (x.sent ≡ [])
unfolding create on_peer new_peer
create-peer heap sess spec n s = ground arith

pub send_control-other :
    (w : ℕ → Message → Bool) (p : ℕ) (m : Message) (s : Server) (q : ℕ)
    → q ≢ p
    → (send_control w p m s).peers q ≡ s.peers q
unfolding send_control on_peer
send_control-other w p m s q ne = elim (Bool-cases (w p m)) [
  | inl e ↦ rw e (ground (arith, ne))
  | inr e ↦ rw e
]

send_control-same :
    (w : ℕ → Message → Bool) (p : ℕ) (m : Message) (s : Server)
    → let x = (send_control w p m s).peers p in
      (x.name ≡ (s.peers p).name)
      × (x.cfg ≡ (s.peers p).cfg)
      × (x.queue_timeout ≡ (s.peers p).queue_timeout)
unfolding send_control on_peer
send_control-same w p m s = elim (Bool-cases (w p m)) [
  | inl e ↦ rw e (ground arith)
  | inr e ↦ rw e (refl, refl, refl)
]

-- A session that is registered and taken back is as if it had not been.
give_up-Aside :
    (w : ℕ → Message → Bool) (now : ℕ) (sess : SessionRef) (n : NodeConfig) (s : Server)
    → get sess.name s.registry ≡ none
    → let t : Server = record s { registry = (register sess s.registry).1 } in
      Aside sess.ptr s
        (give_up_welcome now sess (send_control w sess.ptr (welcome_message sess.id n) t))
unfolding give_up_welcome on_peer
give_up-Aside w now sess n s free =
    let t : Server = record s { registry = (register sess s.registry).1 } in
    let m = welcome_message sess.id n in
    let (c, r, l, _) = send_control_rest w sess.ptr m t in
    record {
      cfg = c;
      nodes = λ k. rw r (back k);
      listeners = l;
      peers = λ q ne. ground (arith, ne, send_control-other w sess.ptr m t q ne);
    }
  where
    back :
        (k : Str)
        → get k (unregister sess (codes "welcome write failed") now (register sess s.registry).1)
          ≡ get k s.registry
    back k =
        let reg = (get-register sess k s.registry).1 in
        let reg' = (get-register sess sess.name s.registry).1 in
        let un =
          get-unregister sess (codes "welcome write failed") now k (register sess s.registry).1 in
        let self : nat_beq sess.ptr sess.ptr ≡ true = ground arith in
        elim (Bool-cases (sess.name == k)) [
          | inr h ↦ ground (arith, reg, un, h, free)
          | inl h ↦
              let gone : get k s.registry ≡ none =
                ap (λ j. get j s.registry) (sym ((str_beq_iff sess.name k).0 h)) ∙ free in
              ground (arith, reg', un, h, free, gone, self, beq_refl sess.name)
        ]

pub online-Entered :
    (w : ℕ → Message → Bool) (sess : SessionRef) (n : NodeConfig) (s : Server)
    → IsValid s.cfg
    → Books s.listeners
    → get sess.name s.registry ≡ none
    → (s.peers sess.ptr).name ≡ sess.name
    → (s.peers sess.ptr).cfg ≡ n
    → (s.peers sess.ptr).queue_timeout ≡ s.cfg.settings.queue_timeout
    → let t : Server = record s { registry = (register sess s.registry).1 } in
      Entered sess n s (go_online sess (send_control w sess.ptr (welcome_message sess.id n) t))
unfolding go_online
online-Entered w sess n s v b free name config timeout =
    let t : Server = record s { registry = (register sess s.registry).1 } in
    let m = welcome_message sess.id n in
    let t' = send_control w sess.ptr m t in
    let (c, r, l, _) = send_control_rest w sess.ptr m t in
    let (name', config', timeout') = send_control-same w sess.ptr m t in
    let (b', held) = start_node-holding s.cfg t.registry sess.name s.listeners v b in
    record {
      cfg = c;
      free = free;
      nodes = λ k. rw r (at k);
      books = rw (c, r, l) b';
      listeners = λ p. rw (c, r, l) (ground (arith, held p, at sess.name, beq_refl sess.name));
      peers = λ q ne. send_control-other w sess.ptr m t q ne;
      name = name' ∙ name;
      config = config' ∙ config;
      timeout = timeout' ∙ timeout;
    }
  where
    at :
        (k : Str)
        → get k (register sess s.registry).1
          ≡ (if sess.name == k then some sess else get k s.registry)
    at k = ground (arith, (get-register sess k s.registry).1, free)

pub welcome_lem :
    (w : ℕ → Message → Bool) (now : ℕ) (sess : SessionRef) (n : NodeConfig) (s : Server)
    → let s' = send_control w sess.ptr (welcome_message sess.id n) s in
      (welcome w now sess n s).1 ≡ (
        if w sess.ptr (welcome_message sess.id n)
        then go_online sess s'
        else give_up_welcome now sess s')
unfolding welcome
welcome_lem w now sess n s = elim (Bool-cases (w sess.ptr (welcome_message sess.id n))) [
  | inl e ↦ rw e
  | inr e ↦ rw e
]

pub admit-Sound :
    {covered : Str → Bool} (w : ℕ → Message → Bool) (now : ℕ) (sess : SessionRef) (n : NodeConfig)
    (s : Server)
    → Unused s sess.ptr
    → Sound covered s
    → node_config s.cfg sess.name ≡ some n
    → (s.peers sess.ptr).name ≡ sess.name
    → (s.peers sess.ptr).cfg ≡ n
    → (s.peers sess.ptr).queue_timeout ≡ s.cfg.settings.queue_timeout
    → Sound covered (admit w now sess n s).1
unfolding admit
admit-Sound {covered = covered} w now sess n s unused ok pushed name config timeout =
    let answer = (get-register sess sess.name s.registry).0 in
    let t : Server = record s { registry = (register sess s.registry).1 } in
    let t' = send_control w sess.ptr (welcome_message sess.id n) t in
    elim (Option-cases (get sess.name s.registry)) [
      | inr (old, g) ↦
          let no : (register sess s.registry).0 ≡ false = ground (arith, answer, g) in
          rw (no, admit) ok
      | inl free ↦
          let yes : (register sess s.registry).0 ≡ true = ground (arith, answer, free) in
          rw (yes, admit, welcome_lem w now sess n t)
            (elim (Bool-cases (w sess.ptr (welcome_message sess.id n))) [
              | inr e ↦
                  subst
                    (λ x.
                      Sound covered (if x then go_online sess t' else give_up_welcome now sess t'))
                    (sym e)
                    (Aside-Sound sess.ptr s (give_up_welcome now sess t')
                      (give_up-Aside w now sess n s free) unused ok)
              | inl e ↦
                  subst
                    (λ x.
                      Sound covered (if x then go_online sess t' else give_up_welcome now sess t'))
                    (sym e)
                    (Entered-Sound sess n s (go_online sess t')
                      (online-Entered w sess n s ok.valid ok.serves.books free name config timeout)
                      unused ok pushed)
            ])
    ]

pub Unused-Aside : (p : ℕ) (s t : Server) → Aside p s t → Unused s p → Unused t p
Unused-Aside p s t a unused n sess g = unused n sess (sym (a.nodes n) ∙ g)

-- Whatever becomes of a client that asks for a control channel, at a pointer where no registered
-- session stands, the control plane stays sound.
pub join-Sound :
    {covered : Str → Bool} (w : ℕ → Message → Bool) (heap : ℕ → DataChannel) (now ptr : ℕ)
    (id : Str) (spec : NodeSpec) (s : Server)
    → Unused s ptr
    → Sound covered s
    → Sound covered (join w heap now ptr id spec s).1
unfolding join
join-Sound w heap now ptr id spec s unused ok =
    let sess : SessionRef = record { ptr = ptr; name = spec.name; id = id; connected_at = now } in
    elim (Option-cases (node_config s.cfg spec.name)) [
      | inl e ↦ rw (e, join) ok
      | inr (n, e) ↦
          let t = create heap sess spec n s in
          let a = create-Aside heap sess spec n s in
          let (name, config, timeout, _) = create-peer heap sess spec n s in
          rw (e, join)
            (admit-Sound w now sess n t (Unused-Aside ptr s t a unused)
              (Aside-Sound ptr s t a unused ok) (rw a.cfg e) name config (rw a.cfg timeout))
    ]
