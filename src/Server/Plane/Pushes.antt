-- ===== src/Server/Plane/Pushes.antt =====
-- What `pushConfig` and the loops over it do.
use ws_tunnel.Prelude.{
  ℕ, ◌≡◌, refl, inl, inr, ◌⊎◌, Bool, true, false, some, List, [], ◌∷◌, ◌++◌, arith, nat_beq,
  if◌then◌else◌, Str, ◌==◌, str_eq, Option-cases, Bool-cases, sym, ◌∙◌, ap, subst, nat_beq_iff,
  str_beq_iff, some-injective, keep, not,
}
use ws_tunnel.Prelude.Sets.{contains, contains-keep}
use ws_tunnel.Protocol.Message.{NodeConfig}
use ws_tunnel.Protocol.Control.{Message, reload_message}
use ws_tunnel.Config.{Config, node_config}
use ws_tunnel.Config.Diff.{Diff}
use ws_tunnel.Prelude.Dict.{lookup}
use ws_tunnel.Server.Session.Same.{SameFlags, set_config-SameFlags}
use ws_tunnel.Server.Registry.{SessionRef, get}
use ws_tunnel.Server.Plane.{
  Peer, Server, on_peer, set_peer_config, send_control, push_session, push_config, push_nodes,
  push_rest, names_of,
}
use ws_tunnel.Protocol.Control.View.{reload-seen}
use ws_tunnel.Server.Plane.Peers.{is_done, is_draining, sent_view}
use ws_tunnel.Server.Plane.Freed.{send_control_rest}

-- Only sessions change.
pub record Rest (s t : Server) : Type 0 where
  pub cfg : t.cfg ≡ s.cfg
  pub registry : t.registry ≡ s.registry
  pub listeners : t.listeners ≡ s.listeners
  pub endpoints : t.endpoints ≡ s.endpoints
  pub names : (q : ℕ) → (t.peers q).name ≡ (s.peers q).name
  pub done : (q : ℕ) → is_done t q ≡ is_done s q
  pub draining : (q : ℕ) → is_draining t q ≡ is_draining s q

pub refl-Rest : (s : Server) → Rest s s
refl-Rest s = record {
  cfg = refl;
  registry = refl;
  listeners = refl;
  endpoints = refl;
  names = λ q. refl;
  done = λ q. refl;
  draining = λ q. refl;
}

pub trans-Rest : (s t u : Server) → Rest s t → Rest t u → Rest s u
trans-Rest s t u a b = record {
  cfg = b.cfg ∙ a.cfg;
  registry = b.registry ∙ a.registry;
  listeners = b.listeners ∙ a.listeners;
  endpoints = b.endpoints ∙ a.endpoints;
  names = λ q. b.names q ∙ a.names q;
  done = λ q. b.done q ∙ a.done q;
  draining = λ q. b.draining q ∙ a.draining q;
}

-- A session that was given a configuration, and the message about it if that was written.
abbrev told : (ℕ → Message → Bool) → ℕ → NodeConfig → ℕ → Peer → Peer
told w timeout n p x =
    let y = set_peer_config n timeout x in
    if w p (reload_message n) then record y { sent = y.sent ++ (reload_message n ∷ []) } else y

-- `pushConfig` on a session changes that one only.
push_session-peers :
    (w : ℕ → Message → Bool) (timeout : ℕ) (n : NodeConfig) (sess : SessionRef) (s : Server) (q : ℕ)
    → (push_session w timeout n sess s).peers q
      ≡ (if nat_beq sess.ptr q then told w timeout n sess.ptr (s.peers q) else s.peers q)
unfolding push_session send_control on_peer
push_session-peers w timeout n sess s q = elim (Bool-cases (nat_beq sess.ptr q)) [
  | inl e ↦ elim (Bool-cases (w sess.ptr (reload_message n))) [
    | inl h ↦ rw (h, e)
    | inr h ↦ rw (h, e)
  ]
  | inr e ↦ elim (Bool-cases (w sess.ptr (reload_message n))) [
    | inl h ↦ rw (h, e)
    | inr h ↦ rw (h, e)
  ]
]

told_same :
    (w : ℕ → Message → Bool) (timeout : ℕ) (n : NodeConfig) (p : ℕ) (x : Peer)
    → ((told w timeout n p x).name ≡ x.name)
      × SameFlags x.pool (told w timeout n p x).pool
      × ((told w timeout n p x).cfg ≡ n)
      × ((told w timeout n p x).queue_timeout ≡ timeout)
unfolding set_peer_config
told_same w timeout n p x = elim (Bool-cases (w p (reload_message n))) [
  | inl h ↦ rw h (refl, set_config-SameFlags n.max_streams_per_conn x.pool, refl, refl)
  | inr h ↦ rw h (refl, set_config-SameFlags n.max_streams_per_conn x.pool, refl, refl)
]

told_view :
    (w : ℕ → Message → Bool) (timeout : ℕ) (n k : NodeConfig) (p : ℕ) (x : Peer)
    → w p (reload_message n) ≡ true
    → sent_view x ≡ some k
    → sent_view (told w timeout n p x) ≡ some n
unfolding set_peer_config
told_view w timeout n k p x h e = rw h (reload-seen n k x.sent e)

-- A session is found under its node's name.
abbrev pub Named : Server → Type 0
Named s =
    (n : Str) (sess : SessionRef)
    → get n s.registry ≡ some sess
    → ((s.peers sess.ptr).name ≡ n) × (sess.name ≡ n)

-- A session has this configuration, with the settings that go with it.
abbrev pub Carries : Config → NodeConfig → Peer → Type 0
Carries c k x = (x.cfg ≡ k) × (x.queue_timeout ≡ c.settings.queue_timeout)

-- What one push does: to sessions of other nodes nothing.
record Pushed (node : Str) (c : Config) (s t : Server) : Type 0 where
  rest : Rest s t
  others : (q : ℕ) → ((s.peers q).name == node) ≡ false → t.peers q ≡ s.peers q
  carries :
      (sess : SessionRef) (k : NodeConfig)
      → get node s.registry ≡ some sess
      → node_config c node ≡ some k
      → Carries c k (t.peers sess.ptr)

push_session-Rest :
    (w : ℕ → Message → Bool) (timeout : ℕ) (n : NodeConfig) (sess : SessionRef) (s : Server)
    → Rest s (push_session w timeout n sess s)
unfolding push_session on_peer
push_session-Rest w timeout n sess s =
    let (c, r, l, e) =
      send_control_rest w sess.ptr (reload_message n)
        (on_peer sess.ptr (set_peer_config n timeout) s) in
    record {
      cfg = c;
      registry = r;
      listeners = l;
      endpoints = e;
      names = λ q. (at q).0;
      done = λ q. (at q).1;
      draining = λ q. (at q).2;
    }
  where
    at :
        (q : ℕ)
        → (((push_session w timeout n sess s).peers q).name ≡ (s.peers q).name)
          × (is_done (push_session w timeout n sess s) q ≡ is_done s q)
          × (is_draining (push_session w timeout n sess s) q ≡ is_draining s q)
    at q =
        let (name, flags, _, _) = told_same w timeout n sess.ptr (s.peers q) in
        let p = push_session-peers w timeout n sess s q in
        ground (arith, p, name, flags.done, flags.draining)

push_session-others :
    (w : ℕ → Message → Bool) (timeout : ℕ) (n : NodeConfig) (sess : SessionRef) (node : Str)
    (s : Server) (q : ℕ)
    → (s.peers sess.ptr).name ≡ node
    → ((s.peers q).name == node) ≡ false
    → (push_session w timeout n sess s).peers q ≡ s.peers q
push_session-others w timeout n sess node s q named h = elim (Bool-cases (nat_beq sess.ptr q)) [
  | inr e ↦ push_session-peers w timeout n sess s q ∙ rw e
  | inl e ↦
      let same : sess.ptr ≡ q = (nat_beq_iff sess.ptr q).0 e in
      let found : ((s.peers q).name == node) ≡ true =
        (str_beq_iff (s.peers q).name node).1 (ap (λ p. (s.peers p).name) (sym same) ∙ named) in
      ground (arith, found, h)
]

push_session-Carries :
    (w : ℕ → Message → Bool) (c : Config) (n : NodeConfig) (sess : SessionRef) (s : Server)
    → Carries c n ((push_session w c.settings.queue_timeout n sess s).peers sess.ptr)
push_session-Carries w c n sess s =
    let (_, _, cfg, timeout) = told_same w c.settings.queue_timeout n sess.ptr (s.peers sess.ptr) in
    let p = push_session-peers w c.settings.queue_timeout n sess s sess.ptr in
    (ground (arith, p, cfg), ground (arith, p, timeout))

push_config-Pushed :
    (w : ℕ → Message → Bool) (node : Str) (c : Config) (s : Server)
    → Named s
    → Pushed node c s (push_config w node c s)
unfolding push_config
push_config-Pushed w node c s named = elim (Option-cases (get node s.registry)) [
  | inl e ↦
      rw (e, push_config)
        (record {
          rest = refl-Rest s;
          others = λ q h. refl;
          carries = λ sess k g h. ground (arith, g, e);
        })
  | inr (sess, e) ↦ elim (Option-cases (node_config c node)) [
    | inl z ↦
        rw (e, z, push_config)
          (record {
            rest = refl-Rest s;
            others = λ q h. refl;
            carries = λ sess k g h. ground (arith, h, z);
          })
    | inr (n, z) ↦
        rw (e, z, push_config)
          (record {
            rest = push_session-Rest w c.settings.queue_timeout n sess s;
            others = λ q h.
                push_session-others w c.settings.queue_timeout n sess node s q (named node sess e).0
                  h;
            carries = λ sess' k g h.
                let same : sess ≡ sess' = some-injective _ _ (sym e ∙ g) in
                let pushed : n ≡ k = some-injective _ _ (sym z ∙ h) in
                subst
                  (λ x.
                    Carries c k ((push_session w c.settings.queue_timeout n sess s).peers x.ptr))
                  same
                  (subst
                    (λ y.
                      Carries c y
                        ((push_session w c.settings.queue_timeout n sess s).peers sess.ptr))
                    pushed (push_session-Carries w c n sess s));
          })
  ]
]

pub Named-Rest : (s t : Server) → Rest s t → Named s → Named t
Named-Rest s t r named n sess g =
    let (peer, name) = named n sess (ap (get n) (sym r.registry) ∙ g) in
    (r.names sess.ptr ∙ peer, name)

-- `pushConfig` to each node of a list.
pub record PushedAll (nodes : List Str) (c : Config) (s t : Server) : Type 0 where
  pub rest : Rest s t
  pub others : (q : ℕ) → contains (s.peers q).name nodes ≡ false → t.peers q ≡ s.peers q
  pub carries :
      (node : Str) (sess : SessionRef) (k : NodeConfig)
      → contains node nodes ≡ true
      → get node s.registry ≡ some sess
      → node_config c node ≡ some k
      → Carries c k (t.peers sess.ptr)

pub push_nodes-PushedAll :
    (w : ℕ → Message → Bool) (nodes : List Str) (c : Config) (s : Server)
    → Named s
    → PushedAll nodes c s (push_nodes w nodes c s)
unfolding push_nodes
push_nodes-PushedAll w [] c s named = record {
  rest = refl-Rest s;
  others = λ q h. refl;
  carries = λ node sess k h. cc;
}
push_nodes-PushedAll w (m ∷ nodes) c s named =
    let t = push_config w m c s in
    let u = push_nodes w nodes c t in
    let one = push_config-Pushed w m c s named in
    let all = push_nodes-PushedAll w nodes c t (Named-Rest s t one.rest named) in
    record {
      rest = trans-Rest s t u one.rest all.rest;
      others = λ q h.
          all.others q (ground (arith, h, one.rest.names q))
          ∙ one.others q
              (ground (arith, h, str_beq_iff (s.peers q).name m, str_beq_iff m (s.peers q).name));
      carries = λ node sess k h g z. elim (Bool-cases (contains node nodes)) [
        | inl e ↦ all.carries node sess k e (ap (get node) one.rest.registry ∙ g) z
        | inr e ↦
            let same : m ≡ node = (str_beq_iff m node).0 (ground (arith, h, e)) in
            let first =
              one.carries sess k (ap (λ x. get x s.registry) same ∙ g)
                (ap (node_config c) same ∙ z) in
            let name = one.rest.names sess.ptr ∙ (named node sess g).0 in
            let kept = all.others sess.ptr (ap (λ x. contains x nodes) name ∙ e) in
            subst (Carries c k) (sym kept) first
      ];
    }

-- The loop over all sessions pushes to those that are not in `pushed`.
pub push_rest_lem :
    (w : ℕ → Message → Bool) (pushed nodes : List Str) (c : Config) (s : Server)
    → push_rest w pushed nodes c s ≡ push_nodes w (keep (λ n. not (contains n pushed)) nodes) c s
unfolding push_rest push_nodes
push_rest_lem w pushed [] c s = refl
push_rest_lem w pushed (n ∷ nodes) c s = elim (Bool-cases (contains n pushed)) [
  | inl h ↦ rw (h, push_rest) (push_rest_lem w pushed nodes c s)
  | inr h ↦ rw (h, push_rest) (push_rest_lem w pushed nodes c (push_config w n c s))
]

-- The pushes of `applyReload`.
unfoldable pub pushes : (ℕ → Message → Bool) → Config → Diff → Server → Server
pushes w cur d s =
    let t = push_nodes w d.changed_nodes cur s in
    if d.settings_changed then push_rest w d.changed_nodes (names_of t.registry.live) cur t else t

pub pushes-Rest :
    (w : ℕ → Message → Bool) (cur : Config) (d : Diff) (s : Server)
    → Named s
    → Rest s (pushes w cur d s)
unfolding pushes
pushes-Rest w cur d s named =
    let t = push_nodes w d.changed_nodes cur s in
    let first = (push_nodes-PushedAll w d.changed_nodes cur s named).rest in
    let others = keep (λ n. not (contains n d.changed_nodes)) (names_of t.registry.live) in
    let second = (push_nodes-PushedAll w others cur t (Named-Rest s t first named)).rest in
    elim (Bool-cases d.settings_changed) [
      | inl h ↦
          rw (h, push_rest_lem w d.changed_nodes (names_of t.registry.live) cur t)
            (trans-Rest s t (push_nodes w others cur t) first second)
      | inr h ↦ rw h first
    ]

names_of-contains :
    (live : List (Str × SessionRef)) (n : Str) (sess : SessionRef)
    → lookup n live ≡ some sess
    → sess.name ≡ n
    → contains n (names_of live) ≡ true
unfolding names_of lookup
names_of-contains [] n sess g e = cc
names_of-contains ((j, s) ∷ live) n sess g e = elim (Bool-cases (j == n)) [
  | inl h ↦
      let same : s ≡ sess = ground (arith, g, h) in
      let name : (s.name == n) ≡ true = (str_beq_iff s.name n).1 (ap SessionRef.name same ∙ e) in
      ground (arith, name)
  | inr h ↦ ground (arith, h, names_of-contains live n sess (rw h at g) e)
]

-- A registered session carries the new configuration if the diff lists its node as changed, or the
-- settings changed; else it is left alone.
pub pushes-Updated :
    (w : ℕ → Message → Bool) (cur : Config) (d : Diff) (s : Server) (n : Str) (sess : SessionRef)
    (k : NodeConfig)
    → Named s
    → get n s.registry ≡ some sess
    → node_config cur n ≡ some k
    → Carries cur k ((pushes w cur d s).peers sess.ptr)
      ⊎ ((contains n d.changed_nodes ≡ false)
          × (d.settings_changed ≡ false)
          × ((pushes w cur d s).peers sess.ptr ≡ s.peers sess.ptr))
unfolding pushes
pushes-Updated w cur d s n sess k named g z =
    let t = push_nodes w d.changed_nodes cur s in
    let first = push_nodes-PushedAll w d.changed_nodes cur s named in
    let others = keep (λ m. not (contains m d.changed_nodes)) (names_of t.registry.live) in
    let named' = Named-Rest s t first.rest named in
    let second = push_nodes-PushedAll w others cur t named' in
    let g' = ap (get n) first.rest.registry ∙ g in
    let name = (named' n sess g').0 in
    let listed =
      contains-keep n (λ m. not (contains m d.changed_nodes)) (names_of t.registry.live) in
    let rest = push_rest_lem w d.changed_nodes (names_of t.registry.live) cur t in
    elim (Bool-cases (contains n d.changed_nodes)) [
      | inl c ↦
          let now = first.carries n sess k c g z in
          elim (Bool-cases d.settings_changed) [
            | inr h ↦ rw h (inl now)
            | inl h ↦
                let away : contains (t.peers sess.ptr).name others ≡ false =
                  ap (λ x. contains x others) name ∙ ground (arith, listed, c) in
                rw (h, rest) (inl (subst (Carries cur k) (sym (second.others sess.ptr away)) now))
          ]
      | inr c ↦ elim (Bool-cases d.settings_changed) [
        | inr h ↦
            let away = ap (λ x. contains x d.changed_nodes) (named n sess g).0 ∙ c in
            rw h (inr (c, refl, first.others sess.ptr away))
        | inl h ↦
            let here = names_of-contains t.registry.live n sess g' (named' n sess g').1 in
            rw (h, rest) (inl (second.carries n sess k (ground (arith, listed, c, here)) g' z))
      ]
    ]

-- The client of a session that has not ended was sent the session's configuration last.
abbrev pub PeerTold : Peer → Type 0
PeerTold x = x.pool.done ≡ false → sent_view x ≡ some x.cfg

told-PeerTold :
    (w : ℕ → Message → Bool) (timeout : ℕ) (n : NodeConfig) (p : ℕ) (x : Peer)
    → w p (reload_message n) ≡ true
    → PeerTold x
    → PeerTold (told w timeout n p x)
told-PeerTold w timeout n p x h t e =
    let (_, flags, cfg, _) = told_same w timeout n p x in
    told_view w timeout n x.cfg p x h (t (sym flags.done ∙ e)) ∙ ap some (sym cfg)

push_config-PeerTold :
    (w : ℕ → Message → Bool) (node : Str) (c : Config) (s : Server) (q : ℕ)
    → ((p : ℕ) (m : Message) → w p m ≡ true)
    → PeerTold (s.peers q)
    → PeerTold ((push_config w node c s).peers q)
unfolding push_config
push_config-PeerTold w node c s q reliable t = elim (Option-cases (get node s.registry)) [
  | inl e ↦ rw (e, push_config) t
  | inr (sess, e) ↦ elim (Option-cases (node_config c node)) [
    | inl z ↦ rw (e, z, push_config) t
    | inr (n, z) ↦
        rw (e, z, push_config, push_session-peers w c.settings.queue_timeout n sess s q)
          (elim (Bool-cases (nat_beq sess.ptr q)) [
            | inr h ↦ rw h t
            | inl h ↦ rw h (
                told-PeerTold w c.settings.queue_timeout n sess.ptr (s.peers q)
                  (reliable sess.ptr (reload_message n)) t)
          ])
  ]
]

push_nodes-PeerTold :
    (w : ℕ → Message → Bool) (nodes : List Str) (c : Config) (s : Server) (q : ℕ)
    → ((p : ℕ) (m : Message) → w p m ≡ true)
    → PeerTold (s.peers q)
    → PeerTold ((push_nodes w nodes c s).peers q)
unfolding push_nodes
push_nodes-PeerTold w [] c s q reliable t = t
push_nodes-PeerTold w (n ∷ nodes) c s q reliable t =
    push_nodes-PeerTold w nodes c (push_config w n c s) q reliable
      (push_config-PeerTold w n c s q reliable t)

-- If every write succeeds, that stays so.
pub pushes-PeerTold :
    (w : ℕ → Message → Bool) (cur : Config) (d : Diff) (s : Server) (q : ℕ)
    → ((p : ℕ) (m : Message) → w p m ≡ true)
    → PeerTold (s.peers q)
    → PeerTold ((pushes w cur d s).peers q)
unfolding pushes
pushes-PeerTold w cur d s q reliable t =
    let u = push_nodes w d.changed_nodes cur s in
    let others = keep (λ n. not (contains n d.changed_nodes)) (names_of u.registry.live) in
    let first = push_nodes-PeerTold w d.changed_nodes cur s q reliable t in
    elim (Bool-cases d.settings_changed) [
      | inr h ↦ rw h first
      | inl h ↦
          rw (h, push_rest_lem w d.changed_nodes (names_of u.registry.live) cur u)
            (push_nodes-PeerTold w others cur u q reliable first)
    ]
