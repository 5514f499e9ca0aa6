-- ===== src/Config/Diff/Nodes.antt =====
-- The nodes of a reload.
use ws_tunnel.Prelude.{
  ◌≡◌, ◌≢◌, ◌↔◌, refl, Bool, true, false, ◌&&◌, not, Option, none, some, [], arith, Str, ◌==◌,
  str_eq, str_beq_iff, nat_eq, is_some, leb, keep, ap, sym, ◌∙◌, beq_refl, Option-cases, Bool-cases,
  inl, inr,
}
use ws_tunnel.Prelude.Dict.{lookup}
use ws_tunnel.Prelude.Sets.{
  contains, keys, contains-keep, contains-sort, contains-keys, sort, keep-nil,
}
use ws_tunnel.Config.{Config, NodeSpec, PortSpec, sorted_ports, node_config, ports_for}
use ws_tunnel.Config.Valid.{IsValid}
use ws_tunnel.Config.Pushed.{ports_for-Unique, ports_for-Filled, valid_remote}
use ws_tunnel.Config.Diff.{
  diff_config, removed, key_changed, key_differs, changed, needs_push, str_le, is_empty,
  same_settings, same_owner,
}
use ws_tunnel.Protocol.Message.{NodeConfig, equal, SamePorts, SameRest, NoEmptyRemote}
use ws_tunnel.Protocol.Message.Equal.{equal_iff}

abbrev pub spec_config : Config → Str → NodeSpec → NodeConfig
spec_config c n spec = record {
  ports = ports_for n c.ports c.port_order [];
  channels = spec.channels;
  heartbeat = c.settings.heartbeat;
  dial_timeout = c.settings.dial_timeout;
  max_streams_per_conn = c.settings.max_streams_per_conn;
}

pub node_config-some :
    (c : Config) (n : Str) (spec : NodeSpec)
    → lookup n c.nodes ≡ some spec
    → node_config c n ≡ some (spec_config c n spec)
unfolding node_config
node_config-some c n spec l = rw (l, node_config)

-- The same is pushed.
abbrev pub SamePush : NodeConfig → NodeConfig → Type 0
SamePush c o = SameRest c o × SamePorts c.ports o.ports

push-Filled :
    (c : Config) (n : Str) → IsValid c → NoEmptyRemote (ports_for n c.ports c.port_order [])
unfolding lookup
push-Filled c n v =
    ports_for-Filled n c.ports c.port_order [] (λ q s e. valid_remote s.remote (v.ports q s e).5)
      (λ k e. cc)

pub push_iff :
    (old cur : Config) (n : Str) (a b : NodeSpec)
    → IsValid old
    → (equal (some (spec_config old n a)) (some (spec_config cur n b)) ≡ true)
      ↔ SamePush (spec_config old n a) (spec_config cur n b)
push_iff old cur n a b v =
    equal_iff (spec_config old n a) (spec_config cur n b)
      (ports_for-Unique n old.ports old.port_order [] tt)
      (ports_for-Unique n cur.ports cur.port_order [] tt) (push-Filled old n v)

contains-changed :
    (old cur : Config) (n : Str)
    → contains n (changed old cur) ≡ (
        (contains n cur.node_order && needs_push old cur n)
        && not (contains n (key_changed old cur)))
unfolding changed
contains-changed old cur n =
    contains-keep n (λ m. not (contains m (key_changed old cur)))
      (keep (needs_push old cur) cur.node_order)
    ∙ ap (λ b. b && not (contains n (key_changed old cur)))
        (contains-keep n (needs_push old cur) cur.node_order)

pub contains-order :
    (c : Config) (n : Str) → IsValid c → contains n c.node_order ≡ is_some (lookup n c.nodes)
contains-order c n v = rw (← v.node_order) (contains-keys n c.nodes)

contains-key_changed :
    (old cur : Config) (n : Str)
    → contains n (key_changed old cur)
      ≡ (contains n old.node_order && key_differs (lookup n old.nodes) (lookup n cur.nodes))
unfolding key_changed
contains-key_changed old cur n =
    contains-keep n (λ m. key_differs (lookup m old.nodes) (lookup m cur.nodes)) old.node_order

module _ (old cur : Config) (n : Str) (a b : NodeSpec) (vo : IsValid old) (vc : IsValid cur)
    (la : lookup n old.nodes ≡ some a) (lb : lookup n cur.nodes ≡ some b) where
  unfoldable pub same_push : Bool
  same_push = equal (some (spec_config old n a)) (some (spec_config cur n b))

  pub key_changed_value : contains n (key_changed old cur) ≡ not (a.key == b.key)
  unfolding key_differs
  key_changed_value =
      ground (arith, contains-key_changed old cur n, contains-order old n vo, la, lb)

  needs_push_value : needs_push old cur n ≡ not same_push
  unfolding needs_push same_push
  needs_push_value = ground (arith, la, node_config-some old n a la, node_config-some cur n b lb)

  pub changed_value :
      contains n (sort str_le (changed old cur)) ≡ (not same_push && (a.key == b.key))
  changed_value = ground (
    arith,
    contains-sort str_le n (changed old cur),
    contains-changed old cur n,
    needs_push_value,
    key_changed_value,
    contains-order cur n vc,
    lb,
  )

-- Between valid configurations, of a node that stands in both: it is pushed a new configuration,
-- with no reconnect, exactly when its key stays and what it is sent differs in its channels,
-- the shared settings or its port list; and it is forced to reconnect exactly when its key
-- changes.
pub diff_changed_nodes :
    (old cur : Config) (n : Str) (a b : NodeSpec)
    → IsValid old
    → IsValid cur
    → lookup n old.nodes ≡ some a
    → lookup n cur.nodes ≡ some b
    → let d = diff_config (some old) cur in
      ((contains n d.changed_nodes ≡ true)
        ↔ ((a.key ≡ b.key) × (¬ SamePush (spec_config old n a) (spec_config cur n b))))
      × ((contains n d.key_changed_nodes ≡ true) ↔ (a.key ≢ b.key))
unfolding diff_config
diff_changed_nodes old cur n a b vo vc la lb =
    let iff = push_iff old cur n a b vo in
    let key = str_beq_iff a.key b.key in
    (
      rw (changed_value old cur n a b vo vc la lb) (
          unfold same_push in
          (
            λ e. (ground arith, λ s. ground (arith, e, iff.1 s)),
            λ h.
                elim (Bool-cases
                  (equal (some (spec_config old n a)) (some (spec_config cur n b)))) [
                    | inl same ↦ absurd (h.1 (iff.0 same))
                    | inr differ ↦ ground (arith, differ, key, h.0)
                  ],
          )),
      rw (key_changed_value old cur n a b vo vc la lb) (
        λ e. λ z. ground (arith, e, key, z),
        λ ne. elim (Bool-cases (a.key == b.key)) [
          | inl same ↦ absurd (ne (key.0 same))
          | inr differ ↦ rw differ
        ],
      ),
    )

is_some_of_order :
    (c : Config)
    → IsValid c
    → (n : Str) → contains n c.node_order ≡ true
    → is_some (lookup n c.nodes) ≡ true
is_some_of_order c v n h = sym (contains-order c n v) ∙ h

key_differs_self :
    (c : Config) (n : Str) → key_differs (lookup n c.nodes) (lookup n c.nodes) ≡ false
unfolding key_differs
key_differs_self c n = go (lookup n c.nodes)
  where
    go : (o : Option NodeSpec) → key_differs o o ≡ false
    go none = refl
    go (some a) = rw (beq_refl a.key)

no_push : (c : Config) (n : Str) → IsValid c → needs_push c c n ≡ false
unfolding needs_push
no_push c n v = elim (Option-cases (lookup n c.nodes)) [
  | inl e ↦ rw (e, needs_push)
  | inr (a, e) ↦ ground (
    arith,
    e,
    node_config-some c n a e,
    (push_iff c c n a a v).1 ((refl, refl, refl, refl), λ k. refl),
  )
]

no_port_change :
    (c : Config)
    → keep (λ p. not (same_owner (lookup p c.ports) (lookup p c.ports))) (sorted_ports c) ≡ []
unfolding same_owner sorted_ports
no_port_change c = keep-nil _ _ λ p h.
    go (lookup p c.ports)
      (sym (contains-keys p c.ports) ∙ sym (contains-sort leb p (keys c.ports)) ∙ h)
  where
    go : (o : Option PortSpec) → is_some o ≡ true → not (same_owner o o) ≡ false
    go none h = cc
    go (some s) h = rw (beq_refl s.node)

-- Reloading a valid configuration that has not changed is seen to change nothing.
pub diff_same :
    (c : Config)
    → IsValid c
    → (is_empty (diff_config (some c) c) ≡ true)
      × ((diff_config (some c) c).settings_changed ≡ false)
unfolding diff_config is_empty removed key_changed changed sort same_settings
diff_same c v =
    let r =
      keep-nil (λ n. not (is_some (lookup n c.nodes))) c.node_order
        (λ n h. ap not (is_some_of_order c v n h)) in
    let k =
      keep-nil (λ n. key_differs (lookup n c.nodes) (lookup n c.nodes)) c.node_order
        (λ n h. key_differs_self c n) in
    let p = keep-nil (needs_push c c) c.node_order (λ n h. no_push c n v) in
    (rw (r, k, p, no_port_change c), ground arith)
