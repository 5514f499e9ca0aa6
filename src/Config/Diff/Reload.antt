-- ===== src/Config/Diff/Reload.antt =====
-- What a reload may rely on of a diff.
use ws_tunnel.Prelude.{
  ◌≡◌, refl, true, false, not, none, some, List, [], ◌∷◌, arith, nat_eq, Str, str_eq, is_some,
}
use ws_tunnel.Prelude.Dict.{lookup}
use ws_tunnel.Prelude.Sets.{contains, contains-keep}
use ws_tunnel.Config.{Config, NodeSpec}
use ws_tunnel.Config.Valid.{IsValid}
use ws_tunnel.Config.Diff.{Diff, diff_config, diff_from, removed, is_empty, is_nil, same_settings}
use ws_tunnel.Config.Diff.Nodes.{
  contains-order, spec_config, SamePush, push_iff, changed_value, key_changed_value, same_push,
}

-- A node that stays configured is not among the removed ones.
pub configured_not_removed :
    (old cur : Config) (n : Str)
    → is_some (lookup n cur.nodes) ≡ true
    → contains n (diff_config (some old) cur).removed_nodes ≡ false
unfolding diff_config diff_from removed
configured_not_removed old cur n h =
    ground (arith, contains-keep n (λ m. not (is_some (lookup m cur.nodes))) old.node_order, h)

is_nil-nil : {A : Type 0} (xs : List A) → is_nil xs ≡ true → xs ≡ []
is_nil-nil [] e = refl
is_nil-nil (x ∷ xs) e = cc

-- An empty diff moves no port and changes no node.
pub is_empty_lem :
    (d : Diff)
    → is_empty d ≡ true
    → (d.removed_nodes ≡ [])
      × (d.added_ports ≡ [])
      × (d.removed_ports ≡ [])
      × (d.key_changed_nodes ≡ [])
      × (d.changed_nodes ≡ [])
unfolding is_empty
is_empty_lem d e = (
  is_nil-nil d.removed_nodes (ground (arith, e)),
  is_nil-nil d.added_ports (ground (arith, e)),
  is_nil-nil d.removed_ports (ground (arith, e)),
  is_nil-nil d.key_changed_nodes (ground (arith, e)),
  is_nil-nil d.changed_nodes (ground (arith, e)),
)

pub settings_kept :
    (old cur : Config)
    → (diff_config (some old) cur).settings_changed ≡ false
    → old.settings.queue_timeout ≡ cur.settings.queue_timeout
unfolding diff_config diff_from same_settings
settings_kept old cur e = ground (arith, e)

-- What is pushed to a node is the same before and after, unless the diff lists the node as changed
-- or re-keyed.
pub unchanged-SamePush :
    (old cur : Config) (n : Str) (a b : NodeSpec)
    → IsValid old
    → IsValid cur
    → lookup n old.nodes ≡ some a
    → lookup n cur.nodes ≡ some b
    → contains n (diff_config (some old) cur).changed_nodes ≡ false
    → contains n (diff_config (some old) cur).key_changed_nodes ≡ false
    → SamePush (spec_config old n a) (spec_config cur n b)
unfolding diff_config diff_from same_push
unchanged-SamePush old cur n a b vo vc la lb hc hk = (push_iff old cur n a b vo).0 (
    ground (
      arith,
      hc,
      hk,
      changed_value old cur n a b vo vc la lb,
      key_changed_value old cur n a b vo vc la lb,
    ))

-- A node that is no longer configured is among the removed ones.
pub unconfigured_removed :
    (old cur : Config) (n : Str)
    → IsValid old
    → is_some (lookup n old.nodes) ≡ true
    → lookup n cur.nodes ≡ none
    → contains n (diff_config (some old) cur).removed_nodes ≡ true
unfolding diff_config diff_from removed
unconfigured_removed old cur n v h g = ground (
  arith,
  contains-keep n (λ m. not (is_some (lookup m cur.nodes))) old.node_order,
  contains-order old n v,
  h,
  g,
)
