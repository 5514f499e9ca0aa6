-- ===== src/Config/Diff.antt =====
-- internal/config/diff.go: what a reload changes.
pub mod Ports
pub mod Nodes
pub mod Reload
use ws_tunnel.Prelude.{
  ℕ, suc, Bool, true, false, ◌&&◌, ◌||◌, not, Option, none, some, List, [], ◌∷◌, ◌++◌, nat_beq, ltb,
  leb, if◌then◌else◌, Str, ◌==◌, str_eq, nat_eq, is_some, keep,
}
use ws_tunnel.Prelude.Dict.{lookup}
use ws_tunnel.Prelude.Sets.{contains, sort}
use ws_tunnel.Config.{Config, Settings, NodeSpec, PortSpec, node_config, sorted_ports}
use ws_tunnel.Protocol.Message.{equal}

pub record Diff : Type 0 where
  pub added_nodes : List Str
  pub removed_nodes : List Str
  pub key_changed_nodes : List Str
  pub added_ports : List ℕ
  pub removed_ports : List ℕ
  pub changed_nodes : List Str
  pub settings_changed : Bool

abbrev is_nil {ℓ} : {A : Type ℓ} → List A → Bool
is_nil [] = true
is_nil (x ∷ xs) = false

-- `Empty`.
pub is_empty : Diff → Bool
is_empty d =
    is_nil d.added_nodes
    && is_nil d.removed_nodes
    && is_nil d.key_changed_nodes
    && is_nil d.added_ports
    && is_nil d.removed_ports
    && is_nil d.changed_nodes

-- `==` on settings.
pub same_settings : Settings → Settings → Bool
same_settings s t =
    nat_beq s.heartbeat t.heartbeat
    && nat_beq s.dial_timeout t.dial_timeout
    && nat_beq s.queue_timeout t.queue_timeout
    && nat_beq s.max_streams_per_conn t.max_streams_per_conn

-- The order of Go's strings.
pub str_le : Str → Str → Bool
str_le [] t = true
str_le (x ∷ s) [] = false
str_le (x ∷ s) (y ∷ t) =
    let rest = str_le s t in if ltb x y then true else if ltb y x then false else rest

-- The node is in both configurations, under different keys.
key_differs : Option NodeSpec → Option NodeSpec → Bool
key_differs (some a) (some b) = not (a.key == b.key)
key_differs none o = false
key_differs (some a) none = false

-- The port stands in both configurations and its node is the same.
same_owner : Option PortSpec → Option PortSpec → Bool
same_owner (some a) (some b) = a.node == b.node
same_owner none o = false
same_owner (some a) none = false

-- The three loops over names, as filters of the order that they walk: nodes of `old` that `cur`
-- lacks, or has under another key, and those of `cur` that `old` lacks.
removed : Config → Config → List Str
removed old cur = keep (λ n. not (is_some (lookup n cur.nodes))) old.node_order

pub key_changed : Config → Config → List Str
unfolding key_differs
key_changed old cur =
    keep (λ n. key_differs (lookup n old.nodes) (lookup n cur.nodes)) old.node_order

-- The set `changed`, as a list: nodes in both whose pushed configuration differs.
needs_push : Config → Config → Str → Bool
needs_push old cur n =
    is_some (lookup n old.nodes) && not (equal (node_config old n) (node_config cur n))

pub changed : Config → Config → List Str
unfolding key_changed needs_push
changed old cur =
    keep (λ n. not (contains n (key_changed old cur))) (keep (needs_push old cur) cur.node_order)

diff_from : Config → Config → Diff
unfolding removed changed same_owner
diff_from old cur = record {
  added_nodes = removed cur old;
  removed_nodes = removed old cur;
  key_changed_nodes = key_changed old cur;
  added_ports =
      keep (λ p. not (same_owner (lookup p old.ports) (lookup p cur.ports))) (sorted_ports cur);
  removed_ports =
      keep (λ p. not (same_owner (lookup p old.ports) (lookup p cur.ports))) (sorted_ports old);
  changed_nodes = sort str_le (changed old cur);
  settings_changed = not (same_settings old.settings cur.settings);
}

-- `DiffConfig`; `none` is the nil pointer.
pub diff_config : Option Config → Config → Diff
unfolding diff_from
diff_config none cur = record {
  added_nodes = cur.node_order;
  removed_nodes = [];
  key_changed_nodes = [];
  added_ports = sorted_ports cur;
  removed_ports = [];
  changed_nodes = [];
  settings_changed = true;
}
diff_config (some old) cur = diff_from old cur
