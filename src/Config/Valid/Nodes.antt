-- ===== src/Config/Valid/Nodes.antt =====
-- What the loop of `Load` over `nodes` keeps.
use ws_tunnel.Prelude.{
  ℕ, ◌≤◌, ◌≡◌, ◌≢◌, refl, inl, inr, false, Option, none, some, List, [], ◌∷◌, arith, Str, ◌==◌,
  str_eq, str_beq_iff, nat_eq, is_some, Bool-cases, leb, leb→le,
}
use ws_tunnel.Prelude.Int.{ℤ, pos, negsuc}
use ws_tunnel.Prelude.Dict.{lookup, lookup-insert}
use ws_tunnel.Prelude.Sets.{Unique, keys, Unique-append, contains-keys, keys-insert}
use ws_tunnel.Config.{
  NodeSpec, RawNode, NodesState, Warning, add_node, node_channels, load_node, load_nodes,
  default_channels, warn_node, bad_channels,
}

-- Each entry has its own name, a key and a channel at least, and
-- `owner` finds it by its key; `order` lists the entries, once each.
pub record NodesOk (s : NodesState) : Type 0 where
  pub entries :
      (name : Str) (spec : NodeSpec)
      → lookup name s.nodes ≡ some spec
      → (spec.name ≡ name)
        × (spec.key ≢ [])
        × (1 ≤ spec.channels)
        × (lookup spec.key s.owner ≡ some name)
  pub once : Unique s.order
  pub as_keys : keys s.nodes ≡ s.order

warn-NodesOk : (w : Warning) (s : NodesState) → NodesOk s → NodesOk (warn_node w s)
warn-NodesOk w s ok = record { entries = ok.entries; once = ok.once; as_keys = ok.as_keys }

add_node-NodesOk :
    (name key : Str) (channels : ℕ) (s : NodesState)
    → lookup name s.nodes ≡ none
    → key ≢ []
    → lookup key s.owner ≡ none
    → 1 ≤ channels
    → NodesOk s
    → NodesOk (add_node name key channels s)
unfolding add_node
add_node-NodesOk name key channels s fresh ne free many ok =
    let spec : NodeSpec = record { name = name; key = key; channels = channels } in
    record {
      entries = λ n x e. elim (Bool-cases (name == n)) [
        | inl same ↦
            let q : spec ≡ x = ground (arith, e, same, lookup-insert name n spec s.nodes) in
            rw (← q) (
              (str_beq_iff name n).0 same,
              ne,
              many,
              ground (
                arith,
                lookup-insert key key name s.owner,
                str_beq_iff key key,
                same,
                str_beq_iff name n,
              ),
            )
        | inr other ↦
            let old =
              ok.entries n x (ground (arith, e, other, lookup-insert name n spec s.nodes)) in
            (
              old.0,
              old.1,
              old.2,
              ground
                  (arith, old.3, free, lookup-insert key x.key name s.owner, str_beq_iff key x.key),
            )
      ];
      once =
          Unique-append name s.order (ground (arith, ok.as_keys, contains-keys name s.nodes, fresh))
            ok.once;
      as_keys = ground (arith, keys-insert name spec s.nodes fresh, ok.as_keys);
    }

node_channels-NodesOk :
    (name key : Str) (channels : Option ℤ) (s : NodesState)
    → lookup name s.nodes ≡ none
    → key ≢ []
    → lookup key s.owner ≡ none
    → NodesOk s
    → NodesOk (node_channels name key channels s)
unfolding node_channels
node_channels-NodesOk name key none s fresh ne free ok =
    add_node-NodesOk name key default_channels s fresh ne free (omega arith) ok
node_channels-NodesOk name key (some (negsuc c)) s fresh ne free ok =
    add_node-NodesOk name key default_channels _ fresh ne free (omega arith) (warn-NodesOk _ s ok)
node_channels-NodesOk name key (some (pos c)) s fresh ne free ok = elim (Bool-cases (leb 1 c)) [
  | inl h ↦ rw h (add_node-NodesOk name key c s fresh ne free (leb→le 1 c h) ok)
  | inr h ↦ rw h (
      add_node-NodesOk name key default_channels (warn_node (bad_channels name) s) fresh ne free
        (omega arith) (warn-NodesOk _ s ok))
]

pub none_of_is_some {ℓ} : {A : Type ℓ} (o : Option A) → is_some o ≡ false → o ≡ none
none_of_is_some none e = refl
none_of_is_some (some a) e = cc

load_node-NodesOk :
    (kv : Str × Option RawNode) (s : NodesState) → NodesOk s → NodesOk (load_node kv s)
unfolding load_node
load_node-NodesOk (name, none) s ok = warn-NodesOk _ s ok
load_node-NodesOk (name, some rn) s ok = elim (Bool-cases (is_some (lookup name s.nodes))) [
  | inl h ↦ rw h (warn-NodesOk _ s ok)
  | inr fresh ↦ rw fresh (elim (Bool-cases (rn.key == [])) [
    | inl h ↦ rw h (warn-NodesOk _ s ok)
    | inr ne ↦ rw ne (elim (Bool-cases (is_some (lookup rn.key s.owner))) [
      | inl h ↦ rw h (warn-NodesOk _ s ok)
      | inr free ↦ rw free (
          node_channels-NodesOk name rn.key rn.channels s (none_of_is_some _ fresh)
            (ground (arith, ne, str_beq_iff rn.key [])) (none_of_is_some _ free) ok)
    ])
  ])
]

pub load_nodes-NodesOk :
    (kvs : List (Str × Option RawNode)) (s : NodesState) → NodesOk s → NodesOk (load_nodes kvs s)
unfolding load_nodes
load_nodes-NodesOk [] s ok = ok
load_nodes-NodesOk (kv ∷ kvs) s ok =
    load_nodes-NodesOk kvs (load_node kv s) (load_node-NodesOk kv s ok)
