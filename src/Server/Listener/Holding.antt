-- ===== src/Server/Listener/Holding.antt =====
-- The node in whose hands each port is, after each operation of the listener manager.
use ws_tunnel.Prelude.{
  ℕ, ◌+◌, ◌↔◌, some-injective, ◌≡◌, refl, inl, inr, Bool, true, false, ◌&&◌, Option, none, some,
  List, [], ◌∷◌, arith, nat_beq, nat_eq, if◌then◌else◌, Str, ◌==◌, str_eq, str_beq_iff, is_some,
  Option-cases, Bool-cases, sym, ◌∙◌, ap,
}
use ws_tunnel.Prelude.Dict.{lookup}
use ws_tunnel.Prelude.Sets.{contains, contains-keys}
use ws_tunnel.Config.{Config, PortSpec, ports_of, specs_of}
use ws_tunnel.Config.Diff.Ports.{owner}
use ws_tunnel.Config.Valid.{IsValid}
use ws_tunnel.Server.Registry.{Registry, get}
use ws_tunnel.Server.Listener.{
  PortListener, Manager, stop_port, start_port, start_ports, start_node, stop_node,
}
use ws_tunnel.Server.Listener.Laws.{
  Books, holder, start_port-Started, start_port_offline, stop_node-Books, stop_port_lem,
}

abbrev pub node_of : Option PortListener → Option Str
node_of none = none
node_of (some pl) = some pl.node

-- The node that holds a port.
abbrev pub holding : Manager → ℕ → Option Str
holding m p = node_of (lookup p m.items)

-- A node that is online.
abbrev pub is_online : Registry → Option Str → Bool
is_online r none = false
is_online r (some n) = is_some (get n r)

abbrev pub is_node : Option Str → Str → Bool
is_node none n = false
is_node (some k) n = k == n

holder_node : (o : Option PortListener) (n : Str) → holder o n ≡ is_node (node_of o) n
holder_node none n = refl
holder_node (some pl) n = refl

pub is_node_iff : (o : Option Str) (n : Str) → (is_node o n ≡ true) ↔ (o ≡ some n)
is_node_iff none n = (λ e. cc, λ e. cc)
is_node_iff (some k) n =
    (λ e. ap some ((str_beq_iff k n).0 e), λ e. (str_beq_iff k n).1 (some-injective k n e))

pub stop_node-holding :
    (node : Str) (graceful : Bool) (m : Manager)
    → Books m
    → Books (stop_node node graceful m)
      × ((p : ℕ)
          → holding (stop_node node graceful m) p
            ≡ (if is_node (holding m p) node then none else holding m p))
stop_node-holding node graceful m b =
    ((stop_node-Books node graceful 0 m b).0, λ p. at p (stop_node-Books node graceful p m b).1)
  where
    at :
        (p : ℕ)
        → lookup p (stop_node node graceful m).items
          ≡ (if holder (lookup p m.items) node then none else lookup p m.items)
        → holding (stop_node node graceful m) p
          ≡ (if is_node (holding m p) node then none else holding m p)
    at p e =
        rw (e, holder_node (lookup p m.items) node)
          (elim (Bool-cases (is_node (holding m p) node)) [ inl h ↦ rw h | inr h ↦ rw h ])

pub stop_port-holding :
    (port : ℕ) (graceful : Bool) (m : Manager)
    → Books m
    → Books (stop_port port graceful m)
      × ((p : ℕ)
          → holding (stop_port port graceful m) p ≡ (if nat_beq port p then none else holding m p))
stop_port-holding port graceful m b =
    let (b', l) = stop_port_lem port graceful m b in (b', λ p. ground (arith, l p))

-- `StartPort`: the port goes to the node of the spec, if that is online.
pub start_port-holding :
    (r : Registry) (spec : PortSpec) (m : Manager)
    → Books m
    → Books (start_port r spec m)
      × ((p : ℕ)
          → holding (start_port r spec m) p ≡ (
              if nat_beq spec.port p && is_some (get spec.node r)
              then some spec.node
              else holding m p))
start_port-holding r spec m b = elim (Bool-cases (is_some (get spec.node r))) [
  | inr h ↦ rw (start_port_offline r spec m h) (b, λ p. ground (arith, h))
  | inl h ↦
      let (b', held, _) = start_port-Started r spec (spec.port + 1) m h (λ e. omega (arith, e)) b in
      (
        b',
        λ p. elim (Bool-cases (nat_beq spec.port p)) [
          | inl e ↦
              let o = lookup spec.port (start_port r spec m).items in
              let now : holding (start_port r spec m) spec.port ≡ some spec.node =
                (is_node_iff (node_of o) spec.node).0 (sym (holder_node o spec.node) ∙ held) in
              ground (arith, now, e, h)
          | inr e ↦
              let (_, _, kept) = start_port-Started r spec p m h (λ z. ground (arith, e, z)) b in
              rw (e, kept)
        ],
      )
]

-- The port's owner is this node.
abbrev pub owns : Config → Str → ℕ → Bool
owns c node p = is_node (owner c p) node

-- `StartPort` on each of the node's ports in `qs`.
start_ports-holding :
    (c : Config) (r : Registry) (node : Str) (qs : List ℕ) (m : Manager)
    → ((q : ℕ) (s : PortSpec) → lookup q c.ports ≡ some s → s.port ≡ q)
    → Books m
    → Books (start_ports r (specs_of node c.ports qs) m)
      × ((p : ℕ)
          → holding (start_ports r (specs_of node c.ports qs) m) p ≡ (
              if contains p qs && owns c node p && is_some (get node r)
              then some node
              else holding m p))
unfolding start_ports specs_of
start_ports-holding c r node [] m ok b = (b, λ p. refl)
start_ports-holding c r node (q ∷ qs) m ok b = elim (Option-cases (lookup q c.ports)) [
  | inl e ↦
      let (b', l) = start_ports-holding c r node qs m ok b in
      rw (e, specs_of) (b', λ p. ground (arith, l p, e))
  | inr (s, e) ↦ elim (Bool-cases (s.node == node)) [
    | inr h ↦
        let (b', l) = start_ports-holding c r node qs m ok b in
        rw (e, h, specs_of) (b', λ p. ground (arith, l p, e, h))
    | inl h ↦
        let (b1, l1) = start_port-holding r s m b in
        let (b', l) = start_ports-holding c r node qs (start_port r s m) ok b1 in
        rw (e, h, specs_of)
          (b', λ p. ground (arith, l p, l1 p, e, h, ok q s e, str_beq_iff s.node node))
  ]
]

-- `StartNode`: if the node is online, it gets its ports.
pub start_node-holding :
    (c : Config) (r : Registry) (node : Str) (m : Manager)
    → IsValid c
    → Books m
    → Books (start_node c r node m)
      × ((p : ℕ)
          → holding (start_node c r node m) p
            ≡ (if owns c node p && is_some (get node r) then some node else holding m p))
unfolding start_node ports_of
start_node-holding c r node m v b =
    let (b', l) = start_ports-holding c r node c.port_order m (λ q s e. (v.ports q s e).0) b in
    (b', λ p. ground (arith, l p, v.port_order, contains-keys p c.ports))
