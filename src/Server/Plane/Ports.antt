-- ===== src/Server/Plane/Ports.antt =====
-- The loops of `applyReload` over the ports: in whose hands they depart each port.
use ws_tunnel.Prelude.{
  ℕ, ◌≡◌, refl, inl, inr, true, ◌&&◌, none, some, List, [], ◌∷◌, arith, nat_eq, if◌then◌else◌,
  Option-cases,
}
use ws_tunnel.Prelude.Dict.{lookup}
use ws_tunnel.Prelude.Sets.{contains}
use ws_tunnel.Config.{Config, PortSpec}
use ws_tunnel.Config.Diff.Ports.{owner}
use ws_tunnel.Server.Registry.{Registry}
use ws_tunnel.Server.Listener.{Manager, start_port, stop_port}
use ws_tunnel.Server.Listener.Laws.{Books}
use ws_tunnel.Server.Listener.Holding.{holding, is_online, start_port-holding, stop_port-holding}
use ws_tunnel.Server.Plane.{stop_ports, start_added}

pub stop_ports-holding :
    (ps : List ℕ) (m : Manager)
    → Books m
    → Books (stop_ports ps m)
      × ((p : ℕ) → holding (stop_ports ps m) p ≡ (if contains p ps then none else holding m p))
unfolding stop_ports
stop_ports-holding [] m b = (b, λ p. refl)
stop_ports-holding (q ∷ ps) m b =
    let (b1, l1) = stop_port-holding q true m b in
    let (b2, l2) = stop_ports-holding ps (stop_port q true m) b1 in
    (b2, λ p. ground (arith, l1 p, l2 p))

-- A port of the list goes to its owner if that is online.
pub start_added-holding :
    (c : Config) (r : Registry) (ps : List ℕ) (m : Manager)
    → ((q : ℕ) (s : PortSpec) → lookup q c.ports ≡ some s → s.port ≡ q)
    → Books m
    → Books (start_added c r ps m)
      × ((p : ℕ)
          → holding (start_added c r ps m) p
            ≡ (if contains p ps && is_online r (owner c p) then owner c p else holding m p))
unfolding start_added
start_added-holding c r [] m ok b = (b, λ p. refl)
start_added-holding c r (q ∷ ps) m ok b = elim (Option-cases (lookup q c.ports)) [
  | inl e ↦
      let (b', l) = start_added-holding c r ps m ok b in
      rw (e, start_added) (b', λ p. ground (arith, l p, e))
  | inr (s, e) ↦
      let (b1, l1) = start_port-holding r s m b in
      let (b', l) = start_added-holding c r ps (start_port r s m) ok b1 in
      rw (e, start_added) (b', λ p. ground (arith, l p, l1 p, e, ok q s e))
]
