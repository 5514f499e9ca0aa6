-- ===== src/Server/Listener.antt =====
-- `listenerManager` of internal/server/listener.go: which ports have a listener, and what
-- /status shows of them. Each function is one hold of `mu`; the goroutine of a listener (`run`)
-- starts and ends with its entry here.
pub mod Laws
pub mod Holding
pub mod Run
use ws_tunnel.Prelude.{
  ℕ, ◌+◌, ◌≡◌, Bool, true, false, ◌&&◌, not, Option, none, some, List, [], ◌∷◌, ◌++◌, nat_beq,
  nat_eq, if◌then◌else◌, Str, ◌==◌, str_eq, is_some,
}
use ws_tunnel.Prelude.Dict.{lookup, insert, delete}
use ws_tunnel.Protocol.Header.{codes}
use ws_tunnel.Config.{Config, PortSpec, ports_of}
use ws_tunnel.Server.Stats.{NodeStats, bind_errors_of}
use ws_tunnel.Server.Registry.{Registry, get}

-- A `portListener`: `id` tells two listeners of one port apart; `cancelled` is its context's state.
pub record PortListener : Type 0 where
  pub id : ℕ
  pub port : ℕ
  pub node : Str
  pub listening : Bool
  pub last_err : Str
  pub active_conns : ℕ

-- A listener that was stopped, and whether its connections may go on.
pub record Stopped : Type 0 where
  pub pl : PortListener
  pub graceful : Bool

pub record Manager : Type 0 where
  pub items : List (ℕ × PortListener)
  pub next_id : ℕ
  pub stopped : List Stopped

-- `pl.stop`; the log of the stopped listeners grows at its end.
pub stop : Bool → PortListener → Manager → Manager
stop graceful pl m = record m {
  stopped =
      m.stopped ++ (record { pl = record pl { listening = false }; graceful = graceful } ∷ []);
}

stop_found : ℕ → Bool → Option PortListener → Manager → Manager
unfolding stop
stop_found port graceful none m = m
stop_found port graceful (some pl) m = stop graceful pl (record m { items = delete port m.items })

-- `StopPort`.
pub stop_port : ℕ → Bool → Manager → Manager
unfolding stop_found
stop_port port graceful m = stop_found port graceful (lookup port m.items) m

-- A new listener for `spec`, and `go pl.run()`.
unfoldable pub open_port : PortSpec → Manager → Manager
open_port spec m =
    let pl : PortListener = record {
      id = m.next_id;
      port = spec.port;
      node = spec.node;
      listening = false;
      last_err = [];
      active_conns = 0;
    } in
    record m { items = insert spec.port pl m.items; next_id = m.next_id + 1 }

unfoldable pub start_over : PortSpec → Option PortListener → Manager → Manager
unfolding open_port stop_port
start_over spec none m = open_port spec m
start_over spec (some cur) m =
    if cur.node == spec.node then m else open_port spec (stop_port spec.port false m)

-- `StartPort`.
unfoldable pub start_port : Registry → PortSpec → Manager → Manager
unfolding start_over
start_port r spec m =
    if is_some (get spec.node r) then start_over spec (lookup spec.port m.items) m else m

unfoldable pub start_ports : Registry → List PortSpec → Manager → Manager
unfolding start_port
start_ports r [] m = m
start_ports r (spec ∷ specs) m = start_ports r specs (start_port r spec m)

-- `StartNode`.
unfoldable pub start_node : Config → Registry → Str → Manager → Manager
unfolding start_ports
start_node c r node m = start_ports r (ports_of c node) m

-- The loop over `items` of `StopNode` and `StopAll`, on the listeners that `p` picks: the entries
-- that stay, and the victims.
pub others : (PortListener → Bool) → List (ℕ × PortListener) → List (ℕ × PortListener)
others p [] = []
others p ((port, pl) ∷ items) =
    let rest = others p items in if p pl then rest else (port, pl) ∷ rest

pub victims : (PortListener → Bool) → List (ℕ × PortListener) → List PortListener
victims p [] = []
victims p ((port, pl) ∷ items) = let rest = victims p items in if p pl then pl ∷ rest else rest

pub stop_each : Bool → List PortListener → Manager → Manager
unfolding stop
stop_each graceful [] m = m
stop_each graceful (pl ∷ pls) m = stop_each graceful pls (stop graceful pl m)

pub stop_if : (PortListener → Bool) → Bool → Manager → Manager
unfolding others victims stop_each
stop_if p graceful m =
    stop_each graceful (victims p m.items) (record m { items = others p m.items })

-- `StopNode`.
pub stop_node : Str → Bool → Manager → Manager
unfolding stop_if
stop_node node graceful m = stop_if (λ pl. pl.node == node) graceful m

-- `StopAll`.
pub stop_all : Bool → Manager → Manager
unfolding stop_if
stop_all graceful m = stop_if (λ _. true) graceful m

-- `PortStatus`.
pub record PortStatus : Type 0 where
  pub port : ℕ
  pub remote : Str
  pub listening : Bool
  pub active_conns : ℕ
  pub bind_errors : ℕ
  pub error : Option Str

abbrev error_of : Str → Option Str
error_of [] = none
error_of (b ∷ e) = some (b ∷ e)

-- One port of `Snapshot`; `live` is the port's listener if it is the node's.
port_status : NodeStats → PortSpec → Option PortListener → PortStatus
port_status s spec none = record {
  port = spec.port;
  remote = spec.remote;
  listening = false;
  active_conns = 0;
  bind_errors = bind_errors_of spec.port s;
  error = some (codes "node offline");
}
port_status s spec (some pl) = record {
  port = spec.port;
  remote = spec.remote;
  listening = pl.listening;
  active_conns = pl.active_conns;
  bind_errors = bind_errors_of spec.port s;
  error = error_of pl.last_err;
}

-- The map `live` of `Snapshot`.
pub live_of : Str → List (ℕ × PortListener) → List (ℕ × PortListener)
unfolding others
live_of node items = others (λ pl. not (pl.node == node)) items

statuses : NodeStats → List (ℕ × PortListener) → List PortSpec → List PortStatus
unfolding port_status
statuses s live [] = []
statuses s live (spec ∷ specs) = port_status s spec (lookup spec.port live) ∷ statuses s live specs

-- `Snapshot`.
pub snapshot : Config → NodeStats → Str → Manager → List PortStatus
unfolding live_of statuses
snapshot c s node m = statuses s (live_of node m.items) (ports_of c node)
