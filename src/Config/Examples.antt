-- ===== src/Config/Examples.antt =====
-- The theorems on internal/config at the sample configuration.
use ws_tunnel.Prelude.{◌≡◌, some, [], ◌∷◌, arith, str_eq, nat_eq}
use ws_tunnel.Prelude.Dict.{lookup}
use ws_tunnel.Protocol.Header.{codes}
use ws_tunnel.Protocol.Message.{NodeConfig}
use ws_tunnel.Config.{Config, node_config}
use ws_tunnel.Config.Valid.{IsValid, load-IsValid}
use ws_tunnel.Config.Pushed.{owned, allowed, node_config-allowed}
use ws_tunnel.Config.Sample.{
  no_duration, sample_file, sample, sample_node, sample_loads, sample-IsValid, sample_has_node,
}

load-IsValid_example : IsValid sample
load-IsValid_example = load-IsValid no_duration sample_file sample [] sample_loads

node_config-allowed_example :
    (n : NodeConfig) × (node_config sample (codes "n") ≡ some n)
    × (n.channels ≡ 2)
    × (n.heartbeat ≡ sample.settings.heartbeat)
    × (n.dial_timeout ≡ sample.settings.dial_timeout)
    × (n.max_streams_per_conn ≡ 256)
    × (allowed n 7 ≡ owned (codes "n") (lookup 7 sample.ports))
node_config-allowed_example =
    node_config-allowed sample (codes "n") sample_node 7 sample-IsValid sample_has_node
      (omega arith)

-- The port moved to another node.
abbrev moved : Config
moved = record sample {
  ports = (7, record { port = 7; node = codes "m"; remote = codes "h:1" }) ∷ [];
}
