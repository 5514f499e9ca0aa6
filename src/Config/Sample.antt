-- ===== src/Config/Sample.antt =====
-- A small configuration file and what `Load` makes of it, for the examples.
use ws_tunnel.Prelude.{◌*◌, ◌≡◌, refl, str_beq, Option, none, some, [], ◌∷◌, Str, str_eq, nat_eq}
use ws_tunnel.Prelude.Int.{ℤ, pos}
use ws_tunnel.Prelude.Dict.{lookup, insert}
use ws_tunnel.Protocol.Header.{codes}
use ws_tunnel.Protocol.Message.{NodeConfig}
use ws_tunnel.Config.{
  Config, NodeSpec, PortSpec, RawFile, mapping, second, load, load_listed, load_settings,
  max_streams, parse_duration, mapping_pairs, load_nodes, load_node, node_channels, add_node,
  load_ports, load_port, load_port_number, load_port_value, add_port, is_reserved, is_pos, port_of,
  valid_host_port, remote_parts, port_part, in_port_range, node_config, ports_for,
}
use ws_tunnel.Config.Text.{
  atoi, digits_value, unsigned_atoi, positive, negative, split_host_port, split_last, bracket_host,
  split_host, itoa, itoa_digits,
}
use ws_tunnel.Config.Valid.{IsValid, load-IsValid}

-- No duration of the file parses.
abbrev pub no_duration : Str → Option ℤ
no_duration s = none

abbrev pub sample_file : RawFile
sample_file = record {
  listen = codes "a:9";
  status_listen = [];
  settings = record {
    heartbeat = [];
    dial_timeout = [];
    queue_timeout = [];
    max_streams_per_conn = pos 0;
  };
  nodes = mapping ((codes "n", some (record { key = codes "k"; channels = some (pos 2) })) ∷ []);
  ports = mapping ((codes "7", some (record { node = codes "n"; remote = codes "h:1" })) ∷ []);
}

abbrev pub sample_node : NodeSpec
sample_node = record { name = codes "n"; key = codes "k"; channels = 2 }

abbrev pub sample_port : PortSpec
sample_port = record { port = 7; node = codes "n"; remote = codes "h:1" }

abbrev pub sample : Config
sample = record {
  listen = codes "a:9";
  status_listen = [];
  settings = record {
    heartbeat = 15 * second;
    dial_timeout = 10 * second;
    queue_timeout = 5 * second;
    max_streams_per_conn = 256;
  };
  nodes = (codes "n", sample_node) ∷ [];
  node_order = codes "n" ∷ [];
  ports = (7, sample_port) ∷ [];
  port_order = 7 ∷ [];
}

pub sample_loads : load no_duration sample_file ≡ some (sample, [])
unfolding load load_listed load_settings max_streams parse_duration mapping_pairs load_nodes
    load_node node_channels add_node load_ports load_port load_port_number load_port_value add_port
    is_reserved is_pos port_of valid_host_port remote_parts port_part in_port_range str_beq atoi
    digits_value unsigned_atoi positive negative split_host_port split_last bracket_host split_host
    lookup insert
sample_loads = refl

pub sample-IsValid : IsValid sample
sample-IsValid = load-IsValid no_duration sample_file sample [] sample_loads

-- What it pushes to its node.
abbrev pub sample_push : NodeConfig
sample_push = record {
  ports = (codes "7", codes "h:1") ∷ [];
  channels = 2;
  heartbeat = 15 * second;
  dial_timeout = 10 * second;
  max_streams_per_conn = 256;
}

pub sample_pushes : node_config sample (codes "n") ≡ some sample_push
unfolding node_config ports_for lookup insert str_beq itoa itoa_digits
sample_pushes = refl

pub sample_has_node : lookup (codes "n") sample.nodes ≡ some sample_node
unfolding lookup str_beq
sample_has_node = refl

pub sample_has_port : lookup 7 sample.ports ≡ some sample_port
unfolding lookup
sample_has_port = refl

-- The same at another address and with more streams.
abbrev pub other : Config
other = record sample {
  listen = codes "b:9";
  settings = record {
    heartbeat = 15 * second;
    dial_timeout = 10 * second;
    queue_timeout = 5 * second;
    max_streams_per_conn = 300;
  };
}

abbrev other_file : RawFile
other_file = record sample_file {
  listen = codes "b:9";
  settings = record {
    heartbeat = [];
    dial_timeout = [];
    queue_timeout = [];
    max_streams_per_conn = pos 300;
  };
}

other_loads : load no_duration other_file ≡ some (other, [])
unfolding load load_listed load_settings max_streams parse_duration mapping_pairs load_nodes
    load_node node_channels add_node load_ports load_port load_port_number load_port_value add_port
    is_reserved is_pos port_of valid_host_port remote_parts port_part in_port_range str_beq atoi
    digits_value unsigned_atoi positive negative split_host_port split_last bracket_host split_host
    lookup insert
other_loads = refl

pub other-IsValid : IsValid other
other-IsValid = load-IsValid no_duration other_file other [] other_loads
