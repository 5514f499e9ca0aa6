-- ===== src/Server/Status/Examples.antt =====
-- The theorems on /status and /metrics at concrete values.
use ws_tunnel.Prelude.{◌↔◌, List, ◌≡◌, false, ◌&&◌, not, some, All, [], ◌∷◌, ◌++◌, str_eq, is_some}
use ws_tunnel.Prelude.Dict.{lookup}
use ws_tunnel.Prelude.Sets.{contains, sort}
use ws_tunnel.Protocol.Header.{codes}
use ws_tunnel.Server.Registry.{get}
use ws_tunnel.Server.Plane.Sample.{sample_joined, sample_cfg-IsValid}
use ws_tunnel.Config.Diff.{str_le}
use ws_tunnel.Server.Status.{build_status}
use ws_tunnel.Server.Status.Nodes.{names, passes, build_status_nodes}
use ws_tunnel.Server.Metrics.{Emission, counter, emit_all, handle_metrics, escape_label}
use ws_tunnel.Server.Metrics.Labels.{read_value, read_value-escape_label}
use ws_tunnel.Server.Metrics.Typed.{IsClean, Fits, calls, table, handle_metrics-IsClean}

build_status_nodes_example :
    let doc = (build_status [] sample_joined).0 in
    let configured = is_some (lookup (codes "n") sample_joined.cfg.nodes) in
    (contains (codes "n") (names doc.nodes)
      ≡ (configured && passes [] (codes "n") && is_some (get (codes "n") sample_joined.registry)))
    × (contains (codes "n") (names doc.offline_nodes) ≡ (
        configured
        && passes [] (codes "n")
        && not (is_some (get (codes "n") sample_joined.registry))))
build_status_nodes_example = build_status_nodes [] (codes "n") sample_joined sample_cfg-IsValid

-- A gauge that is given as a counter.
abbrev wrong_call : List Emission
wrong_call = counter (codes "tunnel_node_up") [] 1 ∷ []

handle_metrics-IsClean_example :
    let es = calls (sort str_le sample_joined.cfg.node_order) sample_joined in
    (handle_metrics sample_joined ≡ emit_all es table)
    × All Fits es
    × All IsClean (handle_metrics sample_joined).lines
    × (All IsClean (emit_all wrong_call table).lines ↔ All Fits wrong_call)
handle_metrics-IsClean_example = handle_metrics-IsClean sample_joined wrong_call

read_value-escape_label_example :
    read_value false (escape_label (codes "a\"b") ++ (34 ∷ codes "}"))
    ≡ some (codes "a\"b", codes "}")
read_value-escape_label_example = read_value-escape_label (codes "a\"b") (codes "}")
