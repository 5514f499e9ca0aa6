-- ===== src/Client/Examples.antt =====
-- The theorems on internal/client at a client that holds the sample's configuration.
use ws_tunnel.Prelude.{
  ℕ, suc, ◌*◌, ◌≤◌, ◌≡◌, refl, Bool, true, false, none, some, [], ◌∷◌, ◌++◌, arith, Str, str_eq,
  nat_eq, All,
}
use ws_tunnel.Prelude.Dict.{lookup}
use ws_tunnel.Protocol.Header.{codes, stream_header, ack_port_not_allowed, read_stream_header}
use ws_tunnel.Protocol.Io.{Source, eof, last, ok}
use ws_tunnel.Protocol.Examples.{to_list, same, to_list-Accepts}
use ws_tunnel.Config.{second}
use ws_tunnel.Config.Pushed.{owned}
use ws_tunnel.Config.Sample.{sample, sample_push, sample_pushes, sample-IsValid, sample_has_port}
use ws_tunnel.Client.{Client, handle_stream}
use ws_tunnel.Client.Allow.{Listed, handle_stream-Listed}
use ws_tunnel.Client.Tunnel.{Delivers, handle_stream-Delivers, handle_stream_foreign}
use ws_tunnel.Client.Backoff.{min_backoff, bind_delays, bind_delays-bounds}
use ws_tunnel.Protocol.Frame.{frame_eof}
use ws_tunnel.Protocol.Frame.Write.{frames}

abbrev pub online_client : Client
online_client = record {
  cfg = some sample_push;
  session = codes "s1";
  draining = false;
  active_streams = 0;
  bytes_in = 0;
  bytes_out = 0;
  local_dial_errors = 0;
}

abbrev pub dial_all : Str → ℕ → Bool
dial_all remote timeout = true

-- A stream for port 8, which is nobody's.
abbrev foreign_stream : Source
foreign_stream = last (stream_header 8 ++ []) eof

nobody_has_8 : owned (codes "n") (lookup 8 sample.ports) ≡ none
unfolding lookup
nobody_has_8 = refl

handle_stream_foreign_example :
    let r = handle_stream to_list dial_all 32 [] foreign_stream [] online_client in
    (r.dialed ≡ none)
    × (r.delivered ≡ none)
    × (r.w ≡ [] ++ (ack_port_not_allowed ∷ []))
    × (r.client ≡ online_client)
handle_stream_foreign_example =
    handle_stream_foreign to_list same to_list-Accepts dial_all 32 [] sample sample_push
      foreign_stream [] online_client (codes "n") 8 [] sample-IsValid sample_pushes nobody_has_8
      refl refl (omega arith) (omega arith) refl

-- A stream for port 7 with the frame of one byte.
abbrev stream_7 : Source
stream_7 = last (stream_header 7 ++ (frames ((1 ∷ []) ∷ []) ++ (frame_eof ∷ []))) eof

delivered_7 :
    Delivers same [] []
      (codes "h:1")
      ((1 ∷ []) ∷ [])
      online_client
      (handle_stream to_list dial_all 32 [] stream_7 [] online_client)
delivered_7 =
    handle_stream-Delivers to_list same to_list-Accepts dial_all 32 [] sample sample_push stream_7
      [] online_client (codes "n") 7 _ ((1 ∷ []) ∷ []) [] sample-IsValid sample_pushes
      sample_has_port refl refl refl refl (omega arith) (omega arith, tt) refl

handle_stream-Listed_example :
    (port : ℕ) × (s : Source) × (read_stream_header stream_7 ≡ (ok port, s))
    × (1 ≤ port)
    × (port ≤ 65535)
    × (false ≡ false)
    × Listed (some sample_push) port (codes "h:1")
handle_stream-Listed_example =
    handle_stream-Listed to_list dial_all 32 [] stream_7 [] online_client (codes "h:1")
      delivered_7.0

bind_delays-bounds_example :
    All (λ d. d ≤ 32 * second) (bind_delays 3 min_backoff)
    × (bind_delays (suc 3) (32 * second) ≡ 32 * second ∷ bind_delays 3 (32 * second))
    × (bind_delays 6 min_backoff
        ≡ second ∷ 2 * second ∷ 4 * second ∷ 8 * second ∷ 16 * second ∷ 32 * second ∷ [])
bind_delays-bounds_example = bind_delays-bounds 3
