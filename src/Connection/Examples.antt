-- ===== src/Connection/Examples.antt =====
-- A connection to the sample's port, with a request and a reply of a few bytes.
use ws_tunnel.Prelude.{
  ℕ, ◌+◌, ◌≡◌, refl, true, some, List, [], ◌∷◌, ◌++◌, arith, str_eq, nat_eq, sym,
}
use ws_tunnel.Protocol.Header.{codes, stream_header, ack_ok}
use ws_tunnel.Protocol.Io.{Source, eof, last, bytes}
use ws_tunnel.Protocol.Frame.{frame_eof}
use ws_tunnel.Protocol.Frame.Write.{frames}
use ws_tunnel.Protocol.Examples.{to_list, same, to_list-Accepts}
use ws_tunnel.Config.Sample.{
  sample, sample_push, sample_pushes, sample_port, sample-IsValid, sample_has_port,
}
use ws_tunnel.Server.Stats.{no_stats}
use ws_tunnel.Server.Forward.{forward}
use ws_tunnel.Server.Forward.Laws.{forward_sent}
use ws_tunnel.Client.{handle_stream}
use ws_tunnel.Client.Tunnel.{handle_stream-Delivers}
use ws_tunnel.Client.Examples.{online_client, dial_all}
use ws_tunnel.Connection.{forward-handle_stream}

abbrev request : List (List ℕ)
request = (1 ∷ 2 ∷ []) ∷ []

abbrev reply : List (List ℕ)
reply = (3 ∷ []) ∷ (4 ∷ []) ∷ []

abbrev to_client : Source
to_client = last (stream_header 7 ++ (frames request ++ (frame_eof ∷ []))) eof

abbrev to_server : Source
to_server = last (ack_ok ∷ (frames reply ++ (frame_eof ∷ []))) eof

-- What the server writes is what the client's stream delivers, and the other way round.
there : bytes to_client ≡ (forward to_list 32 7 request true (some to_server) [] no_stats).w
there = sym (forward_sent to_list same to_list-Accepts 32 7 request to_server [] no_stats)

back : bytes to_server ≡ (handle_stream to_list dial_all 32 reply to_client [] online_client).w
back =
    sym
      (handle_stream-Delivers to_list same to_list-Accepts dial_all 32 reply sample sample_push
        to_client [] online_client (codes "n") 7 sample_port request [] sample-IsValid sample_pushes
        sample_has_port refl refl refl refl (omega arith) (omega arith, tt) refl).2

forward-handle_stream_example :
    let f = forward to_list 32 7 request true (some to_server) [] no_stats in
    let h = handle_stream to_list dial_all 32 reply to_client [] online_client in
    (h.dialed ≡ some (codes "h:1"))
    × (h.delivered ≡ some (1 ∷ 2 ∷ []))
    × (f.to_conn ≡ some (3 ∷ 4 ∷ []))
    × (f.stats ≡ record no_stats { result_ok = 0 + 1; bytes_in = 0 + 2; bytes_out = 0 + 2 })
forward-handle_stream_example =
    forward-handle_stream to_list same dial_all 32 sample (codes "n") sample_push 7 sample_port
      online_client [] [] no_stats request reply to_client to_server sample-IsValid sample_pushes
      sample_has_port refl refl refl refl to_list-Accepts refl refl (omega arith) (omega arith, tt)
      (omega arith, (omega arith, tt)) there back
