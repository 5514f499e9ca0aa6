-- ===== src/Server/Forward.antt =====
-- `Server.forward` of internal/server/listener.go: one external connection through the tunnel.
-- The external connection and the smux stream are parameters: `ps` is what the successive reads of
-- the connection answer until its copy ends, `st` is what the stream delivers (its read deadline
-- shows as the error that ends it), `write` takes the writes to it.
pub mod Laws
use ws_tunnel.Prelude.{
  ℕ, ◌+◌, ◌≡◌, Bool, true, false, Option, none, some, List, [], ◌∷◌, nat_beq, if◌then◌else◌, length,
  Str, is_some,
}
use ws_tunnel.Protocol.Io.{Error, Result, ok, err, Source}
use ws_tunnel.Protocol.Header.{
  codes, write_stream_header, read_ack, ack_ok, ack_dial_failed, ack_result, ack_reason,
}
use ws_tunnel.Protocol.Frame.{FrameWriter, new_frame_writer, pipe, close_write, copied}
use ws_tunnel.Server.Stats.{NodeStats, record_result}

-- What `forward` did: the node's statistics, the stream's write side, the bytes that the external
-- connection was sent, and how often `CloseStream` gave a slot back.
pub record Forwarded (W : Type 0) : Type 0 where
  pub stats : NodeStats
  pub w : W
  pub to_conn : Option (List ℕ)
  pub closed_streams : ℕ

abbrev pub size : Option (List ℕ) → ℕ
size none = 0
size (some bs) = length bs

-- The statistics after an ack that refuses the stream.
abbrev refused : ℕ → NodeStats → NodeStats
refused status s =
    let s1 = record_result (ack_result status) s in
    let s2 =
      if nat_beq status ack_dial_failed
      then record s1 { local_dial_errors = s1.local_dial_errors + 1 }
      else s1 in
    record s2 { last_error = ack_reason status }

module _ {W : Type 0} (write : List ℕ → W → Option Error × W) (k port : ℕ)
    (ps : List (List ℕ)) where
  -- After the ack was awaited.
  acked : Result ℕ × Source → Forwarded W → Forwarded W
  acked (err e, st) r = record r { stats = record_result (codes "timeout") r.stats }
  acked (ok status, st) r =
      let down = copied k st in
      let s = record_result (codes "ok") r.stats in
      if nat_beq status ack_ok
      then record r { stats = record s { bytes_out = s.bytes_out + size down }; to_conn = down }
      else record r { stats = refused status r.stats }

  -- The goroutine that pipelines the external bytes, beside the wait for the ack.
  pipelined : Source → W → NodeStats → Forwarded W
  unfolding acked
  pipelined st w s =
      let (n, fw) = pipe write ps 0 (new_frame_writer write w) in
      acked (read_ack st) (record {
        stats = record s { bytes_in = s.bytes_in + n };
        w = (close_write write fw).1.w;
        to_conn = none;
        closed_streams = 1;
      })

  -- With an open stream.
  on_stream : Source → W → NodeStats → Forwarded W
  unfolding pipelined
  on_stream st w s =
      let (e, w') = write_stream_header write port w in
      let sent = pipelined st w' s in
      elim e [
        | none ↦ sent
        | some x ↦ record {
          stats = record_result (codes "rejected") s;
          w = w';
          to_conn = none;
          closed_streams = 1;
        }
      ]

  -- `forward`: `online` is whether the registry has the node's session, `opened` is what
  -- `OpenStream` answers, none being its error.
  pub forward : Bool → Option Source → W → NodeStats → Forwarded W
  unfolding on_stream
  forward online opened w s =
      let dropped : Forwarded W = record {
        stats = record_result (codes "rejected") s;
        w = w;
        to_conn = none;
        closed_streams = 0;
      } in
      if online then (elim opened [ none ↦ dropped | some st ↦ on_stream st w s ]) else dropped
