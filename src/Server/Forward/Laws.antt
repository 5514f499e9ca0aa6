-- ===== src/Server/Forward/Laws.antt =====
-- What `forward` owes on every path, and a connection's way through both ends of the tunnel.
use ws_tunnel.Prelude.{
  ℕ, ◌+◌, ◌<◌, ◌≡◌, refl, inl, inr, Bool, true, false, Option, none, some, List, [], ◌∷◌, ◌++◌,
  arith, if◌then◌else◌, length, append_assoc, is_some, Option-cases, ap, ◌∙◌, All, beq_refl, str_eq,
}
use ws_tunnel.Protocol.Io.{Error, Result, ok, err, Source, bytes, read_byte_next}
use ws_tunnel.Protocol.Header.{
  codes, stream_header, write_stream_header, read_ack, ack_ok, ack_result,
}
use ws_tunnel.Protocol.Frame.{new_frame_writer, pipe, close_write, frame_eof}
use ws_tunnel.Protocol.Frame.Write.{frames, Accepts, close_write_once, new_frame_writer_fresh}
use ws_tunnel.Protocol.Frame.Read.{concat, Fits}
use ws_tunnel.Protocol.Frame.Pipe.{pipe_sent, copied-frames}
use ws_tunnel.Server.Stats.{NodeStats, record_result, outcomes, result-record_result}
use ws_tunnel.Server.Forward.{Forwarded, forward, on_stream, pipelined, acked}

record_result_ok :
    (s : NodeStats) → record_result (codes "ok") s ≡ record s { result_ok = s.result_ok + 1 }
unfolding record_result
record_result_ok s = ground (arith, beq_refl (codes "ok"))

module _ {W : Type 0} (write : List ℕ → W → Option Error × W) (k port : ℕ)
    (ps : List (List ℕ)) where
  acked-outcomes :
      (q : Result ℕ × Source) (r : Forwarded W)
      → (outcomes (acked write k port ps q r).stats ≡ outcomes r.stats + 1)
        × ((acked write k port ps q r).closed_streams ≡ r.closed_streams)
        × ((acked write k port ps q r).w ≡ r.w)
  unfolding acked
  acked-outcomes (err e, st) r = ((result-record_result (codes "timeout") r.stats).1, refl, refl)
  acked-outcomes (ok status, st) r = ground (
    arith,
    (result-record_result (codes "ok") r.stats).1,
    (result-record_result (ack_result status) r.stats).1,
  )

  on_stream-outcomes :
      (st : Source) (w : W) (s : NodeStats)
      → (outcomes (on_stream write k port ps st w s).stats ≡ outcomes s + 1)
        × ((on_stream write k port ps st w s).closed_streams ≡ 1)
  unfolding on_stream pipelined
  on_stream-outcomes st w s = elim (Option-cases (write_stream_header write port w).0) [
    | inr (x, e) ↦ rw (e, on_stream) ((result-record_result (codes "rejected") s).1, refl)
    | inl e ↦
        let w' = (write_stream_header write port w).1 in
        let (n, fw) = pipe write ps 0 (new_frame_writer write w') in
        let r : Forwarded W = record {
          stats = record s { bytes_in = s.bytes_in + n };
          w = (close_write write fw).1.w;
          to_conn = none;
          closed_streams = 1;
        } in
        let (o, c, _) = acked-outcomes (read_ack st) r in rw (e, on_stream) (o, c)
  ]

  -- Every connection that `forward` takes counts exactly one outcome, whatever fails on the way,
  -- and gives a slot back exactly if `OpenStream` gave one.
  pub forward-outcomes :
      (online : Bool) (opened : Option Source) (w : W) (s : NodeStats)
      → let r = forward write k port ps online opened w s in
        (outcomes r.stats ≡ outcomes s + 1)
        × (r.closed_streams ≡ (if online then (if is_some opened then 1 else 0) else 0))
  unfolding forward
  forward-outcomes false opened w s = ((result-record_result (codes "rejected") s).1, refl)
  forward-outcomes true none w s = ((result-record_result (codes "rejected") s).1, refl)
  forward-outcomes true (some st) w s = on_stream-outcomes st w s

module _ {W : Type 0} (write : List ℕ → W → Option Error × W) (sent : W → List ℕ)
    (accepts : Accepts write sent) (k port : ℕ) (ps : List (List ℕ)) where
  -- What is on the books when the ack is awaited.
  abbrev started : W → NodeStats → Forwarded W
  started w s =
      let (n, fw) = pipe write ps 0 (new_frame_writer write w) in
      record {
        stats = record s { bytes_in = s.bytes_in + n };
        w = (close_write write fw).1.w;
        to_conn = none;
        closed_streams = 1;
      }

  on_stream-started :
      (st : Source) (w : W) (s : NodeStats)
      → on_stream write k port ps st w s
        ≡ acked write k port ps (read_ack st) (started (write_stream_header write port w).1 s)
  unfolding on_stream pipelined write_stream_header
  on_stream-started st w s = rw ((accepts (stream_header port) w).0, on_stream) refl

  started_sent :
      (w : W) (s : NodeStats)
      → (sent (started w s).w ≡ sent w ++ (frames ps ++ (frame_eof ∷ [])))
        × ((pipe write ps 0 (new_frame_writer write w)).0 ≡ length (concat ps))
  started_sent w s =
      let (fresh, live) = new_frame_writer_fresh write sent accepts w in
      let (out, live', n) = pipe_sent write sent accepts ps 0 (new_frame_writer write w) live in
      let fw = (pipe write ps 0 (new_frame_writer write w)).1 in
      let shut = close_write_once write sent accepts fw live' in
      (
        shut ∙ ground (arith, out, fresh, append_assoc (sent w) (frames ps) (frame_eof ∷ [])),
        omega (arith, n),
      )

  -- A transport that takes every write is sent the header of the port, the frames of what the
  -- connection delivers and the end marker, whatever the client answers.
  pub forward_sent :
      (st : Source) (w : W) (s : NodeStats)
      → sent (forward write k port ps true (some st) w s).w
        ≡ sent w ++ (stream_header port ++ (frames ps ++ (frame_eof ∷ [])))
  unfolding forward write_stream_header
  forward_sent st w s =
      let w' = (write_stream_header write port w).1 in
      let (out, _) = started_sent w' s in
      let (_, _, kept) = acked-outcomes write k port ps (read_ack st) (started w' s) in
      let header = (accepts (stream_header port) w).1 in
      ap (λ (r : Forwarded W). sent r.w) (on_stream-started st w s)
      ∙ ap sent kept
      ∙ out
      ∙ ap (λ l. l ++ (frames ps ++ (frame_eof ∷ []))) header
      ∙ append_assoc (sent w) (stream_header port) (frames ps ++ (frame_eof ∷ []))

  -- If the stream then delivers the ok ack, the frames of `reply` and the end marker, in any
  -- chunks, the connection is sent exactly the bytes of `reply`, and the statistics count one `ok`
  -- and the bytes of both directions.
  pub forward_ok :
      (st : Source) (w : W) (s : NodeStats) (reply : List (List ℕ)) (rest : List ℕ)
      → 0 < k
      → All Fits reply
      → bytes st ≡ ack_ok ∷ (frames reply ++ (frame_eof ∷ rest))
      → let r = forward write k port ps true (some st) w s in
        (r.to_conn ≡ some (concat reply))
        × (r.stats ≡ record s {
          result_ok = s.result_ok + 1;
          bytes_in = s.bytes_in + length (concat ps);
          bytes_out = s.bytes_out + length (concat reply);
        })
  unfolding forward acked read_ack record_result
  forward_ok st w s reply rest hk fits h =
      let w' = (write_stream_header write port w).1 in
      let (u, e, _, b) = read_byte_next st ack_ok (frames reply ++ (frame_eof ∷ rest)) h in
      let down = copied-frames k u reply rest hk fits b in
      let (_, counted) = started_sent w' s in
      rw (on_stream-started st w s) (
        rw (e, acked)
          (down, rw down (rw (record_result_ok (started w' s).stats) (rw counted refl))))
