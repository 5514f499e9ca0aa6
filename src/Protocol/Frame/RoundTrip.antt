-- ===== src/Protocol/Frame/RoundTrip.antt =====
-- The writer and the reader of frame.go, end to end.
use ws_tunnel.Prelude.{
  ℕ, ◌<◌, ◌≡◌, true, Option, none, some, List, [], ◌∷◌, ◌++◌, arith, append_assoc, All,
}
use ws_tunnel.Protocol.Io.{Error, Source, bytes, weight}
use ws_tunnel.Protocol.Frame.{
  FrameReader, new_frame_reader, new_frame_writer, write_frames, close_write, copy, frame_eof,
}
use ws_tunnel.Protocol.Frame.Write.{frames, Accepts, close_write_sent}
use ws_tunnel.Protocol.Frame.Read.{concat, Fits, copy-frames}

-- Take a transport that accepts every buffer (`sent` is all that it took, and it has taken
-- nothing yet), write `ps` in turn, no write longer than 1 MiB, and close. Let a source deliver
-- those bytes, cut into chunks in any way, and then `rest`. Then `io.Copy` from a `FrameReader`
-- over it, through a buffer of any positive size and with fuel above the source's weight, ends
-- without an error, having copied the bytes of `ps` in order; the reader has met the end marker
-- and left exactly `rest`.
pub copy-write_frames :
    {W : Type 0} (write : List ℕ → W → Option Error × W) (sent : W → List ℕ) (w : W)
    (ps : List (List ℕ)) (src : Source) (rest : List ℕ) (fuel k : ℕ)
    → Accepts write sent
    → sent w ≡ []
    → All Fits ps
    → bytes src
      ≡ sent (close_write write (write_frames write ps (new_frame_writer write w))).1.w ++ rest
    → weight src < fuel
    → 0 < k
    → (g : FrameReader) × (copy fuel k (new_frame_reader src) [] ≡ some (concat ps, none, g))
      × (bytes g.r ≡ rest)
      × (g.at_eof ≡ true)
copy-write_frames write sent w ps src rest fuel k accepts fresh fits h lt hk =
    copy-frames fuel k ps src rest lt hk fits (
      ground (
        arith,
        h,
        close_write_sent write sent accepts ps w,
        append_assoc (frames ps) (frame_eof ∷ []) rest,
      ))
