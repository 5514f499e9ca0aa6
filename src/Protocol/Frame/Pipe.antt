-- ===== src/Protocol/Frame/Pipe.antt =====
-- `io.Copy` into a `FrameWriter` and out of a `FrameReader`.
use ws_tunnel.Prelude.{
  ℕ, suc, ◌+◌, ◌<◌, ◌≡◌, false, Option, some, List, [], ◌∷◌, ◌++◌, arith, length, length-append,
  append_assoc, append-nil, sym, ap, ◌∙◌, All,
}
use ws_tunnel.Protocol.Io.{Error, Source, bytes, weight}
use ws_tunnel.Protocol.Frame.{FrameWriter, write_frame, pipe, frame_eof, copied}
use ws_tunnel.Protocol.Frame.Write.{frame, frames, Accepts, write_frame_sent, write_frame_clean}
use ws_tunnel.Protocol.Frame.Read.{concat, Fits, copy-frames}

pub copied-frames :
    (k : ℕ) (s : Source) (ps : List (List ℕ)) (rest : List ℕ)
    → 0 < k
    → All Fits ps
    → bytes s ≡ frames ps ++ (frame_eof ∷ rest)
    → copied k s ≡ some (concat ps)
copied-frames k s ps rest hk fits h =
    let (g, e, _, _) = copy-frames (suc (weight s)) k ps s rest (omega arith) hk fits h in
    ground (arith, e)

module _ {W : Type 0} (write : List ℕ → W → Option Error × W) (sent : W → List ℕ)
    (accepts : Accepts write sent) where
  pub pipe_sent :
      (ps : List (List ℕ)) (n : ℕ) (f : FrameWriter W)
      → f.at_eof ≡ false
      → (sent (pipe write ps n f).1.w ≡ sent f.w ++ frames ps)
        × ((pipe write ps n f).1.at_eof ≡ false)
        × ((pipe write ps n f).0 ≡ n + length (concat ps))
  unfolding pipe
  pipe_sent [] n f h = (sym (append-nil _), h, omega arith)
  pipe_sent (p ∷ ps) n f h =
      let (k, clean) = write_frame_clean write sent accepts p f h in
      let (e, live) = write_frame_sent write sent accepts p f h in
      let g = (write_frame write p f).2 in
      let (e', live', k') = pipe_sent ps (n + (write_frame write p f).0) g live in
      rw (clean, pipe)
        (
          e' ∙ ap (λ l. l ++ frames ps) e ∙ append_assoc (sent f.w) (frame p) (frames ps),
          live',
          omega (arith, k', k, length-append p (concat ps)),
        )
