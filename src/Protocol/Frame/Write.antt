-- ===== src/Protocol/Frame/Write.antt =====
-- What a `FrameWriter` puts on the wire.
use ws_tunnel.Prelude.{
  ℕ, ◌≡◌, refl, false, Option, none, some, List, [], ◌∷◌, ◌++◌, arith, length, append_assoc,
  append-nil, sym,
}
use ws_tunnel.Protocol.Io.{Error, closed_pipe}
use ws_tunnel.Protocol.Varint.{uvarint}
use ws_tunnel.Protocol.Frame.{
  FrameWriter, new_frame_writer, write_frame, write_frames, close_write, frame_data, frame_eof,
}

-- The format of frame.go: a type byte, the length, the payload. An empty write leaves no frame.
abbrev pub frame : List ℕ → List ℕ
frame [] = []
frame (x ∷ p) = frame_data ∷ (uvarint (length (x ∷ p)) ++ (x ∷ p))

abbrev pub frames : List (List ℕ) → List ℕ
frames [] = []
frames (p ∷ ps) = frame p ++ frames ps

-- A transport that takes every buffer whole, `sent` being all that it took.
abbrev pub Accepts : {W : Type 0} → (List ℕ → W → Option Error × W) → (W → List ℕ) → Type 0
Accepts {W} write sent =
    (bs : List ℕ) (w : W) → ((write bs w).0 ≡ none) × (sent (write bs w).1 ≡ sent w ++ bs)

module _ {W : Type 0} (write : List ℕ → W → Option Error × W) (sent : W → List ℕ)
    (accepts : Accepts write sent) where
  pub write_frame_sent :
      (p : List ℕ) (f : FrameWriter W)
      → f.at_eof ≡ false
      → (sent (write_frame write p f).2.w ≡ sent f.w ++ frame p)
        × ((write_frame write p f).2.at_eof ≡ false)
  unfolding write_frame
  write_frame_sent [] f h = (sym (append-nil _), h)
  write_frame_sent (x ∷ p) f h = ground (arith, accepts (frame (x ∷ p)) f.w)

  pub write_frame_clean :
      (p : List ℕ) (f : FrameWriter W)
      → f.at_eof ≡ false
      → ((write_frame write p f).0 ≡ length p) × ((write_frame write p f).1 ≡ none)
  unfolding write_frame
  write_frame_clean [] f h = (refl, refl)
  write_frame_clean (x ∷ p) f h = ground (arith, accepts (frame (x ∷ p)) f.w)

  pub close_write_once :
      (f : FrameWriter W)
      → f.at_eof ≡ false
      → sent (close_write write f).1.w ≡ sent f.w ++ (frame_eof ∷ [])
  unfolding close_write
  close_write_once f h = ground (arith, accepts (frame_eof ∷ []) f.w)

  pub new_frame_writer_fresh :
      (w : W) → ((new_frame_writer write w).w ≡ w) × ((new_frame_writer write w).at_eof ≡ false)
  unfolding new_frame_writer
  new_frame_writer_fresh w = (refl, refl)

  write_frames_sent :
      (ps : List (List ℕ)) (f : FrameWriter W)
      → f.at_eof ≡ false
      → (sent (write_frames write ps f).w ≡ sent f.w ++ frames ps)
        × ((write_frames write ps f).at_eof ≡ false)
  unfolding write_frames
  write_frames_sent [] f h = (sym (append-nil _), h)
  write_frames_sent (p ∷ ps) f h =
      let (e, h') = write_frame_sent p f h in
      let (e', h'') = write_frames_sent ps (write_frame write p f).2 h' in
      (ground (arith, e, e', append_assoc (sent f.w) (frame p) (frames ps)), h'')

  -- Over a transport that takes every buffer, writing `ps` and then closing puts the frames of
  -- `ps`, the empty writes left out, and one end marker on the wire, behind what was there.
  pub close_write_sent :
      (ps : List (List ℕ)) (w : W)
      → sent (close_write write (write_frames write ps (new_frame_writer write w))).1.w
        ≡ sent w ++ (frames ps ++ (frame_eof ∷ []))
  unfolding close_write new_frame_writer
  close_write_sent ps w =
      let (e, h) = write_frames_sent ps (new_frame_writer write w) refl in
      let f = write_frames write ps (new_frame_writer write w) in
      ground (
        arith,
        accepts (frame_eof ∷ []) f.w,
        e,
        h,
        append_assoc (sent w) (frames ps) (frame_eof ∷ []),
      )

-- After `CloseWrite` a writer is shut for good, also when the transport refused the marker:
-- closing again changes nothing and reports no error, and a `Write` of at least one byte is
-- refused with `io.ErrClosedPipe` and writes nothing.
pub close_write_shut :
    {W : Type 0} (write : List ℕ → W → Option Error × W) (f : FrameWriter W) (x : ℕ) (p : List ℕ)
    → let g = (close_write write f).1 in
      (close_write write g ≡ (none, g)) × (write_frame write (x ∷ p) g ≡ (0, some closed_pipe, g))
unfolding close_write write_frame
close_write_shut write f x p = ground arith
