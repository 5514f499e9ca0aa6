-- ===== src/Protocol/Frame/Cut.antt =====
-- Streams that end too early.
use ws_tunnel.Prelude.{
  ℕ, zero, suc, ◌-◌, ◌<◌, ◌≡◌, refl, ◌⊎◌, inl, inr, false, Option, none, some, List, [], ◌∷◌, ◌++◌,
  arith, length, length-append, append_assoc, append-nil, ap, Option-cases, sym, ◌∙◌, ltb,
  if◌then◌else◌,
}
use ws_tunnel.Protocol.Io.{
  Error, eof, unexpected_eof, fin, Source, bytes, ending, weight, read-Answers, read_byte_next,
}
use ws_tunnel.Protocol.Varint.{read_uvarint_end}
use ws_tunnel.Protocol.Frame.{
  FrameReader, new_frame_reader, read_frame, copy, serve, open_frame, next_frame, read_length,
  frame_data,
}

-- The open frame still wants more bytes than the stream has, and the stream then just ends.
pub record IsCut (f : FrameReader) : Type 0 where
  pub live : f.at_eof ≡ false
  pub short : length (bytes f.r) < f.remain
  pub ends : ending f.r ≡ eof

-- One `Read`: data and the same situation, or the error.
abbrev CutRead : ℕ → FrameReader → Type 0
CutRead k f =
    (bs : List ℕ) × (o : Option Error) × (g : FrameReader) × (read_frame k f ≡ (bs, o, g))
    × (bytes f.r ≡ bs ++ bytes g.r)
    × ((((o ≡ none) × IsCut g × (weight g.r < weight f.r)))
        ⊎ (((o ≡ some unexpected_eof) × (bytes g.r ≡ []))))

cut_read : (k : ℕ) (f : FrameReader) → 0 < k → IsCut f → CutRead k f
unfolding read_frame open_frame serve
cut_read k f hk c =
    let k' = if ltb f.remain k then f.remain else k in
    let (bs, o, t, r, a) = read-Answers k' f.r in
    let total = ap length a.moved.split ∙ length-append bs (bytes t) in
    elim (Option-cases o) [
      | inl e ↦ (
        bs,
        none,
        record { r = t; remain = f.remain - length bs; at_eof = f.at_eof },
        ground (arith, c.live, c.short, r, e),
        a.moved.split,
        inl (
          refl,
          record {
            live = c.live;
            short = omega (arith, c.short, total);
            ends = sym a.moved.same_end ∙ c.ends;
          },
          a.quiet e (ground (arith, c.short)),
        ),
      )
      | inr (x, e) ↦
          let (q, z) = a.loud x e in
          (
            bs,
            some unexpected_eof,
            record { r = t; remain = f.remain - length bs; at_eof = f.at_eof },
            ground (arith, c.live, c.short, r, e, q, c.ends, total, z),
            a.moved.split,
            inr (refl, z),
          )
    ]

-- A stream that ends cleanly while a frame is open is reported: `io.Copy` through a buffer of any
-- positive size, with fuel above the source's weight, copies what there was and ends with
-- `io.ErrUnexpectedEOF`, never as if the data had ended.
pub copy_cut :
    (fuel k : ℕ) (f : FrameReader) (acc : List ℕ)
    → weight f.r < fuel
    → 0 < k
    → IsCut f
    → (g : FrameReader) × (copy fuel k f acc ≡ some (acc ++ bytes f.r, some unexpected_eof, g))
unfolding copy
copy_cut zero k f acc lt hk c = absurd (omega arith)
copy_cut (suc fuel) k f acc lt hk c =
    let (bs, o, g, r, e, cases) = cut_read k f hk c in
    elim cases [
      | inl (h, c', lt') ↦
          let (g', r') = copy_cut fuel k g (acc ++ bs) (omega arith) hk c' in
          (g', ground (arith, r, h, r', e, append_assoc acc bs (bytes g.r)))
      | inr (h, z) ↦ (g, ground (arith, r, h, e, z, append-nil bs))
    ]

-- A stream that ends cleanly right after the type byte of a data frame, in any chunks, is
-- taken for the clean end of the data: `io.Copy` ends with no error, though no end marker came
-- (the reader's `eof` stays unset).
pub copy_cut_after_type :
    (fuel k : ℕ) (src : Source)
    → bytes src ≡ frame_data ∷ []
    → ending src ≡ eof
    → (g : FrameReader) × (copy (suc fuel) k (new_frame_reader src) [] ≡ some ([], none, g))
      × (g.at_eof ≡ false)
unfolding copy read_frame open_frame next_frame read_length new_frame_reader
copy_cut_after_type fuel k src h he =
    let (s, r, a, e) = read_byte_next src frame_data [] h in
    (
      record (new_frame_reader src) { r = fin eof },
      ground (arith, r, read_uvarint_end s e, a.same_end, he),
      refl,
    )
