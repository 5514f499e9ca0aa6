-- ===== src/Protocol/Frame/Ends.antt =====
-- Whatever a stream delivers, `io.Copy` from a `FrameReader` over it comes to its end.
use ws_tunnel.Prelude.{
  ℕ, zero, suc, ◌+◌, ◌≤◌, ◌<◌, ◌≡◌, refl, ◌⊎◌, inl, inr, ◌||◌, Option, none, some, List, [], ◌∷◌,
  ◌++◌, arith, ltb, nat_beq, if◌then◌else◌, Bool-cases, Option-cases, ◌^◌, ◌*◌, ◌%◌,
}
use ws_tunnel.Protocol.Io.{
  Error, eof, unexpected_eof, closed_pipe, bad_frame, bad_version, bad_port_id, varint_overflow,
  other, Result, ok, err, Source, fin, last, chunk, read_byte, weight, read-Answers,
}
use ws_tunnel.Protocol.Varint.{read_uvarint, read_uvarint_loop}
use ws_tunnel.Protocol.Frame.{
  FrameReader, frame_data, frame_eof, read_frame, open_frame, next_frame, read_length, check_length,
  serve, copy,
}

weight-read_byte : (s : Source) → weight (read_byte s).1 ≤ weight s
unfolding read_byte
weight-read_byte (fin e) = omega arith
weight-read_byte (last [] e) = omega arith
weight-read_byte (last (b ∷ []) e) = omega arith
weight-read_byte (last (b ∷ (c ∷ bs)) e) = omega arith
weight-read_byte (chunk [] s) = omega (arith, weight-read_byte s)
weight-read_byte (chunk (b ∷ []) s) = omega arith
weight-read_byte (chunk (b ∷ (c ∷ bs)) s) = omega arith

weight-read_uvarint_loop :
    (left i x s : ℕ) (src : Source) → weight (read_uvarint_loop left i x s src).1 ≤ weight src
unfolding read_uvarint_loop
weight-read_uvarint_loop zero i x s src = omega arith
weight-read_uvarint_loop (suc left) i x s src =
    go (read_byte src) refl (weight-read_byte src)
      (λ b t. weight-read_uvarint_loop left (i + 1) (x + b % 128 * 2 ^ s) (s + 7) t)
  where
    go :
        (q : Result ℕ × Source)
        → read_byte src ≡ q
        → weight (read_byte src).1 ≤ weight src
        → ((b : ℕ) (t : Source)
            → weight (read_uvarint_loop left (i + 1) (x + b % 128 * 2 ^ s) (s + 7) t).1 ≤ weight t)
        → weight (read_uvarint_loop (suc left) i x s src).1 ≤ weight src
    go (err e, t) h w ih = ground (arith, h, w)
    go (ok b, t) h w ih = ground (arith, h, w, ih b t)

-- What a call answers at the start of a frame: an error, or an open frame and no more left to read.
abbrev Opened : ℕ → Result ℕ × FrameReader → Type 0
Opened limit q =
    ((e : Error) × (q.0 ≡ err e))
    ⊎ ((n : ℕ) × (q.0 ≡ ok n) × (0 < q.1.remain) × (weight q.1.r ≤ limit))

weight-read_uvarint : (src : Source) → weight (read_uvarint src).1 ≤ weight src
unfolding read_uvarint
weight-read_uvarint src = weight-read_uvarint_loop 10 0 0 0 src

check_length-Opened : (n : ℕ) (f : FrameReader) → Opened (weight f.r) (check_length n f)
unfolding check_length
check_length-Opened n f = elim (Bool-cases (nat_beq n 0 || ltb 1048576 n)) [
  | inl h ↦ rw h (inl (bad_frame, refl))
  | inr h ↦ rw h (inr (n, refl, ground (arith, h), omega arith))
]

widen : (a b : ℕ) (q : Result ℕ × FrameReader) → a ≤ b → Opened a q → Opened b q
widen a b q le (inl e) = inl e
widen a b q le (inr (n, e, r, w)) = inr (n, e, r, omega (arith, w, le))

read_length-Opened : (f : FrameReader) → Opened (weight f.r) (read_length f)
unfolding read_length
read_length-Opened f = go (read_uvarint f.r) refl (weight-read_uvarint f.r)
  where
    go :
        (q : Result ℕ × Source)
        → read_uvarint f.r ≡ q
        → weight (read_uvarint f.r).1 ≤ weight f.r
        → Opened (weight f.r) (read_length f)
    go (err e, t) h w = rw (h, read_length) (inl (e, refl))
    go (ok n, t) h w =
        rw (h, read_length)
          (widen (weight (read_uvarint f.r).1) (weight f.r)
            (check_length n (record f { r = (read_uvarint f.r).1 })) w
            (check_length-Opened n (record f { r = (read_uvarint f.r).1 })))

next_frame-Opened : (f : FrameReader) → Opened (weight f.r) (next_frame f)
unfolding next_frame
next_frame-Opened f = go (read_byte f.r) refl (weight-read_byte f.r)
  where
    go :
        (q : Result ℕ × Source)
        → read_byte f.r ≡ q
        → weight (read_byte f.r).1 ≤ weight f.r
        → Opened (weight f.r) (next_frame f)
    go (err e, t) h w = rw (h, next_frame) (inl (e, refl))
    go (ok typ, t) h w = elim (Bool-cases (nat_beq typ frame_eof)) [
      | inl b ↦ rw (h, next_frame) (rw b (inl (eof, refl)))
      | inr b ↦ elim (Bool-cases (nat_beq typ frame_data)) [
        | inr c ↦ rw (h, next_frame) (rw (b, c) (inl (bad_frame, refl)))
        | inl c ↦
            rw (h, next_frame)
              (rw (b, c)
                (widen (weight (read_byte f.r).1) (weight f.r)
                  (read_length (record f { r = (read_byte f.r).1 })) w
                  (read_length-Opened (record f { r = (read_byte f.r).1 }))))
      ]
    ]

open_frame-Opened : (f : FrameReader) → Opened (weight f.r) (open_frame f)
unfolding open_frame
open_frame-Opened f = elim (Bool-cases (nat_beq f.remain 0)) [
  | inl h ↦ rw h (next_frame-Opened f)
  | inr h ↦ rw h (inr (f.remain, refl, ground (arith, h), omega arith))
]

weight-serve :
    (k : ℕ) (f : FrameReader)
    → 0 < k
    → 0 < f.remain
    → (serve k f).1 ≡ none
    → weight (serve k f).2.r < weight f.r
unfolding serve
weight-serve k f hk hr e =
    let k' = if ltb f.remain k then f.remain else k in
    let (bs, o, t, r, a) = read-Answers k' f.r in
    elim (Option-cases o) [
      | inl z ↦ ground (arith, r, a.quiet z (ground arith))
      | inr (x, z) ↦ ground (arith, r, z, e, a.loud x z)
    ]

weight-read_frame :
    (k : ℕ) (f : FrameReader)
    → 0 < k
    → (read_frame k f).1 ≡ none
    → weight (read_frame k f).2.r < weight f.r
unfolding read_frame
weight-read_frame k f hk e = elim (open_frame-Opened f) [
  | inl (x, h) ↦ ground (arith, h, e)
  | inr (n, h, r, w) ↦ ground (arith, h, e, r, w, weight-serve k (open_frame f).1 hk r)
]

-- What `io.Copy` reports of the error that ends it.
abbrev final : Error → Option Error
final eof = none
final e = some e

copy_stops :
    (fuel k : ℕ) (f : FrameReader) (acc : List ℕ) (e : Error)
    → (read_frame k f).1 ≡ some e
    → copy (suc fuel) k f acc ≡ some (acc ++ (read_frame k f).0, final e, (read_frame k f).2)
unfolding copy
copy_stops fuel k f acc eof h = rw (h, copy) refl
copy_stops fuel k f acc unexpected_eof h = rw (h, copy) refl
copy_stops fuel k f acc closed_pipe h = rw (h, copy) refl
copy_stops fuel k f acc bad_frame h = rw (h, copy) refl
copy_stops fuel k f acc bad_version h = rw (h, copy) refl
copy_stops fuel k f acc bad_port_id h = rw (h, copy) refl
copy_stops fuel k f acc varint_overflow h = rw (h, copy) refl
copy_stops fuel k f acc (other n) h = rw (h, copy) refl

-- Whatever a stream delivers, framed or not, whole or cut: `io.Copy` from a `FrameReader` over it,
-- through a buffer of any positive size and with fuel above the source's weight, comes to its end.
pub copy_ends :
    (fuel k : ℕ) (f : FrameReader) (acc : List ℕ)
    → weight f.r < fuel
    → 0 < k
    → (bs : List ℕ) × (e : Option Error) × (g : FrameReader) × (copy fuel k f acc ≡ some (bs, e, g))
unfolding copy
copy_ends zero k f acc lt hk = absurd (omega arith)
copy_ends (suc fuel) k f acc lt hk = elim (Option-cases (read_frame k f).1) [
  | inl h ↦
      let less = weight-read_frame k f hk h in
      let rest =
        copy_ends fuel k (read_frame k f).2 (acc ++ (read_frame k f).0) (omega (arith, less)) hk in
      rw (h, copy) rest
  | inr (e, h) ↦
      (acc ++ (read_frame k f).0, final e, (read_frame k f).2, copy_stops fuel k f acc e h)
]
