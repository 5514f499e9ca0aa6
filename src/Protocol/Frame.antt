-- ===== src/Protocol/Frame.antt =====
-- internal/protocol/frame.go: payload frames with an end-of-direction marker. The mutex of
-- `FrameWriter` makes each of its calls one step; `hdr` and `buf` are scratch space.
pub mod Write
pub mod Read
pub mod RoundTrip
pub mod Cut
pub mod Pipe
pub mod Ends
use ws_tunnel.Prelude.{
  ℕ, zero, suc, ◌+◌, ◌-◌, ◌^◌, ◌≡◌, Bool, true, false, ◌||◌, Option, none, some, List, [], ◌∷◌,
  ◌++◌, ltb, nat_beq, if◌then◌else◌, length,
}
use ws_tunnel.Protocol.Io.{
  Error, eof, unexpected_eof, closed_pipe, bad_frame, Result, ok, err, Source, read, read_byte,
  weight,
}
use ws_tunnel.Protocol.Varint.{uvarint, read_uvarint}

abbrev pub frame_data : ℕ
frame_data = 0x00

abbrev pub frame_eof : ℕ
frame_eof = 0x01

abbrev pub max_frame_len : ℕ
max_frame_len = 1048576

pub record FrameWriter (W : Type 0) : Type 0 where
  pub w : W
  pub at_eof : Bool

-- `w.Write` is the transport's: it takes a buffer and answers an error or none.
module _ {W : Type 0} (write : List ℕ → W → Option Error × W) where
  pub new_frame_writer : W → FrameWriter W
  new_frame_writer w = record { w = w; at_eof = false }

  -- `FrameWriter.Write`, with the count of bytes that it reports.
  pub write_frame : List ℕ → FrameWriter W → ℕ × Option Error × FrameWriter W
  write_frame [] f = (0, none, f)
  write_frame (x ∷ p) f =
      let (e, w') = write (frame_data ∷ (uvarint (length (x ∷ p)) ++ (x ∷ p))) f.w in
      let sent : ℕ × Option Error × FrameWriter W = elim e [
        | none ↦ (length (x ∷ p), none, record f { w = w' })
        | some e ↦ (0, some e, record f { w = w' })
      ] in
      if f.at_eof then (0, some closed_pipe, f) else sent

  -- `FrameWriter.CloseWrite`.
  pub close_write : FrameWriter W → Option Error × FrameWriter W
  close_write f =
      let (e, w') = write (frame_eof ∷ []) f.w in
      if f.at_eof then (none, f) else (e, record f { w = w'; at_eof = true })

  -- One `Write` after the other, as `io.Copy` makes them.
  pub write_frames : List (List ℕ) → FrameWriter W → FrameWriter W
  write_frames [] f = f
  write_frames (p ∷ ps) f = write_frames ps (write_frame p f).2

  -- `io.Copy` into a `FrameWriter`: `ps` is what the successive reads of its source answer. It stops
  -- at the first write that fails. The result is the number of bytes written and the writer.
  pub pipe : List (List ℕ) → ℕ → FrameWriter W → ℕ × FrameWriter W
  pipe [] n f = (n, f)
  pipe (p ∷ ps) n f =
      let (k, e, f') = write_frame p f in
      let rest = pipe ps (n + k) f' in elim e [ none ↦ rest | some x ↦ (n + k, f') ]

pub record FrameReader : Type 0 where
  pub r : Source
  pub remain : ℕ
  pub at_eof : Bool

pub new_frame_reader : Source → FrameReader
new_frame_reader src = record { r = src; remain = 0; at_eof = false }

check_length : ℕ → FrameReader → Result ℕ × FrameReader
check_length n f =
    if nat_beq n 0 || ltb max_frame_len n
    then (err bad_frame, f)
    else (ok n, record f { remain = n })

read_length : FrameReader → Result ℕ × FrameReader
unfolding check_length
read_length f =
    let (r, s) = read_uvarint f.r in
    elim r [ err e ↦ (err e, record f { r = s }) | ok n ↦ check_length n (record f { r = s }) ]

-- One round of the loop of `Read`: it returns, or it sets `remain` to a positive length and so
-- ends the loop.
next_frame : FrameReader → Result ℕ × FrameReader
next_frame f =
    let (r, s) = read_byte f.r in
    elim r [
      | err e ↦ (err e, record f { r = s })
      | ok typ ↦
          let len = read_length (record f { r = s }) in
          if nat_beq typ frame_eof
          then (err eof, record f { r = s; at_eof = true })
          else if nat_beq typ frame_data
          then len
          else (err bad_frame, record f { r = s })
    ]

open_frame : FrameReader → Result ℕ × FrameReader
open_frame f = if nat_beq f.remain 0 then next_frame f else (ok f.remain, f)

-- A stream that dies within a frame is no clean end of data.
abbrev cut_error : Option Error → ℕ → Option Error
cut_error (some eof) remain = if ltb 0 remain then some unexpected_eof else some eof
cut_error o remain = o

-- The read from the open frame, into a buffer of `k` bytes.
serve : ℕ → FrameReader → List ℕ × Option Error × FrameReader
serve k f =
    let (bs, e, s) = read (if ltb f.remain k then f.remain else k) f.r in
    let left = f.remain - length bs in (bs, cut_error e left, record f { r = s; remain = left })

-- `FrameReader.Read`.
pub read_frame : ℕ → FrameReader → List ℕ × Option Error × FrameReader
read_frame k f =
    let (r, f') = open_frame f in
    let served : List ℕ × Option Error × FrameReader = elim r [
      | err e ↦ ([], some e, f')
      | ok _ ↦ serve k f'
    ] in
    if f.at_eof then ([], some eof, f) else served

-- `io.Copy` from a `FrameReader` through a buffer of `k` bytes: the bytes copied, the error (an
-- `io.EOF` is none) and the reader. `none` means that the fuel ran out.
pub copy : ℕ → ℕ → FrameReader → List ℕ → Option (List ℕ × Option Error × FrameReader)
copy zero k f acc = none
copy (suc fuel) k f acc =
    let (bs, e, f') = read_frame k f in
    let more = copy fuel k f' (acc ++ bs) in
    elim e [
      | none ↦ more
      | some eof ↦ some (acc ++ bs, none, f')
      | some x ↦ some (acc ++ bs, some x, f')
    ]

-- What `io.Copy` from a stream writes out, through a buffer of `k` bytes.
abbrev pub copied : ℕ → Source → Option (List ℕ)
copied k s = elim (copy (suc (weight s)) k (new_frame_reader s) []) [
  | none ↦ none
  | some (bs, e, g) ↦ some bs
]
