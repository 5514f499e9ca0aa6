-- ===== src/Protocol/Frame/Read.antt =====
-- What a `FrameReader` makes of the wire.
use ws_tunnel.Prelude.{
  ℕ, zero, suc, ◌-◌, ◌≤◌, ◌<◌, ◌≡◌, ◌≢◌, refl, true, false, Option, none, some, List, [], ◌∷◌, ◌++◌,
  arith, length, length-append, append_assoc, sym, ◌∙◌, ap, All, ltb, if◌then◌else◌,
}
use ws_tunnel.Protocol.Io.{Error, eof, ok, Source, bytes, weight, read-Answers, read_byte_next}
use ws_tunnel.Protocol.Varint.{uvarint, read_uvarint-uvarint}
use ws_tunnel.Protocol.Frame.{
  FrameReader, new_frame_reader, read_frame, copy, serve, open_frame, next_frame, read_length,
  frame_data, frame_eof, max_frame_len,
}
use ws_tunnel.Protocol.Frame.Write.{frame, frames}

abbrev pub concat : List (List ℕ) → List ℕ
concat [] = []
concat (p ∷ ps) = p ++ concat ps

-- A prefix `bs` of `p ++ q` that is no longer than `p` splits `p`.
split_prefix :
    (bs p q r : List ℕ)
    → p ++ q ≡ bs ++ r
    → length bs ≤ length p
    → (p' : List ℕ) × (p ≡ bs ++ p') × (r ≡ p' ++ q)
split_prefix [] p q r h le = (p, refl, sym h)
split_prefix (b ∷ bs) [] q r h le = absurd (omega arith)
split_prefix (b ∷ bs) (x ∷ p) q r h le =
    let (p', e, e') = split_prefix bs p q r (cc) (omega arith) in (p', ground arith, e')

-- The reader stands within a frame of which `p` is left, and `q` follows.
pub record Within (f : FrameReader) (p q : List ℕ) : Type 0 where
  pub live : f.at_eof ≡ false
  pub left : f.remain ≡ length p
  pub ahead : bytes f.r ≡ p ++ q

-- No error comes along while bytes are still to come.
no_error :
    {t : List ℕ} (o : Option Error) (q : List ℕ)
    → ((x : Error) → o ≡ some x → t ≡ [])
    → (p : List ℕ) → t ≡ p ++ q
    → q ≢ []
    → o ≡ none
no_error none q h p e ne = refl
no_error (some x) q h [] e ne = absurd (ne (sym e ∙ h x refl))
no_error (some x) q h (y ∷ p) e ne = cc (h x refl)

serve_step :
    (k : ℕ) (f : FrameReader) (x : ℕ) (p q : List ℕ)
    → 0 < k
    → q ≢ []
    → Within f (x ∷ p) q
    → (bs p' : List ℕ) × (f' : FrameReader) × (serve k f ≡ (bs, none, f'))
      × (x ∷ p ≡ bs ++ p')
      × Within f' p' q
      × (weight f'.r < weight f.r)
unfolding serve
serve_step k f x p q hk ne w =
    let k' = if ltb f.remain k then f.remain else k in
    let (bs, o, t, r, a) = read-Answers k' f.r in
    let short : length bs ≤ length (x ∷ p) = ground (arith, a.bounded, w.left) in
    let (p', e, e') = split_prefix bs (x ∷ p) q (bytes t) (sym w.ahead ∙ a.moved.split) short in
    let quiet = no_error o q (λ x h. (a.loud x h).1) p' e' ne in
    let f' : FrameReader = record { r = t; remain = f.remain - length bs; at_eof = f.at_eof } in
    (
      bs,
      p',
      f',
      ground (arith, r, quiet),
      e,
      record {
        live = w.live;
        left = ground (arith, w.left, ap length e, length-append bs p');
        ahead = e';
      },
      a.quiet quiet (ground (arith, w.left)),
    )

-- One `Read` on a frame that stands open, or has just been opened.
read_step :
    (k : ℕ) (f g : FrameReader) (x : ℕ) (p q : List ℕ) (n : ℕ)
    → 0 < k
    → q ≢ []
    → f.at_eof ≡ false
    → open_frame f ≡ (ok n, g)
    → Within g (x ∷ p) q
    → (bs p' : List ℕ) × (f' : FrameReader) × (read_frame k f ≡ (bs, none, f'))
      × (x ∷ p ≡ bs ++ p')
      × Within f' p' q
      × (weight f'.r < weight g.r)
unfolding read_frame
read_step k f g x p q n hk ne live opened w =
    let (bs, p', f', s, e, w', lt) = serve_step k g x p q hk ne w in
    (bs, p', f', ground (arith, opened, s), e, w', lt)

open-Within :
    (f : FrameReader) (x : ℕ) (p q : List ℕ) → Within f (x ∷ p) q → open_frame f ≡ (ok f.remain, f)
unfolding open_frame
open-Within f x p q w = ground (arith, w.left)

-- Between two frames the next one is opened.
open_next :
    (f : FrameReader) (x : ℕ) (p q : List ℕ)
    → Within f [] (frame (x ∷ p) ++ q)
    → length (x ∷ p) ≤ max_frame_len
    → (g : FrameReader) × (open_frame f ≡ (ok (length (x ∷ p)), g))
      × Within g (x ∷ p) q
      × (weight g.r ≤ weight f.r)
unfolding open_frame next_frame read_length
open_next f x p q w short =
    let n = length (x ∷ p) in
    let (s, r, a, e) = read_byte_next f.r frame_data ((uvarint n ++ (x ∷ p)) ++ q) w.ahead in
    let (t, r', a', e') =
      read_uvarint-uvarint n s ((x ∷ p) ++ q) (omega arith)
        (e ∙ append_assoc (uvarint n) (x ∷ p) q) in
    let g : FrameReader = record { r = t; remain = n; at_eof = f.at_eof } in
    (
      g,
      ground (arith, w.left, r, r'),
      record { live = w.live; left = refl; ahead = e' },
      omega (arith, a.used, a'.used),
    )

-- The end marker.
open_eof :
    (f : FrameReader) (k : ℕ) (rest : List ℕ)
    → Within f [] (frame_eof ∷ rest)
    → (g : FrameReader) × (read_frame k f ≡ ([], some eof, g))
      × (bytes g.r ≡ rest)
      × (g.at_eof ≡ true)
unfolding read_frame open_frame next_frame
open_eof f k rest w =
    let (s, r, a, e) = read_byte_next f.r frame_eof rest w.ahead in
    (record { r = s; remain = f.remain; at_eof = true }, ground (arith, w.live, w.left, r), e, refl)

abbrev pub Fits : List ℕ → Type 0
Fits p = length p ≤ max_frame_len

append-ne-nil : (xs : List ℕ) (y : ℕ) (ys : List ℕ) → xs ++ (y ∷ ys) ≢ []
append-ne-nil [] y ys h = cc
append-ne-nil (x ∷ xs) y ys h = cc

regroup : (bs p' p c : List ℕ) → p ≡ bs ++ p' → bs ++ (p' ++ c) ≡ p ++ c
regroup bs p' p c e = rw (e, append_assoc)

-- One round of `io.Copy` that meets no error.
copy_next :
    (fuel k : ℕ) (f : FrameReader) (acc bs : List ℕ) (f' : FrameReader) (more : List ℕ)
    (g : FrameReader)
    → read_frame k f ≡ (bs, none, f')
    → copy fuel k f' (acc ++ bs) ≡ some ((acc ++ bs) ++ more, none, g)
    → copy (suc fuel) k f acc ≡ some (acc ++ (bs ++ more), none, g)
unfolding copy
copy_next fuel k f acc bs f' more g s r = ground (arith, s, r, append_assoc acc bs more)

-- What remains of the wire is the rest `p` of the open frame, the frames of `ps`, the end marker
-- and `rest`.
copy-frames_open :
    (fuel k : ℕ) (p : List ℕ) (ps : List (List ℕ)) (f : FrameReader) (acc rest : List ℕ)
    → weight f.r < fuel
    → 0 < k
    → All Fits ps
    → Within f p (frames ps ++ (frame_eof ∷ rest))
    → (g : FrameReader) × (copy fuel k f acc ≡ some (acc ++ (p ++ concat ps), none, g))
      × (bytes g.r ≡ rest)
      × (g.at_eof ≡ true)
unfolding copy
copy-frames_open zero k p ps f acc rest lt hk fits w = absurd (omega arith)
copy-frames_open (suc fuel) k (x ∷ p) ps f acc rest lt hk fits w =
    let (bs, p', f', s, e, w', lt') =
      read_step k f f x p _ f.remain hk (append-ne-nil (frames ps) frame_eof rest) w.live
        (open-Within f x p _ w) w in
    let (g, r, e', h) =
      copy-frames_open fuel k p' ps f' (acc ++ bs) rest (omega arith) hk fits w' in
    (
      g,
      copy_next fuel k f acc bs f' (p' ++ concat ps) g s r
          ∙ ap (λ l. some (acc ++ l, none, g)) (regroup bs p' (x ∷ p) (concat ps) e),
      e',
      h,
    )
copy-frames_open (suc fuel) k [] [] f acc rest lt hk fits w =
    let (g, r, e, h) = open_eof f k rest w in (g, ground (arith, r), e, h)
copy-frames_open (suc fuel) k [] ([] ∷ ps) f acc rest lt hk fits w =
    copy-frames_open (suc fuel) k [] ps f acc rest lt hk fits.1 w
copy-frames_open (suc fuel) k [] ((x ∷ p) ∷ ps) f acc rest lt hk fits w =
    let q = frames ps ++ (frame_eof ∷ rest) in
    let (g, opened, wg, le) = open_next f x p q (rw append_assoc at w) fits.0 in
    let (bs, p', f', s, e, w', lt') =
      read_step k f g x p q (length (x ∷ p)) hk (append-ne-nil (frames ps) frame_eof rest) w.live
        opened wg in
    let (g', r, e', h) =
      copy-frames_open fuel k p' ps f' (acc ++ bs) rest (omega arith) hk fits.1 w' in
    (
      g',
      copy_next fuel k f acc bs f' (p' ++ concat ps) g' s r
          ∙ ap (λ l. some (acc ++ l, none, g')) (regroup bs p' (x ∷ p) (concat ps) e),
      e',
      h,
    )

-- Let a source deliver, in any chunks, the frames of `ps`, none longer than 1 MiB, the end marker
-- and then `rest`. Then `io.Copy` through a buffer of any positive size, given fuel above the
-- source's weight, ends without an error, having copied exactly the bytes of `ps`; the reader has
-- met the end marker and left exactly `rest`.
pub copy-frames :
    (fuel k : ℕ) (ps : List (List ℕ)) (src : Source) (rest : List ℕ)
    → weight src < fuel
    → 0 < k
    → All Fits ps
    → bytes src ≡ frames ps ++ (frame_eof ∷ rest)
    → (g : FrameReader) × (copy fuel k (new_frame_reader src) [] ≡ some (concat ps, none, g))
      × (bytes g.r ≡ rest)
      × (g.at_eof ≡ true)
unfolding new_frame_reader
copy-frames fuel k ps src rest lt hk fits h =
    copy-frames_open fuel k [] ps (new_frame_reader src) [] rest lt hk fits
      (record { live = refl; left = refl; ahead = h })
