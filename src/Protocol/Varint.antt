-- ===== src/Protocol/Varint.antt =====
-- The two functions of Go's encoding/binary that internal/protocol calls.
use ws_tunnel.Prelude.{
  ℕ, zero, suc, ◌+◌, ◌*◌, ◌/◌, ◌%◌, ◌^◌, ◌≤◌, ◌<◌, ◌≡◌, inl, inr, List, [], ◌∷◌, ◌++◌, arith, ltb,
  if◌then◌else◌, length, ap, nat_beq, ◌&&◌, Bool-cases, ltb→lt,
}
use ws_tunnel.Protocol.Io.{
  Error, eof, unexpected_eof, varint_overflow, Result, ok, err, Source, read_byte, bytes, ending,
  Advances, Advances-trans, read_byte_next, read_byte_end, fin,
}
use native.Mathlib.Nat.{div-add-mod}
use native.Mathlib.Numerals.{towards_suc}

-- `AppendUvarint`, `PutUvarint`: groups of seven bits, lowest first, with the top bit set on all
-- but the last. A uint64 takes ten groups at most, which is the fuel.
unfoldable pub uvarint_groups : ℕ → ℕ → List ℕ
uvarint_groups zero x = x ∷ []
uvarint_groups (suc k) x =
    let rest = uvarint_groups k (x / 128) in if ltb x 128 then x ∷ [] else (x % 128 + 128) ∷ rest

unfoldable pub uvarint : ℕ → List ℕ
uvarint x = uvarint_groups 9 x

-- An error of the first byte is passed on; a later end of input is unexpected.
unfoldable pub late_error : ℕ → Error → Error
late_error zero e = e
late_error (suc i) eof = unexpected_eof
late_error (suc i) e = e

-- One round of `ReadUvarint`: `i` rounds are over, `x` is read and `s` is the shift. The groups do
-- not overlap, so `|` is a sum, and it stays below 2^64.
unfoldable pub read_uvarint_loop : ℕ → ℕ → ℕ → ℕ → Source → Result ℕ × Source
read_uvarint_loop zero i x s src = (err varint_overflow, src)
read_uvarint_loop (suc left) i x s src =
    let (r, src') = read_byte src in
    elim r [
      | err e ↦ (err (late_error i e), src')
      | ok b ↦
          let more = read_uvarint_loop left (i + 1) (x + b % 128 * 2 ^ s) (s + 7) src' in
          if ltb b 128
          then (if nat_beq i 9 && ltb 1 b
              then (err varint_overflow, src')
              else (ok (x + b * 2 ^ s), src'))
          else more
    ]

unfoldable pub read_uvarint : Source → Result ℕ × Source
read_uvarint src = read_uvarint_loop 10 0 0 0 src

shift_seven : (s : ℕ) → 2 ^ (s + 7) ≡ 128 * 2 ^ s
shift_seven s = simp towards_suc (omega arith)

-- The lowest group of `x` and the rest, both shifted by `s`.
split_group : (x s : ℕ) → x * 2 ^ s ≡ x % 128 * 2 ^ s + x / 128 * 2 ^ (s + 7)
split_group x s = omega (
  arith,
  ap (λ (t : ℕ). t * 2 ^ s) (div-add-mod x 128),
  ap (λ (t : ℕ). x / 128 * t) (shift_seven s),
)

abbrev pub Reads : (Source → Result ℕ × Source) → ℕ → Source → List ℕ → List ℕ → Type 0
Reads f x src front t = (u : Source) × (f src ≡ (ok x, u)) × Advances src front u × (bytes u ≡ t)

last_round :
    (left i acc s w : ℕ) (src : Source) (t : List ℕ)
    → bytes src ≡ w ∷ t
    → w < 128
    → ((i ≡ 9) → w < 2)
    → Reads (read_uvarint_loop (suc left) i acc s) (acc + w * 2 ^ s) src (w ∷ []) t
unfolding read_uvarint_loop
last_round left i acc s w src t h small top =
    let (u, r, a, q) = read_byte_next src w t h in (u, ground (arith, r), a, q)

inner_round :
    (left i acc s g : ℕ) (src : Source) (t : List ℕ)
    → bytes src ≡ (g + 128) ∷ t
    → g < 128
    → (u : Source) × (read_uvarint_loop (suc left) i acc s src
        ≡ read_uvarint_loop left (i + 1) (acc + g * 2 ^ s) (s + 7) u)
      × Advances src ((g + 128) ∷ []) u
      × (bytes u ≡ t)
unfolding read_uvarint_loop
inner_round left i acc s g src t h small =
    let (u, r, a, q) = read_byte_next src (g + 128) t h in
    let e : (g + 128) % 128 ≡ g = omega arith in (u, ground (arith, r, e), a, q)

read_uvarint_loop-groups :
    (k i acc s x : ℕ) (src : Source) (t : List ℕ)
    → i + k ≡ 9
    → x < 2 * 128 ^ k
    → bytes src ≡ uvarint_groups k x ++ t
    → Reads (read_uvarint_loop (suc k) i acc s) (acc + x * 2 ^ s) src (uvarint_groups k x) t
unfolding uvarint_groups
read_uvarint_loop-groups zero i acc s x src t hi hx h =
    last_round zero i acc s x src t h (omega arith) (λ _. omega arith)
read_uvarint_loop-groups (suc k) i acc s x src t hi hx h = elim (Bool-cases (ltb x 128)) [
  | inl small ↦ rw small (
      last_round (suc k) i acc s x src t (rw small at h) (ltb→lt _ _ small)
        (λ e. absurd (omega arith)))
  | inr big ↦
      let (u, r, a, q) =
        inner_round (suc k) i acc s (x % 128) src (uvarint_groups k (x / 128) ++ t) (rw big at h)
          (omega arith) in
      let (v, r', a', q') =
        read_uvarint_loop-groups k (i + 1) (acc + x % 128 * 2 ^ s) (s + 7) (x / 128) u t
          (omega arith) (ground arith) q in
      rw big (v, rw (r, r', split_group x s) (ground arith), Advances-trans _ _ a a', q')
]

-- `ReadUvarint` reads back what `AppendUvarint` wrote of a uint64, from any chunks, and leaves
-- exactly what follows.
pub read_uvarint-uvarint :
    (x : ℕ) (src : Source) (t : List ℕ)
    → x < 2 ^ 64
    → bytes src ≡ uvarint x ++ t
    → Reads read_uvarint x src (uvarint x) t
unfolding uvarint read_uvarint
read_uvarint-uvarint x src t hx h =
    let (u, r, a, q) = read_uvarint_loop-groups 9 0 0 0 x src t (omega arith) (omega arith) h in
    (u, ground (arith, r), a, q)

-- With no byte there it answers the source's own error.
pub read_uvarint_end :
    (src : Source) → bytes src ≡ [] → read_uvarint src ≡ (err (ending src), fin (ending src))
unfolding read_uvarint read_uvarint_loop late_error
read_uvarint_end src h = ground (arith, read_byte_end src h)

pub length-uvarint : (x : ℕ) → 1 ≤ length (uvarint x)
unfolding uvarint uvarint_groups
length-uvarint x = ground arith
