-- ===== src/Protocol/Io.antt =====
-- The readers of internal/protocol: an `io.Reader` as the list of answers that it will give,
-- and `byteReader` of stream.go over it.
use ws_tunnel.Prelude.{
  ℕ, ◌+◌, ◌≤◌, ◌<◌, ◌≡◌, refl, inl, inr, Option, none, some, List, [], ◌∷◌, ◌++◌, arith, leb,
  if◌then◌else◌, length, take, drop, take-append-drop, sym, append-nil, subst, length-take,
  Bool-cases, leb→le, length-drop, length-append, append_assoc,
}

-- The errors of package protocol, those of io that it returns, and `other`: whatever else the
-- transport below it fails with.
pub data Error : Type 0 where
  eof unexpected_eof closed_pipe bad_frame bad_version bad_port_id varint_overflow : Error
  other : ℕ → Error

pub data Result {ℓ} (A : Type ℓ) : Type ℓ where
  ok : A → Result A
  err : Error → Result A

-- What a reader will deliver: `chunk` is the data that is there for one call of `Read`, `last`
-- is data that comes together with the final error, and `fin` is that error alone. A chunk may
-- be empty: `Read` may answer 0 bytes and no error.
pub data Source : Type 0 where
  fin : Error → Source
  last : List ℕ → Error → Source
  chunk : List ℕ → Source → Source

-- One call of `Read` on a buffer of `k` bytes.
unfoldable pub read : ℕ → Source → List ℕ × Option Error × Source
read k (fin e) = ([], some e, fin e)
read k (last bs e) =
    if leb (length bs) k then (bs, some e, fin e) else (take k bs, none, last (drop k bs) e)
read k (chunk bs s) =
    if leb (length bs) k then (bs, none, s) else (take k bs, none, chunk (drop k bs) s)

-- What is left of a chunk after its first byte has been read.
abbrev after_byte : List ℕ → Source → Source
after_byte [] s = s
after_byte (b ∷ bs) s = chunk (b ∷ bs) s

abbrev after_last_byte : List ℕ → Error → Source
after_last_byte [] e = fin e
after_last_byte (b ∷ bs) e = last (b ∷ bs) e

-- `byteReader.ReadByte`: `io.ReadFull` on one byte asks again after an empty answer, and drops
-- an error that comes together with the byte.
unfoldable pub read_byte : Source → Result ℕ × Source
read_byte (fin e) = (err e, fin e)
read_byte (last [] e) = (err e, fin e)
read_byte (last (b ∷ bs) e) = (ok b, after_last_byte bs e)
read_byte (chunk [] s) = read_byte s
read_byte (chunk (b ∷ bs) s) = (ok b, after_byte bs s)

-- The bytes that a source delivers altogether, its final error, and a bound on its answers.
abbrev pub bytes : Source → List ℕ
bytes (fin e) = []
bytes (last bs e) = bs
bytes (chunk bs s) = bs ++ bytes s

abbrev pub ending : Source → Error
ending (fin e) = e
ending (last bs e) = e
ending (chunk bs s) = ending s

abbrev pub weight : Source → ℕ
weight (fin e) = 0
weight (last bs e) = length bs + 1
weight (chunk bs s) = length bs + 1 + weight s

-- `t` is `s` without its first bytes `bs`.
pub record Advances (s : Source) (bs : List ℕ) (t : Source) : Type 0 where
  pub split : bytes s ≡ bs ++ bytes t
  pub same_end : ending s ≡ ending t
  pub used : length bs + weight t ≤ weight s

pub Advances-refl : (s : Source) → Advances s [] s
Advances-refl s = record { split = refl; same_end = refl; used = omega arith }

pub Advances-trans :
    {s t u : Source} (bs cs : List ℕ) → Advances s bs t → Advances t cs u → Advances s (bs ++ cs) u
Advances-trans {s} {t} {u} bs cs a b = record {
  split = ground (arith, a.split, b.split, append_assoc bs cs (bytes u));
  same_end = ground arith;
  used = omega (arith, length-append bs cs);
}

after_byte-Advances :
    (b : ℕ) (bs : List ℕ) (s : Source) → Advances (chunk (b ∷ bs) s) (b ∷ []) (after_byte bs s)
after_byte-Advances b [] s = record { split = refl; same_end = refl; used = omega arith }
after_byte-Advances b (c ∷ bs) s = record { split = refl; same_end = refl; used = omega arith }

after_last_byte-Advances :
    (b : ℕ) (bs : List ℕ) (e : Error) → Advances (last (b ∷ bs) e) (b ∷ []) (after_last_byte bs e)
after_last_byte-Advances b [] e = record { split = refl; same_end = refl; used = omega arith }
after_last_byte-Advances b (c ∷ bs) e = record { split = refl; same_end = refl; used = omega arith }

-- `ReadByte` answers the next byte, whatever the chunks.
pub read_byte_next :
    (s : Source) (b : ℕ) (t : List ℕ)
    → bytes s ≡ b ∷ t
    → (u : Source) × (read_byte s ≡ (ok b, u)) × Advances s (b ∷ []) u × (bytes u ≡ t)
unfolding read_byte
read_byte_next (fin e) b t h = cc
read_byte_next (last [] e) b t h = cc
read_byte_next (last (c ∷ bs) e) b t h =
    let p : c ≡ b = cc in
    let a = after_last_byte-Advances c bs e in
    (
      after_last_byte bs e,
      rw p,
      subst (λ x. Advances (last (c ∷ bs) e) (x ∷ []) (after_last_byte bs e)) p a,
      ground (arith, a.split),
    )
read_byte_next (chunk [] s) b t h =
    let (u, r, a, q) = read_byte_next s b t h in
    (u, r, record { split = a.split; same_end = a.same_end; used = omega (arith, a.used) }, q)
read_byte_next (chunk (c ∷ bs) s) b t h =
    let p : c ≡ b = cc in
    let a = after_byte-Advances c bs s in
    (
      after_byte bs s,
      rw p,
      subst (λ x. Advances (chunk (c ∷ bs) s) (x ∷ []) (after_byte bs s)) p a,
      ground (arith, a.split),
    )

-- With no byte left it answers the source's own error.
pub read_byte_end : (s : Source) → bytes s ≡ [] → read_byte s ≡ (err (ending s), fin (ending s))
unfolding read_byte
read_byte_end (fin e) h = refl
read_byte_end (last [] e) h = refl
read_byte_end (last (b ∷ bs) e) h = cc
read_byte_end (chunk [] s) h = read_byte_end s h
read_byte_end (chunk (b ∷ bs) s) h = cc

-- What one call of `Read` may answer: at most `k` of the next bytes, and an error only as the
-- source's own at its end. A call that reports no error has used something up.
pub record Answers (k : ℕ) (s : Source) (bs : List ℕ) (o : Option Error) (t : Source) : Type 0 where
  pub moved : Advances s bs t
  pub bounded : length bs ≤ k
  pub quiet : o ≡ none → 0 < k → weight t < weight s
  pub loud : (e : Error) → o ≡ some e → (e ≡ ending s) × (bytes t ≡ [])

pub read-Answers :
    (k : ℕ) (s : Source)
    → (bs : List ℕ) × (o : Option Error) × (t : Source) × (read k s ≡ (bs, o, t))
      × Answers k s bs o t
unfolding read
read-Answers k (fin e) = (
  [],
  some e,
  fin e,
  refl,
  record {
    moved = Advances-refl (fin e);
    bounded = omega arith;
    quiet = λ h. cc;
    loud = λ e' h. (cc, refl);
  },
)
read-Answers k (last bs e) = elim (Bool-cases (leb (length bs) k)) [
  | inl h ↦ (
    bs,
    some e,
    fin e,
    rw h,
    record {
      moved = record { split = simp append-nil; same_end = refl; used = omega arith };
      bounded = leb→le _ _ h;
      quiet = λ h. cc;
      loud = λ e' h. (cc, refl);
    },
  )
  | inr h ↦ (
    take k bs,
    none,
    last (drop k bs) e,
    rw h,
    record {
      moved = record {
        split = sym (take-append-drop k bs);
        same_end = refl;
        used = ground (arith, length-take k bs, length-drop k bs);
      };
      bounded = omega (arith, length-take k bs);
      quiet = λ _ p. ground (arith, length-drop k bs);
      loud = λ e' h. cc;
    },
  )
]
read-Answers k (chunk bs s) = elim (Bool-cases (leb (length bs) k)) [
  | inl h ↦ (
    bs,
    none,
    s,
    rw h,
    record {
      moved = record { split = refl; same_end = refl; used = omega arith };
      bounded = leb→le _ _ h;
      quiet = λ _ _. omega arith;
      loud = λ e' h. cc;
    },
  )
  | inr h ↦ (
    take k bs,
    none,
    chunk (drop k bs) s,
    rw h,
    record {
      moved = record {
        split =
            ground (arith, take-append-drop k bs, append_assoc (take k bs) (drop k bs) (bytes s));
        same_end = refl;
        used = ground (arith, length-take k bs, length-drop k bs);
      };
      bounded = omega (arith, length-take k bs);
      quiet = λ _ p. ground (arith, length-drop k bs);
      loud = λ e' h. cc;
    },
  )
]
