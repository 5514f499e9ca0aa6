-- ===== src/Server/Session/Waiters.antt =====
-- What `receive` and `abandon` of internal/server/registry.go do to the books of a session.
use ws_tunnel.Prelude.{
  ℕ, suc, ◌<◌, ◌≡◌, refl, inl, inr, Option, none, some, List, [], ◌∷◌, nat_beq, arith, Bool-cases,
  ap, nat_eq, length,
}
use ws_tunnel.Prelude.Dict.{lookup}
use ws_tunnel.Server.Session.{NodeSession, abandon, receive, remove_first, remove_ready}
use ws_tunnel.Server.Session.Order.{keys}
use ws_tunnel.Server.Session.Balance.{count, slots, Balanced, Queued}

-- `remove_first` takes one occurrence out.
pub record Taken (a : ℕ) (xs ys : List ℕ) : Type 0 where
  pub others : (b : ℕ) → count b xs ≡ count b (a ∷ ys)
  pub shorter : length xs ≡ suc (length ys)

pub remove_first-Taken : (a : ℕ) (xs : List ℕ) → 0 < count a xs → Taken a xs (remove_first a xs)
unfolding remove_first
remove_first-Taken a [] h = absurd (omega arith)
remove_first-Taken a (x ∷ xs) h = elim (Bool-cases (nat_beq x a)) [
  | inl e ↦ rw e (record { others = λ b. ground (arith, e); shorter = refl })
  | inr e ↦
      let t = remove_first-Taken a xs (rw e at h) in
      rw e (record { others = λ b. ground (arith, t.others b); shorter = ap suc t.shorter })
]

-- Taking a slot out of the `ready` buffers.
record Unready (w p : ℕ) (r s : List (ℕ × ℕ)) : Type 0 where
  slots_of : (q : ℕ) → count q (slots r) ≡ count q (p ∷ slots s)
  keys_of : (v : ℕ) → count v (keys r) ≡ count v (w ∷ keys s)
  shorter : length r ≡ suc (length s)

remove_ready-Unready :
    (w p : ℕ) (r : List (ℕ × ℕ)) → lookup w r ≡ some p → Unready w p r (remove_ready w r)
unfolding remove_ready lookup
remove_ready-Unready w p [] e = cc
remove_ready-Unready w p ((v, q) ∷ r) e = elim (Bool-cases (nat_beq v w)) [
  | inl h ↦ rw h (record {
    slots_of = λ x. ground (arith, h, e);
    keys_of = λ x. ground (arith, h);
    shorter = refl;
  })
  | inr h ↦
      let u = remove_ready-Unready w p r (rw h at e) in
      rw h (record {
        slots_of = λ x. ground (arith, u.slots_of x);
        keys_of = λ x. ground (arith, u.keys_of x);
        shorter = ap suc u.shorter;
      })
]

lookup-keys : (w : ℕ) (r : List (ℕ × ℕ)) → lookup w r ≡ none → count w (keys r) ≡ 0
unfolding lookup
lookup-keys w [] e = refl
lookup-keys w ((v, q) ∷ r) e = ground (arith, lookup-keys w r)

-- A waiter takes the slot that it was handed: its request holds it from now on.
take_ready :
    (held waiting : List ℕ) (w p : ℕ) (n : NodeSession)
    → Balanced held n
    → Queued waiting n
    → 0 < count w waiting
    → lookup w n.ready ≡ some p
    → let m : NodeSession = record n { ready = remove_ready w n.ready } in
      Balanced (p ∷ held) m × Queued (remove_first w waiting) m
take_ready held waiting w p n b q h e =
    let u = remove_ready-Unready w p n.ready e in
    let t = remove_first-Taken w waiting h in
    (
      record {
        per_channel = λ x. ground (arith, b.per_channel x, u.slots_of x);
        total = omega (arith, b.total, u.shorter);
      },
      record {
        each = λ v. ground (arith, q.each v, t.others v, u.keys_of v);
        all = omega (arith, q.all, t.shorter, u.shorter);
      },
    )

lookup_of_receive :
    (w p : ℕ) (n : NodeSession) → (receive w n).0 ≡ some p → lookup w n.ready ≡ some p
unfolding receive
lookup_of_receive w p n e = ground arith

lookup_of_abandon :
    (w : ℕ) (n : NodeSession) (o : Option ℕ) → (abandon w n).0 ≡ o → lookup w n.ready ≡ o
unfolding abandon
lookup_of_abandon w n o e = ground arith

pub receive-books :
    (held waiting : List ℕ) (w p : ℕ) (n : NodeSession)
    → Balanced held n
    → Queued waiting n
    → 0 < count w waiting
    → (receive w n).0 ≡ some p
    → Balanced (p ∷ held) (receive w n).1 × Queued (remove_first w waiting) (receive w n).1
unfolding receive
receive-books held waiting w p n b q h e =
    let l = lookup_of_receive w p n e in rw (l, receive) (take_ready held waiting w p n b q h l)

-- `abandon` on a waiter that was handed a slot: the slot is kept, not lost.
pub abandon_keeps :
    (held waiting : List ℕ) (w p : ℕ) (n : NodeSession)
    → Balanced held n
    → Queued waiting n
    → 0 < count w waiting
    → (abandon w n).0 ≡ some p
    → Balanced (p ∷ held) (abandon w n).1 × Queued (remove_first w waiting) (abandon w n).1
unfolding abandon
abandon_keeps held waiting w p n b q h e =
    let l = lookup_of_abandon w n (some p) e in
    rw (l, abandon) (take_ready held waiting w p n b q h l)

-- `abandon` on a waiter that was not: it leaves the queue.
pub abandon_leaves :
    (held waiting : List ℕ) (w : ℕ) (n : NodeSession)
    → Balanced held n
    → Queued waiting n
    → 0 < count w waiting
    → (abandon w n).0 ≡ none
    → Balanced held (abandon w n).1 × Queued (remove_first w waiting) (abandon w n).1
unfolding abandon
abandon_leaves held waiting w n b q h e =
    let l = lookup_of_abandon w n none e in
    let t = remove_first-Taken w waiting h in
    let t' = remove_first-Taken w n.waiters (omega (arith, q.each w, lookup-keys w n.ready l)) in
    rw (l, abandon)
      (
        record { per_channel = b.per_channel; total = b.total },
        record {
          each = λ v. ground (arith, q.each v, t.others v, t'.others v);
          all = omega (arith, q.all, t.shorter, t'.shorter);
        },
      )
