-- ===== src/Server/Session/Balance.antt =====
-- The books of a session: every slot counted as active is held by a request or stands in the
-- `ready` buffer of a waiter, and every waiter stands once in the queue or was handed a slot.
use ws_tunnel.Prelude.{
  ℕ, suc, ◌+◌, ◌≡◌, refl, inl, inr, List, [], ◌∷◌, ◌++◌, nat_beq, if◌then◌else◌, arith, ap, nat_eq,
  length, length-append,
}
use ws_tunnel.Server.Session.{NodeSession, book, handoff_loop, handoff, park, unbook, release}
use ws_tunnel.Server.Session.Reserve.{reserve-Reserved}
use ws_tunnel.Server.Session.Order.{keys, handoff-Served}

abbrev pub count : ℕ → List ℕ → ℕ
count a [] = 0
count a (x ∷ xs) = let rest = count a xs in if nat_beq x a then suc rest else rest

abbrev pub slots : List (ℕ × ℕ) → List ℕ
slots [] = []
slots ((w, p) ∷ r) = p ∷ slots r

pub count-append : (c : ℕ) (ps qs : List ℕ) → count c (ps ++ qs) ≡ count c ps + count c qs
count-append c [] qs = omega arith
count-append c (x ∷ ps) qs = ground (arith, count-append c ps qs)

pub keys-append : (r s : List (ℕ × ℕ)) → keys (r ++ s) ≡ keys r ++ keys s
keys-append [] s = refl
keys-append ((w, p) ∷ r) s = ap (◌∷◌ w) (keys-append r s)

slots-append : (r s : List (ℕ × ℕ)) → slots (r ++ s) ≡ slots r ++ slots s
slots-append [] s = refl
slots-append ((w, p) ∷ r) s = ap (◌∷◌ p) (slots-append r s)

pub length-keys : (r : List (ℕ × ℕ)) → length (keys r) ≡ length r
length-keys [] = refl
length-keys ((w, p) ∷ r) = ap suc (length-keys r)

-- `held` lists, with repetitions, the channels that requests hold a slot of.
pub record Balanced (held : List ℕ) (n : NodeSession) : Type 0 where
  pub per_channel : (p : ℕ) → (n.heap p).active ≡ count p held + count p (slots n.ready)
  pub total : n.active_streams ≡ length held + length n.ready

-- `waiting` lists the waiters whose requests are parked.
pub record Queued (waiting : List ℕ) (n : NodeSession) : Type 0 where
  pub each : (w : ℕ) → count w waiting ≡ count w n.waiters + count w (keys n.ready)
  pub all : length waiting ≡ length n.waiters + length n.ready

pub book-Balanced :
    (held : List ℕ) (p : ℕ) (n : NodeSession) → Balanced held n → Balanced (p ∷ held) (book p n)
book-Balanced held p n b = record {
  per_channel = λ q. ground (arith, b.per_channel q, b.per_channel p);
  total = omega (arith, b.total);
}

hand-Balanced :
    (held : List ℕ) (w p : ℕ) (n : NodeSession)
    → Balanced (p ∷ held) n
    → Balanced held (record n { ready = n.ready ++ ((w, p) ∷ []) })
hand-Balanced held w p n b = record {
  per_channel = λ q. ground (
    arith,
    b.per_channel q,
    slots-append n.ready ((w, p) ∷ []),
    count-append q (slots n.ready) (p ∷ []),
  );
  total = omega (arith, b.total, length-append n.ready ((w, p) ∷ []));
}

handoff_loop-Balanced :
    (ws held : List ℕ) (n : NodeSession) → Balanced held n → Balanced held (handoff_loop ws n)
unfolding handoff_loop
handoff_loop-Balanced [] held n b = record { per_channel = b.per_channel; total = b.total }
handoff_loop-Balanced (w ∷ ws) held n b = elim (reserve-Reserved n) [
  | inl (full, e) ↦ rw (e, handoff_loop) (record { per_channel = b.per_channel; total = b.total })
  | inr (p, e, u, f, l) ↦
      rw (e, handoff_loop)
        (handoff_loop-Balanced ws held _
          (hand-Balanced held w p (book p n) (book-Balanced held p n b)))
]

pub handoff-Balanced :
    (held : List ℕ) (n : NodeSession) → Balanced held n → Balanced held (handoff n)
unfolding handoff
handoff-Balanced held n b = handoff_loop-Balanced n.waiters held n b

pub handoff-Queued :
    (waiting : List ℕ) (n : NodeSession) → Queued waiting n → Queued waiting (handoff n)
handoff-Queued waiting n q =
    let s = handoff-Served n in
    record {
      each = λ w. ground (
        arith,
        q.each w,
        s.in_order,
        s.handed,
        keys-append n.ready s.slots,
        count-append w (keys s.slots) (handoff n).waiters,
        count-append w (keys n.ready) (keys s.slots),
      );
      all = omega (
        arith,
        q.all,
        ap length s.in_order,
        ap length s.handed,
        length-keys s.slots,
        length-append (keys s.slots) (handoff n).waiters,
        length-append n.ready s.slots,
      );
    }

unbook-Balanced :
    (held : List ℕ) (p : ℕ) (n : NodeSession) → Balanced (p ∷ held) n → Balanced held (unbook p n)
unbook-Balanced held p n b = record {
  per_channel = λ q. ground (arith, b.per_channel q, b.per_channel p);
  total = omega (arith, b.total);
}

-- Releasing a slot that is held keeps the books.
pub release-Balanced :
    (held : List ℕ) (p : ℕ) (n : NodeSession) → Balanced (p ∷ held) n → Balanced held (release p n)
unfolding release
release-Balanced held p n b = handoff-Balanced held (unbook p n) (unbook-Balanced held p n b)

-- What `handoff` leaves alone besides.
pub record Kept (n m : NodeSession) : Type 0 where
  pub depth : m.queue_depth ≡ n.queue_depth
  pub supply : m.next_waiter ≡ n.next_waiter

handoff_loop-Kept : (ws : List ℕ) (n : NodeSession) → Kept n (handoff_loop ws n)
unfolding handoff_loop
handoff_loop-Kept [] n = record { depth = refl; supply = refl }
handoff_loop-Kept (w ∷ ws) n = elim (reserve-Reserved n) [
  | inl (full, e) ↦ rw (e, handoff_loop) (record { depth = refl; supply = refl })
  | inr (p, e, u, f, l) ↦
      let k = handoff_loop-Kept ws (record (book p n) { ready = n.ready ++ ((w, p) ∷ []) }) in
      rw (e, handoff_loop) (record { depth = k.depth; supply = k.supply })
]

pub handoff-Kept : (n : NodeSession) → Kept n (handoff n)
unfolding handoff
handoff-Kept n = handoff_loop-Kept n.waiters n

-- A request that parks.
pub park-Queued :
    (waiting : List ℕ) (n : NodeSession)
    → Queued waiting n
    → Queued (n.next_waiter ∷ waiting) (park n).1
unfolding park
park-Queued waiting n q = record {
  each = λ v. ground (arith, q.each v, count-append v n.waiters (n.next_waiter ∷ []));
  all = omega (arith, q.all, length-append n.waiters (n.next_waiter ∷ []));
}

-- The books speak of the held channels as a multiset.
pub Balanced-same :
    (xs ys : List ℕ) (n : NodeSession)
    → ((p : ℕ) → count p xs ≡ count p ys)
    → length xs ≡ length ys
    → Balanced xs n
    → Balanced ys n
Balanced-same xs ys n same len b = record {
  per_channel = λ p. omega (arith, b.per_channel p, same p);
  total = omega (arith, b.total, len);
}
