-- ===== src/Server/Session/Steps/Books.antt =====
-- The books of a session in every reachable state.
use ws_tunnel.Prelude.{
  ℕ, ◌+◌, ◌<◌, ◌≡◌, refl, inl, inr, List, [], ◌∷◌, ◌++◌, arith, ◌∙◌, nat_eq, length, length-append,
  length-removed,
}
use ws_tunnel.Server.Session.{
  NodeSession, got, queued, book, handoff, acquire, acquire_behind, park, abandon, receive,
  remove_first, release, unbook, add_channel, remove_channel,
}
use ws_tunnel.Server.Session.Reserve.{reserve-Reserved}
use ws_tunnel.Server.Session.Balance.{
  count, count-append, Balanced, Queued, handoff-Balanced, handoff-Queued, handoff-Kept,
  release-Balanced, book-Balanced, park-Queued, Balanced-same,
}
use ws_tunnel.Server.Session.Waiters.{
  receive-books, abandon_keeps, abandon_leaves, remove_first-Taken,
}
use ws_tunnel.Server.Session.Same.{
  Same, Same-Balanced, Same-Queued, refl-Same, remove_channel-Same, close_session-Same,
}
use ws_tunnel.Server.Session.Steps.{
  World, Step, count_error, checks, comes, gets, parks, wakes, gives_up, judges, counts, returns,
  keeps, opens, fails, drops, closes, adds, removes, dies, limits, hands_off, drains, ends,
}

-- The requests between their arrival and the end of `OpenStream`.
abbrev pub queued_requests : World → ℕ
queued_requests w =
    w.arrived
    + length w.waiting
    + length w.leaving
    + length w.judged
    + w.returning
    + length w.opening
    + length w.dropping

-- What the books of a session say, given where its requests are.
pub record Books (w : World) : Type 0 where
  pub slots_held : Balanced (w.opening ++ w.streaming) w.n
  pub queue : Queued w.waiting w.n
  pub depth : w.n.queue_depth ≡ queued_requests w

Same-Books : (w : World) (m : NodeSession) → Same w.n m → Books w → Books (record w { n = m })
Same-Books w m s b = record {
  slots_held = Same-Balanced _ w.n m s b.slots_held;
  queue = Same-Queued _ w.n m s b.queue;
  depth = ground (arith, s.depth, b.depth);
}

acquire_behind_got :
    (ws : List ℕ) (p : ℕ) (n : NodeSession)
    → (acquire_behind ws n).0 ≡ got p
    → (acquire_behind ws n).1 ≡ book p n
unfolding acquire_behind park
acquire_behind_got [] p n e = elim (reserve-Reserved n) [
  | inl (full, r) ↦ ground (arith, e, r)
  | inr (q, r, _, _, _) ↦ ground (arith, e, r)
]
acquire_behind_got (w ∷ ws) p n e = cc

pub acquire_got : (p : ℕ) (n : NodeSession) → (acquire n).0 ≡ got p → (acquire n).1 ≡ book p n
unfolding acquire
acquire_got p n e = acquire_behind_got n.waiters p n e

acquire_behind_queued :
    (ws : List ℕ) (v : ℕ) (n : NodeSession)
    → (acquire_behind ws n).0 ≡ queued v
    → ((acquire_behind ws n).1 ≡ (park n).1) × (v ≡ n.next_waiter)
unfolding acquire_behind park
acquire_behind_queued [] v n e = elim (reserve-Reserved n) [
  | inl (full, r) ↦ ground (arith, e, r)
  | inr (q, r, _, _, _) ↦ ground (arith, e, r)
]
acquire_behind_queued (w ∷ ws) v n e = ground arith

pub acquire_queued :
    (v : ℕ) (n : NodeSession)
    → (acquire n).0 ≡ queued v
    → ((acquire n).1 ≡ (park n).1) × (v ≡ n.next_waiter)
unfolding acquire
acquire_queued v n e = acquire_behind_queued n.waiters v n e

-- Moving one held slot between the two lists, or out of the first.
opening_out :
    (p : ℕ) (xs ys : List ℕ) (n : NodeSession)
    → 0 < count p xs
    → Balanced (xs ++ ys) n
    → Balanced (p ∷ (remove_first p xs ++ ys)) n
opening_out p xs ys n h b =
    let t = remove_first-Taken p xs h in
    Balanced-same (xs ++ ys) _ n
      (λ q. ground (arith, t.others q, count-append q xs ys, count-append q (remove_first p xs) ys))
      (omega (arith, t.shorter, length-append xs ys, length-append (remove_first p xs) ys)) b

streaming_out :
    (p : ℕ) (xs ys : List ℕ) (n : NodeSession)
    → 0 < count p ys
    → Balanced (xs ++ ys) n
    → Balanced (p ∷ (xs ++ remove_first p ys)) n
streaming_out p xs ys n h b =
    let t = remove_first-Taken p ys h in
    Balanced-same (xs ++ ys) _ n
      (λ q. ground (arith, t.others q, count-append q xs ys, count-append q xs (remove_first p ys)))
      (omega (arith, t.shorter, length-append xs ys, length-append xs (remove_first p ys))) b

streaming_in :
    (p : ℕ) (xs ys : List ℕ) (n : NodeSession)
    → Balanced (p ∷ (xs ++ ys)) n
    → Balanced (xs ++ (p ∷ ys)) n
streaming_in p xs ys n b =
    Balanced-same (p ∷ (xs ++ ys)) _ n
      (λ q. ground (arith, count-append q xs ys, count-append q xs (p ∷ ys)))
      (omega (arith, length-append xs ys, length-append xs (p ∷ ys))) b

abandon_depth : (v : ℕ) (n : NodeSession) → (abandon v n).1.queue_depth ≡ n.queue_depth
unfolding abandon
abandon_depth v n = ground arith

receive_depth : (v : ℕ) (n : NodeSession) → (receive v n).1.queue_depth ≡ n.queue_depth
unfolding receive
receive_depth v n = ground arith

release_depth : (p : ℕ) (n : NodeSession) → (release p n).queue_depth ≡ n.queue_depth
unfolding release
release_depth p n = (handoff-Kept (unbook p n)).depth

release-Queued :
    (waiting : List ℕ) (p : ℕ) (n : NodeSession) → Queued waiting n → Queued waiting (release p n)
unfolding release
release-Queued waiting p n q =
    handoff-Queued waiting (unbook p n) (record { each = q.each; all = q.all })

handoff-Books :
    (w : World) (m : NodeSession) → Same w.n m → Books w → Books (record w { n = handoff m })
handoff-Books w m s b =
    let b' = Same-Books w m s b in
    record {
      slots_held = handoff-Balanced _ m b'.slots_held;
      queue = handoff-Queued _ m b'.queue;
      depth = (handoff-Kept m).depth ∙ b'.depth;
    }

add_channel-Books : (w : World) (p : ℕ) → Books w → Books (record w { n = add_channel p w.n })
unfolding add_channel
add_channel-Books w p b =
    handoff-Books w _
      (record { actives = λ q. refl; total = refl; ready = refl; waiters = refl; depth = refl }) b

park_depth : (n : NodeSession) → (park n).1.queue_depth ≡ n.queue_depth
unfolding park
park_depth n = refl

park-Balanced : (held : List ℕ) (n : NodeSession) → Balanced held n → Balanced held (park n).1
unfolding park
park-Balanced held n b = record { per_channel = b.per_channel; total = b.total }

-- Every step keeps the books.
pub Step-Books : {w u : World} → Step w u → Books w → Books u
unfolding count_error
Step-Books {w} (checks h) b = record { slots_held = b.slots_held; queue = b.queue; depth = b.depth }
Step-Books {w} (comes k h) b = record {
  slots_held = record { per_channel = b.slots_held.per_channel; total = b.slots_held.total };
  queue = record { each = b.queue.each; all = b.queue.all };
  depth = omega (arith, b.depth);
}
Step-Books {w} (gets k p e g) b = rw (acquire_got p w.n g) (record {
  slots_held = book-Balanced _ p w.n b.slots_held;
  queue = record { each = b.queue.each; all = b.queue.all };
  depth = omega (arith, b.depth);
})
Step-Books {w} (parks k v e g) b =
    let (same, fresh) = acquire_queued v w.n g in
    rw (same, fresh)
      (record {
        slots_held = park-Balanced _ w.n b.slots_held;
        queue = park-Queued w.waiting w.n b.queue;
        depth = omega (arith, b.depth, park_depth w.n);
      })
Step-Books {w} (wakes v p h e) b =
    let t = remove_first-Taken v w.waiting h in
    let (s, q) = receive-books _ w.waiting v p w.n b.slots_held b.queue h e in
    record {
      slots_held = s;
      queue = q;
      depth = omega (arith, b.depth, receive_depth v w.n, t.shorter);
    }
Step-Books {w} (gives_up v why h e) b =
    let t = remove_first-Taken v w.waiting h in
    let (s, q) = abandon_leaves _ w.waiting v w.n b.slots_held b.queue h e in
    record {
      slots_held = s;
      queue = q;
      depth = omega (arith, b.depth, abandon_depth v w.n, t.shorter);
    }
Step-Books {w} (judges before after why e) b = record {
  slots_held = b.slots_held;
  queue = b.queue;
  depth = omega (arith, b.depth, length-removed before after why w.leaving e);
}
Step-Books {w} (counts before after x e) b = record {
  slots_held = record { per_channel = b.slots_held.per_channel; total = b.slots_held.total };
  queue = record { each = b.queue.each; all = b.queue.all };
  depth = omega (arith, b.depth, length-removed before after x w.judged e);
}
Step-Books {w} (returns k e) b = record {
  slots_held = record { per_channel = b.slots_held.per_channel; total = b.slots_held.total };
  queue = record { each = b.queue.each; all = b.queue.all };
  depth = omega (arith, b.depth);
}
Step-Books {w} (keeps v p h e) b =
    let t = remove_first-Taken v w.waiting h in
    let (s, q) = abandon_keeps _ w.waiting v p w.n b.slots_held b.queue h e in
    record {
      slots_held = s;
      queue = q;
      depth = omega (arith, b.depth, abandon_depth v w.n, t.shorter);
    }
Step-Books {w} (opens p h) b =
    let t = remove_first-Taken p w.opening h in
    let s =
      streaming_in p (remove_first p w.opening) w.streaming w.n
        (opening_out p w.opening w.streaming w.n h b.slots_held) in
    record {
      slots_held = record { per_channel = s.per_channel; total = s.total };
      queue = record { each = b.queue.each; all = b.queue.all };
      depth = omega (arith, b.depth, t.shorter);
    }
Step-Books {w} (fails p h) b =
    let t = remove_first-Taken p w.opening h in
    record {
      slots_held =
          release-Balanced _ p w.n (opening_out p w.opening w.streaming w.n h b.slots_held);
      queue = release-Queued w.waiting p w.n b.queue;
      depth = omega (arith, b.depth, t.shorter, release_depth p w.n);
    }
Step-Books {w} (drops p h) b =
    let t = remove_first-Taken p w.dropping h in
    let b' = Same-Books w (remove_channel p w.n) (remove_channel-Same p w.n) b in
    record {
      slots_held = b'.slots_held;
      queue = b'.queue;
      depth = omega (arith, b'.depth, t.shorter);
    }
Step-Books {w} (closes p h) b = record {
  slots_held = release-Balanced _ p w.n (streaming_out p w.opening w.streaming w.n h b.slots_held);
  queue = release-Queued w.waiting p w.n b.queue;
  depth = release_depth p w.n ∙ b.depth;
}
Step-Books {w} (adds p) b = add_channel-Books w p b
Step-Books {w} (removes p) b = Same-Books w _ (remove_channel-Same p w.n) b
Step-Books {w} (dies p) b =
    Same-Books w _
      (record {
        actives = λ q. ground arith;
        total = refl;
        ready = refl;
        waiters = refl;
        depth = refl;
      })
      b
Step-Books {w} (limits max) b =
    Same-Books w _
      (record { actives = λ q. refl; total = refl; ready = refl; waiters = refl; depth = refl }) b
Step-Books {w} hands_off b = handoff-Books w w.n (refl-Same w.n) b
Step-Books {w} (drains d) b =
    Same-Books w _
      (record { actives = λ q. refl; total = refl; ready = refl; waiters = refl; depth = refl }) b
Step-Books {w} ends b = Same-Books w _ (close_session-Same w.n) b
