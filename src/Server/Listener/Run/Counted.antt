-- ===== src/Server/Listener/Run/Counted.antt =====
-- What `activeConns` of internal/server/listener.go counts while `track` and `untrack` run.
use ws_tunnel.Prelude.{
  ℕ, ◌≡◌, ◌≢◌, refl, ap, sym, ◌∙◌, inl, inr, Bool, some, List, [], ◌∷◌, nat_eq, Option-cases, ◌==◌,
  nat_beq_iff, length, arith, Bool-cases, ◌+◌, ◌≤◌, length-removed,
}
use ws_tunnel.Prelude.Dict.{lookup, delete, lookup-delete, lookup-insert_self}
use ws_tunnel.Prelude.Sets.{
  keys, Unique, insert-Unique, delete-Unique, length-insert, length-delete,
}
use ws_tunnel.Server.Stats.{NodeStats}
use ws_tunnel.Server.Listener.Run.{
  Phase, tests, binds, bound, waits, accepts, tracks, leaves, ended, Runner, new_runner,
  test_context, bind_fails, bind_succeeds, wake, publish, track, count_tracked, untrack,
  count_untracked, close_untracked, tracked, uncounted, finished, close_socket, accept_fails,
  leave_accept, close_published, halt, Step, tested, failed, opened, woken, given_up, published,
  accepted, refused, left, forwarded, halted, Reach, here, next,
}

-- Inside `track`, a connection that is in the map is not counted yet.
abbrev pub uncounted_track : Phase → ℕ
uncounted_track tests = 0
uncounted_track binds = 0
uncounted_track (bound l) = 0
uncounted_track waits = 0
uncounted_track (accepts l) = 0
uncounted_track (tracks l c) = 1
uncounted_track (leaves l) = 0
uncounted_track ended = 0

-- The connection inside `track` is in the map.
abbrev pub Tracked : Phase → List (ℕ × Unit {0}) → Type 0
Tracked tests conns = Unit {0}
Tracked binds conns = Unit {0}
Tracked (bound l) conns = Unit {0}
Tracked waits conns = Unit {0}
Tracked (accepts l) conns = Unit {0}
Tracked (tracks l c) conns = lookup c conns ≡ some tt
Tracked (leaves l) conns = Unit {0}
Tracked ended conns = Unit {0}

-- Every connection that is tracked is in the map once, and counted but for those inside `track` and
-- `untrack`.
pub record Counted (r : Runner) : Type 0 where
  pub once : Unique (keys r.conns)
  pub current : Tracked r.phase r.conns
  pub count : r.active_conns + uncounted_track r.phase ≡ length r.conns + length r.leaving

uncounted_track-le :
    (p : Phase) (conns : List (ℕ × Unit {0})) → Tracked p conns → uncounted_track p ≤ length conns
unfolding lookup
uncounted_track-le tests conns t = omega arith
uncounted_track-le binds conns t = omega arith
uncounted_track-le (bound l) conns t = omega arith
uncounted_track-le waits conns t = omega arith
uncounted_track-le (accepts l) conns t = omega arith
uncounted_track-le (tracks l c) [] t = cc
uncounted_track-le (tracks l c) (x ∷ conns) t = omega arith
uncounted_track-le (leaves l) conns t = omega arith
uncounted_track-le ended conns t = omega arith

-- Another connection leaves the map.
delete-Tracked :
    (p : Phase) (c : ℕ) (conns : List (ℕ × Unit {0}))
    → ((l : ℕ) → p ≢ tracks l c)
    → Tracked p conns
    → Tracked p (delete c conns)
delete-Tracked tests c conns ne t = tt
delete-Tracked binds c conns ne t = tt
delete-Tracked (bound l) c conns ne t = tt
delete-Tracked waits c conns ne t = tt
delete-Tracked (accepts l) c conns ne t = tt
delete-Tracked (tracks l d) c conns ne t = elim (Bool-cases (c == d)) [
  | inl e ↦ absurd (ne l (ap (tracks l) (sym ((nat_beq_iff c d).0 e))))
  | inr e ↦ lookup-delete c d conns ∙ rw e t
]
delete-Tracked (leaves l) c conns ne t = tt
delete-Tracked ended c conns ne t = tt

-- A step of `run` from and to places outside `track` that leaves the connections alone.
moves-Counted :
    (r t : Runner)
    → uncounted_track r.phase ≡ 0
    → uncounted_track t.phase ≡ 0
    → Tracked t.phase t.conns
    → t.conns ≡ r.conns
    → t.active_conns ≡ r.active_conns
    → t.leaving ≡ r.leaving
    → Counted r
    → Counted t
moves-Counted r t z z' k e a l ok = record {
  once = rw e ok.once;
  current = k;
  count = omega (arith, ok.count, z, z', ap length e, a, ap length l);
}

halt-conns :
    (g : Bool) (r : Runner)
    → ((halt g r).conns ≡ r.conns)
      × ((halt g r).phase ≡ r.phase)
      × ((halt g r).active_conns ≡ r.active_conns)
      × ((halt g r).leaving ≡ r.leaving)
unfolding halt close_published close_socket
halt-conns g r = elim (Option-cases r.ln) [
  | inl h ↦ rw h (refl, refl, refl, refl)
  | inr (l, h) ↦ rw h (refl, refl, refl, refl)
]

Step-Counted : (port : ℕ) (r t : Runner) → Step port r t → Counted r → Counted t
unfolding test_context bind_fails bind_succeeds wake publish track count_tracked untrack
    count_untracked close_untracked close_socket accept_fails leave_accept
Step-Counted port r _ (tested h) ok = elim (Bool-cases r.cancelled) [
  | inl c ↦ rw c (moves-Counted r _ (ap uncounted_track h) refl tt refl refl refl ok)
  | inr c ↦ rw c (moves-Counted r _ (ap uncounted_track h) refl tt refl refl refl ok)
]
Step-Counted port r _ (failed _ h) ok =
    moves-Counted r _ (ap uncounted_track h) refl tt refl refl refl ok
Step-Counted port r _ (opened _ h _) ok =
    moves-Counted r _ (ap uncounted_track h) refl tt refl refl refl ok
Step-Counted port r _ (woken h) ok =
    moves-Counted r _ (ap uncounted_track h) refl tt refl refl refl ok
Step-Counted port r _ (given_up h _) ok =
    moves-Counted r _ (ap uncounted_track h) refl tt refl refl refl ok
Step-Counted port r _ (published _ h) ok =
    moves-Counted r _ (ap uncounted_track h) refl tt refl refl refl ok
Step-Counted port r _ (accepted l c h _ fresh) ok = record {
  once = insert-Unique c tt r.conns ok.once;
  current = lookup-insert_self c tt r.conns;
  count = omega (arith, ok.count, ap uncounted_track h, length-insert c tt r.conns fresh);
}
Step-Counted port r _ (tracked l c h) ok = record {
  once = ok.once;
  current = tt;
  count = omega (arith, ok.count, ap uncounted_track h);
}
Step-Counted port r _ (refused _ _ h) ok =
    moves-Counted r _ (ap uncounted_track h) refl tt refl refl refl ok
Step-Counted port r _ (left _ h) ok = elim (Bool-cases r.cancelled) [
  | inl c ↦ rw c (moves-Counted r _ (ap uncounted_track h) refl tt refl refl refl ok)
  | inr c ↦ rw c (moves-Counted r _ (ap uncounted_track h) refl tt refl refl refl ok)
]
Step-Counted port r _ (forwarded c h ne) ok = record {
  once = delete-Unique c r.conns ok.once;
  current = delete-Tracked r.phase c r.conns ne ok.current;
  count = omega (arith, ok.count, length-delete c tt r.conns ok.once h);
}
Step-Counted port r _ (uncounted before after c e) ok = record {
  once = ok.once;
  current = ok.current;
  count = omega (
    arith,
    ok.count,
    length-removed before after c r.leaving e,
    uncounted_track-le r.phase r.conns ok.current,
  );
}
Step-Counted port r _ (finished _ _ _ _) ok = record {
  once = ok.once;
  current = ok.current;
  count = ok.count;
}
Step-Counted port r _ (halted g) ok =
    let (c, p, a, l) = halt-conns g r in
    record {
      once = rw c ok.once;
      current = rw (c, p) ok.current;
      count = omega (arith, ok.count, ap length c, ap uncounted_track p, a, ap length l);
    }

-- At any moment of a listener's life, `activeConns` is the number of its tracked connections, less
-- one while `track` is between the map and the count, and more by the number of goroutines that
-- are between those two in `untrack`.
pub Reach-Counted :
    (port : ℕ) (st : NodeStats) (r : Runner) → Reach port (new_runner st) r → Counted r
unfolding new_runner
Reach-Counted port st _ here = record { once = tt; current = tt; count = refl }
Reach-Counted port st t (next {s} reach step) =
    Step-Counted port s t step (Reach-Counted port st s reach)
