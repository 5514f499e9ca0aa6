-- ===== src/Server/Listener/Run/Safe.antt =====
-- What the goroutine of a listener and those that stop it do to the sockets and the counts of
-- internal/server/listener.go.
use ws_tunnel.Prelude.{
  ℕ, ◌≡◌, ◌≢◌, refl, ap, sym, ◌∙◌, ◌⊎◌, inl, inr, Bool, true, false, not, Option, some, List, [],
  ◌∷◌, nat_eq, Option-cases, ◌==◌, beq_refl, nat_beq_iff, keep, arith, Bool-cases,
}
use ws_tunnel.Server.Stats.{NodeStats}
use ws_tunnel.Server.Listener.Run.{
  Phase, tests, binds, bound, waits, accepts, tracks, leaves, ended, Runner, new_runner,
  test_context, bind_fails, bind_succeeds, wake, publish, track, count_tracked, untrack,
  count_untracked, close_untracked, tracked, uncounted, finished, close_socket, accept_fails,
  leave_accept, close_published, halt, Step, tested, failed, opened, woken, given_up, published,
  accepted, refused, left, forwarded, halted, unpublished, Reach, here, next,
}

-- The sockets that are open while `run` is at a place.
abbrev pub Held : Phase → Option ℕ → List ℕ → Type 0
Held tests ln socks = socks ≡ []
Held binds ln socks = socks ≡ []
Held (bound l) ln socks = (socks ≡ l ∷ []) × (ln ≢ some l)
Held waits ln socks = socks ≡ []
Held (accepts l) ln socks = (ln ≡ some l) × ((socks ≡ l ∷ []) ⊎ (socks ≡ []))
Held (tracks l c) ln socks = (ln ≡ some l) × ((socks ≡ l ∷ []) ⊎ (socks ≡ []))
Held (leaves l) ln socks = socks ≡ []
Held ended ln socks = socks ≡ []

-- A socket is closed, or was before.
keep_other : (l k : ℕ) → l ≢ k → keep (λ x. not (x == k)) (l ∷ []) ≡ l ∷ []
keep_other l k ne = elim (Bool-cases (l == k)) [
  | inl h ↦ absurd (ne ((nat_beq_iff l k).0 h))
  | inr h ↦ rw h refl
]

keep_self : (l : ℕ) → keep (λ x. not (x == l)) (l ∷ []) ≡ []
keep_self l = rw (beq_refl l) refl

-- What `stop` leaves as it was, and what it sets, whether or not a socket is published.
record Halted (r t : Runner) : Type 0 where
  phase : t.phase ≡ r.phase
  ln : t.ln ≡ r.ln
  cancelled : t.cancelled ≡ true
  silent : t.listening ≡ false
  empty : r.sockets ≡ [] → t.sockets ≡ []

halt-Halted : (g : Bool) (r : Runner) → Halted r (halt g r)
unfolding halt close_published close_socket
halt-Halted g r = elim (Option-cases r.ln) [
  | inl h ↦
      rw h (record { phase = refl; ln = refl; cancelled = refl; silent = refl; empty = λ e. e })
  | inr (l, h) ↦
      rw h (record {
        phase = refl;
        ln = refl;
        cancelled = refl;
        silent = refl;
        empty = λ e. rw e refl;
      })
]

-- A socket that is not published stays open, one that is published is closed.
halt-bound :
    (l : ℕ) (g : Bool) (r : Runner)
    → r.sockets ≡ l ∷ []
    → r.ln ≢ some l
    → (halt g r).sockets ≡ l ∷ []
unfolding halt close_published close_socket
halt-bound l g r o ne = elim (Option-cases r.ln) [
  | inl h ↦ rw (h, o) refl
  | inr (k, h) ↦ rw (h, o) (keep_other l k (λ e. ne (h ∙ ap some (sym e))))
]

halt-accepts :
    (l : ℕ) (g : Bool) (r : Runner)
    → r.ln ≡ some l
    → (r.sockets ≡ l ∷ []) ⊎ (r.sockets ≡ [])
    → (halt g r).sockets ≡ []
unfolding halt close_published close_socket
halt-accepts l g r h (inl o) = rw (h, o) (keep_self l)
halt-accepts l g r h (inr o) = rw (h, o) refl

halt-Held :
    (p : Phase) (g : Bool) (r : Runner) → Held p r.ln r.sockets → Held p r.ln (halt g r).sockets
halt-Held tests g r ok = (halt-Halted g r).empty ok
halt-Held binds g r ok = (halt-Halted g r).empty ok
halt-Held (bound l) g r (o, ne) = (halt-bound l g r o ne, ne)
halt-Held waits g r ok = (halt-Halted g r).empty ok
halt-Held (accepts l) g r (e, o) = (e, inr (halt-accepts l g r e o))
halt-Held (tracks l c) g r (e, o) = (e, inr (halt-accepts l g r e o))
halt-Held (leaves l) g r ok = (halt-Halted g r).empty ok
halt-Held ended g r ok = (halt-Halted g r).empty ok

-- `stop` at a place where every socket is published.
halt-free :
    (p : Phase) (g : Bool) (r : Runner)
    → Held p r.ln r.sockets
    → unpublished p ≡ false
    → (halt g r).sockets ≡ []
unfolding unpublished
halt-free tests g r ok u = (halt-Halted g r).empty ok
halt-free binds g r ok u = (halt-Halted g r).empty ok
halt-free (bound l) g r ok u = absurd (ground arith)
halt-free waits g r ok u = (halt-Halted g r).empty ok
halt-free (accepts l) g r (e, o) u = halt-accepts l g r e o
halt-free (tracks l c) g r (e, o) u = halt-accepts l g r e o
halt-free (leaves l) g r ok u = (halt-Halted g r).empty ok
halt-free ended g r ok u = (halt-Halted g r).empty ok

abbrev pub HeldBy : Runner → Type 0
HeldBy r = Held r.phase r.ln r.sockets

Step-Held : (port : ℕ) (r t : Runner) → Step port r t → HeldBy r → HeldBy t
unfolding test_context bind_fails bind_succeeds wake publish track count_tracked untrack
    count_untracked close_untracked close_socket accept_fails leave_accept
Step-Held port r _ (tested h) ok = elim (Bool-cases r.cancelled) [
  | inl c ↦ rw c (rw h at ok)
  | inr c ↦ rw c (rw h at ok)
]
Step-Held port r _ (failed _ h) ok = rw h at ok
Step-Held port r _ (opened l h ne) ok = (ap (λ s. l ∷ s) (rw h at ok), ne)
Step-Held port r _ (woken h) ok = rw h at ok
Step-Held port r _ (given_up h _) ok = rw h at ok
Step-Held port r _ (published l h) ok = (refl, inl (rw h at ok).0)
Step-Held port r _ (accepted l c h _ _) ok = rw h at ok
Step-Held port r _ (tracked l c h) ok = rw h at ok
Step-Held port r _ (refused l err h) ok = elim (rw h at ok).1 [
  | inl o ↦ rw o (keep_self l)
  | inr o ↦ rw o refl
]
Step-Held port r _ (left l h) ok = elim (Bool-cases r.cancelled) [
  | inl c ↦ rw c (rw h at ok)
  | inr c ↦ rw c (rw h at ok)
]
Step-Held port r _ (forwarded c h _) ok = ok
Step-Held port r _ (uncounted _ _ _ _) ok = ok
Step-Held port r _ (finished _ _ _ _) ok = ok
Step-Held port r _ (halted g) ok =
    let h = halt-Halted g r in rw (h.phase, h.ln) (halt-Held r.phase g r ok)

-- `run` starts without a socket or a connection.
Reach-Held : (port : ℕ) (st : NodeStats) (r : Runner) → Reach port (new_runner st) r → HeldBy r
unfolding new_runner
Reach-Held port st _ here = refl
Reach-Held port st t (next {s} reach step) = Step-Held port s t step (Reach-Held port st s reach)

-- A listener that was stopped and has no socket to come.
pub record Released (r : Runner) : Type 0 where
  pub cancelled : r.cancelled ≡ true
  pub silent : r.listening ≡ false
  pub free : r.sockets ≡ []
  pub settled : unpublished r.phase ≡ false

halt-Released :
    (g : Bool) (r : Runner) → HeldBy r → unpublished r.phase ≡ false → Released (halt g r)
halt-Released g r ok u =
    let h = halt-Halted g r in
    record {
      cancelled = h.cancelled;
      silent = h.silent;
      free = halt-free r.phase g r ok u;
      settled = ap unpublished h.phase ∙ u;
    }

Step-Released : (port : ℕ) (r t : Runner) → Step port r t → Released r → Released t
unfolding test_context bind_fails bind_succeeds wake publish track count_tracked untrack
    count_untracked close_untracked close_socket accept_fails leave_accept unpublished
Step-Released port r _ (tested h) ok = record {
  cancelled = ok.cancelled;
  silent = ok.silent;
  free = ok.free;
  settled = rw ok.cancelled refl;
}
Step-Released port r _ (failed _ h) ok =
    absurd (ground (arith, sym (ap unpublished h) ∙ ok.settled))
Step-Released port r _ (opened l h ne) ok =
    absurd (ground (arith, sym (ap unpublished h) ∙ ok.settled))
Step-Released port r _ (woken h) ok = record {
  cancelled = ok.cancelled;
  silent = ok.silent;
  free = ok.free;
  settled = refl;
}
Step-Released port r _ (given_up h _) ok = record {
  cancelled = ok.cancelled;
  silent = ok.silent;
  free = ok.free;
  settled = refl;
}
Step-Released port r _ (published l h) ok =
    absurd (ground (arith, sym (ap unpublished h) ∙ ok.settled))
Step-Released port r _ (accepted l c h o _) ok = absurd (ground (arith, sym o ∙ ok.free))
Step-Released port r _ (refused l err h) ok = record {
  cancelled = ok.cancelled;
  silent = ok.silent;
  free = rw ok.free refl;
  settled = refl;
}
Step-Released port r _ (left l h) ok = record {
  cancelled = ok.cancelled;
  silent = refl;
  free = ok.free;
  settled = rw ok.cancelled refl;
}
Step-Released port r _ (tracked l c h) ok = record {
  cancelled = ok.cancelled;
  silent = ok.silent;
  free = ok.free;
  settled = refl;
}
Step-Released port r _ (forwarded c h _) ok = record {
  cancelled = ok.cancelled;
  silent = ok.silent;
  free = ok.free;
  settled = ok.settled;
}
Step-Released port r _ (uncounted _ _ _ _) ok = record {
  cancelled = ok.cancelled;
  silent = ok.silent;
  free = ok.free;
  settled = ok.settled;
}
Step-Released port r _ (finished _ _ _ _) ok = record {
  cancelled = ok.cancelled;
  silent = ok.silent;
  free = ok.free;
  settled = ok.settled;
}
Step-Released port r _ (halted g) ok =
    let h = halt-Halted g r in
    record {
      cancelled = h.cancelled;
      silent = h.silent;
      free = h.empty ok.free;
      settled = ap unpublished h.phase ∙ ok.settled;
    }

-- Once `stop` has run on a listener that is not between the test of its context and the publication
-- of a socket, its port is free for good: no later step opens a socket or reports it as listening.
pub halt-Reach-Released :
    (port : ℕ) (st : NodeStats) (g : Bool) (r t : Runner)
    → Reach port (new_runner st) r
    → unpublished r.phase ≡ false
    → Reach port (halt g r) t
    → Released t
halt-Reach-Released port st g r _ reach u here = halt-Released g r (Reach-Held port st r reach) u
halt-Reach-Released port st g r t reach u (next {s} after step) =
    Step-Released port s t step (halt-Reach-Released port st g r s reach u after)

-- A `stop` between a successful `Listen` and the publication of its socket `l` closes nothing:
-- `run` goes on to publish `l` and waits in `Accept` on it, open and reported as listening, with its
-- context cancelled.
pub publish_after_halt :
    (port l : ℕ) (st : NodeStats) (r : Runner) (g : Bool)
    → Reach port (new_runner st) r
    → r.phase ≡ bound l
    → let t = publish l (halt g r) in
      Step port (halt g r) t
      × (t.sockets ≡ l ∷ [])
      × (t.phase ≡ accepts l)
      × (t.listening ≡ true)
      × (t.cancelled ≡ true)
unfolding publish
publish_after_halt port l st r g reach h =
    let k = halt-Halted g r in
    let held = Reach-Held port st r reach in
    let (o, ne) = rw h at held in
    (published l (k.phase ∙ h), halt-bound l g r o ne, refl, refl, k.cancelled)
