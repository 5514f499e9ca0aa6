-- ===== src/Server/Contact/Answers.antt =====
-- What a control channel has done to its session, read off the messages that came in on it.
use ws_tunnel.Prelude.{
  ℕ, ◌-◌, ◌≡◌, refl, inl, inr, Bool, true, false, ◌&&◌, Option, none, some, List, [], ◌∷◌, ◌++◌,
  arith, if◌then◌else◌, ltb, append_assoc, append-nil, Str, ◌==◌, str_eq, str_beq, str_beq_iff,
  Bool-cases, ◌∙◌, sym, ap,
}
use ws_tunnel.Prelude.Int.{ℤ, at_least, to_ℕ}
use ws_tunnel.Protocol.Control.{Message, Stats, type_ping, type_pong, type_stats, type_bye}
use ws_tunnel.Server.Contact.{
  Contact, Incoming, received, failed, cancelled, Course, waits, returned, touch, send, pong_seen,
  take_stats, pong_of, switch, on_incoming, control_read_loop,
}

-- The messages that a loop reads, with their times: up to the first bye and including it, and up
-- to the first error.
pub heard : List Incoming → List (ℕ × Message)
heard [] = []
heard (received now m ∷ rs) =
    let rest = heard rs in if m.typ == type_bye then (now, m) ∷ [] else (now, m) ∷ rest
heard (failed e ∷ rs) = []
heard (cancelled ∷ rs) = []

-- The answers to the pings, those that could be written.
pub answer : (Message → Bool) → Message → List Message
answer w m = if (m.typ == type_ping) && w (pong_of m) then pong_of m ∷ [] else []

pub answers : (Message → Bool) → List (ℕ × Message) → List Message
answers w [] = []
answers w ((now, m) ∷ ms) = answer w m ++ answers w ms

-- The time of the last message.
pub last_time : ℕ → List (ℕ × Message) → ℕ
last_time d [] = d
last_time d ((now, m) ∷ ms) = last_time now ms

-- The last statistics that the client sent.
pub next_stats : Message → Option Stats → Option Stats
next_stats m o = if m.typ == type_stats then elim m.stats [ none ↦ o | some st ↦ some st ] else o

pub last_stats : Option Stats → List (ℕ × Message) → Option Stats
last_stats o [] = o
last_stats o ((now, m) ∷ ms) = last_stats (next_stats m o) ms

abbrev pub state_of : Course → Contact
state_of (waits s) = s
state_of (returned s e) = s

-- The session before and after some messages.
pub record Heard (w : Message → Bool) (ms : List (ℕ × Message)) (s t : Contact) : Type 0 where
  pub written : t.written ≡ s.written ++ answers w ms
  pub last_seen : t.last_seen ≡ last_time s.last_seen ms
  pub client_stats : t.client_stats ≡ last_stats s.client_stats ms

-- The tests on a message's type, when one of them holds.
record Only (a : Str) (m : Message) : Type 0 where
  ping : (m.typ == type_ping) ≡ (a == type_ping)
  pong : (m.typ == type_pong) ≡ (a == type_pong)
  stats : (m.typ == type_stats) ≡ (a == type_stats)
  bye : (m.typ == type_bye) ≡ (a == type_bye)

only : (a : Str) (m : Message) → (m.typ == a) ≡ true → Only a m
only a m e =
    let q = (str_beq_iff m.typ a).0 e in
    record {
      ping = ap (λ x. x == type_ping) q;
      pong = ap (λ x. x == type_pong) q;
      stats = ap (λ x. x == type_stats) q;
      bye = ap (λ x. x == type_bye) q;
    }

-- One message.
record Turned (w : Message → Bool) (now : ℕ) (m : Message) (s : Contact) (t : Course) : Type 0 where
  waiting : (m.typ == type_bye) ≡ false → t ≡ waits (state_of t)
  ending : (m.typ == type_bye) ≡ true → (r : Str) × (t ≡ returned (state_of t) r)
  written : (state_of t).written ≡ s.written ++ answer w m
  last_seen : (state_of t).last_seen ≡ now
  client_stats : (state_of t).client_stats ≡ next_stats m s.client_stats

pong_seen_now :
    (now : ℕ) (ts : ℤ) (s : Contact)
    → s.last_seen ≡ now
    → ((pong_seen now ts s).last_seen ≡ now)
      × ((pong_seen now ts s).written ≡ s.written)
      × ((pong_seen now ts s).client_stats ≡ s.client_stats)
unfolding pong_seen touch
pong_seen_now now ts s h = elim (Bool-cases (at_least 1 ts)) [
  | inr e ↦ rw e (h, refl, refl)
  | inl e ↦ elim (Bool-cases (ltb 0 (now - to_ℕ ts))) [
    | inl g ↦ rw (e, g) (refl, refl, refl)
    | inr g ↦ rw (e, g) (refl, refl, refl)
  ]
]

waited :
    (w : Message → Bool) (now : ℕ) (m : Message) (s u : Contact)
    → (m.typ == type_bye) ≡ false
    → u.written ≡ s.written ++ answer w m
    → u.last_seen ≡ now
    → u.client_stats ≡ next_stats m s.client_stats
    → Turned w now m s (waits u)
waited w now m s u b wr l c = record {
  waiting = λ z. refl;
  ending = λ z. absurd (ground (arith, b, z));
  written = wr;
  last_seen = l;
  client_stats = c;
}

no_answer :
    (w : Message → Bool) (m : Message) (l : List Message)
    → (m.typ == type_ping) ≡ false
    → l ≡ l ++ answer w m
unfolding answer
no_answer w m l e = rw e (sym (append-nil l))

no_stats : (m : Message) (o : Option Stats) → (m.typ == type_stats) ≡ false → o ≡ next_stats m o
unfolding next_stats
no_stats m o e = rw e refl

send-Turned :
    (w : Message → Bool) (now : ℕ) (m : Message) (s : Contact)
    → s.last_seen ≡ now
    → (m.typ == type_ping) ≡ true
    → Turned w now m s (waits (send w (pong_of m) s))
unfolding send answer str_beq
send-Turned w now m s h e =
    let o = only type_ping m e in
    elim (Bool-cases (w (pong_of m))) [
      | inl g ↦
          rw g (waited w now m s _ o.bye (rw (e, g) refl) h (no_stats m s.client_stats o.stats))
      | inr g ↦ rw g (
          waited w now m s s o.bye (rw (e, g) (sym (append-nil s.written))) h
            (no_stats m s.client_stats o.stats))
    ]

take_stats_lem :
    (o : Option Stats) (s : Contact)
    → ((take_stats o s).written ≡ s.written)
      × ((take_stats o s).last_seen ≡ s.last_seen)
      × ((take_stats o s).client_stats ≡ elim o [ none ↦ s.client_stats | some st ↦ some st ])
unfolding take_stats
take_stats_lem none s = (refl, refl, refl)
take_stats_lem (some st) s = (refl, refl, refl)

stats-Turned :
    (w : Message → Bool) (now : ℕ) (m : Message) (s : Contact)
    → s.last_seen ≡ now
    → (m.typ == type_stats) ≡ true
    → Turned w now m s (waits (take_stats m.stats s))
unfolding next_stats str_beq
stats-Turned w now m s h e =
    let o = only type_stats m e in
    let (wr, l, c) = take_stats_lem m.stats s in
    waited w now m s (take_stats m.stats s) o.bye (wr ∙ no_answer w m s.written o.ping) (l ∙ h)
      (rw e c)

switch-Turned :
    (w : Message → Bool) (now : ℕ) (m : Message) (s : Contact)
    → s.last_seen ≡ now
    → Turned w now m s (switch w now m s)
unfolding switch str_beq
switch-Turned w now m s h = elim (Bool-cases (m.typ == type_ping)) [
  | inl e ↦ rw e (send-Turned w now m s h e)
  | inr e ↦ elim (Bool-cases (m.typ == type_pong)) [
    | inl g ↦
        let o = only type_pong m g in
        let (l, wr, c) = pong_seen_now now m.ts s h in
        rw (e, g)
          (waited w now m s (pong_seen now m.ts s) o.bye (wr ∙ no_answer w m s.written e) l
            (c ∙ no_stats m s.client_stats o.stats))
    | inr g ↦ elim (Bool-cases (m.typ == type_stats)) [
      | inl k ↦ rw (e, g, k) (stats-Turned w now m s h k)
      | inr k ↦ elim (Bool-cases (m.typ == type_bye)) [
        | inl b ↦
            rw (e, g, k, b)
              (record {
                waiting = λ z. absurd (ground (arith, b, z));
                ending = λ z. (_, refl);
                written = no_answer w m s.written e;
                last_seen = h;
                client_stats = no_stats m s.client_stats k;
              })
        | inr b ↦
            rw (e, g, k, b)
              (waited w now m s s b (no_answer w m s.written e) h (no_stats m s.client_stats k))
      ]
    ]
  ]
]

on_incoming_lem :
    (w : Message → Bool) (now : ℕ) (m : Message) (s : Contact)
    → on_incoming w (received now m) s ≡ switch w now m (record s { last_seen = now })
unfolding on_incoming touch
on_incoming_lem w now m s = refl

loop_waits :
    (w : Message → Bool) (r : Incoming) (rs : List Incoming) (s u : Contact)
    → on_incoming w r s ≡ waits u
    → control_read_loop w (r ∷ rs) s ≡ control_read_loop w rs u
unfolding control_read_loop
loop_waits w r rs s u e = rw (e, control_read_loop) refl

loop_returned :
    (w : Message → Bool) (r : Incoming) (rs : List Incoming) (s u : Contact) (x : Str)
    → on_incoming w r s ≡ returned u x
    → control_read_loop w (r ∷ rs) s ≡ returned u x
unfolding control_read_loop
loop_returned w r rs s u x e = rw (e, control_read_loop) refl

heard_received :
    (now : ℕ) (m : Message) (rs : List Incoming)
    → heard (received now m ∷ rs)
      ≡ (if m.typ == type_bye then (now, m) ∷ [] else (now, m) ∷ heard rs)
unfolding heard
heard_received now m rs = refl

heard-ends :
    (w : Message → Bool) (now : ℕ) (m : Message) (rs : List Incoming) (s u : Contact)
    → (m.typ == type_bye) ≡ true
    → u.written ≡ s.written ++ answer w m
    → u.last_seen ≡ now
    → u.client_stats ≡ next_stats m s.client_stats
    → Heard w (heard (received now m ∷ rs)) s u
unfolding answers last_time last_stats
heard-ends w now m rs s u b wr l c =
    rw (heard_received now m rs, b)
      (record {
        written = wr ∙ ap (λ x. s.written ++ x) (sym (append-nil (answer w m)));
        last_seen = l;
        client_stats = c;
      })

heard-goes :
    (w : Message → Bool) (now : ℕ) (m : Message) (rs : List Incoming) (s u t : Contact)
    → (m.typ == type_bye) ≡ false
    → u.written ≡ s.written ++ answer w m
    → u.last_seen ≡ now
    → u.client_stats ≡ next_stats m s.client_stats
    → Heard w (heard rs) u t
    → Heard w (heard (received now m ∷ rs)) s t
unfolding answers last_time last_stats
heard-goes w now m rs s u t b wr l c rest =
    rw (heard_received now m rs, b)
      (record {
        written =
            rest.written
            ∙ ap (λ x. x ++ answers w (heard rs)) wr
            ∙ append_assoc s.written (answer w m) (answers w (heard rs));
        last_seen = rest.last_seen ∙ ap (λ d. last_time d (heard rs)) l;
        client_stats = rest.client_stats ∙ ap (λ o. last_stats o (heard rs)) c;
      })

-- The control loop answers each ping that it hears with one pong, in order, as far as writes
-- succeed, and writes nothing else; the session's last contact is the last message, and its client
-- statistics are the last that the client sent, whatever ended the loop.
pub control_read_loop-Heard :
    (w : Message → Bool) (rs : List Incoming) (s : Contact)
    → Heard w (heard rs) s (state_of (control_read_loop w rs s))
unfolding control_read_loop on_incoming heard answers last_time last_stats
control_read_loop-Heard w [] s = record {
  written = sym (append-nil s.written);
  last_seen = refl;
  client_stats = refl;
}
control_read_loop-Heard w (failed e ∷ rs) s = record {
  written = sym (append-nil s.written);
  last_seen = refl;
  client_stats = refl;
}
control_read_loop-Heard w (cancelled ∷ rs) s = record {
  written = sym (append-nil s.written);
  last_seen = refl;
  client_stats = refl;
}
control_read_loop-Heard w (received now m ∷ rs) s =
    let v = switch w now m (record s { last_seen = now }) in
    let t = switch-Turned w now m (record s { last_seen = now }) refl in
    elim (Bool-cases (m.typ == type_bye)) [
      | inl b ↦
          let (x, q) = t.ending b in
          let e =
            loop_returned w (received now m) rs s (state_of v) x (on_incoming_lem w now m s ∙ q) in
          rw e (heard-ends w now m rs s (state_of v) b t.written t.last_seen t.client_stats)
      | inr b ↦
          let q = t.waiting b in
          let e = loop_waits w (received now m) rs s (state_of v) (on_incoming_lem w now m s ∙ q) in
          rw e (
            heard-goes w now m rs s (state_of v) _ b t.written t.last_seen t.client_stats
              (control_read_loop-Heard w rs (state_of v)))
    ]
