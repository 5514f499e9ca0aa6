-- ===== src/Client/Session/Follows.antt =====
-- What the control loop of the client makes of the messages of its server.
use ws_tunnel.Prelude.{
  ℕ, ◌≡◌, refl, inl, inr, Bool, true, false, ◌&&◌, ◌||◌, Option, none, some, List, [], ◌∷◌, ◌++◌,
  arith, if◌then◌else◌, ltb, length, map, append_assoc, append-nil, Str, ◌==◌, str_eq, str_beq,
  str_beq_iff, Bool-cases, Option-cases, ◌∙◌, sym, ap, subst, some-injective,
}
use ws_tunnel.Protocol.Message.{NodeConfig}
use ws_tunnel.Protocol.Control.{
  Message, of_type, type_welcome, type_reload_config, type_ping, type_pong, type_drain, type_bye,
  type_error, err_node_busy, err_auth_failed,
}
use ws_tunnel.Protocol.Control.View.{view, next_view, is_last, seen}
use ws_tunnel.Client.{Client}
use ws_tunnel.Client.Supervisor.{set_target, set_target-length, new_supervisor}
use ws_tunnel.Client.Session.{
  Session, waits, runs, received, send_control, take_config, on_message, on_read, control_loop,
  begin_session, stop_workers, hello_reply, run_session, Read,
}

-- The server asked to drain.
pub asks_drain : List Message → Bool
asks_drain [] = false
asks_drain (m ∷ ms) = m.typ == type_drain || asks_drain ms

abbrev pong : Message → Message
pong m = record (of_type type_pong) { nonce = m.nonce; ts = m.ts }

-- The answers to the pings, those that could be written.
pub pongs : (Message → Bool) → List Message → List Message
pongs w [] = []
pongs w (m ∷ ms) =
    let rest = pongs w ms in if (m.typ == type_ping) && w (pong m) then pong m ∷ rest else rest

-- As many workers as the configuration has channels, at least one.
abbrev pub workers_of : NodeConfig → ℕ
workers_of k = if ltb k.channels 1 then 1 else k.channels

-- The client has this configuration and its channels, and drains or does not.
pub record Follows (k : NodeConfig) (d : Bool) (s : Session) : Type 0 where
  pub cfg : (s.client).cfg ≡ some k
  pub draining : (s.client).draining ≡ d
  pub workers : length (s.sup).workers ≡ workers_of k
  pub target : (s.sup).target ≡ workers_of k

-- One message that does not end the session.
record Turned (w : Message → Bool) (m : Message) (k : NodeConfig) (d : Bool) (s t : Session)
    : Type 0 where
  follows : Follows (next_view m k) (d || (m.typ == type_drain)) t
  written : t.written ≡ s.written ++ pongs w (m ∷ [])

-- The tests of a message on its type, when one of them holds.
record Only (a : Str) (m : Message) : Type 0 where
  is : (m.typ == a) ≡ true
  ping : (m.typ == type_ping) ≡ (a == type_ping)
  reload : (m.typ == type_reload_config) ≡ (a == type_reload_config)
  drain : (m.typ == type_drain) ≡ (a == type_drain)
  bye : (m.typ == type_bye) ≡ (a == type_bye)

only : (a : Str) (m : Message) → (m.typ == a) ≡ true → Only a m
only a m e =
    let q = (str_beq_iff m.typ a).0 e in
    record {
      is = e;
      ping = ap (λ x. x == type_ping) q;
      reload = ap (λ x. x == type_reload_config) q;
      drain = ap (λ x. x == type_drain) q;
      bye = ap (λ x. x == type_bye) q;
    }

send_control-Follows :
    (w : Message → Bool) (m : Message) (k : NodeConfig) (d : Bool) (s : Session)
    → Follows k d s
    → Follows k d (send_control w m s)
      × ((send_control w m s).written ≡ s.written ++ (if w m then m ∷ [] else []))
unfolding send_control
send_control-Follows w m k d s f = elim (Bool-cases (w m)) [
  | inl e ↦
      rw e (
        record { cfg = f.cfg; draining = f.draining; workers = f.workers; target = f.target },
        refl,
      )
  | inr e ↦ rw e (f, sym (append-nil s.written))
]

take_config-Follows :
    (n k : NodeConfig) (d : Bool) (s : Session) → Follows k d s → Follows n d (take_config n s)
unfolding take_config
take_config-Follows n k d s f =
    let (l, t, _) = set_target-length n.channels s.sup in
    record { cfg = refl; draining = f.draining; workers = l; target = t }

-- How one message is answered, when it does not end the session.
turned :
    (w : Message → Bool) (m : Message) (k n : NodeConfig) (d e ping : Bool) (s t : Session)
    → next_view m k ≡ n
    → (m.typ == type_drain) ≡ e
    → (m.typ == type_ping) ≡ ping
    → Follows n (d || e) t
    → t.written ≡ s.written ++ (if ping && w (pong m) then pong m ∷ [] else [])
    → Turned w m k d s t
unfolding pongs
turned w m k n d e ping s t hn he hp f written = record {
  follows = rw (hn, he) f;
  written = rw hp written;
}

or_false : (d : Bool) → (d || false) ≡ d
or_false true = refl
or_false false = refl

on_ping :
    (w : Message → Bool) (m : Message) (k : NodeConfig) (d : Bool) (s : Session)
    → (m.typ == type_ping) ≡ true
    → Follows k d s
    → Turned w m k d s (send_control w (pong m) s)
unfolding str_beq
on_ping w m k d s e f =
    let o = only type_ping m e in
    let (f', written) = send_control-Follows w (pong m) k d s f in
    turned w m k k d false true s (send_control w (pong m) s) (rw o.reload) o.drain e
      (rw (or_false d) f') written

take_config-written : (n : NodeConfig) (s : Session) → (take_config n s).written ≡ s.written
unfolding take_config
take_config-written n s = refl

reloaded : Option NodeConfig → Session → Session
reloaded none s = s
reloaded (some n) s = take_config n s

on_reload :
    (w : Message → Bool) (m : Message) (k : NodeConfig) (d : Bool) (s : Session)
    (o : Option NodeConfig)
    → m.config ≡ o
    → (m.typ == type_reload_config) ≡ true
    → Follows k d s
    → Turned w m k d s (reloaded o s)
unfolding str_beq reloaded
on_reload w m k d s none z e f =
    let o = only type_reload_config m e in
    turned w m k k d false false s s (ground (arith, e, z)) o.drain o.ping (rw (or_false d) f)
      (sym (append-nil s.written))
on_reload w m k d s (some n) z e f =
    let o = only type_reload_config m e in
    turned w m k n d false false s (take_config n s) (ground (arith, e, z)) o.drain o.ping
      (rw (or_false d) (take_config-Follows n k d s f)) (append_nothing n)
  where
    append_nothing : (n : NodeConfig) → (take_config n s).written ≡ s.written ++ []
    append_nothing n = take_config-written n s ∙ sym (append-nil s.written)

on_drain :
    (w : Message → Bool) (m : Message) (k : NodeConfig) (d : Bool) (s : Session)
    → (m.typ == type_drain) ≡ true
    → Follows k d s
    → Turned w m k d s (record s { client = record s.client { draining = true } })
unfolding str_beq
on_drain w m k d s e f =
    let o = only type_drain m e in
    turned w m k k d true false s (record s { client = record s.client { draining = true } })
      (rw o.reload) e o.ping
      (record { cfg = f.cfg; draining = sym (or_true d); workers = f.workers; target = f.target })
      (sym (append-nil s.written))
  where
    or_true : (d : Bool) → (d || true) ≡ true
    or_true true = refl
    or_true false = refl

reload_waits :
    (w : Message → Bool) (m : Message) (s : Session)
    → (m.typ == type_ping) ≡ false
    → (m.typ == type_reload_config) ≡ true
    → on_message w m s ≡ waits (reloaded m.config s)
unfolding on_message
reload_waits w m s e r = rw (e, r, on_message) (ap waits (go m.config))
  where
    go :
        (o : Option NodeConfig)
        → elim o as (λ _. Session) [ none ↦ s | some n ↦ take_config n s ] ≡ reloaded o s
    go none = unfold reloaded in refl
    go (some n) = unfold reloaded in refl

rest_waits :
    (w : Message → Bool) (m : Message) (s : Session)
    → is_last m ≡ false
    → (m.typ == type_ping) ≡ false
    → (m.typ == type_reload_config) ≡ false
    → (m.typ == type_drain) ≡ false
    → on_message w m s ≡ waits s
unfolding on_message
rest_waits w m s h e r g =
    let bye : (m.typ == type_bye) ≡ false = ground (arith, h) in
    rw (e, r, g, bye, on_message)
      (elim (Bool-cases
        ((m.typ == type_error) && (m.code == err_node_busy || m.code == err_auth_failed))) [
          | inl z ↦ ground (arith, h, z)
          | inr z ↦ rw z
        ])

on_message-Turned :
    (w : Message → Bool) (m : Message) (k : NodeConfig) (d : Bool) (s : Session)
    → is_last m ≡ false
    → Follows k d s
    → (t : Session) × (on_message w m s ≡ waits t) × Turned w m k d s t
unfolding on_message
on_message-Turned w m k d s h f = elim (Bool-cases (m.typ == type_ping)) [
  | inl e ↦ (send_control w (pong m) s, rw (e, on_message), on_ping w m k d s e f)
  | inr e ↦ elim (Bool-cases (m.typ == type_reload_config)) [
    | inl r ↦ (reloaded m.config s, reload_waits w m s e r, on_reload w m k d s m.config refl r f)
    | inr r ↦ elim (Bool-cases (m.typ == type_drain)) [
      | inl g ↦ (
        record s { client = record s.client { draining = true } },
        rw (e, r, g, on_message),
        on_drain w m k d s g f,
      )
      | inr g ↦ (
        s,
        other e r g,
        turned w m k k d false false s s (rw r) g e (rw (or_false d) f)
            (sym (append-nil s.written)),
      )
    ]
  ]
]
  where
    other :
        (m.typ == type_ping) ≡ false
        → (m.typ == type_reload_config) ≡ false
        → (m.typ == type_drain) ≡ false
        → on_message w m s ≡ waits s
    other e r g = rest_waits w m s h e r g

pongs-cons :
    (w : Message → Bool) (m : Message) (ms : List Message)
    → pongs w (m ∷ []) ++ pongs w ms ≡ pongs w (m ∷ ms)
unfolding pongs
pongs-cons w m ms = elim (Bool-cases ((m.typ == type_ping) && w (pong m))) [
  | inl e ↦ rw e
  | inr e ↦ rw e
]

or_assoc : (a b c : Bool) → ((a || b) || c) ≡ (a || (b || c))
or_assoc true b c = refl
or_assoc false b c = refl

control_loop-Follows :
    (w : Message → Bool) (ms : List Message) (k l : NodeConfig) (d : Bool) (s : Session)
    → view k ms ≡ some l
    → Follows k d s
    → (t : Session) × (control_loop w (map received ms) s ≡ waits t)
      × Follows l (d || asks_drain ms) t
      × (t.written ≡ s.written ++ pongs w ms)
unfolding control_loop on_read view asks_drain pongs
control_loop-Follows w [] k l d s e f =
    let same : k ≡ l = some-injective k l e in
    (
      s,
      refl,
      subst (λ x. Follows x (d || false) s) same (rw (or_false d) f),
      sym (append-nil s.written),
    )
control_loop-Follows w (m ∷ ms) k l d s e f = elim (Bool-cases (is_last m)) [
  | inl h ↦ ground (arith, e, h)
  | inr h ↦
      let (t, turn, step) = on_message-Turned w m k d s h f in
      let rest : view (next_view m k) ms ≡ some l = rw h at e in
      let (u, loop, f', written) =
        control_loop-Follows w ms (next_view m k) l (d || (m.typ == type_drain)) t rest
          step.follows in
      (
        u,
        rw (turn, control_loop) loop,
        rw (← or_assoc d (m.typ == type_drain) (asks_drain ms)) f',
        written
            ∙ ap (λ x. x ++ pongs w ms) step.written
            ∙ append_assoc s.written (pongs w (m ∷ [])) (pongs w ms)
            ∙ ap (λ x. s.written ++ x) (pongs-cons w m ms),
      )
]

begin_session-Follows :
    (w : Message → Bool) (n k : NodeConfig) (session : Str) (ms : List Message) (c : Client)
    → view n ms ≡ some k
    → (t : Session) × (begin_session w n session (map received ms) c ≡ runs (waits t))
      × Follows k (asks_drain ms) t
      × (t.written ≡ pongs w ms)
unfolding begin_session stop_workers
begin_session-Follows w n k session ms c e =
    let s : Session = record {
      client = record c { cfg = some n; session = session; draining = false };
      sup = set_target n.channels new_supervisor;
      written = [];
    } in
    let (workers, target, _) = set_target-length n.channels new_supervisor in
    let (t, loop, f, written) =
      control_loop-Follows w ms n k false s e
        (record { cfg = refl; draining = refl; workers = workers; target = target }) in
    (t, rw loop, f, written)

welcome_starts :
    (w : Message → Bool) (m : Message) (n : NodeConfig) (rs : List Read) (c : Client)
    → (m.typ == type_welcome) ≡ true
    → m.config ≡ some n
    → hello_reply w m rs c ≡ begin_session w n m.session rs c
unfolding hello_reply
welcome_starts w m n rs c h z = ground (arith, h, z)

-- A client that can write its hello, and is then sent messages that begin with a welcome and among
-- which none ends the session, follows them: it goes on waiting, with the configuration that was
-- sent last as its own, as many workers as that has channels (at least one), draining exactly if a
-- message asks for it, whatever it did before; and it has written one pong for each ping, in
-- order, if that could be written.
pub run_session-Follows :
    (w : Message → Bool) (m : Message) (ms : List Message) (k : NodeConfig) (c : Client)
    → seen (m ∷ ms) ≡ some k
    → (t : Session) × (run_session w none (map received (m ∷ ms)) c ≡ runs (waits t))
      × Follows k (asks_drain ms) t
      × (t.written ≡ pongs w ms)
unfolding run_session hello_reply seen
run_session-Follows w m ms k c e = elim (Bool-cases (m.typ == type_welcome)) [
  | inr h ↦ ground (arith, e, h)
  | inl h ↦ elim (Option-cases m.config) [
    | inl z ↦ ground (arith, e, h, z)
    | inr (n, z) ↦
        let (t, begin_session, f, written) =
          begin_session-Follows w n k m.session ms c (ground (arith, e, h, z)) in
        (t, welcome_starts w m n (map received ms) c h z ∙ begin_session, f, written)
  ]
]
