-- ===== src/Server/Contact/Pings.antt =====
-- When the ping loop of a control channel takes its client for dead.
use ws_tunnel.Prelude.{
  ℕ, ◌+◌, ◌-◌, ◌*◌, ◌≡◌, refl, inl, inr, Bool, true, false, ◌&&◌, List, [], ◌∷◌, arith, ltb, leb,
  Str, nat_eq, beq_refl, Bool-cases, All, ◌++◌, ◌∙◌, ap,
}
use ws_tunnel.Protocol.Header.{codes}
use ws_tunnel.Protocol.Control.{Message}
use ws_tunnel.Server.Contact.{
  Contact, Tick, Pinging, ticks, closes, ping_message, new_interval, ping_tick, ping_loop,
}

pub goes_on : Pinging → Bool
goes_on (ticks i s) = true
goes_on (closes s e) = false

-- Every tick comes within three heartbeats of the last contact.
pub all_within : ℕ → ℕ → List Tick → Bool
all_within h seen [] = true
all_within h seen (t ∷ ts) = leb t.now (seen + 3 * h) && all_within h seen ts

new_interval_same : (k h : ℕ) → k ≡ h → new_interval k h ≡ h
unfolding new_interval
new_interval_same k h e = rw (e, beq_refl h) refl

tick_late :
    (w : Message → Bool) (e : Str) (t : Tick) (h : ℕ) (s : Contact)
    → new_interval t.heartbeat h ≡ h
    → ltb (3 * h) (t.now - s.last_seen) ≡ true
    → (r : Str) × (ping_tick w e t h s ≡ closes s r)
unfolding ping_tick
tick_late w e t h s b l = (codes "control heartbeat timeout", rw (ping_tick, b, l) refl)

tick_timely :
    (w : Message → Bool) (e : Str) (t : Tick) (h : ℕ) (s : Contact)
    → new_interval t.heartbeat h ≡ h
    → ltb (3 * h) (t.now - s.last_seen) ≡ false
    → w (ping_message t) ≡ true
    → ping_tick w e t h s ≡ ticks h (record s { written = s.written ++ (ping_message t ∷ []) })
unfolding ping_tick
tick_timely w e t h s b l k = rw (ping_tick, b, l, k) refl

loop_closes :
    (w : Message → Bool) (e : Str) (t : Tick) (ts : List Tick) (h : ℕ) (s u : Contact) (r : Str)
    → ping_tick w e t h s ≡ closes u r
    → goes_on (ping_loop w e (t ∷ ts) h s) ≡ false
unfolding ping_loop goes_on
loop_closes w e t ts h s u r q = rw (ping_loop, q) refl

loop_ticks :
    (w : Message → Bool) (e : Str) (t : Tick) (ts : List Tick) (h i : ℕ) (s u : Contact)
    → ping_tick w e t h s ≡ ticks i u
    → ping_loop w e (t ∷ ts) h s ≡ ping_loop w e ts i u
unfolding ping_loop
loop_ticks w e t ts h i s u q = rw (q, ping_loop) refl

-- With a heartbeat that stays `h`, writes that succeed and a client that is silent, the ping loop
-- goes on exactly as long as its ticks come within three heartbeats of the last contact.
pub ping_loop_within :
    (w : Message → Bool) (e : Str) (ts : List Tick) (h : ℕ) (s : Contact)
    → All (λ t. t.heartbeat ≡ h) ts
    → ((m : Message) → w m ≡ true)
    → goes_on (ping_loop w e ts h s) ≡ all_within h s.last_seen ts
unfolding ping_loop goes_on all_within
ping_loop_within w e [] h s same ok = refl
ping_loop_within w e (t ∷ ts) h s same ok = elim (Bool-cases (ltb (3 * h) (t.now - s.last_seen))) [
  | inl l ↦
      let (r, q) = tick_late w e t h s (new_interval_same t.heartbeat h same.0) l in
      loop_closes w e t ts h s s r q ∙ ground (arith, l)
  | inr l ↦
      let u : Contact = record s { written = s.written ++ (ping_message t ∷ []) } in
      let q =
        tick_timely w e t h s (new_interval_same t.heartbeat h same.0) l (ok (ping_message t)) in
      let rest = ping_loop_within w e ts h u same.1 ok in
      ap goes_on (loop_ticks w e t ts h h s u q) ∙ rest ∙ ground (arith, l)
]
