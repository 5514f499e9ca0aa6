-- ===== src/Client/Backoff.antt =====
-- The reconnect delay of `Run` and `runChannel` in internal/client/client.go, and of `run` in
-- internal/server/listener.go, in nanoseconds.
use ws_tunnel.Prelude.{
  ℕ, zero, suc, ◌*◌, ◌≤◌, ◌≡◌, refl, ◌⊎◌, inl, inr, List, [], ◌∷◌, arith, ltb, if◌then◌else◌, All,
  Bool-cases,
}
use ws_tunnel.Config.{second}

abbrev pub min_backoff : ℕ
min_backoff = second

abbrev pub max_backoff : ℕ
max_backoff = 30 * second

abbrev pub stable_session : ℕ
stable_session = 60 * second

-- The end of a round of `Run`'s loop, after the wait.
unfoldable pub next_backoff : ℕ → ℕ
next_backoff b =
    let twice = 2 * b in
    if ltb b max_backoff then (if ltb max_backoff twice then max_backoff else twice) else b

-- The delay before the next attempt, and the one to go on with, after a session that took `age`.
unfoldable pub after_session : ℕ → ℕ → ℕ × ℕ
after_session age b =
    let wait = if ltb stable_session age then min_backoff else b in (wait, next_backoff wait)

-- The delays of `Run` over sessions that took `ages`.
unfoldable pub delays : List ℕ → ℕ → List ℕ
delays [] b = []
delays (age ∷ ages) b = let (wait, next) = after_session age b in wait ∷ delays ages next

-- The waits of `run` over `n` binds that fail one after the other: no cap after doubling.
unfoldable pub bind_delays : ℕ → ℕ → List ℕ
bind_delays zero b = []
bind_delays (suc n) b = b ∷ bind_delays n (if ltb b (30 * second) then 2 * b else b)

-- One round keeps the delay within 1 s and 30 s, and it never gets shorter.
next_backoff-bounds :
    (b : ℕ)
    → min_backoff ≤ b
    → b ≤ max_backoff
    → (b ≤ next_backoff b) × (next_backoff b ≤ max_backoff)
unfolding next_backoff
next_backoff-bounds b lo hi = ground arith

-- However long the sessions of a client last, it waits at least 1 s and at most 30 s before each
-- reconnect, once it starts from a delay in that range.
pub delays-bounds :
    (ages : List ℕ) (b : ℕ)
    → min_backoff ≤ b
    → b ≤ max_backoff
    → All (λ d. (min_backoff ≤ d) × (d ≤ max_backoff)) (delays ages b)
unfolding delays after_session
delays-bounds [] b lo hi = record {}
delays-bounds (age ∷ ages) b lo hi = elim (Bool-cases (ltb stable_session age)) [
  | inl h ↦
      let (l, u) = next_backoff-bounds min_backoff (omega arith) (omega arith) in
      rw h (
        (omega arith, omega arith),
        delays-bounds ages (next_backoff min_backoff) (omega (arith, l)) u,
      )
  | inr h ↦
      let (l, u) = next_backoff-bounds b lo hi in
      rw h ((lo, hi), delays-bounds ages (next_backoff b) (omega (arith, l, lo)) u)
]

-- The waits that doubling from 1 s comes through.
abbrev Doubled : ℕ → Type 0
Doubled b =
    (b ≡ second)
    ⊎ (b ≡ 2 * second)
    ⊎ (b ≡ 4 * second)
    ⊎ (b ≡ 8 * second)
    ⊎ (b ≡ 16 * second)
    ⊎ (b ≡ 32 * second)

bind_delays-Doubled : (n b : ℕ) → Doubled b → All (λ d. d ≤ 32 * second) (bind_delays n b)
unfolding bind_delays
bind_delays-Doubled zero b h = record {}
bind_delays-Doubled (suc n) b h = (ground arith, bind_delays-Doubled n _ (ground arith))

-- The listener's retry of a bind has no cap after its doubling: from the sixth failure in a row
-- on it waits 32 s, and never longer.
pub bind_delays-bounds :
    (n : ℕ)
    → All (λ d. d ≤ 32 * second) (bind_delays n min_backoff)
      × (bind_delays (suc n) (32 * second) ≡ 32 * second ∷ bind_delays n (32 * second))
      × (bind_delays 6 min_backoff
          ≡ second ∷ 2 * second ∷ 4 * second ∷ 8 * second ∷ 16 * second ∷ 32 * second ∷ [])
unfolding bind_delays
bind_delays-bounds n = (bind_delays-Doubled n min_backoff (inl refl), refl, refl)
