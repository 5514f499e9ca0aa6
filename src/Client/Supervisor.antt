-- ===== src/Client/Supervisor.antt =====
-- `supervisor` of internal/client/client.go: the slots that keep data channels up. `workers`
-- holds the slots in the order in which a `range` over the map meets them, which Go leaves open.
-- What a worker runs is left out: here it only comes to its end (`exit`).
use ws_tunnel.Prelude.{
  ℕ, zero, suc, ◌+◌, ◌-◌, ◌≡◌, List, [], ◌∷◌, ◌++◌, arith, ltb, nat_beq, nat_eq, if◌then◌else◌,
  length, length-append, drop, length-drop,
}

pub record Supervisor : Type 0 where
  pub workers : List ℕ
  pub next_id : ℕ
  pub target : ℕ

pub new_supervisor : Supervisor
new_supervisor = record { workers = []; next_id = 0; target = 0 }

-- A round of the loop that starts workers; the new slot is not in the map yet.
abbrev start_worker : Supervisor → Supervisor
start_worker s = record s { next_id = s.next_id + 1; workers = s.workers ++ ((s.next_id + 1) ∷ []) }

-- `for len(s.workers) < n`: it runs once for each missing worker.
start_workers : ℕ → Supervisor → Supervisor
start_workers zero s = s
start_workers (suc k) s = start_workers k (start_worker s)

-- `for len(s.workers) > n`: it cancels the first that a fresh `range` meets, once for each excess.
abbrev cancel_workers : ℕ → Supervisor → Supervisor
cancel_workers k s = record s { workers = drop k s.workers }

-- `SetTarget`.
pub set_target : ℕ → Supervisor → Supervisor
unfolding start_workers
set_target n s =
    let m = if ltb n 1 then 1 else n in
    let s' = start_workers (m - length s.workers) (record s { target = m }) in
    cancel_workers (length s'.workers - m) s'

-- The deferred `delete(s.workers, id)` of a worker that ends; a missing key is no error.
pub exit : ℕ → Supervisor → Supervisor
exit id s = record s { workers = without id s.workers }
  where
    without : ℕ → List ℕ → List ℕ
    without id [] = []
    without id (w ∷ ws) = let rest = without id ws in if nat_beq w id then rest else w ∷ rest

-- `Stop`.
pub stop : Supervisor → Supervisor
stop s = record s { workers = [] }

start_workers-length :
    (k : ℕ) (s : Supervisor)
    → (length (start_workers k s).workers ≡ length s.workers + k)
      × ((start_workers k s).next_id ≡ s.next_id + k)
      × ((start_workers k s).target ≡ s.target)
unfolding start_workers
start_workers-length zero s = ground arith
start_workers-length (suc k) s =
    ground (
      arith,
      start_workers-length k (start_worker s),
      length-append s.workers ((s.next_id + 1) ∷ []),
    )

-- After `SetTarget n` exactly `n` workers run, or one for `n` 0, and that number is the target.
-- As many slot numbers were given out as workers were missing.
pub set_target-length :
    (n : ℕ) (s : Supervisor)
    → let m = if ltb n 1 then 1 else n in
      (length (set_target n s).workers ≡ m)
      × ((set_target n s).target ≡ m)
      × ((set_target n s).next_id ≡ s.next_id + (m - length s.workers))
unfolding set_target
set_target-length n s =
    let m = if ltb n 1 then 1 else n in
    let s' = start_workers (m - length s.workers) (record s { target = m }) in
    ground (
      arith,
      start_workers-length (m - length s.workers) (record s { target = m }),
      length-drop (length s'.workers - m) s'.workers,
    )
