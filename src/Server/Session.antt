-- ===== src/Server/Session.antt =====
-- `NodeSession` of internal/server/registry.go: the pool of data channels of a node that is
-- online, and the queue of requests that wait for a slot. A `*DataChannel` is a number that
-- `heap` gives the object of; a `*slotWaiter` is a number too. Each function below is one hold of
-- `chMu`, so it is one step. Times and the logger are left out.
pub mod Reserve
pub mod Order
pub mod Balance
pub mod Waiters
pub mod Same
pub mod Steps
use ws_tunnel.Prelude.{
  ℕ, suc, ◌+◌, ◌-◌, ◌≡◌, Bool, true, false, ◌&&◌, ◌||◌, Option, none, some, List, [], ◌∷◌, ◌++◌,
  leb, ltb, nat_beq, nat_eq, if◌then◌else◌,
}
use ws_tunnel.Prelude.Dict.{lookup, insert, delete}
use ws_tunnel.Server.Stats.{NodeStats, observe}

-- `sess_closed` is what `sess.IsClosed()` of the smux session answers.
pub record DataChannel : Type 0 where
  pub id : ℕ
  pub active : ℕ
  pub closed : Bool
  pub sess_closed : Bool

-- `ready` pairs each waiter that was handed a slot, and has not taken it yet, with the channel in
-- its `ready` buffer; `handed` of a waiter that still waits is set exactly when it stands there.
pub record NodeSession : Type 0 where
  pub heap : ℕ → DataChannel
  pub channels : List (ℕ × ℕ)
  pub waiters : List ℕ
  pub ready : List (ℕ × ℕ)
  pub next_waiter : ℕ
  pub max_streams : ℕ
  pub active_streams : ℕ
  pub queue_depth : ℕ
  pub chan_seq : ℕ
  pub draining : Bool
  pub done : Bool
  pub stats : NodeStats

abbrev pub set_heap : (ℕ → DataChannel) → ℕ → DataChannel → ℕ → DataChannel
set_heap h p c q = if nat_beq p q then c else h q

-- The body of the loop of `reserveLocked`: `best` is the channel to beat.
pub consider : (ℕ → DataChannel) → ℕ → ℕ → Option ℕ → Option ℕ
consider h max p best =
    let better : Option ℕ = elim best [
      | none ↦ some p
      | some b ↦ if ltb (h p).active (h b).active then some p else some b
    ] in
    if (h p).closed || (h p).sess_closed
    then best
    else if leb max (h p).active
    then best
    else better

pub pick : (ℕ → DataChannel) → ℕ → List (ℕ × ℕ) → Option ℕ → Option ℕ
pick h max [] best = best
pick h max ((id, p) ∷ cs) best = pick h max cs (consider h max p best)

-- The books of a slot on channel `p`.
abbrev pub book : ℕ → NodeSession → NodeSession
book p n = record n {
  heap = set_heap n.heap p (record (n.heap p) { active = (n.heap p).active + 1 });
  active_streams = n.active_streams + 1;
}

abbrev pub best_channel : NodeSession → Option ℕ
best_channel n = pick n.heap n.max_streams n.channels none

-- `reserveLocked`: the channel, with its slot booked. `none` is nil, with nothing changed.
pub reserve : NodeSession → Option (ℕ × NodeSession)
reserve n = elim (best_channel n) [ none ↦ none | some p ↦ some (p, book p n) ]

-- `handoffLocked`: `ws` is the queue.
pub handoff_loop : List ℕ → NodeSession → NodeSession
handoff_loop [] n = record n { waiters = [] }
handoff_loop (w ∷ ws) n = elim (reserve n) [
  | none ↦ record n { waiters = w ∷ ws }
  | some (p, m) ↦ handoff_loop ws (record m { ready = m.ready ++ ((w, p) ∷ []) })
]

pub handoff : NodeSession → NodeSession
handoff n = handoff_loop n.waiters n

-- What `acquire` returns: a reserved channel, or the waiter that the caller was queued as.
pub data Acquired : Type 0 where
  got : ℕ → Acquired
  queued : ℕ → Acquired

pub park : NodeSession → Acquired × NodeSession
park n = (
  queued n.next_waiter,
  record n { waiters = n.waiters ++ (n.next_waiter ∷ []); next_waiter = suc n.next_waiter },
)

-- `acquire`: who finds others waiting joins the tail.
acquire_behind : List ℕ → NodeSession → Acquired × NodeSession
acquire_behind [] n = elim (reserve n) [ none ↦ park n | some (p, m) ↦ (got p, m) ]
acquire_behind (w ∷ ws) n = park n

pub acquire : NodeSession → Acquired × NodeSession
unfolding acquire_behind
acquire n = acquire_behind n.waiters n

pub remove_first : ℕ → List ℕ → List ℕ
remove_first w [] = []
remove_first w (x ∷ xs) = let rest = remove_first w xs in if nat_beq x w then xs else x ∷ rest

pub remove_ready : ℕ → List (ℕ × ℕ) → List (ℕ × ℕ)
remove_ready w [] = []
remove_ready w ((v, p) ∷ r) =
    let rest = remove_ready w r in if nat_beq v w then r else (v, p) ∷ rest

-- The receive from `w.ready`, if something is there.
pub receive : ℕ → NodeSession → Option ℕ × NodeSession
receive w n = elim (lookup w n.ready) [
  | none ↦ (none, n)
  | some p ↦ (some p, record n { ready = remove_ready w n.ready })
]

-- `abandon`.
pub abandon : ℕ → NodeSession → Option ℕ × NodeSession
abandon w n = elim (lookup w n.ready) [
  | none ↦ (none, record n { waiters = remove_first w n.waiters })
  | some p ↦ (some p, record n { ready = remove_ready w n.ready })
]

-- The subtractions of `release` are of int64; `Steps` shows that they never pass 0.
abbrev pub unbook : ℕ → NodeSession → NodeSession
unbook p n = record n {
  heap = set_heap n.heap p (record (n.heap p) { active = (n.heap p).active - 1 });
  active_streams = n.active_streams - 1;
}

-- `release`, on a channel that is there.
pub release : ℕ → NodeSession → NodeSession
release p n = handoff (unbook p n)

-- `AddChannel`.
pub add_channel : ℕ → NodeSession → NodeSession
add_channel p n = handoff (record n { channels = insert (n.heap p).id p n.channels })

-- `DataChannel.Close`.
abbrev pub close_channel : ℕ → NodeSession → NodeSession
close_channel p n = record n { heap = set_heap n.heap p (record (n.heap p) { closed = true }) }

drop_channel : Option ℕ → ℕ → NodeSession → NodeSession
drop_channel none p n = n
drop_channel (some q) p n =
    if nat_beq q p then record n { channels = delete (n.heap p).id n.channels } else n

-- `RemoveChannel`: only if the map still has this very channel under its id.
pub remove_channel : ℕ → NodeSession → NodeSession
unfolding drop_channel
remove_channel p n = close_channel p (drop_channel (lookup (n.heap p).id n.channels) p n)

-- `SetConfig`: the limit is stored first, outside the lock.
abbrev pub store_limit : ℕ → NodeSession → NodeSession
store_limit max n = record n { max_streams = max }

pub set_config : ℕ → NodeSession → NodeSession
set_config max n = handoff (store_limit max n)

pub close_all : List (ℕ × ℕ) → NodeSession → NodeSession
close_all [] n = n
close_all ((id, p) ∷ cs) n = close_all cs (close_channel p n)

-- `Close`, under `closeOnce`.
pub close_session : NodeSession → NodeSession
close_session n =
    let m = close_all n.channels (record n { done = true; channels = [] }) in
    if n.done then n else m

-- `observeDemand`.
abbrev pub observe_demand : NodeSession → NodeSession
observe_demand n = record n { stats = observe (n.active_streams + n.queue_depth) n.stats }

-- `NextChannelID`.
abbrev pub next_channel_id : NodeSession → ℕ × NodeSession
next_channel_id n = (n.chan_seq + 1, record n { chan_seq = n.chan_seq + 1 })
