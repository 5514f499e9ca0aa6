-- ===== src/Server/Session/Steps/Demand.antt =====
-- What the books of a session give in every state that `Step` reaches from a new session.
use ws_tunnel.Prelude.{
  ℕ, ◌+◌, ◌≤◌, ◌≡◌, refl, inl, inr, List, [], ◌∷◌, ◌++◌, arith, length, length-append,
}
use ws_tunnel.Server.Stats.{NodeStats, observe}
use ws_tunnel.Server.Session.{DataChannel, NodeSession}
use ws_tunnel.Server.Session.Reserve.{NoneUsable}
use ws_tunnel.Server.Session.Order.{
  IsBusy, NoneUsable-close, handoff-Served, acquire-IsBusy, release-IsBusy, add_channel-IsBusy,
  abandon-IsBusy, receive-IsBusy, remove_channel-IsBusy, close_session-IsBusy,
}
use ws_tunnel.Server.Session.Balance.{count, slots}
use ws_tunnel.Server.Session.Steps.{
  World, OpenError, Step, Reach, new_session, quiet_world, count_arrival, count_error, here, next,
  checks, judges, counts, returns, comes, gets, parks, wakes, gives_up, keeps, opens, fails, drops,
  closes, adds, removes, dies, limits, hands_off, drains, ends,
}
use ws_tunnel.Server.Session.Steps.Books.{Books, Step-Books, queued_requests}

-- No data channel carries a stream yet.
abbrev pub AllIdle : (ℕ → DataChannel) → Type 0
AllIdle h = (p : ℕ) → (h p).active ≡ 0

new-Books :
    (h : ℕ → DataChannel) (max : ℕ) (s : NodeStats)
    → AllIdle h
    → Books (quiet_world (new_session h max s))
unfolding quiet_world new_session
new-Books h max s idle = record {
  slots_held = record { per_channel = λ p. idle p; total = refl };
  queue = record { each = λ v. refl; all = refl };
  depth = refl;
}

Reach-Books : {w u : World} → Reach w u → Books w → Books u
Reach-Books here b = b
Reach-Books (next r s) b = Step-Books s (Reach-Books r b)

-- Let no data channel that is ever added carry a stream at first. In every state that a new session
-- then reaches, by any interleaving of requests, timeouts, failures, reloads and shutdown: a
-- channel's `active` counts the requests that hold a slot of it and the waiters to whom one was
-- handed; `activeStreams` counts all of those; and the waiters that are parked stand, each as often
-- as it is parked, in the queue or among the handed ones. `queueDepth` counts the requests that
-- arrived, wait, gave up and have not returned, open a stream or drop a channel.
pub Reach-new_session :
    (h : ℕ → DataChannel) (max : ℕ) (s : NodeStats) (w : World)
    → AllIdle h
    → Reach (quiet_world (new_session h max s)) w
    → Books w
Reach-new_session h max s w idle r = Reach-Books r (new-Books h max s idle)

-- No request is anywhere between its arrival and its end.
pub record IsQuiet (w : World) : Type 0 where
  pub none_arrived : w.arrived ≡ 0
  pub none_waiting : w.waiting ≡ []
  pub none_leaving : w.leaving ≡ []
  pub none_judged : w.judged ≡ []
  pub none_returning : w.returning ≡ 0
  pub none_opening : w.opening ≡ []
  pub none_dropping : w.dropping ≡ []
  pub none_streaming : w.streaming ≡ []

length-nil : (xs : List ℕ) → length xs ≡ 0 → xs ≡ []
length-nil [] e = refl
length-nil (x ∷ xs) e = absurd (omega arith)

-- No slot, waiter or count is ever leaked: whenever a session that started new, with data channels
-- that carried no stream when added, has no request in flight, every channel's `active`,
-- `activeStreams` and `queueDepth` are 0 and the queue is empty.
pub quiet_world_clean :
    (h : ℕ → DataChannel) (max : ℕ) (s : NodeStats) (w : World)
    → AllIdle h
    → Reach (quiet_world (new_session h max s)) w
    → IsQuiet w
    → AllIdle w.n.heap × (w.n.active_streams ≡ 0) × (w.n.queue_depth ≡ 0) × (w.n.waiters ≡ [])
quiet_world_clean h max s w idle r q =
    let b = Reach-new_session h max s w idle r in
    (
      λ p. ground (arith, b.slots_held.per_channel p, empty_slots b q p),
      ground (
        arith, b.slots_held.total, b.queue.all, q.none_waiting, q.none_opening, q.none_streaming,
      ),
      ground (
        arith, b.depth, q.none_arrived, q.none_waiting, q.none_leaving, q.none_judged,
        q.none_returning, q.none_opening, q.none_dropping,
      ),
      length-nil w.n.waiters (ground (arith, b.queue.all, q.none_waiting)),
    )
  where
    slots-nil : (r : List (ℕ × ℕ)) (p : ℕ) → length r ≡ 0 → count p (slots r) ≡ 0
    slots-nil [] p e = refl
    slots-nil ((v, x) ∷ r) p e = absurd (omega arith)

    empty_slots :
        Books w
        → IsQuiet w
        → (p : ℕ) → count p (w.opening ++ w.streaming) + count p (slots w.n.ready) ≡ 0
    empty_slots b q p = ground (
      arith,
      slots-nil w.n.ready p (ground (arith, b.queue.all, q.none_waiting)),
      q.none_opening,
      q.none_streaming,
    )

-- The subtractions of the code never pass 0: in every state that a new session reaches, whose data
-- channels carried no stream when added, a channel's active streams are at least the requests that
-- open or forward a stream on it, and so are the session's in all; and the queue counts at least
-- the requests that will still leave it: those that arrived, wait, gave up and have not returned,
-- open a stream or drop a channel.
pub subtractions_exact :
    (h : ℕ → DataChannel) (max : ℕ) (s : NodeStats) (w : World) (p : ℕ)
    → AllIdle h
    → Reach (quiet_world (new_session h max s)) w
    → (count p (w.opening ++ w.streaming) ≤ (w.n.heap p).active)
      × (length w.opening + length w.streaming ≤ w.n.active_streams)
      × (queued_requests w ≤ w.n.queue_depth)
subtractions_exact h max s w p idle r =
    let b = Reach-new_session h max s w idle r in
    (
      omega (arith, b.slots_held.per_channel p),
      omega (arith, b.slots_held.total, length-append w.opening w.streaming),
      omega (arith, b.depth),
    )

abbrev pub in_flight : World → ℕ
in_flight w = queued_requests w + length w.streaming

-- What `observeDemand` adds up is not the number of requests in flight: in every state that a new
-- session reaches, whose data channels carried no stream when added, it exceeds that number by one
-- for each request that holds a slot and has not finished opening its stream, which is counted as
-- queued and as active.
pub demand_double_counts :
    (h : ℕ → DataChannel) (max : ℕ) (s : NodeStats) (w : World)
    → AllIdle h
    → Reach (quiet_world (new_session h max s)) w
    → w.n.active_streams + w.n.queue_depth ≡ in_flight w + length w.opening + length w.n.ready
demand_double_counts h max s w idle r =
    let b = Reach-new_session h max s w idle r in
    omega (arith, b.slots_held.total, b.depth, length-append w.opening w.streaming)

-- So the peak demand is overstated: after a request comes in, `Peak` is at least the number of
-- requests in flight plus the number of those that open a stream or were handed a slot.
pub peak_overstated :
    (h : ℕ → DataChannel) (max : ℕ) (s : NodeStats) (w : World)
    → AllIdle h
    → Reach (quiet_world (new_session h max s)) w
    → in_flight w + 1 + length w.opening + length w.n.ready ≤ (count_arrival w.n).stats.peak
unfolding observe
peak_overstated h max s w idle r = ground (arith, demand_double_counts h max s w idle r)

NoneUsable-lower :
    (h : ℕ → DataChannel) (max low : ℕ) (cs : List (ℕ × ℕ))
    → low ≤ max
    → NoneUsable h max cs
    → NoneUsable h low cs
NoneUsable-lower h max low [] le f = tt
NoneUsable-lower h max low ((id, p) ∷ cs) le f =
    (λ u. f.0 (u.0, u.1, omega (arith, u.2)), NoneUsable-lower h max low cs le f.1)

count_error-IsBusy : (e : OpenError) (n : NodeSession) → IsBusy n → IsBusy (count_error e n)
unfolding count_error
count_error-IsBusy e n b = b

-- No request is left waiting beside a free slot: every step that does not raise the stream limit
-- keeps it so that nobody waits or no channel of the map can take another stream.
pub Step-IsBusy :
    {w u : World} → Step w u → u.n.max_streams ≤ w.n.max_streams → IsBusy w.n → IsBusy u.n
Step-IsBusy {w} (checks h) le b = b
Step-IsBusy {w} (comes k h) le b = b
Step-IsBusy {w} (gets k p e g) le b = acquire-IsBusy w.n b
Step-IsBusy {w} (parks k v e g) le b = acquire-IsBusy w.n b
Step-IsBusy {w} (wakes v p h e) le b = receive-IsBusy v w.n b
Step-IsBusy {w} (gives_up v why h e) le b = abandon-IsBusy v w.n b
Step-IsBusy {w} (judges before after why e) le b = b
Step-IsBusy {w} (counts before after x e) le b = count_error-IsBusy x w.n b
Step-IsBusy {w} (returns k e) le b = b
Step-IsBusy {w} (keeps v p h e) le b = abandon-IsBusy v w.n b
Step-IsBusy {w} (opens p h) le b = b
Step-IsBusy {w} (fails p h) le b = release-IsBusy p w.n
Step-IsBusy {w} (drops p h) le b = remove_channel-IsBusy p w.n b
Step-IsBusy {w} (closes p h) le b = release-IsBusy p w.n
Step-IsBusy {w} (adds p) le b = add_channel-IsBusy p w.n
Step-IsBusy {w} (removes p) le b = remove_channel-IsBusy p w.n b
Step-IsBusy {w} (dies p) le (inl e) = inl e
Step-IsBusy {w} (dies p) le (inr f) =
    inr (NoneUsable-close w.n.heap w.n.max_streams p _ w.n.channels (inr refl) f)
Step-IsBusy {w} (limits max) le (inl e) = inl e
Step-IsBusy {w} (limits max) le (inr f) =
    inr (NoneUsable-lower w.n.heap w.n.max_streams max w.n.channels le f)
Step-IsBusy {w} hands_off le b = (handoff-Served w.n).busy
Step-IsBusy {w} (drains d) le b = b
Step-IsBusy {w} ends le b = close_session-IsBusy w.n b
