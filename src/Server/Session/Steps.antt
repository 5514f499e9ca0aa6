-- ===== src/Server/Session/Steps.antt =====
-- `OpenStream` and `CloseStream` of internal/server/registry.go run by any number of goroutines,
-- together with all that changes a session meanwhile: each constructor of `Step` is what one
-- goroutine does between two points at which others may come in.
pub mod Books
pub mod Demand
pub mod Examples
use ws_tunnel.Prelude.{
  ℕ, zero, suc, ◌+◌, ◌-◌, ◌≤◌, ◌<◌, ◌≡◌, Bool, true, false, Option, none, some, List, [], ◌∷◌, ◌++◌,
}
use ws_tunnel.Server.Stats.{NodeStats}
use ws_tunnel.Server.Session.{
  DataChannel, NodeSession, Acquired, got, queued, set_heap, handoff, acquire, abandon, receive,
  remove_first, release, add_channel, remove_channel, store_limit, close_session, observe_demand,
  next_channel_id,
}
use ws_tunnel.Server.Session.Balance.{count}

-- Why a parked request gives up.
pub data Why : Type 0 where
  timeout session_closed cancelled : Why

pub data OpenError : Type 0 where
  no_channel saturated closed_error context_error : OpenError

-- Where the requests are: `checked` of them saw that the session takes streams, `arrived` of them
-- stand before `acquire`; `waiting` lists the waiters of those that are parked; `leaving`, `judged`
-- and `returning` are those that gave up, before they have chosen their error, before they count
-- it, and before they leave the queue's count; `opening`, `dropping` and `streaming` list the channels of those that
-- open a stream on a reserved slot, that drop a channel which failed to open one, and that
-- forward a stream.
pub record World : Type 0 where
  pub n : NodeSession
  pub checked : ℕ
  pub arrived : ℕ
  pub waiting : List ℕ
  pub leaving : List Why
  pub judged : List OpenError
  pub returning : ℕ
  pub opening : List ℕ
  pub dropping : List ℕ
  pub streaming : List ℕ

-- The error of a request that gave up, with the channels that are there when it looks, and the
-- count of saturations.
pub give_up : Why → List (ℕ × ℕ) → OpenError
give_up timeout [] = no_channel
give_up timeout (c ∷ cs) = saturated
give_up session_closed cs = closed_error
give_up cancelled cs = context_error

count_saturated : OpenError → NodeStats → NodeStats
count_saturated saturated s = record s { saturated = s.saturated + 1 }
count_saturated e s = s

abbrev pub leave_queue : NodeSession → NodeSession
leave_queue n = record n { queue_depth = n.queue_depth - 1 }

pub count_error : OpenError → NodeSession → NodeSession
count_error e n = record n { stats = count_saturated e n.stats }

abbrev pub count_opened : NodeSession → NodeSession
count_opened n =
    observe_demand
      (leave_queue (record n { stats = record n.stats { opened = n.stats.opened + 1 } }))

abbrev pub count_arrival : NodeSession → NodeSession
count_arrival n = observe_demand (record n { queue_depth = n.queue_depth + 1 })

pub data Step (w : World) : World → Type 0 where
  checks : w.n.draining ≡ false → Step w (record w { checked = suc w.checked })
  comes :
      (k : ℕ)
      → w.checked ≡ suc k
      → Step w (record w { n = count_arrival w.n; checked = k; arrived = suc w.arrived })
  gets :
      (k p : ℕ)
      → w.arrived ≡ suc k
      → (acquire w.n).0 ≡ got p
      → Step w (record w { n = (acquire w.n).1; arrived = k; opening = p ∷ w.opening })
  parks :
      (k v : ℕ)
      → w.arrived ≡ suc k
      → (acquire w.n).0 ≡ queued v
      → Step w (record w { n = (acquire w.n).1; arrived = k; waiting = v ∷ w.waiting })
  wakes :
      (v p : ℕ)
      → 0 < count v w.waiting
      → (receive v w.n).0 ≡ some p
      → Step w (record w {
        n = (receive v w.n).1;
        waiting = remove_first v w.waiting;
        opening = p ∷ w.opening;
      })
  gives_up :
      (v : ℕ) (why : Why)
      → 0 < count v w.waiting
      → (abandon v w.n).0 ≡ none
      → Step w (record w {
        n = (abandon v w.n).1;
        waiting = remove_first v w.waiting;
        leaving = why ∷ w.leaving;
      })
  judges :
      (before after : List Why) (why : Why)
      → w.leaving ≡ before ++ (why ∷ after)
      → Step w
          (record w { leaving = before ++ after; judged = give_up why w.n.channels ∷ w.judged })
  counts :
      (before after : List OpenError) (e : OpenError)
      → w.judged ≡ before ++ (e ∷ after)
      → Step w (record w {
        n = count_error e w.n;
        judged = before ++ after;
        returning = suc w.returning;
      })
  returns : (k : ℕ) → w.returning ≡ suc k → Step w (record w { n = leave_queue w.n; returning = k })
  keeps :
      (v p : ℕ)
      → 0 < count v w.waiting
      → (abandon v w.n).0 ≡ some p
      → Step w (record w {
        n = (abandon v w.n).1;
        waiting = remove_first v w.waiting;
        opening = p ∷ w.opening;
      })
  opens :
      (p : ℕ)
      → 0 < count p w.opening
      → Step w (record w {
        n = count_opened w.n;
        opening = remove_first p w.opening;
        streaming = p ∷ w.streaming;
      })
  fails :
      (p : ℕ)
      → 0 < count p w.opening
      → Step w (record w {
        n = release p w.n;
        opening = remove_first p w.opening;
        dropping = p ∷ w.dropping;
      })
  drops :
      (p : ℕ)
      → 0 < count p w.dropping
      → Step w (record w {
        n = remove_channel p w.n;
        dropping = remove_first p w.dropping;
        arrived = suc w.arrived;
      })
  closes :
      (p : ℕ)
      → 0 < count p w.streaming
      → Step w (record w { n = release p w.n; streaming = remove_first p w.streaming })
  adds : (p : ℕ) → Step w (record w { n = add_channel p w.n })
  removes : (p : ℕ) → Step w (record w { n = remove_channel p w.n })
  dies :
      (p : ℕ)
      → Step w (record w {
        n = record w.n { heap = set_heap w.n.heap p (record (w.n.heap p) { sess_closed = true }) };
      })
  limits : (max : ℕ) → Step w (record w { n = store_limit max w.n })
  hands_off : Step w (record w { n = handoff w.n })
  drains : (b : Bool) → Step w (record w { n = record w.n { draining = b } })
  ends : Step w (record w { n = close_session w.n })

pub data Reach (w : World) : World → Type 0 where
  here : Reach w w
  next : {u v : World} → Reach w u → Step u v → Reach w v

-- `newNodeSession`: `h` gives the data channels that will be added, none with a stream on it.
unfoldable pub new_session : (ℕ → DataChannel) → ℕ → NodeStats → NodeSession
new_session h max stats = record {
  heap = h;
  channels = [];
  waiters = [];
  ready = [];
  next_waiter = 0;
  max_streams = max;
  active_streams = 0;
  queue_depth = 0;
  chan_seq = 0;
  draining = false;
  done = false;
  stats = stats;
}

pub quiet_world : NodeSession → World
quiet_world n = record {
  n = n;
  checked = 0;
  arrived = 0;
  waiting = [];
  leaving = [];
  judged = [];
  returning = 0;
  opening = [];
  dropping = [];
  streaming = [];
}
