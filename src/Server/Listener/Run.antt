-- ===== src/Server/Listener/Run.antt =====
-- The goroutine of a listener in internal/server/listener.go: `run` with its accept loop, the
-- connections it tracks, and `stop`, which other goroutines call at any moment.
pub mod Counted
pub mod Safe
pub mod Examples
use ws_tunnel.Prelude.{
  ℕ, ◌+◌, ◌-◌, ◌*◌, ◌≡◌, ◌≢◌, Bool, true, false, not, Option, none, some, List, [], ◌∷◌, ◌++◌, ltb,
  nat_eq, if◌then◌else◌, Str, ◌==◌, keep,
}
use ws_tunnel.Prelude.Dict.{lookup, insert, delete}
use ws_tunnel.Prelude.Sets.{keys}
use ws_tunnel.Server.Stats.{NodeStats, record_bind_error}
use ws_tunnel.Config.{second}

-- Where `run` is: at the test of its context, in `Listen`, between `Listen` and the lock under
-- which the socket is published, in the wait before a retry, in `Accept`,
-- inside `track`, behind `accept`, ended.
pub data Phase : Type 0 where
  tests binds : Phase
  bound : (socket : ℕ) → Phase
  waits : Phase
  accepts : (socket : ℕ) → Phase
  tracks : (socket conn : ℕ) → Phase
  leaves : (socket : ℕ) → Phase
  ended : Phase

-- The fields of the `portListener`, the local `backoff`, the goroutines inside `untrack` (`leaving`
-- before they count, `counted` before they close), and what is outside: the listening
-- sockets that are open, and the connections that were closed.
pub record Runner : Type 0 where
  pub phase : Phase
  pub cancelled : Bool
  pub ln : Option ℕ
  pub listening : Bool
  pub last_err : Str
  pub conns : List (ℕ × Unit {0})
  pub active_conns : ℕ
  pub leaving : List ℕ
  pub counted : List ℕ
  pub backoff : ℕ
  pub stats : NodeStats
  pub sockets : List ℕ
  pub closed : List ℕ

-- The literal of `StartPort`, and `go pl.run()`.
unfoldable pub new_runner : NodeStats → Runner
new_runner st = record {
  phase = tests;
  cancelled = false;
  ln = none;
  listening = false;
  last_err = [];
  conns = [];
  active_conns = 0;
  leaving = [];
  counted = [];
  backoff = second;
  stats = st;
  sockets = [];
  closed = [];
}

unfoldable pub test_context : Runner → Runner
test_context r = record r { phase = if r.cancelled then ended else binds }

-- `Listen` fails.
unfoldable pub bind_fails : ℕ → Str → Runner → Runner
bind_fails port err r = record r {
  phase = waits;
  listening = false;
  last_err = err;
  stats = record_bind_error port r.stats;
}

-- `Listen` succeeds with a socket that is now open.
unfoldable pub bind_succeeds : ℕ → Runner → Runner
bind_succeeds l r = record r { phase = bound l; sockets = l ∷ r.sockets; backoff = second }

-- The end of the wait, by the timer.
unfoldable pub wake : Runner → Runner
wake r = record r {
  phase = tests;
  backoff = if ltb r.backoff (30 * second) then r.backoff * 2 else r.backoff;
}

unfoldable pub publish : ℕ → Runner → Runner
publish l r = record r { phase = accepts l; ln = some l; listening = true; last_err = [] }

-- The two parts of `track`, for a connection that `Accept` returned: the map under the lock, and
-- then the count.
unfoldable pub track : ℕ → ℕ → Runner → Runner
track l c r = record r { phase = tracks l c; conns = insert c tt r.conns }

unfoldable pub count_tracked : ℕ → Runner → Runner
count_tracked l r = record r { phase = accepts l; active_conns = r.active_conns + 1 }

-- The three parts of `untrack`: the map under the lock, the count, and `Close`. The count is an
-- int64; `Counted` is about its value.
unfoldable pub untrack : ℕ → Runner → Runner
untrack c r = record r { conns = delete c r.conns; leaving = c ∷ r.leaving }

unfoldable pub count_untracked : List ℕ → List ℕ → ℕ → Runner → Runner
count_untracked before after c r = record r {
  active_conns = r.active_conns - 1;
  leaving = before ++ after;
  counted = c ∷ r.counted;
}

unfoldable pub close_untracked : List ℕ → List ℕ → ℕ → Runner → Runner
close_untracked before after c r = record r { counted = before ++ after; closed = c ∷ r.closed }

-- `ln.Close()`: a second close does nothing.
unfoldable pub close_socket : ℕ → Runner → Runner
close_socket l r = record r { sockets = keep (λ x. not (x == l)) r.sockets }

-- `Accept` fails: `accept` returns, and its deferred `Close` runs.
unfoldable pub accept_fails : ℕ → Str → Runner → Runner
unfolding close_socket
accept_fails l err r =
    close_socket l
      (record r { phase = leaves l; last_err = if r.cancelled then r.last_err else err })

-- What `run` does behind `accept`.
unfoldable pub leave_accept : Runner → Runner
leave_accept r = record r { phase = if r.cancelled then ended else tests; listening = false }

unfoldable pub close_published : Option ℕ → Runner → Runner
unfolding close_socket
close_published none r = r
close_published (some l) r = close_socket l r

-- `stop`.
unfoldable pub halt : Bool → Runner → Runner
unfolding close_published
halt graceful r = close_published r.ln (record r {
  cancelled = true;
  listening = false;
  closed = if graceful then r.closed else keys r.conns ++ r.closed;
})

-- One goroutine's next action. `Listen` may succeed in a context that is cancelled, with
-- another socket than the one published last; a connection comes in on an open socket only, and is
-- another one than those that are tracked; it is forwarded, and untracked then, once `track` is over.
pub data Step (port : ℕ) (r : Runner) : Runner → Type 0 where
  tested : r.phase ≡ tests → Step port r (test_context r)
  failed : (err : Str) → r.phase ≡ binds → Step port r (bind_fails port err r)
  opened : (l : ℕ) → r.phase ≡ binds → r.ln ≢ some l → Step port r (bind_succeeds l r)
  woken : r.phase ≡ waits → Step port r (wake r)
  given_up : r.phase ≡ waits → r.cancelled ≡ true → Step port r (record r { phase = ended })
  published : (l : ℕ) → r.phase ≡ bound l → Step port r (publish l r)
  accepted :
      (l c : ℕ)
      → r.phase ≡ accepts l
      → r.sockets ≡ l ∷ []
      → lookup c r.conns ≡ none
      → Step port r (track l c r)
  tracked : (l c : ℕ) → r.phase ≡ tracks l c → Step port r (count_tracked l r)
  refused : (l : ℕ) (err : Str) → r.phase ≡ accepts l → Step port r (accept_fails l err r)
  left : (l : ℕ) → r.phase ≡ leaves l → Step port r (leave_accept r)
  forwarded :
      (c : ℕ)
      → lookup c r.conns ≡ some tt
      → ((l : ℕ) → r.phase ≢ tracks l c)
      → Step port r (untrack c r)
  uncounted :
      (before after : List ℕ) (c : ℕ)
      → r.leaving ≡ before ++ (c ∷ after)
      → Step port r (count_untracked before after c r)
  finished :
      (before after : List ℕ) (c : ℕ)
      → r.counted ≡ before ++ (c ∷ after)
      → Step port r (close_untracked before after c r)
  halted : (graceful : Bool) → Step port r (halt graceful r)

-- Whether the listener may be given a socket that `stop` does not know of.
unfoldable pub unpublished : Phase → Bool
unpublished tests = false
unpublished binds = true
unpublished (bound l) = true
unpublished waits = false
unpublished (accepts l) = false
unpublished (tracks l c) = false
unpublished (leaves l) = false
unpublished ended = false

pub data Reach (port : ℕ) (r : Runner) : Runner → Type 0 where
  here : Reach port r r
  next : {s t : Runner} → Reach port r s → Step port s t → Reach port r t
