-- ===== src/Server/Session/Steps/Examples.antt =====
-- The theorems on `NodeSession` at a session with one data channel and one request.
use ws_tunnel.Prelude.{ℕ, ◌+◌, ◌≤◌, ◌≡◌, refl, false, [], ◌∷◌, ◌++◌, arith, length}
use ws_tunnel.Prelude.Dict.{insert}
use ws_tunnel.Server.Stats.{no_stats, observe}
use ws_tunnel.Server.Session.{
  DataChannel, NodeSession, got, handoff, handoff_loop, reserve, pick, consider, acquire,
  acquire_behind, add_channel, remove_first, release,
}
use ws_tunnel.Server.Session.Reserve.{Reserved, reserve-Reserved}
use ws_tunnel.Server.Session.Order.{IsBusy, Served, handoff-Served, add_channel-IsBusy}
use ws_tunnel.Server.Session.Balance.{count}
use ws_tunnel.Server.Session.Steps.{
  World, Step, Reach, new_session, quiet_world, count_arrival, count_opened, here, next, checks,
  comes, gets, opens, closes, adds,
}
use ws_tunnel.Server.Session.Steps.Books.{Books, queued_requests}
use ws_tunnel.Server.Session.Steps.Demand.{
  AllIdle, Reach-new_session, IsQuiet, quiet_world_clean, subtractions_exact, in_flight,
  demand_double_counts, Step-IsBusy,
}

abbrev idle : ℕ → DataChannel
idle p = record { id = p; active = 0; closed = false; sess_closed = false }

idle-AllIdle : AllIdle idle
idle-AllIdle p = refl

abbrev new : NodeSession
new = new_session idle 4 no_stats

abbrev added : World
added = record (quiet_world new) { n = add_channel 1 new }

abbrev asked : World
asked = record added { checked = 1 }

abbrev arrived : World
arrived = record asked { n = count_arrival asked.n; checked = 0; arrived = 1 }

abbrev reserved : World
reserved = record arrived { n = (acquire arrived.n).1; arrived = 0; opening = 1 ∷ [] }

abbrev opened : World
opened = record reserved { n = count_opened reserved.n; opening = []; streaming = 1 ∷ [] }

abbrev closed : World
closed = record opened { n = release 1 opened.n; streaming = [] }

gets_channel_1 : (acquire arrived.n).0 ≡ got 1
unfolding quiet_world new_session acquire acquire_behind reserve pick consider add_channel handoff
    handoff_loop observe insert
gets_channel_1 = refl

asks : Step added asked
unfolding quiet_world new_session add_channel handoff handoff_loop
asks = checks refl

arrives : Step asked arrived
unfolding quiet_world new_session
arrives = comes 0 refl

to_arrived : Reach (quiet_world new) arrived
unfolding quiet_world new_session
to_arrived = next (next (next here (adds 1)) asks) arrives

to_reserved : Reach (quiet_world new) reserved
unfolding quiet_world new_session
to_reserved = next to_arrived (gets 0 1 refl gets_channel_1)

to_closed : Reach (quiet_world new) closed
unfolding quiet_world new_session remove_first
to_closed = next (next to_reserved (opens 1 (omega arith))) (closes 1 (omega arith))

closed-IsQuiet : IsQuiet closed
unfolding quiet_world new_session
closed-IsQuiet = record {
  none_arrived = refl;
  none_waiting = refl;
  none_leaving = refl;
  none_judged = refl;
  none_returning = refl;
  none_opening = refl;
  none_dropping = refl;
  none_streaming = refl;
}

Reach-new_session_example : Books reserved
Reach-new_session_example = Reach-new_session idle 4 no_stats reserved idle-AllIdle to_reserved

quiet_world_clean_example :
    AllIdle (closed.n).heap
    × ((closed.n).active_streams ≡ 0)
    × ((closed.n).queue_depth ≡ 0)
    × ((closed.n).waiters ≡ [])
quiet_world_clean_example =
    quiet_world_clean idle 4 no_stats closed idle-AllIdle to_closed closed-IsQuiet

subtractions_exact_example :
    (count 1 (reserved.opening ++ reserved.streaming) ≤ ((reserved.n).heap 1).active)
    × (length reserved.opening + length reserved.streaming ≤ (reserved.n).active_streams)
    × (queued_requests reserved ≤ (reserved.n).queue_depth)
subtractions_exact_example = subtractions_exact idle 4 no_stats reserved 1 idle-AllIdle to_reserved

demand_double_counts_example :
    (reserved.n).active_streams + (reserved.n).queue_depth
    ≡ in_flight reserved + length reserved.opening + length (reserved.n).ready
demand_double_counts_example =
    demand_double_counts idle 4 no_stats reserved idle-AllIdle to_reserved

same_limit : (arrived.n).max_streams ≤ (asked.n).max_streams
unfolding quiet_world new_session observe
same_limit = omega arith

Step-IsBusy_example : IsBusy arrived.n
Step-IsBusy_example =
    Step-IsBusy {w = asked} {u = arrived} arrives same_limit (add_channel-IsBusy 1 new)

handoff-Served_example : Served (added.n).waiters added.n (handoff added.n)
handoff-Served_example = handoff-Served added.n

reserve-Reserved_example : Reserved added.n (reserve added.n)
reserve-Reserved_example = reserve-Reserved added.n

-- A session in which request 0 waits.
abbrev waiting_session : NodeSession
waiting_session = record {
  heap = idle;
  channels = (1, 1) ∷ [];
  waiters = 0 ∷ [];
  ready = [];
  next_waiter = 1;
  max_streams = 4;
  active_streams = 0;
  queue_depth = 1;
  chan_seq = 1;
  draining = false;
  done = false;
  stats = no_stats;
}
