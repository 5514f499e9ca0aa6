-- ===== src/Server/Stats.antt =====
-- `NodeStats` of internal/server/registry.go: the counters of a node that live as long as the
-- process. The counters are int64 in the source; no run comes near 2^63 events.
use ws_tunnel.Prelude.{
  ℕ, ◌+◌, ◌≡◌, Option, none, some, List, [], arith, leb, if◌then◌else◌, nat_eq, Str, ◌==◌, str_eq,
}
use ws_tunnel.Prelude.Dict.{lookup, insert, lookup-insert}
use ws_tunnel.Protocol.Header.{codes}

pub record NodeStats : Type 0 where
  pub opened : ℕ
  pub result_ok : ℕ
  pub result_timeout : ℕ
  pub result_not_allowed : ℕ
  pub result_dial_failed : ℕ
  pub result_rejected : ℕ
  pub saturated : ℕ
  pub local_dial_errors : ℕ
  pub peak : ℕ
  pub bytes_in : ℕ
  pub bytes_out : ℕ
  pub connected_at : Option ℕ  -- none: the zero time
  pub disconnected_at : Option ℕ
  pub last_error : Str
  pub bind_errors : List (ℕ × ℕ)

abbrev pub no_stats : NodeStats
no_stats = record {
  opened = 0;
  result_ok = 0;
  result_timeout = 0;
  result_not_allowed = 0;
  result_dial_failed = 0;
  result_rejected = 0;
  saturated = 0;
  local_dial_errors = 0;
  peak = 0;
  bytes_in = 0;
  bytes_out = 0;
  connected_at = none;
  disconnected_at = none;
  last_error = [];
  bind_errors = [];
}

-- `RecordResult`.
unfoldable pub record_result : Str → NodeStats → NodeStats
record_result r s =
    if r == codes "ok"
    then record s { result_ok = s.result_ok + 1 }
    else if r == codes "timeout"
    then record s { result_timeout = s.result_timeout + 1 }
    else if r == codes "not_allowed"
    then record s { result_not_allowed = s.result_not_allowed + 1 }
    else if r == codes "dial_failed"
    then record s { result_dial_failed = s.result_dial_failed + 1 }
    else record s { result_rejected = s.result_rejected + 1 }

-- `Result`.
unfoldable pub result : Str → NodeStats → ℕ
result r s =
    if r == codes "ok"
    then s.result_ok
    else if r == codes "timeout"
    then s.result_timeout
    else if r == codes "not_allowed"
    then s.result_not_allowed
    else if r == codes "dial_failed"
    then s.result_dial_failed
    else s.result_rejected

-- `ObserveDemand`: the loop of compare-and-swap ends with the larger of the two.
unfoldable pub observe : ℕ → NodeStats → NodeStats
observe v s = if leb v s.peak then s else record s { peak = v }

-- `BindErrors`: a missing key reads 0.
unfoldable pub bind_errors_of : ℕ → NodeStats → ℕ
bind_errors_of port s = elim (lookup port s.bind_errors) [ none ↦ 0 | some k ↦ k ]

-- `RecordBindError`.
unfoldable pub record_bind_error : ℕ → NodeStats → NodeStats
unfolding bind_errors_of
record_bind_error port s = record s {
  bind_errors = insert port (bind_errors_of port s + 1) s.bind_errors;
}

-- All outcomes together.
abbrev pub outcomes : NodeStats → ℕ
outcomes s =
    s.result_ok + s.result_timeout + s.result_not_allowed + s.result_dial_failed + s.result_rejected

-- Every label, known or not, counts one outcome, and `Result` of the same label reads it.
pub result-record_result :
    (r : Str) (s : NodeStats)
    → (result r (record_result r s) ≡ result r s + 1)
      × (outcomes (record_result r s) ≡ outcomes s + 1)
unfolding result record_result
result-record_result r s = ground arith

-- A failed bind of one port adds one to that port's count and leaves every other count.
pub bind_errors_of-record_bind_error :
    (p q : ℕ) (s : NodeStats)
    → bind_errors_of q (record_bind_error p s)
      ≡ (if p == q then bind_errors_of q s + 1 else bind_errors_of q s)
unfolding bind_errors_of record_bind_error
bind_errors_of-record_bind_error p q s =
    ground (arith, lookup-insert p q (bind_errors_of p s + 1) s.bind_errors)
