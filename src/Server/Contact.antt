-- ===== src/Server/Contact.antt =====
-- What the server does on a control channel once its node is online: `controlReadLoop` and
-- `pingLoop` of internal/server/server.go, with `Touch` and `SetClientStats` of registry.go. Times
-- are nanoseconds; a read is a message with the time it came, or an error.
pub mod Answers
pub mod Pings
pub mod Examples
use ws_tunnel.Prelude.{
  ℕ, ◌-◌, ◌*◌, ◌/◌, Bool, ◌&&◌, not, Option, none, some, List, [], ◌∷◌, ◌++◌, ltb, if◌then◌else◌,
  Str, ◌==◌, str_eq, nat_eq,
}
use ws_tunnel.Prelude.Int.{ℤ, pos, at_least, to_ℕ}
use ws_tunnel.Protocol.Header.{codes}
use ws_tunnel.Protocol.Control.{Message, Stats, of_type, type_ping, type_pong, type_stats, type_bye}

-- The fields of a session that the two loops write, the count of the client's dial errors in the
-- node's statistics, and what was sent on the control channel.
pub record Contact : Type 0 where
  pub last_seen : ℕ
  pub rtt_micros : ℕ
  pub client_stats : Option Stats
  pub local_dial_errors : ℕ
  pub written : List Message

pub data Incoming : Type 0 where
  received : (now : ℕ) → Message → Incoming
  failed : Str → Incoming
  cancelled : Incoming

pub data Course : Type 0 where
  waits : Contact → Course
  returned : Contact → Str → Course

-- `Touch`.
unfoldable pub touch : ℕ → ℕ → Contact → Contact
touch now rtt s =
    if ltb 0 rtt
    then record s { last_seen = now; rtt_micros = rtt / 1000 }
    else record s { last_seen = now }

-- `SendControl`, where the error is not looked at.
unfoldable pub send : (Message → Bool) → Message → Contact → Contact
send w m s = if w m then record s { written = s.written ++ (m ∷ []) } else s

-- The pong's round trip: a time of sending that is not positive gives none, one ahead of the
-- server's clock gives one that `Touch` takes for none.
unfoldable pub pong_seen : ℕ → ℤ → Contact → Contact
unfolding touch
pong_seen now ts s = if at_least 1 ts then touch now (now - to_ℕ ts) s else s

unfoldable pub take_stats : Option Stats → Contact → Contact
take_stats none s = s
take_stats (some st) s = record s {
  client_stats = some st;
  local_dial_errors = st.local_dial_errors;
}

abbrev pub pong_of : Message → Message
pong_of m = record (of_type type_pong) { nonce = m.nonce; ts = m.ts }

-- The switch of `controlReadLoop` on a message.
unfoldable pub switch : (Message → Bool) → ℕ → Message → Contact → Course
unfolding send pong_seen take_stats
switch w now m s =
    if m.typ == type_ping
    then waits (send w (pong_of m) s)
    else if m.typ == type_pong
    then waits (pong_seen now m.ts s)
    else if m.typ == type_stats
    then waits (take_stats m.stats s)
    else if m.typ == type_bye
    then returned s (codes "client said bye: " ++ m.reason)
    else waits s

unfoldable pub on_incoming : (Message → Bool) → Incoming → Contact → Course
unfolding switch
on_incoming w (received now m) s = switch w now m (touch now 0 s)
on_incoming w (failed e) s = returned s (codes "control channel closed: " ++ e)
on_incoming w cancelled s = returned s (codes "server closed the session")

-- `controlReadLoop` on the reads that it will make.
unfoldable pub control_read_loop : (Message → Bool) → List Incoming → Contact → Course
unfolding on_incoming
control_read_loop w [] s = waits s
control_read_loop w (r ∷ rs) s = elim (on_incoming w r s) [
  | waits t ↦ control_read_loop w rs t
  | returned t e ↦ returned t e
]

-- A tick of `pingLoop`: its time, the heartbeat that is configured then, and the random id.
pub record Tick : Type 0 where
  pub now : ℕ
  pub heartbeat : ℕ
  pub id : Str

abbrev pub ping_message : Tick → Message
ping_message t = record (of_type type_ping) { nonce = t.id; ts = pos t.now }

-- Where `pingLoop` is: it waits with an interval for the next tick, or has closed the session.
pub data Pinging : Type 0 where
  ticks : (interval : ℕ) → Contact → Pinging
  closes : Contact → Str → Pinging

unfoldable pub new_interval : ℕ → ℕ → ℕ
new_interval cur interval = if not (cur == interval) && ltb 0 cur then cur else interval

-- `e` is the text of the error of a write.
unfoldable pub ping_tick : (Message → Bool) → Str → Tick → ℕ → Contact → Pinging
unfolding new_interval
ping_tick w e t interval s =
    let i = new_interval t.heartbeat interval in
    if ltb (3 * i) (t.now - s.last_seen)
    then closes s (codes "control heartbeat timeout")
    else if w (ping_message t)
    then ticks i (record s { written = s.written ++ (ping_message t ∷ []) })
    else closes s (codes "ping write failed: " ++ e)

-- `pingLoop` over ticks between which no message came in.
unfoldable pub ping_loop : (Message → Bool) → Str → List Tick → ℕ → Contact → Pinging
unfolding ping_tick
ping_loop w e [] interval s = ticks interval s
ping_loop w e (t ∷ ts) interval s = elim (ping_tick w e t interval s) [
  | ticks i u ↦ ping_loop w e ts i u
  | closes u reason ↦ closes u reason
]
