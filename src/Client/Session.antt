-- ===== src/Client/Session.antt =====
-- The control channel of internal/client/client.go: `runSession`, `controlLoop`, `statsLoop` and
-- `Shutdown`. Log lines and the deadlines of reads are left out: a read is a message, an error, or
-- an error by the end of the context.
pub mod Follows
pub mod Examples
use ws_tunnel.Prelude.{
  ℕ, Bool, true, false, ◌&&◌, ◌||◌, Option, none, some, List, [], ◌∷◌, ◌++◌, if◌then◌else◌, Str,
  ◌==◌, str_eq, str_beq,
}
use ws_tunnel.Protocol.Header.{codes}
use ws_tunnel.Protocol.Message.{NodeConfig}
use ws_tunnel.Protocol.Control.{
  Message, Stats, of_type, type_hello, type_welcome, type_reload_config, type_ping, type_pong,
  type_stats, type_drain, type_bye, type_error, err_node_busy, err_auth_failed, bye_message,
}
use ws_tunnel.Client.{Client}
use ws_tunnel.Client.Supervisor.{Supervisor, new_supervisor, set_target, stop}

-- The state of a session: `written` is what was sent on the control channel.
pub record Session : Type 0 where
  pub client : Client
  pub sup : Supervisor
  pub written : List Message

-- What `ReadJSON` answers.
pub data Read : Type 0 where
  received : Message → Read
  failed : Str → Read
  cancelled : Str → Read

-- Where the loop is: it waits for more, or has returned, with an error or nil.
pub data Turn : Type 0 where
  waits : Session → Turn
  returned : Session → Option Str → Turn

-- `sendControl` on a channel that is there; errors are ignored by its callers.
pub send_control : (Message → Bool) → Message → Session → Session
send_control w m s = if w m then record s { written = s.written ++ (m ∷ []) } else s

-- `setConfig`, and `SetTarget` of the supervisor.
pub take_config : NodeConfig → Session → Session
take_config n s = record s {
  client = record s.client { cfg = some n };
  sup = set_target n.channels s.sup;
}

-- The body of the loop of `controlLoop` on a message.
pub on_message : (Message → Bool) → Message → Session → Turn
unfolding send_control take_config
on_message w m s =
    if m.typ == type_ping
    then waits (send_control w (record (of_type type_pong) { nonce = m.nonce; ts = m.ts }) s)
    else if m.typ == type_reload_config
    then waits (elim m.config [ none ↦ s | some n ↦ take_config n s ])
    else if m.typ == type_drain
    then waits (record s { client = record s.client { draining = true } })
    else if m.typ == type_bye
    then returned s none
    else if (m.typ == type_error) && (m.code == err_node_busy || m.code == err_auth_failed)
    then returned s (some (m.code ++ codes ": " ++ m.msg))
    else waits s

pub on_read : (Message → Bool) → Read → Session → Turn
unfolding on_message
on_read w (received m) s = on_message w m s
on_read w (failed e) s = returned s (some e)
on_read w (cancelled e) s = returned s none

-- `controlLoop` on the reads that it will make.
pub control_loop : (Message → Bool) → List Read → Session → Turn
unfolding on_read
control_loop w [] s = waits s
control_loop w (r ∷ rs) s = elim (on_read w r s) [
  | waits t ↦ control_loop w rs t
  | returned t e ↦ returned t e
]

-- The deferred `sup.Stop()`.
stop_workers : Turn → Turn
stop_workers (waits s) = waits s
stop_workers (returned s e) = returned (record s { sup = stop s.sup }) e

-- What became of `runSession`: it waits for the reply, has returned before the loop, or is at some
-- turn of that.
pub data Run : Type 0 where
  greets : Client → Run
  failed_early : Client → Str → Run
  runs : Turn → Run

-- The hello was answered with a welcome.
pub begin_session : (Message → Bool) → NodeConfig → Str → List Read → Client → Run
unfolding control_loop stop_workers
begin_session w n session rs c =
    let client : Client = record c { cfg = some n; session = session; draining = false } in
    runs (
      stop_workers (
        control_loop w rs
          (record { client = client; sup = set_target n.channels new_supervisor; written = [] })))

pub hello_reply : (Message → Bool) → Message → List Read → Client → Run
unfolding begin_session
hello_reply w m rs c =
    if m.typ == type_welcome
    then elim m.config [
      | none ↦ failed_early c (codes "welcome carried no config")
      | some n ↦ begin_session w n m.session rs c
    ]
    else if m.typ == type_error
    then failed_early c (codes "server refused the handshake: " ++ m.code ++ codes " " ++ m.msg)
    else failed_early c (codes "unexpected reply to hello: " ++ m.typ)

-- `runSession` on a channel that was dialled; `sent` is the error of writing the hello, if any.
pub run_session : (Message → Bool) → Option Str → List Read → Client → Run
unfolding hello_reply
run_session w (some e) rs c = failed_early c e
run_session w none [] c = greets c
run_session w none (received m ∷ rs) c = hello_reply w m rs c
run_session w none (failed e ∷ rs) c = failed_early c e
run_session w none (cancelled e ∷ rs) c = failed_early c e

-- What `statsLoop` sends at each tick; `online` is `channelsOnline`.
pub stats_message : ℕ → Client → Message
stats_message online c = record (of_type type_stats) {
  stats = some (record {
    channels = online;
    streams = c.active_streams;
    bytes_in = c.bytes_in;
    bytes_out = c.bytes_out;
    local_dial_errors = c.local_dial_errors;
  });
}

-- `Shutdown` up to its wait, and after it.
pub begin_shutdown : Client → Client
begin_shutdown c = record c { draining = true }

pub end_shutdown : (Message → Bool) → Session → Session
unfolding send_control
end_shutdown w s = send_control w (bye_message (codes "client shutting down")) s
