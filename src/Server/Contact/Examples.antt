-- ===== src/Server/Contact/Examples.antt =====
-- The theorems on the server's side of a control channel at concrete values.
use ws_tunnel.Prelude.{◌≡◌, refl, Bool, true, none, [], ◌∷◌, List}
use ws_tunnel.Protocol.Header.{codes}
use ws_tunnel.Protocol.Control.{Message, of_type, type_ping, bye_message}
use ws_tunnel.Server.Contact.{
  Contact, Incoming, received, failed, Tick, control_read_loop, ping_loop,
}
use ws_tunnel.Server.Contact.Answers.{Heard, heard, state_of, control_read_loop-Heard}
use ws_tunnel.Server.Contact.Pings.{goes_on, all_within, ping_loop_within}

abbrev writes_all : Message → Bool
writes_all m = true

abbrev contact : Contact
contact = record {
  last_seen = 10;
  rtt_micros = 0;
  client_stats = none;
  local_dial_errors = 0;
  written = [];
}

-- A ping, a bye, and an error that is never read.
abbrev reads : List Incoming
reads =
    received 20 (record (of_type type_ping) { nonce = codes "x" })
    ∷ received 30 (bye_message (codes "k"))
    ∷ failed (codes "m")
    ∷ []

control_read_loop-Heard_example :
    Heard writes_all (heard reads) contact (state_of (control_read_loop writes_all reads contact))
control_read_loop-Heard_example = control_read_loop-Heard writes_all reads contact

-- The second tick comes too late.
abbrev two_ticks : List Tick
two_ticks =
    record { now = 30; heartbeat = 10; id = [] } ∷ record { now = 41; heartbeat = 10; id = [] } ∷ []

ping_loop_within_example :
    goes_on (ping_loop writes_all [] two_ticks 10 contact) ≡ all_within 10 10 two_ticks
ping_loop_within_example =
    ping_loop_within writes_all [] two_ticks 10 contact (refl, (refl, tt)) (λ m. refl)
