-- ===== src/Client.antt =====
-- internal/client/client.go: a client's state, and `handleStream`. The WebSocket and smux layers
-- are parameters: what a stream delivers is a `Source`, a write to it is a function `write`, and
-- `dial` answers whether the local service accepts a connection within the timeout.
pub mod Allow
pub mod Tunnel
pub mod Backoff
pub mod Supervisor
pub mod Session
pub mod Examples
use ws_tunnel.Prelude.{
  ℕ, zero, suc, ◌+◌, ◌-◌, ◌*◌, ◌^◌, ◌≡◌, Bool, true, false, not, Option, none, some, List, [], ◌∷◌,
  ◌++◌, nat_beq, if◌then◌else◌, length, Str, ◌==◌, str_eq,
}
use ws_tunnel.Prelude.Dict.{lookup, lookup_or}
use ws_tunnel.Config.{second}
use ws_tunnel.Config.Text.{itoa}
use ws_tunnel.Protocol.Io.{Error, eof, Result, ok, err, Source, weight}
use ws_tunnel.Protocol.Header.{
  ack_ok, ack_port_not_allowed, ack_dial_failed, ack_rejected, write_ack, read_stream_header,
}
use ws_tunnel.Protocol.Frame.{FrameWriter, new_frame_writer, pipe, close_write, copied}
use ws_tunnel.Protocol.Message.{NodeConfig}

-- The shared state of `Client`; the counters are int64 in the source.
pub record Client : Type 0 where
  pub cfg : Option NodeConfig
  pub session : Str
  pub draining : Bool
  pub active_streams : ℕ
  pub bytes_in : ℕ
  pub bytes_out : ℕ
  pub local_dial_errors : ℕ

-- `remoteFor`: a missing key reads the empty string.
abbrev pub remote_for : ℕ → Option NodeConfig → Str
remote_for port none = []
remote_for port (some n) = lookup_or [] (itoa port) n.ports

abbrev pub dial_timeout : ℕ
dial_timeout = 15 * second

-- The timeout of a dial: the pushed one, or the constant if that is 0.
abbrev pub timeout_of : Option NodeConfig → ℕ
timeout_of none = dial_timeout
timeout_of (some n) = if nat_beq n.dial_timeout 0 then dial_timeout else n.dial_timeout

-- What `handleStream` did: the address that it dialled, what the local service was sent, the
-- stream's write side and the client.
pub record Served (W : Type 0) : Type 0 where
  pub dialed : Option Str
  pub delivered : Option (List ℕ)
  pub w : W
  pub client : Client

abbrev pub size : Option (List ℕ) → ℕ
size none = 0
size (some bs) = length bs

-- `defer c.activeStreams.Add(-1)`.
abbrev pub leave : {W : Type 0} → Served W → Served W
leave r = record r { client = record (r.client) { active_streams = (r.client).active_streams - 1 } }

module _ {W : Type 0} (write : List ℕ → W → Option Error × W) where
  refuse : ℕ → W → Client → Served W
  refuse status w c = record {
    dialed = none;
    delivered = none;
    w = (write_ack write status w).1;
    client = c;
  }

  -- A header that did not parse.
  bad_header : Error → W → Client → Served W
  unfolding refuse
  bad_header eof w c = record { dialed = none; delivered = none; w = w; client = c }
  bad_header e w c = refuse ack_rejected w c

  dial_failed : Str → W → Client → Served W
  unfolding refuse
  dial_failed remote w c = record (refuse ack_dial_failed w c) {
    dialed = some remote;
    client = record c { local_dial_errors = c.local_dial_errors + 1 };
  }

  module _ (dial : Str → ℕ → Bool) (k : ℕ) (reply : List (List ℕ)) where
    -- The two directions after the ack; they share no state but the counters.
    pump : Str → Source → W → Client → Served W
    pump remote s w c =
        let bs = copied k s in
        let (n, fw) = pipe write reply 0 (new_frame_writer write w) in
        record {
          dialed = some remote;
          delivered = bs;
          w = (close_write write fw).1.w;
          client = record c { bytes_in = c.bytes_in + size bs; bytes_out = c.bytes_out + n };
        }

    serve_local : Str → Source → W → Client → Served W
    unfolding pump
    serve_local remote s w c =
        let (e, w') = write_ack write ack_ok w in
        elim e [
          | none ↦ pump remote s w' c
          | some x ↦ record { dialed = some remote; delivered = none; w = w'; client = c }
        ]

    handle_port : ℕ → Source → W → Client → Served W
    unfolding serve_local dial_failed refuse
    handle_port port s w c =
        let remote = remote_for port c.cfg in
        if c.draining
        then refuse ack_rejected w c
        else if remote == []
        then refuse ack_port_not_allowed w c
        else if not (dial remote (timeout_of c.cfg))
        then dial_failed remote w c
        else serve_local remote s w c

    handle_header : Result ℕ → Source → W → Client → Served W
    unfolding handle_port bad_header
    handle_header (err e) s w c = bad_header e w c
    handle_header (ok port) s w c = handle_port port s w c

    -- `handleStream` on a stream that delivers `st` and takes writes on `w`.
    pub handle_stream : Source → W → Client → Served W
    unfolding handle_header
    handle_stream st w c =
        let (h, s) = read_stream_header st in
        leave (handle_header h s w (record c { active_streams = c.active_streams + 1 }))
