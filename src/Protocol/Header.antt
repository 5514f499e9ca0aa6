-- ===== src/Protocol/Header.antt =====
-- internal/protocol/stream.go: the stream header, the ack byte, and what an ack means.
pub mod Laws
use Prim.Native.Char.{code}
use Prim.Native.String.{String}
use ws_tunnel.Prelude.{
  ℕ, ◌+◌, ◌%◌, ◌^◌, ◌≤◌, ◌<◌, ◌≡◌, refl, Bool, true, false, Option, none, some, ◌||◌, not, List, [],
  ◌∷◌, ◌++◌, arith, ltb, leb, nat_beq, if◌then◌else◌, Str,
}
use ws_tunnel.Protocol.Io.{Error, bad_version, bad_port_id, Result, ok, err, Source, read_byte}
use ws_tunnel.Protocol.Varint.{uvarint, read_uvarint}

-- The bytes of a literal.
abbrev pub codes : String → Str
codes String.[] = []
codes (String.◌∷◌ c s) = code c ∷ codes s

abbrev pub stream_version : ℕ
stream_version = 0x02

abbrev pub ack_ok : ℕ
ack_ok = 0x00

abbrev pub ack_port_not_allowed : ℕ
ack_port_not_allowed = 0x01

abbrev pub ack_dial_failed : ℕ
ack_dial_failed = 0x02

abbrev pub ack_rejected : ℕ
ack_rejected = 0x03

-- `AckResult`: the `result` label of an ack byte.
unfoldable pub ack_result : ℕ → Str
ack_result status =
    if nat_beq status ack_ok
    then codes "ok"
    else if nat_beq status ack_port_not_allowed
    then codes "not_allowed"
    else if nat_beq status ack_dial_failed
    then codes "dial_failed"
    else codes "rejected"

-- `AckReason`: the explanation for logs and /status.
unfoldable pub ack_reason : ℕ → Str
ack_reason status =
    if nat_beq status ack_ok
    then codes "ok"
    else if nat_beq status ack_port_not_allowed
    then codes "port id not in allow-list"
    else if nat_beq status ack_dial_failed
    then codes "client failed to dial the local service"
    else if nat_beq status ack_rejected
    then codes "client refused the stream"
    else codes "unknown ack status"

-- The buffer that `WriteStreamHeader` hands to one `Write`.
unfoldable pub stream_header : ℕ → List ℕ
stream_header port = stream_version ∷ uvarint (port % 2 ^ 64)

-- `w.Write` is the transport's: it takes a buffer and answers an error or none.
module _ {W : Type 0} (write : List ℕ → W → Option Error × W) where
  unfoldable pub write_stream_header : ℕ → W → Option Error × W
  write_stream_header port w = write (stream_header port) w

  unfoldable pub write_ack : ℕ → W → Option Error × W
  write_ack status w = write (status ∷ []) w

check_port : ℕ → Source → Result ℕ × Source
check_port id s = (if ltb id 1 || ltb 65535 id then err bad_port_id else ok id, s)

read_port : Source → Result ℕ × Source
unfolding check_port
read_port s =
    let (r, s') = read_uvarint s in elim r [ err e ↦ (err e, s') | ok id ↦ check_port id s' ]

-- `ReadStreamHeader`.
unfoldable pub read_stream_header : Source → Result ℕ × Source
unfolding read_port
read_stream_header s =
    let (r, s') = read_byte s in
    elim r [
      | err e ↦ (err e, s')
      | ok ver ↦
          let port = read_port s' in
          if nat_beq ver stream_version then port else (err bad_version, s')
    ]

-- `ReadAck`: `io.ReadFull` on one byte.
unfoldable pub read_ack : Source → Result ℕ × Source
read_ack s = read_byte s
