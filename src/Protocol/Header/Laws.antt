-- ===== src/Protocol/Header/Laws.antt =====
-- What the stream header and the ack byte promise.
use ws_tunnel.Prelude.{ℕ, ◌%◌, ◌^◌, ◌≤◌, ◌≡◌, ◌≢◌, List, [], ◌∷◌, ◌++◌, arith}
use ws_tunnel.Protocol.Io.{bad_version, ok, err, Source, fin, bytes, ending, read_byte_next}
use ws_tunnel.Protocol.Varint.{uvarint, read_uvarint-uvarint, read_uvarint_end}
use ws_tunnel.Protocol.Header.{stream_version, stream_header, read_stream_header}

-- For a port in 1..65535 and a source that delivers, in any chunks, the header that
-- `WriteStreamHeader` builds for it and then `payload`: `ReadStreamHeader` answers the port, and
-- the source it leaves delivers exactly `payload`, with the same final error.
pub read_stream_header-stream_header :
    (port : ℕ) (src : Source) (payload : List ℕ)
    → 1 ≤ port
    → port ≤ 65535
    → bytes src ≡ stream_header port ++ payload
    → (u : Source) × (read_stream_header src ≡ (ok port, u))
      × (bytes u ≡ payload)
      × (ending u ≡ ending src)
unfolding stream_header read_stream_header
read_stream_header-stream_header port src payload lo hi h =
    let (u, r, a, q) = read_byte_next src stream_version (uvarint (port % 2 ^ 64) ++ payload) h in
    let (v, r', a', q') = read_uvarint-uvarint (port % 2 ^ 64) u payload (omega arith) q in
    (v, ground (arith, r, r'), q', ground (arith, a.same_end, a'.same_end))

-- A first byte other than 0x02 is answered with `ErrBadVersion`, and only that byte is taken.
pub read_stream_header_version :
    (ver : ℕ) (src : Source) (rest : List ℕ)
    → ver ≢ stream_version
    → bytes src ≡ ver ∷ rest
    → (u : Source) × (read_stream_header src ≡ (err bad_version, u)) × (bytes u ≡ rest)
unfolding read_stream_header
read_stream_header_version ver src rest ne h =
    let (u, r, a, q) = read_byte_next src ver rest h in (u, ground (arith, r), q)

-- Whatever arrives, a port that `ReadStreamHeader` answers lies in 1..65535.
pub read_stream_header_range :
    (src u : Source) (port : ℕ)
    → read_stream_header src ≡ (ok port, u)
    → (1 ≤ port) × (port ≤ 65535)
unfolding read_stream_header
read_stream_header_range src u port h = ground arith

-- A source that ends right after the version byte makes `ReadStreamHeader` answer that source's
-- own final error, so a header cut there by a clean end of stream reads as a clean `io.EOF`.
pub read_stream_header_cut :
    (src : Source)
    → bytes src ≡ stream_version ∷ []
    → read_stream_header src ≡ (err (ending src), fin (ending src))
unfolding read_stream_header
read_stream_header_cut src h =
    let (u, r, a, q) = read_byte_next src stream_version [] h in
    ground (arith, r, read_uvarint_end u q, a.same_end)
