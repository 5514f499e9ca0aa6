-- ===== src/Client/Tunnel.antt =====
-- A stream from the server's writes to the local service's reads: `handleStream` on what
-- `forward` of internal/server/listener.go writes, with the configuration of `NodeConfig` pushed.
use ws_tunnel.Prelude.{
  ℕ, ◌+◌, ◌^◌, ◌≤◌, ◌<◌, ◌≡◌, ◌≢◌, refl, inl, inr, Bool, true, false, Option, none, some, List, [],
  ◌∷◌, ◌++◌, arith, length, append_assoc, Str, str_eq, str_beq_iff, nat_eq, Option-cases, ◌∙◌,
  subst, All,
}
use ws_tunnel.Prelude.Dict.{lookup}
use ws_tunnel.Config.Text.{itoa}
use ws_tunnel.Config.{Config, PortSpec, node_config}
use ws_tunnel.Config.Valid.{IsValid}
use ws_tunnel.Config.Pushed.{owned, node_config-allowed, node_config_unknown, valid_remote}
use ws_tunnel.Protocol.Io.{Error, ok, Source, bytes}
use ws_tunnel.Protocol.Header.{
  stream_header, ack_ok, ack_port_not_allowed, write_ack, read_stream_header,
}
use ws_tunnel.Protocol.Header.Laws.{read_stream_header-stream_header}
use ws_tunnel.Protocol.Frame.{new_frame_writer, pipe, frame_eof}
use ws_tunnel.Protocol.Frame.Pipe.{pipe_sent, copied-frames}
use ws_tunnel.Protocol.Frame.Write.{frames, Accepts, close_write_once, new_frame_writer_fresh}
use ws_tunnel.Protocol.Frame.Read.{concat, Fits}
use ws_tunnel.Protocol.Message.{NodeConfig}
use ws_tunnel.Client.{
  Client, Served, remote_for, timeout_of, leave, handle_stream, handle_header, handle_port,
  serve_local, pump, refuse,
}

-- What a client that was pushed `n` looks up for a port is what the configuration gives the node.
pushed-owned :
    (cfg : Config) (node : Str) (n : NodeConfig) (p : ℕ)
    → IsValid cfg
    → node_config cfg node ≡ some n
    → p < 2 ^ 63
    → lookup (itoa p) n.ports ≡ owned node (lookup p cfg.ports)
pushed-owned cfg node n p v e hp = elim (Option-cases (lookup node cfg.nodes)) [
  | inl z ↦ ground (arith, e, node_config_unknown cfg node z)
  | inr (spec, z) ↦
      let (m, q, _, _, _, _, same) = node_config-allowed cfg node spec p v z hp in
      let mn : m ≡ n = ground (arith, e, q) in
      subst (λ (x : NodeConfig). lookup (itoa p) x.ports ≡ owned node (lookup p cfg.ports)) mn same
]

-- The local service at `remote` got exactly `ps`, the stream was answered the ack, the frames of
-- `reply` and the end marker, and the client's counters have counted both.
abbrev pub Delivers :
    {W : Type 0}
    → (W → List ℕ)
    → W
    → List (List ℕ)
    → Str
    → List (List ℕ)
    → Client
    → Served W
    → Type 0
Delivers sent w reply remote ps c r =
    (r.dialed ≡ some remote)
    × (r.delivered ≡ some (concat ps))
    × (sent r.w ≡ sent w ++ (ack_ok ∷ (frames reply ++ (frame_eof ∷ []))))
    × (r.client ≡ record c {
      bytes_in = c.bytes_in + length (concat ps);
      bytes_out = c.bytes_out + length (concat reply);
    })

module _ {W : Type 0} (write : List ℕ → W → Option Error × W) (sent : W → List ℕ)
    (accepts : Accepts write sent) where
  pump-Delivers :
      (dial : Str → ℕ → Bool) (k : ℕ) (reply : List (List ℕ)) (remote : Str) (s : Source) (w w' : W)
      (c : Client) (ps : List (List ℕ)) (rest : List ℕ)
      → sent w' ≡ sent w ++ (ack_ok ∷ [])
      → 0 < k
      → All Fits ps
      → bytes s ≡ frames ps ++ (frame_eof ∷ rest)
      → Delivers sent w reply remote ps c (pump write dial k reply remote s w' c)
  unfolding pump
  pump-Delivers dial k reply remote s w w' c ps rest acked hk fits h =
      let (fresh, open_w) = new_frame_writer_fresh write sent accepts w' in
      let (out, live, n) =
        pipe_sent write sent accepts reply 0 (new_frame_writer write w') open_w in
      let fw = (pipe write reply 0 (new_frame_writer write w')).1 in
      let shut = close_write_once write sent accepts fw live in
      let up = copied-frames k s ps rest hk fits h in
      (
        refl,
        up,
        shut
            ∙ ground (
              arith,
              out,
              fresh,
              acked,
              append_assoc (sent w) (ack_ok ∷ []) (frames reply),
              append_assoc (sent w) (ack_ok ∷ frames reply) (frame_eof ∷ []),
            ),
        ground (arith, n, up),
      )

  serve_local-Delivers :
      (dial : Str → ℕ → Bool) (k : ℕ) (reply : List (List ℕ)) (remote : Str) (s : Source) (w : W)
      (c : Client) (ps : List (List ℕ)) (rest : List ℕ)
      → 0 < k
      → All Fits ps
      → bytes s ≡ frames ps ++ (frame_eof ∷ rest)
      → Delivers sent w reply remote ps c (serve_local write dial k reply remote s w c)
  unfolding serve_local write_ack
  serve_local-Delivers dial k reply remote s w c ps rest hk fits h =
      let (none_err, acked) = accepts (ack_ok ∷ []) w in
      rw (none_err, serve_local)
        (pump-Delivers dial k reply remote s w (write (ack_ok ∷ []) w).1 c ps rest acked hk fits h)

  abbrev enter : Client → Client
  enter c = record c { active_streams = c.active_streams + 1 }

  leave-Delivers :
      (reply : List (List ℕ)) (remote : Str) (w : W) (c : Client) (ps : List (List ℕ))
      (r : Served W)
      → Delivers sent w reply remote ps (enter c) r
      → Delivers sent w reply remote ps c (leave r)
  leave-Delivers reply remote w c ps r (d, b, o, e) = (d, b, o, ground (arith, e))

  module _ (dial : Str → ℕ → Bool) (k : ℕ) (reply : List (List ℕ)) (cfg : Config) (n : NodeConfig)
      (src : Source) (w : W) (c : Client) where
    handle_stream_ok :
        (port : ℕ) (s : Source)
        → read_stream_header src ≡ (ok port, s)
        → handle_stream write dial k reply src w c
          ≡ leave (handle_port write dial k reply port s w (enter c))
    unfolding handle_stream handle_header
    handle_stream_ok port s e = rw (e, handle_stream) refl

    port_served :
        (port : ℕ) (s : Source) (remote : Str) (d : Client)
        → d.draining ≡ false
        → remote_for port d.cfg ≡ remote
        → remote ≢ []
        → dial remote (timeout_of d.cfg) ≡ true
        → handle_port write dial k reply port s w d ≡ serve_local write dial k reply remote s w d
    unfolding handle_port
    port_served port s remote d live found ne dialed =
        ground (arith, live, found, ne, dialed, str_beq_iff remote [])

    port_refused :
        (port : ℕ) (s : Source) (d : Client)
        → d.draining ≡ false
        → remote_for port d.cfg ≡ []
        → handle_port write dial k reply port s w d ≡ refuse write ack_port_not_allowed w d
    unfolding handle_port
    port_refused port s d live found =
        ground (arith, live, found, (str_beq_iff (remote_for port d.cfg) []).1 found)

    listed_remote :
        (port : ℕ) (o : Option Str)
        → lookup (itoa port) n.ports ≡ o
        → c.cfg ≡ some n
        → remote_for port c.cfg ≡ (elim o [ none ↦ [] | some r ↦ r ])
    listed_remote port o e held = ground (arith, e, held)

    -- Let `cfg` be a valid configuration, `n` what it pushes to a node, and `port` one of that
    -- node's ports; let the client hold `n` and not drain, the local service accept the dial
    -- within the pushed timeout, and the stream take every write. If the stream delivers, in any
    -- chunks, the header of `port`, the frames of `ps` (each at most 1 MiB) and the end marker,
    -- then the client dials exactly the configured remote address, hands the local service exactly
    -- the bytes of `ps`, and answers the ok ack, the frames of what the service replies and the end
    -- marker, and nothing else; its byte counters count both, and no stream stays active.
    pub handle_stream-Delivers :
        (node : Str) (port : ℕ) (spec : PortSpec) (ps : List (List ℕ)) (rest : List ℕ)
        → IsValid cfg
        → node_config cfg node ≡ some n
        → lookup port cfg.ports ≡ some spec
        → spec.node ≡ node
        → c.cfg ≡ some n
        → c.draining ≡ false
        → dial spec.remote (timeout_of (some n)) ≡ true
        → 0 < k
        → All Fits ps
        → bytes src ≡ stream_header port ++ (frames ps ++ (frame_eof ∷ rest))
        → Delivers sent w reply spec.remote ps c (handle_stream write dial k reply src w c)
    handle_stream-Delivers node port spec ps rest v pushed l own held live dialed hk fits h =
        let (_, lo, hi, _, _, good) = v.ports port spec l in
        let (u, e, b, _) =
          read_stream_header-stream_header port src (frames ps ++ (frame_eof ∷ rest)) lo hi h in
        let found = pushed-owned cfg node n port v pushed (omega (arith, hi)) in
        let ne = valid_remote spec.remote good in
        let remote = listed_remote port _ found held ∙ owned_remote l own in
        let served = port_served port u spec.remote (enter c) live remote ne (rw held dialed) in
        rw (handle_stream_ok port u e) (
          leave-Delivers reply spec.remote w c ps _ (
            rw served
              (serve_local-Delivers dial k reply spec.remote u w (enter c) ps rest hk fits b)))
      where
        owned_remote :
            lookup port cfg.ports ≡ some spec
            → spec.node ≡ node
            → (elim (owned node (lookup port cfg.ports)) [ none ↦ [] | some r ↦ r ]) ≡ spec.remote
        owned_remote l own = ground (arith, l, (str_beq_iff spec.node node).1 own)

    -- Let `cfg` be a valid configuration that gives `port`, in 1..65535, to no node or to another
    -- one than the node that it pushes `n` to; let the client hold `n` and not drain, and the
    -- stream take every write and deliver, in any chunks, the header of `port` and then anything.
    -- Then the client dials nothing and answers the single ack byte `AckPortNotAllowed`, hands
    -- nothing on, and its state is as before.
    pub handle_stream_foreign :
        (node : Str) (port : ℕ) (payload : List ℕ)
        → IsValid cfg
        → node_config cfg node ≡ some n
        → owned node (lookup port cfg.ports) ≡ none
        → c.cfg ≡ some n
        → c.draining ≡ false
        → 1 ≤ port
        → port ≤ 65535
        → bytes src ≡ stream_header port ++ payload
        → let r = handle_stream write dial k reply src w c in
          (r.dialed ≡ none)
          × (r.delivered ≡ none)
          × (sent r.w ≡ sent w ++ (ack_port_not_allowed ∷ []))
          × (r.client ≡ c)
    unfolding refuse write_ack
    handle_stream_foreign node port payload v pushed foreign held live lo hi h =
        let (u, e, b, _) = read_stream_header-stream_header port src payload lo hi h in
        let found = pushed-owned cfg node n port v pushed (omega (arith, hi)) in
        let remote = listed_remote port none (found ∙ foreign) held in
        let (_, acked) = accepts (ack_port_not_allowed ∷ []) w in
        rw (handle_stream_ok port u e)
          (rw (port_refused port u (enter c) live remote) (refl, refl, acked, ground arith))
