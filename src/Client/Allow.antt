-- ===== src/Client/Allow.antt =====
-- The allow-list: what `handleStream` dials.
use ws_tunnel.Prelude.{
  ℕ, ◌+◌, ◌≤◌, ◌≡◌, ◌≢◌, refl, inl, inr, Bool, false, Option, none, some, List, [], arith, Str,
  str_eq, str_beq_iff, Option-cases, sym, ◌∙◌, subst,
}
use ws_tunnel.Prelude.Dict.{lookup}
use ws_tunnel.Config.Text.{itoa}
use ws_tunnel.Protocol.Io.{Error, Result, ok, err, Source}
use ws_tunnel.Protocol.Header.{ack_ok, write_ack, read_stream_header}
use ws_tunnel.Protocol.Header.Laws.{read_stream_header_range}
use ws_tunnel.Protocol.Message.{NodeConfig}
use ws_tunnel.Client.{
  Client, remote_for, handle_stream, handle_header, handle_port, serve_local, pump, dial_failed,
  refuse, bad_header,
}

-- An address that the client may dial for a port: its pushed configuration lists the port with it.
abbrev pub Listed : Option NodeConfig → ℕ → Str → Type 0
Listed cfg port remote =
    (n : NodeConfig) × (cfg ≡ some n) × (lookup (itoa port) n.ports ≡ some remote)

remote_for-Listed :
    (cfg : Option NodeConfig) (port : ℕ)
    → remote_for port cfg ≢ []
    → Listed cfg port (remote_for port cfg)
remote_for-Listed none port ne = absurd (ne refl)
remote_for-Listed (some n) port ne = elim (Option-cases (lookup (itoa port) n.ports)) [
  | inl e ↦ absurd (ne (ground (arith, e)))
  | inr (r, e) ↦ (n, refl, ground (arith, e))
]

module _ {W : Type 0} (write : List ℕ → W → Option Error × W) (dial : Str → ℕ → Bool) (k : ℕ)
    (reply : List (List ℕ)) where
  serve_local_dialed :
      (remote : Str) (s : Source) (w : W) (c : Client)
      → (serve_local write dial k reply remote s w c).dialed ≡ some remote
  unfolding serve_local pump
  serve_local_dialed remote s w c = elim (Option-cases (write_ack write ack_ok w).0) [
    | inl e ↦ ground (arith, e)
    | inr (x, e) ↦ ground (arith, e)
  ]

  no_dial :
      (e : Error) (w : W) (c : Client) (remote : Str)
      → (bad_header write e w c).dialed ≢ some remote
  unfolding bad_header refuse
  no_dial e w c remote h = ground (arith, h)

  handle_port_dialed :
      (port : ℕ) (s : Source) (w : W) (c : Client) (remote : Str)
      → (handle_port write dial k reply port s w c).dialed ≡ some remote
      → (c.draining ≡ false) × (remote_for port c.cfg ≡ remote) × (remote ≢ [])
  unfolding handle_port refuse dial_failed
  handle_port_dialed port s w c remote h =
      let d = serve_local_dialed (remote_for port c.cfg) s w c in
      ground (arith, d, h, str_beq_iff (remote_for port c.cfg) [])

  -- Whatever the stream delivers, an address is dialled only when the client does not drain, the
  -- stream began with a header for some port in 1..65535, and the configuration that the server
  -- pushed last lists that port with that address.
  pub handle_stream-Listed :
      (st : Source) (w : W) (c : Client) (remote : Str)
      → (handle_stream write dial k reply st w c).dialed ≡ some remote
      → (port : ℕ) × (s : Source) × (read_stream_header st ≡ (ok port, s))
        × (1 ≤ port)
        × (port ≤ 65535)
        × (c.draining ≡ false)
        × Listed c.cfg port remote
  unfolding handle_stream handle_header
  handle_stream-Listed st w c remote h = go (read_stream_header st) refl h
    where
      go :
          (q : Result ℕ × Source)
          → read_stream_header st ≡ q
          → (handle_header write dial k reply q.0 q.1 w
              (record c { active_streams = c.active_streams + 1 })).dialed
            ≡ some remote
          → (port : ℕ) × (s : Source) × (read_stream_header st ≡ (ok port, s))
            × (1 ≤ port)
            × (port ≤ 65535)
            × (c.draining ≡ false)
            × Listed c.cfg port remote
      go (err e, s) q h =
          absurd (no_dial e w (record c { active_streams = c.active_streams + 1 }) remote h)
      go (ok port, s) q h =
          let (lo, hi) = read_stream_header_range st s port q in
          let (d, r, ne) =
            handle_port_dialed port s w (record c { active_streams = c.active_streams + 1 }) remote
              h in
          (
            port,
            s,
            q,
            lo,
            hi,
            d,
            subst (Listed c.cfg port) r (remote_for-Listed c.cfg port (λ z. ne (sym r ∙ z))),
          )
