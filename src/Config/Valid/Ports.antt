-- ===== src/Config/Valid/Ports.antt =====
-- What the loop of `Load` over `ports` keeps.
use ws_tunnel.Prelude.{
  ℕ, ◌≤◌, ◌≡◌, refl, inl, inr, Bool, true, false, ◌||◌, Option, none, some, List, [], ◌∷◌, arith,
  Str, str_eq, nat_eq, nat_beq, is_some, Bool-cases, Option-cases, ltb,
}
use ws_tunnel.Prelude.Int.{ℤ, pos, negsuc}
use ws_tunnel.Prelude.Dict.{lookup, lookup-insert}
use ws_tunnel.Prelude.Sets.{Unique, keys, Unique-append, contains-keys, keys-insert}
use ws_tunnel.Config.Text.{atoi}
use ws_tunnel.Config.{
  NodeSpec, PortSpec, RawPort, PortsState, Warning, add_port, load_port, load_port_value,
  load_port_number, load_ports, valid_host_port, warn_port,
}
use ws_tunnel.Config.Valid.Nodes.{none_of_is_some}

module _ (reserved : ℕ → Bool) (nodes : List (Str × NodeSpec)) where
  abbrev pub PortOk : ℕ → PortSpec → Type 0
  PortOk p spec =
      (spec.port ≡ p)
      × (1 ≤ p)
      × (p ≤ 65535)
      × (reserved p ≡ false)
      × (is_some (lookup spec.node nodes) ≡ true)
      × (valid_host_port spec.remote ≡ true)

  pub record PortsOk (s : PortsState) : Type 0 where
    pub entries : (p : ℕ) (spec : PortSpec) → lookup p s.ports ≡ some spec → PortOk p spec
    pub once : Unique s.order
    pub as_keys : keys s.ports ≡ s.order

  warn-PortsOk : (w : Warning) (s : PortsState) → PortsOk s → PortsOk (warn_port w s)
  warn-PortsOk w s ok = record { entries = ok.entries; once = ok.once; as_keys = ok.as_keys }

  add_port-PortsOk :
      (p : ℕ) (rp : RawPort) (s : PortsState)
      → lookup p s.ports ≡ none
      → PortOk p (record { port = p; node = rp.node; remote = rp.remote })
      → PortsOk s
      → PortsOk (add_port p rp s)
  unfolding add_port
  add_port-PortsOk p rp s fresh good ok =
      let spec : PortSpec = record { port = p; node = rp.node; remote = rp.remote } in
      record {
        entries = λ n x e. elim (Bool-cases (nat_beq p n)) [
          | inl same ↦
              let q : spec ≡ x = ground (arith, e, same, lookup-insert p n spec s.ports) in
              let m : p ≡ n = ground arith in rw (← q, ← m) good
          | inr other ↦ ok.entries n x (ground (arith, e, other, lookup-insert p n spec s.ports))
        ];
        once =
            Unique-append p s.order (ground (arith, ok.as_keys, contains-keys p s.ports, fresh))
              ok.once;
        as_keys = ground (arith, keys-insert p spec s.ports fresh, ok.as_keys);
      }

  load_port_value-PortsOk :
      (k : Str) (p : ℕ) (v : Option RawPort) (s : PortsState)
      → lookup p s.ports ≡ none
      → (1 ≤ p) × (p ≤ 65535) × (reserved p ≡ false)
      → PortsOk s
      → PortsOk (load_port_value reserved nodes k p v s)
  unfolding load_port_value
  load_port_value-PortsOk k p none s fresh good ok = warn-PortsOk _ s ok
  load_port_value-PortsOk k p (some rp) s fresh good ok =
      elim (Bool-cases (is_some (lookup rp.node nodes))) [
        | inr h ↦ rw h (warn-PortsOk _ s ok)
        | inl known ↦ rw known (elim (Bool-cases (valid_host_port rp.remote)) [
          | inr h ↦ rw h (warn-PortsOk _ s ok)
          | inl valid ↦
              rw valid
                (add_port-PortsOk p rp s fresh (refl, good.0, good.1, good.2, known, valid) ok)
        ])
      ]

  load_port_number-PortsOk :
      (k : Str) (p : ℤ) (v : Option RawPort) (s : PortsState)
      → PortsOk s
      → PortsOk (load_port_number reserved nodes k p v s)
  unfolding load_port_number
  load_port_number-PortsOk k (negsuc p) v s ok = warn-PortsOk _ s ok
  load_port_number-PortsOk k (pos p) v s ok = elim (Bool-cases (ltb p 1 || ltb 65535 p)) [
    | inl h ↦ rw h (warn-PortsOk _ s ok)
    | inr range ↦ rw range (elim (Bool-cases (reserved p)) [
      | inl h ↦ rw h (warn-PortsOk _ s ok)
      | inr free ↦ rw free (elim (Bool-cases (is_some (lookup p s.ports))) [
        | inl h ↦ rw h (warn-PortsOk _ s ok)
        | inr fresh ↦ rw fresh (
            load_port_value-PortsOk k p v s (none_of_is_some _ fresh)
              (ground arith, ground arith, free) ok)
      ])
    ])
  ]

  load_port-PortsOk :
      (kv : Str × Option RawPort) (s : PortsState)
      → PortsOk s
      → PortsOk (load_port reserved nodes kv s)
  unfolding load_port
  load_port-PortsOk (k, v) s ok = elim (Option-cases (atoi k)) [
    | inl h ↦ rw (h, load_port) (warn-PortsOk _ s ok)
    | inr (p, h) ↦ rw (h, load_port) (load_port_number-PortsOk k p v s ok)
  ]

  pub load_ports-PortsOk :
      (kvs : List (Str × Option RawPort)) (s : PortsState)
      → PortsOk s
      → PortsOk (load_ports reserved nodes kvs s)
  unfolding load_ports
  load_ports-PortsOk [] s ok = ok
  load_ports-PortsOk (kv ∷ kvs) s ok = load_ports-PortsOk kvs _ (load_port-PortsOk kv s ok)
