-- ===== src/Protocol/Message.antt =====
-- internal/protocol/message.go: the configuration that the server pushes to a node.
pub mod Equal
use ws_tunnel.Prelude.{
  ℕ, suc, ◌≡◌, ◌≢◌, refl, ◌⊎◌, inl, inr, Bool, true, false, ◌&&◌, ◌||◌, not, Option, none, some,
  List, [], ◌∷◌, arith, nat_beq, if◌then◌else◌, length, Str, ◌==◌, str_eq, str_beq, str_beq_iff,
  nat_eq, is_some, Bool-cases, ap,
}
use ws_tunnel.Prelude.Dict.{lookup, lookup_or}

-- Ports are keyed by their decimal strings; durations are counted in nanoseconds.
pub record NodeConfig : Type 0 where
  pub ports : List (Str × Str)
  pub channels : ℕ
  pub heartbeat : ℕ
  pub dial_timeout : ℕ
  pub max_streams_per_conn : ℕ

-- `o.Ports[k] != v` for each entry; a missing key reads as the empty string.
pub ports_agree : List (Str × Str) → List (Str × Str) → Bool
ports_agree [] o = true
ports_agree ((k, v) ∷ c) o =
    let rest = ports_agree c o in if lookup_or [] k o == v then rest else false

config_equal : NodeConfig → NodeConfig → Bool
config_equal c o =
    if not (nat_beq c.channels o.channels)
      || not (nat_beq c.heartbeat o.heartbeat)
      || not (nat_beq c.dial_timeout o.dial_timeout)
      || not (nat_beq c.max_streams_per_conn o.max_streams_per_conn)
    then false
    else if not (nat_beq (length c.ports) (length o.ports))
    then false
    else ports_agree c.ports o.ports

-- `Equal`; `none` is the nil pointer.
pub equal : Option NodeConfig → Option NodeConfig → Bool
unfolding config_equal
equal none none = true
equal none (some o) = false
equal (some c) none = false
equal (some c) (some o) = config_equal c o

-- Two maps with the same entries.
abbrev pub SamePorts : List (Str × Str) → List (Str × Str) → Type 0
SamePorts c o = (k : Str) → lookup k c ≡ lookup k o

-- The fields besides the ports agree.
abbrev pub SameRest : NodeConfig → NodeConfig → Type 0
SameRest c o =
    (c.channels ≡ o.channels)
    × (c.heartbeat ≡ o.heartbeat)
    × (c.dial_timeout ≡ o.dial_timeout)
    × (c.max_streams_per_conn ≡ o.max_streams_per_conn)

abbrev pub NoEmptyRemote : List (Str × Str) → Type 0
NoEmptyRemote m = (k : Str) → lookup k m ≢ some []
