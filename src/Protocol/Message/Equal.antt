-- ===== src/Protocol/Message/Equal.antt =====
-- What `NodeConfig.Equal` decides.
use ws_tunnel.Prelude.{
  ◌≡◌, ◌≢◌, ◌↔◌, refl, true, false, Option, none, some, List, [], ◌∷◌, arith, length, Str, str_eq,
  str_beq_iff, nat_eq, ap, sym, beq_refl,
}
use ws_tunnel.Prelude.Dict.{lookup, lookup_or, delete, lookup-delete}
use ws_tunnel.Prelude.Sets.{Unique, contains, keys, contains-keys, delete-Unique, length-delete}
use ws_tunnel.Protocol.Message.{
  NodeConfig, ports_agree, equal, config_equal, SamePorts, SameRest, NoEmptyRemote,
}

abbrev Ports : Type 0
Ports = List (Str × Str)

-- An entry that agrees is there.
agree_found :
    (v : Str) (r : Option Str)
    → v ≢ []
    → (elim r as (λ _. Str) [ none ↦ [] | some x ↦ x ]) ≡ v
    → r ≡ some v
agree_found v none ne e = absurd (ne (sym e))
agree_found v (some x) ne e = ap some e

-- Without a key that the walked map does not have, the other map agrees all the same.
agree-delete :
    (k : Str) (c o : Ports)
    → contains k (keys c) ≡ false
    → ports_agree c (delete k o) ≡ ports_agree c o
unfolding ports_agree
agree-delete k [] o h = refl
agree-delete k ((j, v) ∷ c) o h =
    ground (arith, agree-delete k c o, lookup-delete k j o, str_beq_iff j k, str_beq_iff k j)

tail-NoEmptyRemote :
    (k v : Str) (c : Ports)
    → contains k (keys c) ≡ false
    → NoEmptyRemote ((k, v) ∷ c)
    → NoEmptyRemote c
unfolding lookup
tail-NoEmptyRemote k v c h ne j e = ne j (ground (arith, e, h, contains-keys k c, str_beq_iff k j))

agree→same :
    (c o : Ports)
    → Unique (keys c)
    → Unique (keys o)
    → NoEmptyRemote c
    → length c ≡ length o
    → ports_agree c o ≡ true
    → SamePorts c o
unfolding ports_agree lookup
agree→same [] [] uc uo ne len a k = refl
agree→same [] (x ∷ o) uc uo ne len a k = absurd (omega arith)
agree→same ((k, v) ∷ c) o uc uo ne len a j =
    let v_ne : v ≢ [] = λ e. ne k (rw (beq_refl k) (ap some e)) in
    let found : lookup k o ≡ some v =
      agree_found v (lookup k o) v_ne (ground (arith, a, str_beq_iff (lookup_or [] k o) v)) in
    let rest : ports_agree c (delete k o) ≡ true = ground (arith, a, agree-delete k c o uc.0) in
    let ih =
      agree→same c (delete k o) uc.1 (delete-Unique k o uo) (tail-NoEmptyRemote k v c uc.0 ne)
        (omega (arith, length-delete k v o uo found)) rest j in
    ground (arith, ih, found, lookup-delete k j o, str_beq_iff k j)

same-delete :
    (k v : Str) (c o : Ports)
    → contains k (keys c) ≡ false
    → SamePorts ((k, v) ∷ c) o
    → SamePorts c (delete k o)
unfolding lookup
same-delete k v c o h s j =
    ground (arith, s j, h, contains-keys k c, lookup-delete k j o, str_beq_iff k j)

same→length :
    (c o : Ports) → Unique (keys c) → Unique (keys o) → SamePorts c o → length c ≡ length o
unfolding lookup
same→length [] [] uc uo s = refl
same→length [] ((k, v) ∷ o) uc uo s = let h = s k in ground (arith, h, str_beq_iff k k)
same→length ((k, v) ∷ c) o uc uo s =
    let found : lookup k o ≡ some v = ground (arith, s k, str_beq_iff k k) in
    let ih = same→length c (delete k o) uc.1 (delete-Unique k o uo) (same-delete k v c o uc.0 s) in
    omega (arith, ih, length-delete k v o uo found)

same→agree : (c o : Ports) → Unique (keys c) → SamePorts c o → ports_agree c o ≡ true
unfolding ports_agree lookup
same→agree [] o u s = refl
same→agree ((k, v) ∷ c) o u s =
    let found : lookup k o ≡ some v = ground (arith, s k, str_beq_iff k k) in
    let rest : ports_agree c (delete k o) ≡ true =
      same→agree c (delete k o) u.1 (same-delete k v c o u.0 s) in
    ground (arith, found, rest, agree-delete k c o u.0, str_beq_iff v v)

-- For two configurations whose ports are maps (no key twice), the first without an empty remote
-- address: `Equal` holds exactly when all settings agree and the two port maps have the same
-- entries.
pub equal_iff :
    (c o : NodeConfig)
    → Unique (keys c.ports)
    → Unique (keys o.ports)
    → NoEmptyRemote c.ports
    → (equal (some c) (some o) ≡ true) ↔ (SameRest c o × SamePorts c.ports o.ports)
unfolding equal config_equal
equal_iff c o uc uo ne = (
  λ e. (ground arith, agree→same c.ports o.ports uc uo ne (ground arith) (ground arith)),
  λ s.
      ground (arith, s.0, same→length c.ports o.ports uc uo s.1, same→agree c.ports o.ports uc s.1),
)
