-- ===== src/Config/Lookup.antt =====
-- `NodeByKey` and `NodeConfig` on a valid configuration.
use ws_tunnel.Prelude.{
  ◌≡◌, ◌≢◌, ◌↔◌, refl, ◌⊎◌, inl, inr, true, Option, none, some, List, [], ◌∷◌, arith, Str, ◌==◌,
  str_eq, str_beq_iff, nat_eq, Bool-cases, sym, ◌∙◌,
}
use ws_tunnel.Prelude.Dict.{lookup}
use ws_tunnel.Prelude.Sets.{contains, contains-keys}
use ws_tunnel.Config.{Config, NodeSpec, try_key, match_key, node_by_key}
use ws_tunnel.Config.Valid.{IsValid}

match_found :
    (key : Str) (nodes : List (Str × NodeSpec)) (names : List Str) (m : NodeSpec)
    → match_key key nodes names (some m) ≡ some m
unfolding match_key try_key
match_found key nodes [] m = refl
match_found key nodes (n ∷ names) m = ground (arith, match_found key nodes names m)

-- Where a match comes from.
abbrev pub Match : Str → List (Str × NodeSpec) → NodeSpec → Type 0
Match key nodes spec = (name : Str) × (lookup name nodes ≡ some spec) × (spec.key ≡ key)

try_cases :
    (key : Str) (o : Option NodeSpec)
    → ((try_key key o none ≡ none) × ((s : NodeSpec) → o ≡ some s → s.key ≢ key))
      ⊎ ((s : NodeSpec) × (o ≡ some s) × (s.key ≡ key) × (try_key key o none ≡ some s))
unfolding try_key
try_cases key none = inl (refl, λ s e. cc)
try_cases key (some n) = elim (Bool-cases (n.key == key)) [
  | inl h ↦ inr (n, refl, (str_beq_iff n.key key).0 h, rw h)
  | inr h ↦ inl (rw h, λ s e k. ground (arith, h, e, k, str_beq_iff n.key key))
]

match_key-Match :
    (key : Str) (nodes : List (Str × NodeSpec)) (names : List Str) (spec : NodeSpec)
    → match_key key nodes names none ≡ some spec
    → Match key nodes spec
unfolding match_key
match_key-Match key nodes [] spec e = cc
match_key-Match key nodes (n ∷ names) spec e = elim (try_cases key (lookup n nodes)) [
  | inl (z, _) ↦ match_key-Match key nodes names spec (rw z at e)
  | inr (s, l, k, z) ↦
      let q : s ≡ spec = ground (arith, e, z, match_found key nodes names s) in
      (n, rw (← q) l, rw (← q) k)
]

match_complete :
    (key : Str) (nodes : List (Str × NodeSpec)) (names : List Str) (name : Str) (spec : NodeSpec)
    → contains name names ≡ true
    → lookup name nodes ≡ some spec
    → spec.key ≡ key
    → (s : NodeSpec) × (match_key key nodes names none ≡ some s)
unfolding match_key
match_complete key nodes [] name spec c l k = cc
match_complete key nodes (n ∷ names) name spec c l k = elim (try_cases key (lookup n nodes)) [
  | inr (s, l', k', z) ↦ (s, rw z (match_found key nodes names s))
  | inl (z, miss) ↦
      let rest : contains name names ≡ true =
        ground (arith, c, l, k, miss spec, str_beq_iff n name) in
      let (s, r) = match_complete key nodes names name spec rest l k in (s, rw z r)
]

-- On a valid configuration a key finds exactly its node: `NodeByKey` answers a node if and only if
-- that node is configured under some name with this very key, and the key is not empty.
pub node_by_key_iff :
    (c : Config) (key : Str) (spec : NodeSpec)
    → IsValid c
    → (node_by_key c key ≡ some spec) ↔ Match key c.nodes spec
unfolding node_by_key
node_by_key_iff c [] spec v = (λ e. cc, λ m. let (n, l, k) = m in absurd ((v.nodes n spec l).1 k))
node_by_key_iff c (b ∷ key) spec v =
    (λ e. match_key-Match (b ∷ key) c.nodes c.node_order spec e, back)
  where
    back : Match (b ∷ key) c.nodes spec → match_key (b ∷ key) c.nodes c.node_order none ≡ some spec
    back m =
        let (n, l, k) = m in
        let listed : contains n c.node_order ≡ true =
          ground (arith, l, v.node_order, contains-keys n c.nodes) in
        let (s, r) = match_complete (b ∷ key) c.nodes c.node_order n spec listed l k in
        let (n', l', k') = match_key-Match (b ∷ key) c.nodes c.node_order s r in
        let same = v.key_owner n' n s spec l' l (k' ∙ sym k) in ground (arith, r, l, l', same)
