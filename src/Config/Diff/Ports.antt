-- ===== src/Config/Diff/Ports.antt =====
-- The ports of a reload.
use ws_tunnel.Prelude.{
  ℕ, ◌≡◌, ◌≢◌, ◌↔◌, refl, Bool, true, false, ◌&&◌, not, Option, none, some, arith, if◌then◌else◌,
  Str, ◌==◌, str_eq, str_beq_iff, nat_eq, is_some, leb, keep, ap, sym, ◌∙◌, Bool-cases, inl, inr,
}
use ws_tunnel.Prelude.Dict.{lookup}
use ws_tunnel.Prelude.Sets.{contains, keys, contains-keep, contains-sort, contains-keys}
use ws_tunnel.Config.{Config, PortSpec, sorted_ports}
use ws_tunnel.Config.Diff.{diff_config, same_owner}

-- The node that a port belongs to.
abbrev pub owner_of : Option PortSpec → Option Str
owner_of none = none
owner_of (some s) = some s.node

abbrev pub owner : Config → ℕ → Option Str
owner c p = owner_of (lookup p c.ports)

contains-sorted_ports :
    (c : Config) (p : ℕ) → contains p (sorted_ports c) ≡ is_some (lookup p c.ports)
unfolding sorted_ports
contains-sorted_ports c p =
    ground (arith, contains-sort leb p (keys c.ports), contains-keys p c.ports)

abbrev differs : Config → Config → ℕ → Bool
differs old cur p = not (same_owner (lookup p old.ports) (lookup p cur.ports))

contains_walk :
    (old cur c : Config) (p : ℕ)
    → contains p (keep (differs old cur) (sorted_ports c))
      ≡ (is_some (lookup p c.ports) && differs old cur p)
contains_walk old cur c p =
    contains-keep p (differs old cur) (sorted_ports c)
    ∙ ap (λ b. b && differs old cur p) (contains-sorted_ports c p)

stop_iff :
    (o q : Option PortSpec)
    → ((is_some o && not (same_owner o q)) ≡ true)
      ↔ ((owner_of o ≢ none) × (owner_of q ≢ owner_of o))
unfolding same_owner
stop_iff none q = (λ e. cc, λ h. absurd (h.0 refl))
stop_iff (some a) none = (λ e. (λ z. cc, λ z. cc), λ h. refl)
stop_iff (some a) (some b) = (
  λ e. (λ z. cc, λ z. ground (arith, e, z, str_beq_iff a.node b.node)),
  λ h. elim (Bool-cases (a.node == b.node)) [
    | inl same ↦ absurd (h.1 (ap some (sym ((str_beq_iff a.node b.node).0 same))))
    | inr other ↦ rw other
  ],
)

start_iff :
    (o q : Option PortSpec)
    → ((is_some q && not (same_owner o q)) ≡ true)
      ↔ ((owner_of q ≢ none) × (owner_of q ≢ owner_of o))
unfolding same_owner
start_iff o none = (λ e. cc, λ h. absurd (h.0 refl))
start_iff none (some b) = (λ e. (λ z. cc, λ z. cc), λ h. refl)
start_iff (some a) (some b) =
    let (to, from) = stop_iff (some a) (some b) in
    (λ e. (λ z. cc, (to e).1), λ h. from (λ z. cc, h.1))

-- A port is to be stopped exactly when it had an owner and now has another one or none, and to be
-- started exactly when it has an owner and had another one or none.
pub diff_ports :
    (old cur : Config) (p : ℕ)
    → let d = diff_config (some old) cur in
      ((contains p d.removed_ports ≡ true) ↔ ((owner old p ≢ none) × (owner cur p ≢ owner old p)))
      × ((contains p d.added_ports ≡ true) ↔ ((owner cur p ≢ none) × (owner cur p ≢ owner old p)))
unfolding diff_config
diff_ports old cur p = (
  rw (contains_walk old cur old p) (stop_iff (lookup p old.ports) (lookup p cur.ports)),
  rw (contains_walk old cur cur p) (start_iff (lookup p old.ports) (lookup p cur.ports)),
)

apply_owner :
    (o q : Option PortSpec)
    → (if is_some q && not (same_owner o q)
        then owner_of q
        else if is_some o && not (same_owner o q)
        then none
        else owner_of o)
      ≡ owner_of q
unfolding same_owner
apply_owner none none = refl
apply_owner none (some b) = refl
apply_owner (some a) none = refl
apply_owner (some a) (some b) = ground (arith, str_beq_iff a.node b.node)

-- Stopping the removed ports and then starting the added ones takes the owners of the old
-- configuration to those of the new one: for every port, if it is started it gets its new owner,
-- otherwise if it is stopped it has none, and otherwise it keeps the old one.
pub diff_ports_apply :
    (old cur : Config) (p : ℕ)
    → let d = diff_config (some old) cur in
      (if contains p d.added_ports
        then owner cur p
        else if contains p d.removed_ports
        then none
        else owner old p)
      ≡ owner cur p
unfolding diff_config
diff_ports_apply old cur p =
    rw (contains_walk old cur old p, contains_walk old cur cur p)
      (apply_owner (lookup p old.ports) (lookup p cur.ports))

present_differs : (a : PortSpec) → not (same_owner (some a) none) ≡ false → ⊥
unfolding same_owner
present_differs a h = cc

absent_differs : (b : PortSpec) → not (same_owner none (some b)) ≡ false → ⊥
unfolding same_owner
absent_differs b h = cc

not_same :
    (a b : PortSpec) (n : Str)
    → not (same_owner (some a) (some b)) ≡ false
    → some a.node ≡ some n
    → some b.node ≡ some n
unfolding same_owner
not_same a b n h e = ground (arith, h, e, str_beq_iff a.node b.node)

same_back :
    (a b : PortSpec) (n : Str)
    → not (same_owner (some a) (some b)) ≡ false
    → some b.node ≡ some n
    → some a.node ≡ some n
unfolding same_owner
same_back a b n h e = ground (arith, h, e, str_beq_iff a.node b.node)

same_not_removed :
    (a b : PortSpec) (n : Str)
    → some a.node ≡ some n
    → some b.node ≡ some n
    → not (same_owner (some a) (some b)) ≡ false
unfolding same_owner
same_not_removed a b n e f = ground (arith, e, f, str_beq_iff a.node b.node)

-- A port that is not stopped keeps its owner.
pub not_removed :
    (old cur : Config) (p : ℕ) (n : Str)
    → contains p (diff_config (some old) cur).removed_ports ≡ false
    → owner old p ≡ some n
    → owner cur p ≡ some n
unfolding diff_config
not_removed old cur p n h e =
    go (lookup p old.ports) (lookup p cur.ports) (sym (contains_walk old cur old p) ∙ h) e
  where
    go :
        (o q : Option PortSpec)
        → (is_some o && not (same_owner o q)) ≡ false
        → owner_of o ≡ some n
        → owner_of q ≡ some n
    go none q h e = cc
    go (some a) none h e = absurd (present_differs a h)
    go (some a) (some b) h e = not_same a b n h e

-- A port that is not started had its owner before.
pub not_added :
    (old cur : Config) (p : ℕ) (n : Str)
    → contains p (diff_config (some old) cur).added_ports ≡ false
    → owner cur p ≡ some n
    → owner old p ≡ some n
unfolding diff_config
not_added old cur p n h e =
    go (lookup p old.ports) (lookup p cur.ports) (sym (contains_walk old cur cur p) ∙ h) e
  where
    go :
        (o q : Option PortSpec)
        → (is_some q && not (same_owner o q)) ≡ false
        → owner_of q ≡ some n
        → owner_of o ≡ some n
    go o none h e = cc
    go none (some b) h e = absurd (absent_differs b h)
    go (some a) (some b) h e = same_back a b n h e

-- A port that keeps its owner is not stopped.
pub kept_not_removed :
    (old cur : Config) (p : ℕ) (n : Str)
    → owner old p ≡ some n
    → owner cur p ≡ some n
    → contains p (diff_config (some old) cur).removed_ports ≡ false
unfolding diff_config
kept_not_removed old cur p n e f =
    contains_walk old cur old p ∙ go (lookup p old.ports) (lookup p cur.ports) e f
  where
    go :
        (o q : Option PortSpec)
        → owner_of o ≡ some n
        → owner_of q ≡ some n
        → (is_some o && not (same_owner o q)) ≡ false
    go none q e f = cc
    go (some a) none e f = cc
    go (some a) (some b) e f = same_not_removed a b n e f
