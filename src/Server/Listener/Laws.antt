-- ===== src/Server/Listener/Laws.antt =====
-- Which listeners run after each operation of the listener manager.
use ws_tunnel.Prelude.{
  ℕ, ◌+◌, ◌≡◌, ◌≢◌, refl, inl, inr, Bool, true, false, Option, none, some, List, [], ◌∷◌, arith,
  nat_beq, nat_eq, if◌then◌else◌, Str, ◌==◌, str_eq, is_some, length, length-append, Bool-cases,
  Option-cases, beq_refl, ◌∙◌, ap,
}
use ws_tunnel.Prelude.Dict.{lookup, lookup-insert, lookup-delete}
use ws_tunnel.Prelude.Sets.{
  Unique, contains, keys, contains-keys, insert-Unique, delete-Unique, length-delete, length-insert,
}
use ws_tunnel.Config.{PortSpec}
use ws_tunnel.Server.Registry.{Registry, get}
use ws_tunnel.Server.Listener.{
  PortListener, Manager, stop, stop_found, stop_port, open_port, start_over, start_port, others,
  victims, stop_each, stop_if, stop_node, stop_all,
}

-- The node that a port's listener belongs to.
abbrev pub holder : Option PortListener → Str → Bool
holder none node = false
holder (some pl) node = pl.node == node

contains-others :
    (p : PortListener → Bool) (q : ℕ) (items : List (ℕ × PortListener))
    → contains q (keys items) ≡ false
    → contains q (keys (others p items)) ≡ false
unfolding others
contains-others p q [] h = refl
contains-others p q ((j, pl) ∷ items) h = ground (arith, contains-others p q items, h)

others-Unique :
    (p : PortListener → Bool) (items : List (ℕ × PortListener))
    → Unique (keys items)
    → Unique (keys (others p items))
unfolding others
others-Unique p [] u = u
others-Unique p ((j, pl) ∷ items) u = elim (Bool-cases (p pl)) [
  | inl h ↦ rw h (others-Unique p items u.1)
  | inr h ↦ rw h (contains-others p j items u.0, others-Unique p items u.1)
]

abbrev unless : (PortListener → Bool) → Option PortListener → Option PortListener
unless p none = none
unless p (some pl) = if p pl then none else some pl

lookup-others :
    (p : PortListener → Bool) (q : ℕ) (items : List (ℕ × PortListener))
    → Unique (keys items)
    → lookup q (others p items) ≡ unless p (lookup q items)
unfolding others lookup
lookup-others p q [] u = refl
lookup-others p q ((j, pl) ∷ items) u = ground (
  arith,
  lookup-others p q items u.1,
  contains-others p j items u.0,
  contains-keys j (others p items),
)

length-others :
    (p : PortListener → Bool) (items : List (ℕ × PortListener))
    → length (others p items) + length (victims p items) ≡ length items
unfolding others victims
length-others p [] = refl
length-others p ((j, pl) ∷ items) = ground (arith, length-others p items)

length-stop_each :
    (graceful : Bool) (pls : List PortListener) (m : Manager)
    → (length (stop_each graceful pls m).stopped ≡ length m.stopped + length pls)
      × ((stop_each graceful pls m).items ≡ m.items)
      × ((stop_each graceful pls m).next_id ≡ m.next_id)
unfolding stop_each stop
length-stop_each graceful [] m = (omega arith, refl, refl)
length-stop_each graceful (pl ∷ pls) m =
    let (n, i, k) = length-stop_each graceful pls (stop graceful pl m) in
    (
      ground (
        arith,
        n,
        length-append m.stopped
            (record { pl = record pl { listening = false }; graceful = graceful } ∷ []),
      ),
      i,
      k,
    )

-- No listener is lost: each one that was ever opened has its port's entry or was stopped.
pub record Books (m : Manager) : Type 0 where
  pub once : Unique (keys m.items)
  pub all : length m.items + length m.stopped ≡ m.next_id

-- Stopping the listeners that `p` picks, as `StopNode` and `StopAll` do, keeps the books; a port
-- keeps its listener exactly if `p` does not pick it.
stop_if_lem :
    (p : PortListener → Bool) (graceful : Bool) (m : Manager)
    → Books m
    → Books (stop_if p graceful m)
      × ((q : ℕ) → lookup q (stop_if p graceful m).items ≡ unless p (lookup q m.items))
unfolding stop_if
stop_if_lem p graceful m b =
    let (n, i, k) =
      length-stop_each graceful (victims p m.items) (record m { items = others p m.items }) in
    (
      record {
        once = rw i (others-Unique p m.items b.once);
        all = ground (arith, n, i, k, b.all, length-others p m.items);
      },
      λ q. rw i (lookup-others p q m.items b.once),
    )

pub stop_port_lem :
    (port : ℕ) (graceful : Bool) (m : Manager)
    → Books m
    → Books (stop_port port graceful m)
      × ((q : ℕ)
          → lookup q (stop_port port graceful m).items
            ≡ (if nat_beq port q then none else lookup q m.items))
unfolding stop_port stop_found stop
stop_port_lem port graceful m b = elim (Option-cases (lookup port m.items)) [
  | inl e ↦ rw (e, stop_port) (b, λ q. ground (arith, e))
  | inr (pl, e) ↦
      rw (e, stop_port)
        (
          record {
            once = delete-Unique port m.items b.once;
            all = ground (
              arith,
              b.all,
              length-delete port pl m.items b.once e,
              length-append m.stopped
                  (record { pl = record pl { listening = false }; graceful = graceful } ∷ []),
            );
          },
          λ q. lookup-delete port q m.items,
        )
]

open_port_lem :
    (spec : PortSpec) (m : Manager)
    → lookup spec.port m.items ≡ none
    → Books m
    → Books (open_port spec m)
      × (holder (lookup spec.port (open_port spec m).items) spec.node ≡ true)
      × ((q : ℕ) → q ≢ spec.port → lookup q (open_port spec m).items ≡ lookup q m.items)
unfolding open_port
open_port_lem spec m free b =
    let pl : PortListener = record {
      id = m.next_id;
      port = spec.port;
      node = spec.node;
      listening = false;
      last_err = [];
      active_conns = 0;
    } in
    (
      record {
        once = insert-Unique spec.port pl m.items b.once;
        all = omega (arith, b.all, length-insert spec.port pl m.items free);
      },
      ground (arith, lookup-insert spec.port spec.port pl m.items, beq_refl spec.node),
      λ q ne. ground (arith, lookup-insert spec.port q pl m.items, ne),
    )

-- What `StartPort` owes: the books, the port in the hands of the spec's node, and another port `q`
-- left alone.
abbrev pub Started : PortSpec → ℕ → Manager → Manager → Type 0
Started spec q m m' =
    Books m'
    × (holder (lookup spec.port m'.items) spec.node ≡ true)
    × (lookup q m'.items ≡ lookup q m.items)

start_over_lem :
    (spec : PortSpec) (q : ℕ) (m : Manager)
    → q ≢ spec.port
    → Books m
    → Started spec q m (start_over spec (lookup spec.port m.items) m)
unfolding start_over
start_over_lem spec q m ne b = elim (Option-cases (lookup spec.port m.items)) [
  | inl e ↦
      let (b', held, kept) = open_port_lem spec m e b in rw (e, start_over) (b', held, kept q ne)
  | inr (cur, e) ↦ elim (Bool-cases (cur.node == spec.node)) [
    | inl h ↦ rw (e, h, start_over) (b, ground (arith, e, h), refl)
    | inr h ↦
        let (b', l) = stop_port_lem spec.port false m b in
        let (b'', held, kept) =
          open_port_lem spec (stop_port spec.port false m) (ground (arith, l spec.port)) b' in
        rw (e, h, start_over) (b'', held, ground (arith, kept q ne, l q, ne))
  ]
]

-- `StartPort` for a node that is not online does nothing.
pub start_port_offline :
    (r : Registry) (spec : PortSpec) (m : Manager)
    → is_some (get spec.node r) ≡ false
    → start_port r spec m ≡ m
unfolding start_port
start_port_offline r spec m h = rw (h, start_port)

-- Let each listener that was ever opened be listed or stopped, under one port at most. If the node
-- is online, `StartPort` leaves the port in the hands of that node, whoever held it
-- before, leaves every other port `q` alone, and loses no listener: each one that was ever opened
-- is still listed or was stopped.
pub start_port-Started :
    (r : Registry) (spec : PortSpec) (q : ℕ) (m : Manager)
    → is_some (get spec.node r) ≡ true
    → q ≢ spec.port
    → Books m
    → Started spec q m (start_port r spec m)
unfolding start_port
start_port-Started r spec q m h ne b = rw (h, start_port) (start_over_lem spec q m ne b)

-- Let each listener that was ever opened be listed or stopped, under one port at most. `StopNode`
-- frees every port `q` of the node and no other, and that stays so.
pub stop_node-Books :
    (node : Str) (graceful : Bool) (q : ℕ) (m : Manager)
    → Books m
    → Books (stop_node node graceful m)
      × (lookup q (stop_node node graceful m).items
          ≡ (if holder (lookup q m.items) node then none else lookup q m.items))
unfolding stop_node
stop_node-Books node graceful q m b =
    let (b', l) = stop_if_lem (λ pl. pl.node == node) graceful m b in
    (b', l q ∙ as_if (lookup q m.items))
  where
    as_if :
        (o : Option PortListener)
        → unless (λ pl. pl.node == node) o ≡ (if holder o node then none else o)
    as_if none = refl
    as_if (some pl) = refl

stop_if_items :
    (p : PortListener → Bool) (graceful : Bool) (m : Manager)
    → ((stop_if p graceful m).items ≡ others p m.items)
      × ((stop_if p graceful m).next_id ≡ m.next_id)
unfolding stop_if
stop_if_items p graceful m =
    let (_, i, k) =
      length-stop_each graceful (victims p m.items) (record m { items = others p m.items }) in
    (i, k)

others_all : (items : List (ℕ × PortListener)) → others (λ _. true) items ≡ []
unfolding others
others_all [] = refl
others_all ((j, pl) ∷ items) = others_all items

-- Let each listener that was ever opened be listed or stopped, under one port at most. `StopAll`
-- leaves no listener listed, and has stopped every one that was ever opened.
pub stop_all-Books :
    (graceful : Bool) (m : Manager)
    → Books m
    → ((stop_all graceful m).items ≡ []) × (length (stop_all graceful m).stopped ≡ m.next_id)
unfolding stop_all
stop_all-Books graceful m b =
    let (b', l) = stop_if_lem (λ _. true) graceful m b in
    let (i, k) = stop_if_items (λ _. true) graceful m in
    let e = i ∙ others_all m.items in (e, ground (arith, b'.all, ap length e, k))
