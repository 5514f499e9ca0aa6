-- ===== src/Server/Registry.antt =====
-- `Registry` of internal/server/registry.go: the live session of each node and the statistics
-- that outlive it. Each function is one hold of `mu`; times are numbers.
use ws_tunnel.Prelude.{
  ℕ, ◌≡◌, Bool, true, false, ◌&&◌, Option, none, some, List, [], arith, if◌then◌else◌, nat_beq, Str,
  ◌==◌, str_eq, is_some,
}
use ws_tunnel.Prelude.Dict.{lookup, insert, delete, lookup-insert, lookup-delete}
use ws_tunnel.Server.Stats.{NodeStats, no_stats}

-- A `*NodeSession`: `ptr` tells two sessions of one node apart.
pub record SessionRef : Type 0 where
  pub ptr : ℕ
  pub name : Str
  pub id : Str
  pub connected_at : ℕ

pub record Registry : Type 0 where
  pub live : List (Str × SessionRef)
  pub stats : List (Str × NodeStats)

unfoldable pub empty : Registry
empty = record { live = []; stats = [] }

abbrev stats_or_new : Option NodeStats → NodeStats
stats_or_new none = no_stats
stats_or_new (some s) = s

-- `Stats`: an entry is made when there is none.
unfoldable pub stats_of : Str → Registry → NodeStats × Registry
stats_of node r =
    let s = stats_or_new (lookup node r.stats) in
    (s, if is_some (lookup node r.stats) then r else record r { stats = insert node s r.stats })

-- `Register`: false is `ErrNodeBusy`.
unfoldable pub register : SessionRef → Registry → Bool × Registry
register sess r =
    let s = stats_or_new (lookup sess.name r.stats) in
    let new : NodeStats = record s {
      connected_at = some sess.connected_at;
      disconnected_at = none;
    } in
    if is_some (lookup sess.name r.live) then (false, r) else (
      true,
      record { live = insert sess.name sess r.live; stats = insert sess.name new r.stats },
    )

-- The session is still the current one.
abbrev pub is_current : Option SessionRef → SessionRef → Bool
is_current none sess = false
is_current (some cur) sess = nat_beq cur.ptr sess.ptr

disconnect : Str → ℕ → NodeStats → NodeStats
disconnect reason now s = record s {
  disconnected_at = some now;
  last_error = if reason == [] then s.last_error else reason;
}

mark_disconnected :
    Str → Str → ℕ → Option NodeStats → List (Str × NodeStats) → List (Str × NodeStats)
unfolding disconnect
mark_disconnected name reason now none m = m
mark_disconnected name reason now (some s) m = insert name (disconnect reason now s) m

-- `Unregister`.
pub unregister : SessionRef → Str → ℕ → Registry → Registry
unfolding mark_disconnected
unregister sess reason now r =
    if is_current (lookup sess.name r.live) sess
    then record {
      live = delete sess.name r.live;
      stats = mark_disconnected sess.name reason now (lookup sess.name r.stats) r.stats;
    }
    else r

-- `Get`.
abbrev pub get : Str → Registry → Option SessionRef
get node r = lookup node r.live

-- `Stats` takes no node online or offline.
pub stats_of_live : (node : Str) (r : Registry) → (stats_of node r).1.live ≡ r.live
unfolding stats_of
stats_of_live node r = ground arith

-- `Register` refuses exactly when the node has a live session, and then changes nothing;
-- otherwise the session becomes the node's live one. Other nodes are not touched.
pub get-register :
    (sess : SessionRef) (node : Str) (r : Registry)
    → ((register sess r).0 ≡ (if is_some (get sess.name r) then false else true))
      × (get node (register sess r).1 ≡ (
          if is_some (get sess.name r)
          then get node r
          else if sess.name == node
          then some sess
          else get node r))
unfolding register
get-register sess node r = ground (arith, lookup-insert sess.name node sess r.live)

-- `Unregister` takes the node offline only if the session is still its live one: a session that
-- was superseded cannot remove its successor. Other nodes are not touched.
pub get-unregister :
    (sess : SessionRef) (reason : Str) (now : ℕ) (node : Str) (r : Registry)
    → get node (unregister sess reason now r)
      ≡ (if (sess.name == node) && is_current (get sess.name r) sess then none else get node r)
unfolding unregister
get-unregister sess reason now node r = ground (arith, lookup-delete sess.name node r.live)
