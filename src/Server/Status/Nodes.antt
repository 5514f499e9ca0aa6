-- ===== src/Server/Status/Nodes.antt =====
-- Which nodes the document of /status lists, and what it says of their capacity.
use ws_tunnel.Prelude.{
  ℕ, ◌+◌, ◌-◌, ◌*◌, ◌≤◌, ◌<◌, ◌↔◌, ◌≡◌, inl, inr, Bool, true, false, ◌||◌, ◌&&◌, not, Option, none,
  some, List, [], ◌∷◌, ◌++◌, arith, nat_beq, Str, ◌==◌, str_eq, str_beq_iff, is_some, Bool-cases,
  ap,
}
use native.Mathlib.Nat.{div-lt_iff_lt-mul}
use ws_tunnel.Prelude.Dict.{lookup}
use ws_tunnel.Prelude.Sets.{contains, contains-sort, sort}
use ws_tunnel.Config.Valid.{IsValid}
use ws_tunnel.Config.Diff.{str_le}
use ws_tunnel.Config.Diff.Nodes.{contains-order}
use ws_tunnel.Server.Listener.{snapshot}
use ws_tunnel.Server.Registry.{SessionRef, Registry, get, stats_of, stats_of_live}
use ws_tunnel.Server.Stats.{NodeStats}
use ws_tunnel.Server.Plane.{Server}
use ws_tunnel.Server.Status.{
  NodeStatus, StatusDoc, channels_needed, add_status, base_status, live_status, statuses,
  build_status,
}

-- The nodes of a list of statuses.
pub names : List NodeStatus → List Str
names [] = []
names (n ∷ ns) = n.node ∷ names ns

-- `channels_needed_at_peak` is the least number of channels whose slots cover the peak of the
-- demand: for a positive limit on the streams of a channel, a number of channels is enough exactly
-- if it is at least that.
pub channels_needed_least :
    (peak max k : ℕ) → 0 < max → (channels_needed peak max ≤ k) ↔ (peak ≤ k * max)
unfolding channels_needed
channels_needed_least peak max k h =
    let no_limit : nat_beq max 0 ≡ false = ground (arith, h) in
    let iff = div-lt_iff_lt-mul {k = max} {x = peak + (max - 1)} {y = k + 1} h in
    let split : (k + 1) * max ≡ k * max + max = omega arith in
    rw no_limit (
      (λ e. omega (arith, iff.0 (omega (arith, e)), split, h)),
      (λ e. omega (arith, iff.1 (omega (arith, e, split, h)))),
    )

-- The filter of a request lets a node through.
abbrev pub passes : Str → Str → Bool
passes filter n = filter == [] || filter == n

names-last :
    (n : Str) (xs : List NodeStatus) (x : NodeStatus)
    → contains n (names (xs ++ (x ∷ []))) ≡ (contains n (names xs) || x.node == n)
unfolding names
names-last n [] x = ground arith
names-last n (y ∷ ys) x = ground (arith, names-last n ys x)

same_passes : (filter name n : Str) → (name == n) ≡ true → passes filter name ≡ passes filter n
same_passes filter name n e = ap (passes filter) ((str_beq_iff name n).0 e)

same_get : (name n : Str) (r : Registry) → (name == n) ≡ true → get name r ≡ get n r
same_get name n r e = ap (λ x. get x r) ((str_beq_iff name n).0 e)

add_status-names :
    (s : Server) (name : Str) (st : NodeStats) (o : Option SessionRef) (doc : StatusDoc) (n : Str)
    → (contains n (names (add_status s name st o doc).nodes)
        ≡ (contains n (names doc.nodes) || (is_some o && name == n)))
      × (contains n (names (add_status s name st o doc).offline_nodes)
          ≡ (contains n (names doc.offline_nodes) || (not (is_some o) && name == n)))
unfolding add_status names base_status
add_status-names s name st none doc n = (
  ground arith,
  names-last n doc.offline_nodes (base_status s.cfg name st (snapshot s.cfg st name s.listeners)),
)
add_status-names s name st (some sess) doc n =
    let base = base_status s.cfg name st (snapshot s.cfg st name s.listeners) in
    let x : NodeStatus = record base {
      up = true;
      live = some (live_status st (s.peers sess.ptr));
    } in
    (names-last n doc.nodes x, ground arith)

-- What the loop makes of a document that has some nodes already.
abbrev Listed : Str → List Str → Str → Registry → StatusDoc → StatusDoc → Type 0
Listed filter ns n r doc doc' =
    (contains n (names doc'.nodes)
      ≡ (contains n (names doc.nodes) || (contains n ns && passes filter n && is_some (get n r))))
    × (contains n (names doc'.offline_nodes) ≡ (
        contains n (names doc.offline_nodes)
        || (contains n ns && passes filter n && not (is_some (get n r)))))

statuses-Listed :
    (filter : Str) (ns : List Str) (n : Str) (s : Server) (doc : StatusDoc)
    → Listed filter ns n s.registry doc (statuses filter ns s doc).0
unfolding statuses
statuses-Listed filter [] n s doc = (ground arith, ground arith)
statuses-Listed filter (name ∷ ns) n s doc =
    let r = (stats_of name s.registry).1 in
    let st = (stats_of name s.registry).0 in
    let same : get n r ≡ get n s.registry = ap (lookup n) (stats_of_live name s.registry) in
    let mine : get name r ≡ get name s.registry =
      ap (lookup name) (stats_of_live name s.registry) in
    elim (Bool-cases (not (filter == []) && not (filter == name))) [
      | inl skip ↦
          let (a, b) = statuses-Listed filter ns n s doc in
          let out : passes filter name ≡ false = ground (arith, skip) in
          rw (skip, statuses)
            (
              ground (arith, a, out, str_beq_iff name n, same_passes filter name n),
              ground (arith, b, out, str_beq_iff name n, same_passes filter name n),
            )
      | inr go ↦
          let s' : Server = record s { registry = r } in
          let doc' = add_status s' name st (get name r) doc in
          let (a, b) = statuses-Listed filter ns n s' doc' in
          let (c, d) = add_status-names s' name st (get name r) doc n in
          let through : passes filter name ≡ true = ground (arith, go) in
          let here = same_get name n r in
          rw (go, statuses)
            (
              ground (arith, a, c, through, same, mine, here, same_passes filter name n),
              ground (arith, b, d, through, same, mine, here, same_passes filter name n),
            )
    ]

-- A request for /status on a server with a valid configuration lists a node among the nodes that
-- are up exactly if it is configured, the filter of the request lets it through (it is empty or
-- the node's name) and the node has a session; and among the offline ones exactly if it is
-- configured, passes the filter and has none.
pub build_status_nodes :
    (filter n : Str) (s : Server)
    → IsValid s.cfg
    → let doc = (build_status filter s).0 in
      let configured = is_some (lookup n s.cfg.nodes) in
      (contains n (names doc.nodes) ≡ (configured && passes filter n && is_some (get n s.registry)))
      × (contains n (names doc.offline_nodes)
          ≡ (configured && passes filter n && not (is_some (get n s.registry))))
unfolding build_status names
build_status_nodes filter n s v =
    let (a, b) =
      statuses-Listed filter (sort str_le s.cfg.node_order) n s
        (record { nodes = []; offline_nodes = [] }) in
    let listed = contains-sort str_le n s.cfg.node_order in
    let configured = contains-order s.cfg n v in
    (ground (arith, a, listed, configured), ground (arith, b, listed, configured))
