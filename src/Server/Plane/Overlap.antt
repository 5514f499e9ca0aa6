-- ===== src/Server/Plane/Overlap.antt =====
-- What can come of operations of internal/server/server.go that overlap, where they hold no common
-- lock.
use ws_tunnel.Prelude.{
  ℕ, ◌≡◌, true, none, some, false, arith, ap, ◌∙◌, Str, str_eq, nat_beq, beq_refl,
}
use ws_tunnel.Config.{PortSpec}
use ws_tunnel.Server.Registry.{SessionRef, Registry, get, unregister, get-unregister}
use ws_tunnel.Server.Listener.{Manager, start_port, stop_node}
use ws_tunnel.Server.Listener.Laws.{Books}
use ws_tunnel.Server.Listener.Holding.{holding, start_port-holding, stop_node-holding}

-- A reload that starts a port of a node between the `StopNode` and the `Unregister` with which its
-- session leaves: the port is held for the node, which has no session.
pub start_between :
    (sess : SessionRef) (reason : Str) (now : ℕ) (spec : PortSpec) (r : Registry) (m : Manager)
    → Books m
    → get sess.name r ≡ some sess
    → spec.node ≡ sess.name
    → (holding (start_port r spec (stop_node sess.name false m)) spec.port ≡ some sess.name)
      × (get sess.name (unregister sess reason now r) ≡ none)
start_between sess reason now spec r m b g mine =
    let stopped = (stop_node-holding sess.name false m b).0 in
    let held = (start_port-holding r spec (stop_node sess.name false m) stopped).1 spec.port in
    let here : get spec.node r ≡ some sess = ap (λ n. get n r) mine ∙ g in
    let self : nat_beq spec.port spec.port ≡ true = ground arith in
    let me : nat_beq sess.ptr sess.ptr ≡ true = ground arith in
    let gone = get-unregister sess reason now sess.name r in
    (
      ground (arith, held, here, self) ∙ ap some mine,
      ground (arith, gone, g, me, beq_refl sess.name),
    )
