-- ===== src/Server/Plane/Examples.antt =====
-- The theorems on the control plane at concrete values.
use ws_tunnel.Prelude.{
  ◌≡◌, ◌≢◌, refl, true, false, none, some, [], ◌∷◌, Str, Bool, ◌==◌, str_beq, str_beq_iff, str_eq,
  nat_eq, is_some, length, sym, ◌∙◌, ap, some-injective, arith,
}
use ws_tunnel.Prelude.Dict.{lookup}
use ws_tunnel.Protocol.Header.{codes}
use ws_tunnel.Config.Sample.{sample, other, sample-IsValid, other-IsValid}
use ws_tunnel.Config.Diff.Ports.{owner}
use ws_tunnel.Server.Registry.{SessionRef, get}
use ws_tunnel.Server.Listener.Holding.{holding}
use ws_tunnel.Server.Plane.{Drain, apply_reload, finish_drain}
use ws_tunnel.Server.Plane.Peers.{is_done}
use ws_tunnel.Server.Plane.Steps.{Reach-Sound, no_node}
use ws_tunnel.Server.Plane.Synced.{Synced, apply_reload-Synced}
use ws_tunnel.Server.Plane.Joins.{Sound}
use ws_tunnel.Server.Plane.Serving.{serving, Reach-held, Reach-serving}
use ws_tunnel.Server.Plane.Leaves.{late_drain_stops_successor}
use ws_tunnel.Server.Plane.Rebind.{failed_rebind_stays}
use ws_tunnel.Server.Plane.Down.{end_shutdown, end_shutdown-Down}
use ws_tunnel.Server.Plane.Sample.{
  writes, binds, nobody, sample_endpoints, sample_session, sample_joined, sample_reached,
  sample_registered, sample_reached-IsWhole, sample_cfg, sample_awake, sample_holds,
  sample_reached-InTime,
}

Reach-held_example :
    (owner sample_joined.cfg 7 ≡ some (codes "n"))
    × (is_some (get (codes "n") sample_joined.registry) ≡ true)
Reach-held_example =
    Reach-held writes binds sample sample_endpoints nobody sample_joined 7 (codes "n")
      sample-IsValid sample_reached sample_reached-IsWhole sample_holds

sample_owner : owner sample 7 ≡ some (codes "n")
unfolding lookup
sample_owner = refl

-- Whoever the port's owner is, its session runs.
sample_all_awake :
    (n : Str) (sess : SessionRef)
    → owner sample_joined.cfg 7 ≡ some n
    → get n sample_joined.registry ≡ some sess
    → is_done sample_joined sess.ptr ≡ false
sample_all_awake n sess o g =
    let node : codes "n" ≡ n =
      some-injective _ _ (sym sample_owner ∙ ap (λ c. owner c 7) (sym sample_cfg) ∙ o) in
    let same : sample_session ≡ sess =
      some-injective _ _
        (sym sample_registered ∙ ap (λ m. get m sample_joined.registry) node ∙ g) in
    ap (λ x. is_done sample_joined x.ptr) (sym same) ∙ sample_awake

Reach-serving_example :
    holding sample_joined.listeners 7 ≡ serving sample_joined.cfg sample_joined.registry 7
Reach-serving_example =
    Reach-serving writes binds sample sample_endpoints nobody sample_joined 7 sample-IsValid
      sample_reached sample_reached-IsWhole (λ n o. sample_reached-InTime n) sample_all_awake

sample-Sound : Sound no_node sample_joined
sample-Sound =
    Reach-Sound writes binds sample sample_endpoints nobody sample_joined sample-IsValid
      sample_reached sample_reached-IsWhole

apply_reload-Synced_example : Synced (apply_reload writes binds 100 other sample_joined)
apply_reload-Synced_example =
    apply_reload-Synced writes binds 100 other sample_joined sample-Sound.valid other-IsValid
      sample-Sound.named sample-Sound.serves sample-Sound.synced

other_moved : (other.listen == sample.listen) ≡ false
unfolding str_beq
other_moved = refl

-- Nothing can be bound.
abbrev refuses : Str → Bool
refuses a = false

-- The new address is taken at the first reload and free at the second.
failed_rebind_stays_example :
    let t = apply_reload writes refuses 100 other sample_joined in
    let u = apply_reload writes binds 200 other t in
    (t.endpoints.ws ≡ sample_joined.endpoints.ws)
    × (t.cfg.listen ≡ codes "b:9")
    × (u.endpoints.ws ≡ sample_joined.endpoints.ws)
    × (u.cfg.listen ≡ codes "b:9")
failed_rebind_stays_example =
    failed_rebind_stays writes binds refuses binds sample sample_endpoints nobody 100 200 other
      other sample_joined sample-IsValid sample_reached sample_reached-IsWhole other-IsValid
      other-IsValid
      (rw sample_cfg
        (λ e. absurd (ground (arith, other_moved, (str_beq_iff other.listen sample.listen).1 e))))
      refl refl

-- A drain of an earlier session of the node.
abbrev old_drain : Drain
old_drain = record {
  sess = record { ptr = 0; name = codes "n"; id = codes "s0"; connected_at = 1 };
  deadline = 50;
  reason = codes "node removed from config";
}

late_drain_stops_successor_example :
    let t = finish_drain writes old_drain sample_joined in
    (get (codes "n") t.registry ≡ some sample_session)
    × (is_done t 1 ≡ is_done sample_joined 1)
    × (holding t.listeners 7 ≢ some (codes "n"))
late_drain_stops_successor_example =
    late_drain_stops_successor writes old_drain sample_joined sample_session 7
      sample-Sound.serves.books sample_registered (λ e. omega (arith, e))

end_shutdown-Down_example :
    let t = end_shutdown writes (1 ∷ []) sample_joined in
    (t.listeners.items ≡ [])
    × (length t.listeners.stopped ≡ sample_joined.listeners.next_id)
    × (t.endpoints.ws ≡ none)
    × (t.endpoints.status ≡ none)
    × (is_done t 1 ≡ true)
end_shutdown-Down_example =
    end_shutdown-Down writes (1 ∷ []) 1 sample_joined sample-Sound.serves.books refl
