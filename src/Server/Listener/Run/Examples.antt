-- ===== src/Server/Listener/Run/Examples.antt =====
-- The theorems on the goroutine of a listener at a concrete run.
use ws_tunnel.Prelude.{◌≡◌, refl, true, false, [], ◌∷◌, nat_eq, arith}
use ws_tunnel.Prelude.Dict.{lookup}
use ws_tunnel.Server.Stats.{no_stats}
use ws_tunnel.Server.Listener.Run.{
  bound, accepts, Runner, new_runner, test_context, bind_succeeds, publish, track, count_tracked,
  tracked, halt, Step, tested, opened, published, accepted, refused, accept_fails, unpublished,
  close_published, close_socket, Reach, here, next,
}
use ws_tunnel.Server.Listener.Run.Counted.{Counted, Reach-Counted}
use ws_tunnel.Server.Listener.Run.Safe.{Released, halt-Reach-Released, publish_after_halt}

-- Socket 5 is open and not published.
abbrev binding : Runner
binding = bind_succeeds 5 (test_context (new_runner no_stats))

-- Connection 9 has come in on it.
abbrev serving_one : Runner
serving_one = count_tracked 5 (track 5 9 (publish 5 binding))

binding-Reach : Reach 80 (new_runner no_stats) binding
unfolding new_runner test_context
binding-Reach = next (next here (tested refl)) (opened 5 refl (λ e. absurd (ground (arith, e))))

serving-Reach : Reach 80 (new_runner no_stats) serving_one
unfolding new_runner test_context bind_succeeds publish track lookup
serving-Reach =
    next (next (next binding-Reach (published 5 refl)) (accepted 5 9 refl refl refl))
      (tracked 5 9 refl)

serving_one_settled : unpublished serving_one.phase ≡ false
unfolding unpublished track count_tracked publish
serving_one_settled = refl

still_accepts : (halt false serving_one).phase ≡ accepts 5
unfolding new_runner test_context bind_succeeds publish track count_tracked halt close_published
    close_socket
still_accepts = refl

Reach-Counted_example : Counted serving_one
Reach-Counted_example = Reach-Counted 80 no_stats serving_one serving-Reach

halt-Reach-Released_example : Released (accept_fails 5 [] (halt false serving_one))
halt-Reach-Released_example =
    halt-Reach-Released 80 no_stats false serving_one (accept_fails 5 [] (halt false serving_one))
      serving-Reach serving_one_settled (next here (refused 5 [] still_accepts))

binding_bound : binding.phase ≡ bound 5
unfolding bind_succeeds
binding_bound = refl

publish_after_halt_example :
    let t = publish 5 (halt true binding) in
    Step 80 (halt true binding) t
    × (t.sockets ≡ 5 ∷ [])
    × (t.phase ≡ accepts 5)
    × (t.listening ≡ true)
    × (t.cancelled ≡ true)
publish_after_halt_example =
    publish_after_halt 80 5 no_stats binding true binding-Reach binding_bound
