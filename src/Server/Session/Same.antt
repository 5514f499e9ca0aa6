-- ===== src/Server/Session/Same.antt =====
-- The operations of internal/server/registry.go that close channels move no slot and no waiter.
use ws_tunnel.Prelude.{
  ℕ, ◌≡◌, refl, inl, inr, true, List, [], ◌∷◌, ◌++◌, arith, nat_eq, Option-cases,
}
use ws_tunnel.Server.Session.{
  NodeSession, remove_channel, drop_channel, close_channel, close_all, close_session, handoff,
  handoff_loop, reserve, best_channel, book, set_config, store_limit,
}
use ws_tunnel.Server.Session.Balance.{Balanced, Queued}

-- A session operation that moves no slot and no waiter.
pub record Same (n m : NodeSession) : Type 0 where
  pub actives : (p : ℕ) → (m.heap p).active ≡ (n.heap p).active
  pub total : m.active_streams ≡ n.active_streams
  pub ready : m.ready ≡ n.ready
  pub waiters : m.waiters ≡ n.waiters
  pub depth : m.queue_depth ≡ n.queue_depth

pub Same-Balanced :
    (held : List ℕ) (n m : NodeSession) → Same n m → Balanced held n → Balanced held m
Same-Balanced held n m s b = record {
  per_channel = λ p. ground (arith, s.actives p, b.per_channel p, s.ready);
  total = ground (arith, s.total, b.total, s.ready);
}

pub Same-Queued :
    (waiting : List ℕ) (n m : NodeSession) → Same n m → Queued waiting n → Queued waiting m
Same-Queued waiting n m s q = record {
  each = λ v. ground (arith, q.each v, s.waiters, s.ready);
  all = ground (arith, q.all, s.waiters, s.ready);
}

pub refl-Same : (n : NodeSession) → Same n n
refl-Same n = record {
  actives = λ p. refl;
  total = refl;
  ready = refl;
  waiters = refl;
  depth = refl;
}

pub close_channel-Same : (p : ℕ) (n : NodeSession) → Same n (close_channel p n)
close_channel-Same p n = record {
  actives = λ q. ground arith;
  total = refl;
  ready = refl;
  waiters = refl;
  depth = refl;
}

pub Same-trans : (n m k : NodeSession) → Same n m → Same m k → Same n k
Same-trans n m k s t = record {
  actives = λ q. ground (arith, s.actives q, t.actives q);
  total = ground arith;
  ready = ground arith;
  waiters = ground arith;
  depth = ground arith;
}

pub remove_channel-Same : (p : ℕ) (n : NodeSession) → Same n (remove_channel p n)
unfolding remove_channel drop_channel
remove_channel-Same p n = record {
  actives = λ q. ground arith;
  total = ground arith;
  ready = ground arith;
  waiters = ground arith;
  depth = ground arith;
}

pub close_all-Same : (cs : List (ℕ × ℕ)) (n : NodeSession) → Same n (close_all cs n)
unfolding close_all
close_all-Same [] n = record {
  actives = λ q. refl;
  total = refl;
  ready = refl;
  waiters = refl;
  depth = refl;
}
close_all-Same ((id, p) ∷ cs) n =
    Same-trans n (close_channel p n) (close_all cs (close_channel p n)) (close_channel-Same p n)
      (close_all-Same cs (close_channel p n))

pub close_session-Same : (n : NodeSession) → Same n (close_session n)
unfolding close_session
close_session-Same n =
    let m = record n { done = true; channels = [] } in
    let s = close_all-Same n.channels m in
    record {
      actives = λ q. ground (arith, s.actives q);
      total = ground (arith, s.total);
      ready = ground (arith, s.ready);
      waiters = ground (arith, s.waiters);
      depth = ground (arith, s.depth);
    }

-- What does not depend on the channels.
pub record SameFlags (n m : NodeSession) : Type 0 where
  pub done : m.done ≡ n.done
  pub draining : m.draining ≡ n.draining

close_all-SameFlags : (cs : List (ℕ × ℕ)) (n : NodeSession) → SameFlags n (close_all cs n)
unfolding close_all
close_all-SameFlags [] n = record { done = refl; draining = refl }
close_all-SameFlags ((id, p) ∷ cs) n =
    let rest = close_all-SameFlags cs (close_channel p n) in
    record { done = rest.done; draining = rest.draining }

-- `Close` ends a session.
pub close_session_done : (n : NodeSession) → (close_session n).done ≡ true
unfolding close_session
close_session_done n =
    ground (arith, (close_all-SameFlags n.channels (record n { done = true; channels = [] })).done)

pub close_session_draining : (n : NodeSession) → (close_session n).draining ≡ n.draining
unfolding close_session
close_session_draining n =
    ground
      (arith, (close_all-SameFlags n.channels (record n { done = true; channels = [] })).draining)

handoff_loop-SameFlags : (ws : List ℕ) (n : NodeSession) → SameFlags n (handoff_loop ws n)
unfolding handoff_loop reserve
handoff_loop-SameFlags [] n = record { done = refl; draining = refl }
handoff_loop-SameFlags (v ∷ ws) n = elim (Option-cases (best_channel n)) [
  | inl e ↦ rw (e, handoff_loop) (record { done = refl; draining = refl })
  | inr (p, e) ↦
      let m : NodeSession = record (book p n) { ready = (book p n).ready ++ ((v, p) ∷ []) } in
      let rest = handoff_loop-SameFlags ws m in
      rw (e, handoff_loop) (record { done = rest.done; draining = rest.draining })
]

-- A new limit does not.
pub set_config-SameFlags : (max : ℕ) (n : NodeSession) → SameFlags n (set_config max n)
unfolding set_config handoff
set_config-SameFlags max n =
    let rest = handoff_loop-SameFlags n.waiters (store_limit max n) in
    record { done = rest.done; draining = rest.draining }
