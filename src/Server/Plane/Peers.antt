-- ===== src/Server/Plane/Peers.antt =====
-- What the operations of the control plane on one session depart alone.
use ws_tunnel.Prelude.{
  ℕ, ◌≡◌, refl, inl, inr, Bool, true, false, Option, List, [], ◌∷◌, ◌++◌, arith, nat_beq,
  nat_beq_iff, subst, Str, str_eq, Bool-cases, ◌∙◌, sym,
}
use ws_tunnel.Protocol.Message.{NodeConfig}
use ws_tunnel.Protocol.Control.{Message, bye_message}
use ws_tunnel.Protocol.Control.View.{seen}
use ws_tunnel.Server.Session.Same.{close_session_done, close_session_draining}
use ws_tunnel.Server.Plane.{Peer, Server, on_peer, set_draining, close_peer, send_control}

-- The session has ended.
abbrev pub is_done : Server → ℕ → Bool
is_done s p = (s.peers p).pool.done

-- It takes no new streams.
abbrev pub is_draining : Server → ℕ → Bool
is_draining s p = (s.peers p).pool.draining

-- The configuration that was last sent to the client of a session.
abbrev pub sent_view : Peer → Option NodeConfig
sent_view x = seen x.sent

-- A session that keeps its configuration, and that may have been closed.
pub record Quiet (x y : Peer) : Type 0 where
  pub name : y.name ≡ x.name
  pub cfg : y.cfg ≡ x.cfg
  pub queue_timeout : y.queue_timeout ≡ x.queue_timeout
  pub seen : y.pool.done ≡ false → sent_view y ≡ sent_view x
  pub done : y.pool.done ≡ false → x.pool.done ≡ false
  pub draining : y.pool.draining ≡ false → x.pool.draining ≡ false

pub refl-Quiet : (x : Peer) → Quiet x x
refl-Quiet x = record {
  name = refl;
  cfg = refl;
  queue_timeout = refl;
  seen = λ e. refl;
  done = λ e. e;
  draining = λ e. e;
}

pub trans-Quiet : (x y z : Peer) → Quiet x y → Quiet y z → Quiet x z
trans-Quiet x y z a b = record {
  name = b.name ∙ a.name;
  cfg = b.cfg ∙ a.cfg;
  queue_timeout = b.queue_timeout ∙ a.queue_timeout;
  seen = λ e. b.seen e ∙ a.seen (b.done e);
  done = λ e. a.done (b.done e);
  draining = λ e. a.draining (b.draining e);
}

-- Every session does so.
abbrev pub AllQuiet : Server → Server → Type 0
AllQuiet s t = (q : ℕ) → Quiet (s.peers q) (t.peers q)

pub on_peer-AllQuiet :
    (p : ℕ) (f : Peer → Peer) (s : Server)
    → ((x : Peer) → Quiet x (f x))
    → AllQuiet s (on_peer p f s)
unfolding on_peer
on_peer-AllQuiet p f s h q = elim (Bool-cases (nat_beq p q)) [
  | inl e ↦ rw e (h (s.peers q))
  | inr e ↦ rw e (refl-Quiet (s.peers q))
]

-- Only the session at the pointer matters.
pub on_peer-AllQuiet_at :
    (p : ℕ) (f : Peer → Peer) (s : Server)
    → Quiet (s.peers p) (f (s.peers p))
    → AllQuiet s (on_peer p f s)
unfolding on_peer
on_peer-AllQuiet_at p f s h q = elim (Bool-cases (nat_beq p q)) [
  | inl e ↦ rw e (subst (λ k. Quiet (s.peers k) (f (s.peers k))) ((nat_beq_iff p q).0 e) h)
  | inr e ↦ rw e (refl-Quiet (s.peers q))
]

pub set_draining-Quiet : (x : Peer) → Quiet x (set_draining true x)
unfolding set_draining
set_draining-Quiet x = record {
  name = refl;
  cfg = refl;
  queue_timeout = refl;
  seen = λ e. refl;
  done = λ e. e;
  draining = λ e. cc;
}

pub close_peer-Quiet : (reason : Str) (x : Peer) → Quiet x (close_peer reason x)
unfolding close_peer
close_peer-Quiet reason x = record {
  name = refl;
  cfg = refl;
  queue_timeout = refl;
  seen = λ e. refl;
  done = λ e. ground (arith, e, close_session_done x.pool);
  draining = λ e. sym (close_session_draining x.pool) ∙ e;
}

-- A message that carries no configuration.
pub send_control-AllQuiet :
    (w : ℕ → Message → Bool) (p : ℕ) (m : Message) (s : Server)
    → ((ms : List Message) → seen (ms ++ (m ∷ [])) ≡ seen ms)
    → AllQuiet s (send_control w p m s)
unfolding send_control
send_control-AllQuiet w p m s h q = elim (Bool-cases (w p m)) [
  | inr e ↦ rw e (refl-Quiet (s.peers q))
  | inl e ↦ rw e (on_peer-AllQuiet p (λ x. record x { sent = x.sent ++ (m ∷ []) }) s sent q)
]
  where
    sent : (x : Peer) → Quiet x (record x { sent = x.sent ++ (m ∷ []) })
    sent x = record {
      name = refl;
      cfg = refl;
      queue_timeout = refl;
      seen = λ e. h x.sent;
      done = λ e. e;
      draining = λ e. e;
    }

bye_close-Quiet :
    (reason : Str) (x : Peer)
    → Quiet x (close_peer reason (record x { sent = x.sent ++ (bye_message reason ∷ []) }))
unfolding close_peer
bye_close-Quiet reason x = record {
  name = refl;
  cfg = refl;
  queue_timeout = refl;
  seen = λ e. ground (arith, e, close_session_done x.pool);
  done = λ e. ground (arith, e, close_session_done x.pool);
  draining = λ e. sym (close_session_draining x.pool) ∙ e;
}

-- The end of a session that is told why.
pub bye-AllQuiet :
    (w : ℕ → Message → Bool) (p : ℕ) (reason : Str) (s : Server)
    → AllQuiet s (on_peer p (close_peer reason) (send_control w p (bye_message reason) s))
unfolding send_control on_peer close_peer
bye-AllQuiet w p reason s q = elim (Bool-cases (w p (bye_message reason))) [
  | inr e ↦ rw e (on_peer-AllQuiet p (close_peer reason) s (close_peer-Quiet reason) q)
  | inl e ↦ elim (Bool-cases (nat_beq p q)) [
    | inr h ↦ rw (e, h) (refl-Quiet (s.peers q))
    | inl h ↦ rw (e, h) (bye_close-Quiet reason (s.peers q))
  ]
]
