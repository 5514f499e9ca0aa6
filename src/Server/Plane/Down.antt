-- ===== src/Server/Plane/Down.antt =====
-- `shutdown` of internal/server/server.go, and what becomes of the endpoints in a reload.
use ws_tunnel.Prelude.{
  ℕ, ◌≡◌, refl, inl, inr, Bool, true, false, none, List, [], ◌∷◌, arith, nat_beq, nat_beq_iff,
  nat_eq, length, str_eq, Bool-cases, sym, ◌∙◌, ap,
}
use ws_tunnel.Prelude.Sets.{contains}
use ws_tunnel.Protocol.Header.{codes}
use ws_tunnel.Protocol.Control.{Message, drain_message, bye_message}
use ws_tunnel.Server.Session.Same.{close_session_done}
use ws_tunnel.Server.Listener.{stop_all}
use ws_tunnel.Server.Listener.Laws.{Books, stop_all-Books}
use ws_tunnel.Server.Plane.{Server, on_peer, set_draining, close_peer, send_control}
use ws_tunnel.Server.Plane.Peers.{is_done, bye-AllQuiet}
use ws_tunnel.Server.Plane.Freed.{send_control_rest}

-- Steps 1 and 2 of `shutdown`, on the sessions of `List`.
pub drain_session_now : (ℕ → Message → Bool) → ℕ → ℕ → Server → Server
unfolding send_control on_peer set_draining
drain_session_now w deadline p s =
    send_control w p (drain_message deadline) (on_peer p (set_draining true) s)

pub drain_all : (ℕ → Message → Bool) → ℕ → List ℕ → Server → Server
unfolding drain_session_now
drain_all w deadline [] s = s
drain_all w deadline (p ∷ ps) s = drain_all w deadline ps (drain_session_now w deadline p s)

pub begin_shutdown : (ℕ → Message → Bool) → ℕ → List ℕ → Server → Server
unfolding drain_all
begin_shutdown w deadline ps s =
    drain_all w deadline ps (record s { listeners = stop_all true s.listeners })

-- Step 4, after the sessions were waited for.
pub dismiss : (ℕ → Message → Bool) → ℕ → Server → Server
unfolding send_control on_peer close_peer
dismiss w p s =
    on_peer p (close_peer (codes "server shutting down"))
      (send_control w p (bye_message (codes "server shutting down")) s)

pub dismiss_all : (ℕ → Message → Bool) → List ℕ → Server → Server
unfolding dismiss
dismiss_all w [] s = s
dismiss_all w (p ∷ ps) s = dismiss_all w ps (dismiss w p s)

pub end_shutdown : (ℕ → Message → Bool) → List ℕ → Server → Server
unfolding dismiss_all
end_shutdown w ps s =
    let s' = dismiss_all w ps s in
    record s' {
      listeners = stop_all false s'.listeners;
      endpoints = record s'.endpoints { ws = none; status = none };
    }

dismiss_rest :
    (w : ℕ → Message → Bool) (p : ℕ) (s : Server) → (dismiss w p s).listeners ≡ s.listeners
unfolding dismiss on_peer
dismiss_rest w p s = (send_control_rest w p (bye_message (codes "server shutting down")) s).2

dismiss_all-listeners :
    (w : ℕ → Message → Bool) (ps : List ℕ) (s : Server)
    → (dismiss_all w ps s).listeners ≡ s.listeners
unfolding dismiss_all
dismiss_all-listeners w [] s = refl
dismiss_all-listeners w (p ∷ ps) s = dismiss_all-listeners w ps (dismiss w p s) ∙ dismiss_rest w p s

dismiss-is_done : (w : ℕ → Message → Bool) (p : ℕ) (s : Server) → is_done (dismiss w p s) p ≡ true
unfolding dismiss on_peer close_peer
dismiss-is_done w p s = ground (
  arith,
  close_session_done
      ((send_control w p (bye_message (codes "server shutting down")) s).peers p).pool,
)

dismiss_done-stays :
    (w : ℕ → Message → Bool) (p q : ℕ) (s : Server)
    → is_done s q ≡ true
    → is_done (dismiss w p s) q ≡ true
unfolding dismiss
dismiss_done-stays w p q s e =
    let quiet = bye-AllQuiet w p (codes "server shutting down") s q in ground (arith, e, quiet.done)

dismiss_all-stays :
    (w : ℕ → Message → Bool) (ps : List ℕ) (q : ℕ) (s : Server)
    → is_done s q ≡ true
    → is_done (dismiss_all w ps s) q ≡ true
unfolding dismiss_all
dismiss_all-stays w [] q s e = e
dismiss_all-stays w (p ∷ ps) q s e =
    dismiss_all-stays w ps q (dismiss w p s) (dismiss_done-stays w p q s e)

dismiss_all-is_done :
    (w : ℕ → Message → Bool) (ps : List ℕ) (q : ℕ) (s : Server)
    → contains q ps ≡ true
    → is_done (dismiss_all w ps s) q ≡ true
unfolding dismiss_all
dismiss_all-is_done w [] q s c = cc
dismiss_all-is_done w (p ∷ ps) q s c = elim (Bool-cases (nat_beq p q)) [
  | inl e ↦
      let same : p ≡ q = (nat_beq_iff p q).0 e in
      dismiss_all-stays w ps q (dismiss w p s)
        (ap (is_done (dismiss w p s)) (sym same) ∙ dismiss-is_done w p s)
  | inr e ↦ dismiss_all-is_done w ps q (dismiss w p s) (ground (arith, c, e))
]

-- The end of `shutdown`, whatever happened since its begin: let each listener that was ever opened
-- be listed or stopped. Then none is left, every one that was ever opened was stopped, no endpoint
-- is served, and each session `q` that `shutdown` found at its begin has ended.
pub end_shutdown-Down :
    (w : ℕ → Message → Bool) (ps : List ℕ) (q : ℕ) (s : Server)
    → Books s.listeners
    → contains q ps ≡ true
    → let t = end_shutdown w ps s in
      (t.listeners.items ≡ [])
      × (length t.listeners.stopped ≡ s.listeners.next_id)
      × (t.endpoints.ws ≡ none)
      × (t.endpoints.status ≡ none)
      × (is_done t q ≡ true)
unfolding end_shutdown
end_shutdown-Down w ps q s b c =
    let (items, all) = stop_all-Books false s.listeners b in
    let l = dismiss_all-listeners w ps s in
    (rw l items, rw l all, refl, refl, dismiss_all-is_done w ps q s c)
