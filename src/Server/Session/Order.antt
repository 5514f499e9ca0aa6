-- ===== src/Server/Session/Order.antt =====
-- The order in which waiting requests are served, and that no slot lies idle while one waits.
use ws_tunnel.Prelude.{
  ℕ, suc, ◌≡◌, ◌≢◌, refl, ◌⊎◌, inl, inr, true, Option, none, some, List, [], ◌∷◌, ◌++◌, nat_beq,
  arith, Option-cases, Bool-cases, append_assoc, append-nil, ap, sym, ◌∙◌, nat_eq,
}
use ws_tunnel.Prelude.Dict.{lookup, delete}
use ws_tunnel.Server.Session.{
  DataChannel, NodeSession, queued, set_heap, book, handoff_loop, handoff, acquire, acquire_behind,
  park, abandon, receive, remove_first, unbook, release, add_channel, remove_channel, drop_channel,
  close_channel, set_config, close_session, close_all,
}
use ws_tunnel.Server.Session.Reserve.{NoneUsable, reserve-Reserved}

abbrev pub keys : List (ℕ × ℕ) → List ℕ
keys [] = []
keys ((w, p) ∷ r) = w ∷ keys r

-- No slot lies idle: nobody waits, or no channel may take a slot.
abbrev pub IsBusy : NodeSession → Type 0
IsBusy n = (n.waiters ≡ []) ⊎ NoneUsable n.heap n.max_streams n.channels

-- `m` comes from `n` by handing slots to the front of the queue `ws`.
pub record Served (ws : List ℕ) (n m : NodeSession) : Type 0 where
  pub slots : List (ℕ × ℕ)
  pub in_order : ws ≡ keys slots ++ m.waiters
  pub handed : m.ready ≡ n.ready ++ slots
  pub busy : IsBusy m
  pub same_limit : m.max_streams ≡ n.max_streams
  pub same_channels : m.channels ≡ n.channels

handoff_loop-Served : (ws : List ℕ) (n : NodeSession) → Served ws n (handoff_loop ws n)
unfolding handoff_loop
handoff_loop-Served [] n = record {
  slots = [];
  in_order = refl;
  handed = sym (append-nil n.ready);
  busy = inl refl;
  same_limit = refl;
  same_channels = refl;
}
handoff_loop-Served (w ∷ ws) n = elim (reserve-Reserved n) [
  | inl (full, e) ↦
      rw (e, handoff_loop)
        (record {
          slots = [];
          in_order = refl;
          handed = sym (append-nil n.ready);
          busy = inr full;
          same_limit = refl;
          same_channels = refl;
        })
  | inr (p, e, u, f, l) ↦
      let m : NodeSession = record (book p n) { ready = n.ready ++ ((w, p) ∷ []) } in
      let s = handoff_loop-Served ws m in
      rw (e, handoff_loop)
        (record {
          slots = (w, p) ∷ s.slots;
          in_order = ap (◌∷◌ w) s.in_order;
          handed = s.handed ∙ append_assoc n.ready ((w, p) ∷ []) s.slots;
          busy = s.busy;
          same_limit = s.same_limit;
          same_channels = s.same_channels;
        })
]

-- `handoffLocked` serves the queue strictly in order: those who get a slot are a front part of
-- the queue, they join the served ones in that order, the others go on waiting in their order, and
-- it stops only when nobody waits or no channel of the map can take another slot.
pub handoff-Served : (n : NodeSession) → Served n.waiters n (handoff n)
unfolding handoff
handoff-Served n = handoff_loop-Served n.waiters n

-- A request that finds others waiting never overtakes them: even if a slot is free, it becomes the
-- last of the queue, and nothing else changes but the supply of waiters.
pub acquire_joins_tail :
    (n : NodeSession)
    → n.waiters ≢ []
    → acquire n ≡ (
      queued n.next_waiter,
      record n { waiters = n.waiters ++ (n.next_waiter ∷ []); next_waiter = suc n.next_waiter },
    )
unfolding acquire acquire_behind park
acquire_joins_tail n ne = go n.waiters refl
  where
    go : (ws : List ℕ) → n.waiters ≡ ws → acquire_behind ws n ≡ park n
    go [] e = absurd (ne e)
    go (w ∷ ws) e = refl

acquire_behind-IsBusy :
    (ws : List ℕ) (n : NodeSession) → n.waiters ≡ ws → IsBusy n → IsBusy (acquire_behind ws n).1
unfolding acquire_behind park
acquire_behind-IsBusy [] n e b = elim (reserve-Reserved n) [
  | inl (full, r) ↦ rw (r, acquire_behind) (inr full)
  | inr (p, r, _, _, _) ↦ rw (r, acquire_behind) (inl e)
]
acquire_behind-IsBusy (w ∷ ws) n e b = elim b [ inl e' ↦ cc | inr full ↦ inr full ]

pub acquire-IsBusy : (n : NodeSession) → IsBusy n → IsBusy (acquire n).1
unfolding acquire
acquire-IsBusy n b = acquire_behind-IsBusy n.waiters n refl b

-- Every section that frees capacity ends with no slot idle, whatever was before.
pub release-IsBusy : (p : ℕ) (n : NodeSession) → IsBusy (release p n)
unfolding release
release-IsBusy p n = (handoff-Served (unbook p n)).busy

pub add_channel-IsBusy : (p : ℕ) (n : NodeSession) → IsBusy (add_channel p n)
unfolding add_channel
add_channel-IsBusy p n = (handoff-Served _).busy

pub set_config-IsBusy : (max : ℕ) (n : NodeSession) → IsBusy (set_config max n)
unfolding set_config
set_config-IsBusy max n = (handoff-Served _).busy

remove_first-nil : (w : ℕ) (ws : List ℕ) → ws ≡ [] → remove_first w ws ≡ []
unfolding remove_first
remove_first-nil w [] e = refl
remove_first-nil w (x ∷ ws) e = cc

pub abandon-IsBusy : (w : ℕ) (n : NodeSession) → IsBusy n → IsBusy (abandon w n).1
unfolding abandon
abandon-IsBusy w n b = elim (Option-cases (lookup w n.ready)) [
  | inl e ↦
      rw (e, abandon) (elim b [ inl z ↦ inl (remove_first-nil w n.waiters z) | inr f ↦ inr f ])
  | inr (p, e) ↦ rw (e, abandon) b
]

pub receive-IsBusy : (w : ℕ) (n : NodeSession) → IsBusy n → IsBusy (receive w n).1
unfolding receive
receive-IsBusy w n b = elim (Option-cases (lookup w n.ready)) [
  | inl e ↦ rw (e, receive) b
  | inr (p, e) ↦ rw (e, receive) b
]

-- Closing a channel makes none usable.
pub NoneUsable-close :
    (h : ℕ → DataChannel) (max p : ℕ) (c : DataChannel) (cs : List (ℕ × ℕ))
    → (c.closed ≡ true) ⊎ (c.sess_closed ≡ true)
    → NoneUsable h max cs
    → NoneUsable (set_heap h p c) max cs
NoneUsable-close h max p c [] e f = tt
NoneUsable-close h max p c ((id, q) ∷ cs) e f = (
  λ u. elim (Bool-cases (nat_beq p q)) [
    | inl same ↦ ground (arith, u, e, same)
    | inr other ↦ f.0 (rw other at u)
  ],
  NoneUsable-close h max p c cs e f.1,
)

NoneUsable-delete :
    (h : ℕ → DataChannel) (max k : ℕ) (cs : List (ℕ × ℕ))
    → NoneUsable h max cs
    → NoneUsable h max (delete k cs)
unfolding delete
NoneUsable-delete h max k [] f = tt
NoneUsable-delete h max k ((id, q) ∷ cs) f =
    let rest = NoneUsable-delete h max k cs f.1 in
    elim (Bool-cases (nat_beq id k)) [ inl e ↦ rw e rest | inr e ↦ rw e (f.0, rest) ]

pub close_channel-IsBusy : (p : ℕ) (n : NodeSession) → IsBusy n → IsBusy (close_channel p n)
close_channel-IsBusy p n (inl e) = inl e
close_channel-IsBusy p n (inr f) =
    inr (NoneUsable-close n.heap n.max_streams p _ n.channels (inl refl) f)

drop_channel-IsBusy :
    (o : Option ℕ) (p : ℕ) (n : NodeSession) → IsBusy n → IsBusy (drop_channel o p n)
unfolding drop_channel
drop_channel-IsBusy none p n b = b
drop_channel-IsBusy (some q) p n b = elim (Bool-cases (nat_beq q p)) [
  | inl e ↦ rw e (elim b [
    | inl z ↦ inl z
    | inr f ↦ inr (NoneUsable-delete n.heap n.max_streams (n.heap p).id n.channels f)
  ])
  | inr e ↦ rw e b
]

pub remove_channel-IsBusy : (p : ℕ) (n : NodeSession) → IsBusy n → IsBusy (remove_channel p n)
unfolding remove_channel
remove_channel-IsBusy p n b =
    let o = lookup (n.heap p).id n.channels in
    close_channel-IsBusy p (drop_channel o p n) (drop_channel-IsBusy o p n b)

close_all-channels : (cs : List (ℕ × ℕ)) (n : NodeSession) → (close_all cs n).channels ≡ n.channels
unfolding close_all
close_all-channels [] n = refl
close_all-channels ((id, p) ∷ cs) n = close_all-channels cs (close_channel p n)

pub close_session-IsBusy : (n : NodeSession) → IsBusy n → IsBusy (close_session n)
unfolding close_session
close_session-IsBusy n b =
    let m = record n { done = true; channels = [] } in
    elim (Bool-cases n.done) [
      | inl e ↦ rw e b
      | inr e ↦ rw e (inr (rw (close_all-channels n.channels m) tt))
    ]
