-- ===== src/Server/Session/Reserve.antt =====
-- Which channel `reserveLocked` books a slot on.
use ws_tunnel.Prelude.{
  ℕ, ◌≤◌, ◌<◌, ◌≡◌, refl, ◌⊎◌, inl, inr, false, Option, none, some, List, [], ◌∷◌, arith, All,
  Option-cases,
}
use ws_tunnel.Server.Session.{DataChannel, NodeSession, consider, pick, reserve, book, best_channel}

-- A channel that a slot may be booked on.
abbrev pub Usable : (ℕ → DataChannel) → ℕ → ℕ → Type 0
Usable h max p = ((h p).closed ≡ false) × ((h p).sess_closed ≡ false) × ((h p).active < max)

-- `p` is no busier than any usable channel of the list.
abbrev pub Least : (ℕ → DataChannel) → ℕ → ℕ → List (ℕ × ℕ) → Type 0
Least h max p cs = All (λ c. Usable h max c.1 → (h p).active ≤ (h c.1).active) cs

abbrev pub NoneUsable : (ℕ → DataChannel) → ℕ → List (ℕ × ℕ) → Type 0
NoneUsable h max cs = All (λ c. ¬ Usable h max c.1) cs

consider-none :
    (h : ℕ → DataChannel) (max p : ℕ) (best : Option ℕ)
    → consider h max p best ≡ none
    → (best ≡ none) × (¬ Usable h max p)
unfolding consider
consider-none h max p none e = (refl, λ u. ground arith)
consider-none h max p (some b) e = ground arith

consider-some :
    (h : ℕ → DataChannel) (max p q : ℕ) (best : Option ℕ)
    → consider h max p best ≡ some q
    → ((best ≡ some q) ⊎ ((q ≡ p) × Usable h max p))
      × (Usable h max p → (h q).active ≤ (h p).active)
      × ((b : ℕ) → best ≡ some b → (h q).active ≤ (h b).active)
unfolding consider
consider-some h max p q none e = (ground arith, λ u. ground arith, λ b f. cc)
consider-some h max p q (some b) e = (ground arith, λ u. ground arith, λ c f. ground arith)

pick-none :
    (h : ℕ → DataChannel) (max : ℕ) (cs : List (ℕ × ℕ)) (best : Option ℕ)
    → pick h max cs best ≡ none
    → (best ≡ none) × NoneUsable h max cs
unfolding pick
pick-none h max [] best e = (e, tt)
pick-none h max ((id, p) ∷ cs) best e =
    let (f, rest) = pick-none h max cs (consider h max p best) e in
    let (g, u) = consider-none h max p best f in (g, (u, rest))

-- Where the chosen channel comes from: it was to beat, or it stands in the list and is usable.
abbrev pub From : (ℕ → DataChannel) → ℕ → ℕ → List (ℕ × ℕ) → Type 0
From h max q [] = ⊥
From h max q (c ∷ cs) = ((q ≡ c.1) × Usable h max c.1) ⊎ From h max q cs

pick-some :
    (h : ℕ → DataChannel) (max q : ℕ) (cs : List (ℕ × ℕ)) (best : Option ℕ)
    → pick h max cs best ≡ some q
    → ((best ≡ some q) ⊎ From h max q cs)
      × (Least h max q cs × ((b : ℕ) → best ≡ some b → (h q).active ≤ (h b).active))
unfolding pick
pick-some h max q [] best e = (inl e, (tt, λ b f. ground arith))
pick-some h max q ((id, p) ∷ cs) best e =
    let (from, least_le) = pick-some h max q cs (consider h max p best) e in
    let (least, le) = least_le in
    (
      origin from,
      elim (Option-cases (consider h max p best)) [
        | inl n ↦
            let (f, nu) = consider-none h max p best n in ((λ u. absurd (nu u), least), λ b g. cc)
        | inr (c, n) ↦
            let (o, lp, lb) = consider-some h max p c best n in
            ((λ u. omega (arith, lp u, le c n), least), λ b g. omega (arith, lb b g, le c n))
      ],
    )
  where
    origin :
        (consider h max p best ≡ some q) ⊎ From h max q cs
        → (best ≡ some q) ⊎ From h max q ((id, p) ∷ cs)
    origin (inr f) = inr (inr f)
    origin (inl n) = elim (consider-some h max p q best n).0 [ inl e ↦ inl e | inr u ↦ inr (inl u) ]

From-Usable :
    (h : ℕ → DataChannel) (max q : ℕ) (cs : List (ℕ × ℕ)) → From h max q cs → Usable h max q
From-Usable h max q (c ∷ cs) (inl (e, u)) = rw e u
From-Usable h max q (c ∷ cs) (inr f) = From-Usable h max q cs f
From-Usable h max q [] f = elim f [ ]

-- What `reserve` does, on both branches.
abbrev pub Reserved : NodeSession → Option (ℕ × NodeSession) → Type 0
Reserved n r =
    (NoneUsable n.heap n.max_streams n.channels × (r ≡ none))
    ⊎ ((p : ℕ) × (r ≡ some (p, book p n))
        × Usable n.heap n.max_streams p
        × From n.heap n.max_streams p n.channels
        × Least n.heap n.max_streams p n.channels)

-- `reserveLocked`, in whatever order the map is walked: either no channel of the map is open and
-- below the limit, and nothing changes; or the channel it returns stands in the map, is open and
-- below the limit, is no busier than any other such channel, and one slot is booked on it.
pub reserve-Reserved : (n : NodeSession) → Reserved n (reserve n)
unfolding reserve
reserve-Reserved n = elim (Option-cases (best_channel n)) [
  | inl e ↦ inl ((pick-none n.heap n.max_streams n.channels none e).1, rw (e, reserve))
  | inr (p, e) ↦
      let (from, least_le) = pick-some n.heap n.max_streams p n.channels none e in
      let f : From n.heap n.max_streams p n.channels = elim from [ inl x ↦ cc | inr f ↦ f ] in
      inr (p, rw (e, reserve), From-Usable n.heap n.max_streams p n.channels f, f, least_le.0)
]
