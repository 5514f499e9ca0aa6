-- ===== src/Protocol/Control/View.antt =====
-- The configuration that a client has after a sequence of control messages.
use ws_tunnel.Prelude.{
  ℕ, ◌≡◌, refl, inl, inr, Bool, ◌||◌, ◌&&◌, Option, none, some, List, [], ◌∷◌, ◌++◌, if◌then◌else◌,
  Str, ◌==◌, str_eq, str_beq, Bool-cases, ◌∙◌, ap,
}
use ws_tunnel.Protocol.Message.{NodeConfig}
use ws_tunnel.Protocol.Control.{
  Message, type_welcome, type_reload_config, type_bye, type_error, err_node_busy, err_auth_failed,
  drain_message, reload_message, welcome_message,
}

-- The configuration after a message of a session that runs.
abbrev pub next_view : Message → NodeConfig → NodeConfig
next_view m k = if m.typ == type_reload_config then elim m.config [ none ↦ k | some n ↦ n ] else k

-- A client ends its session on this message.
abbrev pub is_last : Message → Bool
is_last m =
    m.typ == type_bye
    || ((m.typ == type_error) && (m.code == err_node_busy || m.code == err_auth_failed))

-- The configuration after a sequence of messages, if none of them ends the session.
unfoldable pub view : NodeConfig → List Message → Option NodeConfig
view k [] = some k
view k (m ∷ ms) = if is_last m then none else view (next_view m k) ms

-- The same, where the first message is the welcome.
unfoldable pub seen : List Message → Option NodeConfig
unfolding view
seen [] = none
seen (m ∷ ms) =
    if m.typ == type_welcome then elim m.config [ none ↦ none | some n ↦ view n ms ] else none

-- What a message makes of the configuration that was seen.
abbrev pub then_seen : Message → Option NodeConfig → Option NodeConfig
then_seen m none = none
then_seen m (some k) = if is_last m then none else some (next_view m k)

view-append :
    (k : NodeConfig) (ms : List Message) (m : Message)
    → view k (ms ++ (m ∷ [])) ≡ then_seen m (view k ms)
unfolding view
view-append k [] m = refl
view-append k (x ∷ ms) m = elim (Bool-cases (is_last x)) [
  | inl e ↦ rw e
  | inr e ↦ rw e (view-append (next_view x k) ms m)
]

seen-append_first :
    (o : Option NodeConfig) (ms : List Message) (m : Message)
    → elim o as (λ _. Option NodeConfig) [ none ↦ none | some n ↦ view n (ms ++ (m ∷ [])) ]
      ≡ then_seen m (elim o as (λ _. Option NodeConfig) [ none ↦ none | some n ↦ view n ms ])
seen-append_first none ms m = refl
seen-append_first (some n) ms m = view-append n ms m

-- A session that was welcomed.
pub seen-append :
    (x : Message) (ms : List Message) (m : Message)
    → seen ((x ∷ ms) ++ (m ∷ [])) ≡ then_seen m (seen (x ∷ ms))
unfolding seen
seen-append x ms m = elim (Bool-cases (x.typ == type_welcome)) [
  | inl e ↦ rw e (seen-append_first x.config ms m)
  | inr e ↦ rw e
]

then_seen-drain : (deadline : ℕ) (o : Option NodeConfig) → then_seen (drain_message deadline) o ≡ o
unfolding str_beq
then_seen-drain deadline none = refl
then_seen-drain deadline (some k) = refl

pub drain-unseen :
    (deadline : ℕ) (ms : List Message) → seen (ms ++ (drain_message deadline ∷ [])) ≡ seen ms
unfolding seen str_beq
drain-unseen deadline [] = refl
drain-unseen deadline (x ∷ ms) =
    seen-append x ms (drain_message deadline) ∙ then_seen-drain deadline (seen (x ∷ ms))

-- A reload of a session that was welcomed.
pub reload-seen :
    (n k : NodeConfig) (ms : List Message)
    → seen ms ≡ some k
    → seen (ms ++ (reload_message n ∷ [])) ≡ some n
unfolding seen str_beq
reload-seen n k [] e = cc
reload-seen n k (x ∷ ms) e =
    seen-append x ms (reload_message n) ∙ ap (then_seen (reload_message n)) e

-- The welcome itself.
pub welcome-seen : (id : Str) (n : NodeConfig) → seen (welcome_message id n ∷ []) ≡ some n
unfolding seen view str_beq
welcome-seen id n = refl
