-- ===== src/Client/Session/Examples.antt =====
-- The control loop of a client at concrete messages.
use ws_tunnel.Prelude.{◌≡◌, refl, true, none, some, [], ◌∷◌, map, str_eq, str_beq}
use ws_tunnel.Protocol.Header.{codes}
use ws_tunnel.Protocol.Control.{
  Message, of_type, type_ping, welcome_message, reload_message, drain_message,
}
use ws_tunnel.Protocol.Control.View.{seen, view}
use ws_tunnel.Config.Sample.{sample_push}
use ws_tunnel.Client.Examples.{online_client}
use ws_tunnel.Client.Session.{Session, runs, waits, received, run_session}
use ws_tunnel.Client.Session.Follows.{Follows, asks_drain, pongs, run_session-Follows}

three_channels : Message
three_channels = reload_message (record sample_push { channels = 3 })

abbrev ping : Message
ping = record (of_type type_ping) { nonce = codes "x" }

last_seen :
    seen (welcome_message (codes "s1") sample_push ∷ ping ∷ three_channels ∷ drain_message 9 ∷ [])
    ≡ some (record sample_push { channels = 3 })
unfolding seen view str_beq three_channels
last_seen = refl

run_session-Follows_example :
    let ms = ping ∷ three_channels ∷ drain_message 9 ∷ [] in
    (t : Session) × (run_session
        (λ m. true)
        none
        (map received (welcome_message (codes "s1") sample_push ∷ ms))
        online_client
      ≡ runs (waits t))
    × Follows (record sample_push { channels = 3 }) (asks_drain ms) t
    × (t.written ≡ pongs (λ m. true) ms)
run_session-Follows_example =
    run_session-Follows (λ m. true) (welcome_message (codes "s1") sample_push)
      (ping ∷ three_channels ∷ drain_message 9 ∷ []) (record sample_push { channels = 3 })
      online_client last_seen
