-- ===== src/Server/Examples.antt =====
-- The theorems on the server's registry, handshake, listeners and forwarding at concrete values.
use ws_tunnel.Prelude.{◌+◌, ◌≡◌, refl, true, some, [], ◌∷◌, str_eq, nat_eq, str_beq, is_some}
use ws_tunnel.Prelude.Dict.{lookup}
use ws_tunnel.Protocol.Header.{codes}
use ws_tunnel.Protocol.Io.{eof, last}
use ws_tunnel.Protocol.Examples.{to_list}
use ws_tunnel.Server.Stats.{no_stats, outcomes}
use ws_tunnel.Server.Registry.{SessionRef, Registry, get}
use ws_tunnel.Server.Listener.{Manager}
use ws_tunnel.Server.Listener.Laws.{Books}
use ws_tunnel.Server.Forward.{forward}
use ws_tunnel.Server.Forward.Laws.{forward-outcomes}

abbrev session_1 : SessionRef
session_1 = record { ptr = 1; name = codes "n"; id = codes "s1"; connected_at = 5 }

abbrev session_2 : SessionRef
session_2 = record { ptr = 2; name = codes "n"; id = codes "s2"; connected_at = 6 }

abbrev online : Registry
online = record { live = (codes "n", session_1) ∷ []; stats = [] }

-- Port 7 is in the hands of another node.
abbrev one_listener : Manager
one_listener = record {
  items =
      (
        7,
        record {
          id = 0;
          port = 7;
          node = codes "m";
          listening = true;
          last_err = [];
          active_conns = 0;
        },
      )
      ∷ [];
  next_id = 1;
  stopped = [];
}

one_listener-Books : Books one_listener
one_listener-Books = record { once = (refl, tt); all = refl }

n_is_online : is_some (get (codes "n") online) ≡ true
unfolding lookup str_beq
n_is_online = refl

forward-outcomes_example :
    let r = forward to_list 32 80 ((1 ∷ []) ∷ []) true (some (last (2 ∷ []) eof)) [] no_stats in
    (outcomes r.stats ≡ 0 + 1) × (r.closed_streams ≡ 1)
forward-outcomes_example =
    forward-outcomes to_list 32 80 ((1 ∷ []) ∷ []) true (some (last (2 ∷ []) eof)) [] no_stats
