-- ===== src/Server/Handshake/Examples.antt =====
-- The theorems on the handshake at the sample's node.
use ws_tunnel.Prelude.{◌≡◌, ◌↔◌, refl, inl, some, [], ◌∷◌, Str, str_eq, str_beq}
use ws_tunnel.Prelude.Dict.{lookup}
use ws_tunnel.Protocol.Header.{codes}
use ws_tunnel.Config.Sample.{sample, sample_node, sample-IsValid, sample_has_node}
use ws_tunnel.Server.Registry.{SessionRef, Registry}
use ws_tunnel.Server.Handshake.{
  Hello, Credentials, DataAdmitted, authenticate, authenticate_iff, handle_hello, serve_role,
  serve_control, serve_data, same_session, handle_hello_data, data_channel,
}

abbrev session_1 : SessionRef
session_1 = record { ptr = 1; name = codes "n"; id = codes "s1"; connected_at = 5 }

abbrev online : Registry
online = record { live = (codes "n", session_1) ∷ []; stats = [] }

abbrev data_hello : Hello
data_hello = record {
  typ = codes "hello";
  role = codes "data";
  node = [];
  key = codes "k";
  session = codes "s1";
}

authenticate_iff_example :
    (authenticate sample data_hello ≡ some sample_node) ↔ Credentials sample data_hello sample_node
authenticate_iff_example = authenticate_iff sample data_hello sample_node sample-IsValid

abbrev fresh : Str → SessionRef
fresh name = record { ptr = 7; name = name; id = codes "s7"; connected_at = 8 }

accepted : authenticate sample data_hello ≡ some sample_node
accepted =
    (authenticate_iff sample data_hello sample_node sample-IsValid).1
      (sample_has_node, refl, inl refl)

admitted : handle_hello sample fresh data_hello online ≡ (data_channel session_1, online)
unfolding handle_hello serve_role serve_control serve_data same_session lookup str_beq
admitted = rw (accepted, handle_hello) refl

handle_hello_data_example : DataAdmitted sample data_hello online session_1 online
handle_hello_data_example =
    handle_hello_data sample fresh data_hello online online session_1 sample-IsValid admitted
