-- ===== src/Connection/Control/Examples.antt =====
-- The configuration of a client that joined, at concrete values.
use ws_tunnel.Prelude.{true, arith, refl}
use ws_tunnel.Protocol.Header.{codes}
use ws_tunnel.Client.Examples.{online_client}
use ws_tunnel.Config.Sample.{sample, sample-IsValid}
use ws_tunnel.Server.Plane.Sample.{
  writes, binds, nobody, sample_endpoints, sample_session, sample_joined, sample_reached,
  sample_registered, sample_reached-IsWhole, sample_awake, sample_open,
}
use ws_tunnel.Connection.Control.{Mirrors, client-Mirrors}

client-Mirrors_example :
    Mirrors (λ m. true) online_client (sample_joined.peers 1).sent sample_joined.cfg (codes "n") 7
client-Mirrors_example =
    client-Mirrors writes binds sample sample_endpoints nobody sample_joined (codes "n")
      sample_session (λ m. true) online_client 7 (λ q m. refl) sample-IsValid sample_reached
      sample_reached-IsWhole sample_registered sample_awake sample_open (omega arith)
