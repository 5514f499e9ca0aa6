-- ===== src/Protocol/Control.antt =====
-- The control messages of internal/protocol/message.go. A message is what encoding/json decodes a
-- frame of text to; durations and times are numbers of nanoseconds.
pub mod View
use ws_tunnel.Prelude.{ℕ, Option, none, some, [], Str}
use ws_tunnel.Prelude.Int.{ℤ, pos}
use ws_tunnel.Protocol.Header.{codes}
use ws_tunnel.Protocol.Message.{NodeConfig}

pub record Stats : Type 0 where
  pub channels : ℕ
  pub streams : ℕ
  pub bytes_in : ℕ
  pub bytes_out : ℕ
  pub local_dial_errors : ℕ

pub record Message : Type 0 where
  pub typ : Str
  pub role : Str
  pub node : Str
  pub key : Str
  pub session : Str
  pub heartbeat : ℕ
  pub channels : ℕ
  pub channel_id : ℕ
  pub config : Option NodeConfig
  pub nonce : Str
  pub ts : ℤ
  pub stats : Option Stats
  pub deadline : Option ℕ
  pub reason : Str
  pub code : Str
  pub msg : Str
  pub ref : Str

-- A literal that sets only the type.
abbrev pub of_type : Str → Message
of_type t = record {
  typ = t;
  role = [];
  node = [];
  key = [];
  session = [];
  heartbeat = 0;
  channels = 0;
  channel_id = 0;
  config = none;
  nonce = [];
  ts = pos 0;
  stats = none;
  deadline = none;
  reason = [];
  code = [];
  msg = [];
  ref = [];
}

abbrev pub type_hello : Str
type_hello = codes "hello"

abbrev pub type_welcome : Str
type_welcome = codes "welcome"

abbrev pub type_reload_config : Str
type_reload_config = codes "reload_config"

abbrev pub type_ping : Str
type_ping = codes "ping"

abbrev pub type_pong : Str
type_pong = codes "pong"

abbrev pub type_stats : Str
type_stats = codes "stats"

abbrev pub type_drain : Str
type_drain = codes "drain"

abbrev pub type_bye : Str
type_bye = codes "bye"

abbrev pub type_error : Str
type_error = codes "error"

abbrev pub err_auth_failed : Str
err_auth_failed = codes "auth_failed"

abbrev pub err_node_busy : Str
err_node_busy = codes "node_busy"

abbrev pub reload_message : NodeConfig → Message
reload_message n = record (of_type type_reload_config) { config = some n }

abbrev pub welcome_message : Str → NodeConfig → Message
welcome_message session n = record (of_type type_welcome) {
  session = session;
  heartbeat = n.heartbeat;
  channels = n.channels;
  config = some n;
}

abbrev pub drain_message : ℕ → Message
drain_message deadline = record (of_type type_drain) { deadline = some deadline }

abbrev pub bye_message : Str → Message
bye_message reason = record (of_type type_bye) { reason = reason }
