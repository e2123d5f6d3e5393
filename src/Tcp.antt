-- ===== src/Tcp.antt =====
-- TCP connections: the settings of src/transport/tcp/config.rs, the close reasons and hooks of
-- src/life.rs, the commands of src/channel/command.rs, and what
-- src/transport/tcp/connection.rs makes of an error.
pub mod Connection
pub mod Reasons
pub mod Commands
pub mod Stream
pub mod Reads
pub mod Steady
pub mod Life
pub mod Idle
pub mod Ends
pub mod Returns
use rs_netty.Common.{ℕ, ◌*◌, Option, none, Bool, true, false}
use rs_netty.Error.{Result, Error, decode, encode, io}

pub record TcpConnectionConfig : Type 0 where
  pub read_buffer_capacity : ℕ
  pub write_buffer_capacity : ℕ
  pub max_frame_size : ℕ
  pub outbound_queue_size : ℕ
  pub tcp_nodelay : Bool
  -- a `Duration`, as a number of ticks of the clock
  pub idle_timeout : Option ℕ
  pub track_connection_stats : Bool

abbrev pub default_config : TcpConnectionConfig
default_config = record {
  read_buffer_capacity = 8 * 1024;
  write_buffer_capacity = 8 * 1024;
  max_frame_size = 1024 * 1024;
  outbound_queue_size = 1024;
  tcp_nodelay = true;
  idle_timeout = none;
  track_connection_stats = false;
}

pub data CloseReason : Type 0 where
  peer_closed local_closed channel_closed handler_closed server_shutdown idle_timeout : CloseReason
  io_error decode_error encode_error frame_too_large handler_error : CloseReason

-- The sender of a `write_and_flush` is that of one oneshot channel: a connection handles its commands
-- in order, so the n-th of them owns the n-th reply.
pub data StreamCommand (W : Type 0) : Type 0 where
  write write_and_flush : W → StreamCommand W
  close : StreamCommand W

pub record ConnectionFailure : Type 0 where
  pub reason : CloseReason
  pub error : Error

-- `Result<T, ConnectionFailure>`, or no result: the code runs on without end.
pub data ConnectionResult (A : Type 0) : Type 0 where
  good : A → ConnectionResult A
  failed : ConnectionFailure → ConnectionResult A
  stuck : ConnectionResult A

abbrev pub failure : CloseReason → Error → ConnectionFailure
failure reason error = record { reason = reason; error = error }

abbrev decode_reason : Error → CloseReason
decode_reason (decode m) = CloseReason.decode_error
decode_reason (Error.frame_too_large n max) = CloseReason.frame_too_large
decode_reason (io m) = CloseReason.io_error
decode_reason _ = CloseReason.handler_error

abbrev outbound_reason : Error → CloseReason
outbound_reason (encode m) = CloseReason.encode_error
outbound_reason (io m) = CloseReason.io_error
outbound_reason (Error.frame_too_large n max) = CloseReason.frame_too_large
outbound_reason _ = CloseReason.handler_error

abbrev handler_reason : Error → CloseReason
handler_reason (decode m) = CloseReason.decode_error
handler_reason (encode m) = CloseReason.encode_error
handler_reason (io m) = CloseReason.io_error
handler_reason (Error.frame_too_large n max) = CloseReason.frame_too_large
handler_reason _ = CloseReason.handler_error

abbrev pub decode_failure : Error → ConnectionFailure
decode_failure e = failure (decode_reason e) e

abbrev pub outbound_failure : Error → ConnectionFailure
outbound_failure e = failure (outbound_reason e) e

abbrev pub handler_failure : Error → ConnectionFailure
handler_failure e = failure (handler_reason e) e
