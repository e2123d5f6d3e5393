-- ===== src/Tcp/Connection.antt =====
-- `StreamConnectionRuntime` of src/transport/tcp/connection.rs: what a connection does with a read and
-- with a command, and its loop over events.
use rs_netty.Common.{
  ℕ, zero, suc, ◌==◌, ltb, if◌then◌else◌, Bool, true, false, Option, none, some, List, [], ◌∷◌,
  ◌++◌, length,
}
use rs_netty.Common.Bytes.{Bytes}
use rs_netty.Error.{Error, Message, fmt, io, pipeline, ok, err}
use rs_netty.Codec.{Poll}
use rs_netty.Context.{Done, done, add_bytes_read, add_frame_read, add_frame_written, Context}
use rs_netty.Pipeline.Runtime.{Wire, flush_write_buf}
use rs_netty.Pipeline.Inbound.{StreamRuntimePipeline}
use rs_netty.Tcp.{
  CloseReason, TcpConnectionConfig, StreamCommand, write, write_and_flush, close, ConnectionResult,
  good, failed, stuck, failure, decode_failure, outbound_failure, handler_failure,
}

-- The parts that change while the connection runs. `replies` are the results sent to the callers of
-- `write_and_flush`.
pub record StreamConnectionRuntime (P N W : Type 0) : Type 0 where
  pub pipeline : P
  pub ctx : Context W
  pub read_buf : Bytes
  pub wire : Wire N
  pub replies : List Done

-- `std::io::Result<usize>` of a read.
pub data ReadResult : Type 0 where
  read_len : ℕ → ReadResult
  read_failed : Message → ReadResult

-- What one branch of `select!` finds; bytes that are read have been appended to the buffer.
pub data Event (W : Type 0) : Type 0 where
  bytes_read : Bytes → Event W
  read_error : Message → Event W
  command : Option (StreamCommand W) → Event W
  shutdown_changed idle_elapsed : Event W

module _ {P N W Item : Type 0} (pipe : StreamRuntimePipeline P N W Item)
    (write_all : N → Bytes → Option Message × N) where
  -- The result of an operation, and the connection after it.
  abbrev pub Outcome : Type 0 → Type 0
  Outcome A = ConnectionResult A × StreamConnectionRuntime P N W

  abbrev pub unless_closed :
      (StreamConnectionRuntime P N W → Outcome (Option CloseReason))
      → Bool
      → StreamConnectionRuntime P N W
      → Outcome (Option CloseReason)
  unless_closed rest true r = (good (some CloseReason.handler_closed), r)
  unless_closed rest false r = rest r

  abbrev pub after_process :
      (StreamConnectionRuntime P N W → Outcome (Option CloseReason))
      → StreamConnectionRuntime P N W
      → Done × P × Context W × Wire N
      → Outcome (Option CloseReason)
  after_process rest r (ok a, p, ctx, wire) =
      unless_closed rest ctx.close_requested (record r { pipeline = p; ctx = ctx; wire = wire })
  after_process rest r (err e, p, ctx, wire) =
      (failed (handler_failure e), record r { pipeline = p; ctx = ctx; wire = wire })

  abbrev pub count_frame : Wire N → Wire N
  count_frame w = record w { stats = add_frame_read w.stats }

  abbrev pub after_decode :
      (StreamConnectionRuntime P N W → Outcome (Option CloseReason))
      → StreamConnectionRuntime P N W
      → Poll P Item
      → Outcome (Option CloseReason)
  after_decode rest r (ok none, p, buf) = (good none, record r { pipeline = p; read_buf = buf })
  after_decode rest r (ok (some msg), p, buf) =
      after_process rest (record r { read_buf = buf })
        (pipe.process_inbound_flushable p r.ctx (count_frame r.wire) msg)
  after_decode rest r (err e, p, buf) =
      (failed (decode_failure e), record r { pipeline = p; read_buf = buf })

  -- The loop over the frames in the buffer, which is stuck where a decoder gives frames without end.
  unfoldable pub frame_loop : ℕ → StreamConnectionRuntime P N W → Outcome (Option CloseReason)
  frame_loop zero r = (stuck, r)
  frame_loop (suc fuel) r = after_decode (frame_loop fuel) r (pipe.decode r.pipeline r.read_buf)

  abbrev pub size_checked : ℕ → StreamConnectionRuntime P N W → Outcome (Option CloseReason)
  size_checked max r =
      if ltb max (length r.read_buf)
      then (
        failed
            (failure CloseReason.frame_too_large (Error.frame_too_large (length r.read_buf) max)),
        r,
      )
      else frame_loop (suc (length r.read_buf)) r

  unfoldable pub handle_read :
      TcpConnectionConfig
      → ReadResult
      → StreamConnectionRuntime P N W
      → Outcome (Option CloseReason)
  handle_read config (read_failed e) r = (failed (failure CloseReason.io_error (io e)), r)
  handle_read config (read_len n) r =
      if n == 0
      then (good (some CloseReason.peer_closed), r)
      else size_checked config.max_frame_size
          (record r { wire = record r.wire { stats = add_bytes_read n r.wire.stats } })

  abbrev pub flushed : StreamConnectionRuntime P N W → Done × Wire N → Outcome (Unit {0})
  flushed r (ok a, wire) = (good tt, record r { wire = wire })
  flushed r (err e, wire) = (failed (failure CloseReason.io_error e), record r { wire = wire })

  -- `flush_write_buf` of the connection: the code of the pipeline's, but an error gets a reason.
  abbrev pub flush_connection : StreamConnectionRuntime P N W → Outcome (Unit {0})
  flush_connection r = flushed r (flush_write_buf write_all r.wire)

  abbrev pub after_outbound : StreamConnectionRuntime P N W → Done × P × Bytes → Outcome (Unit {0})
  after_outbound r (ok a, p, dst) = flush_connection (record r {
    pipeline = p;
    wire = record r.wire { write_buf = dst; stats = add_frame_written r.wire.stats };
  })
  after_outbound r (err e, p, dst) = (
    failed (outbound_failure e),
    record r { pipeline = p; wire = record r.wire { write_buf = dst } },
  )

  -- What `Write` and `WriteAndFlush` share.
  unfoldable pub send_message : W → StreamConnectionRuntime P N W → Outcome (Unit {0})
  send_message msg r = after_outbound r (pipe.process_outbound r.pipeline msg r.wire.write_buf)

  abbrev pub still_open : Outcome (Unit {0}) → Outcome (Option CloseReason)
  still_open (good a, r) = (good none, r)
  still_open (failed f, r) = (failed f, r)
  still_open (stuck, r) = (stuck, r)

  -- Sending a message is never stuck.
  abbrev pub reply : ConnectionResult (Unit {0}) → Done
  reply (good a) = done
  reply (failed f) = err (pipeline (fmt "write_and_flush failed: {:?}" []))
  reply stuck = err (pipeline Message.out_of_fuel)

  abbrev pub replied : Outcome (Unit {0}) → Outcome (Unit {0})
  replied (result, r) = (result, record r { replies = r.replies ++ (reply result ∷ []) })

  unfoldable pub handle_command :
      Option (StreamCommand W) → StreamConnectionRuntime P N W → Outcome (Option CloseReason)
  handle_command (some (write msg)) r = still_open (send_message msg r)
  handle_command (some (write_and_flush msg)) r = still_open (replied (send_message msg r))
  handle_command (some close) r = (good (some CloseReason.local_closed), r)
  handle_command none r = (good (some CloseReason.channel_closed), r)

  -- The body of a branch of `select!`, with the read that came before it.
  unfoldable pub on_event :
      TcpConnectionConfig → Event W → StreamConnectionRuntime P N W → Outcome (Option CloseReason)
  on_event config (bytes_read bytes) r =
      handle_read config (read_len (length bytes)) (record r { read_buf = r.read_buf ++ bytes })
  on_event config (read_error e) r = handle_read config (read_failed e) r
  on_event config (command cmd) r = handle_command cmd r
  on_event config shutdown_changed r = (good (some CloseReason.server_shutdown), r)
  on_event config idle_elapsed r = (good (some CloseReason.idle_timeout), r)

  -- One turn of the loop: whether shutdown was requested at its top, and the branch that was taken.
  abbrev pub Turn : Type 0
  Turn = Bool × Event W

  abbrev pub continue_with :
      (StreamConnectionRuntime P N W → Outcome (Option CloseReason))
      → Outcome (Option CloseReason)
      → Outcome (Option CloseReason)
  continue_with rest (good none, r) = rest r
  continue_with rest (good (some reason), r) = (good (some reason), r)
  continue_with rest (failed f, r) = (failed f, r)
  continue_with rest (stuck, r) = (stuck, r)

  abbrev pub unless_requested :
      (StreamConnectionRuntime P N W → Outcome (Option CloseReason))
      → Bool
      → StreamConnectionRuntime P N W
      → Outcome (Option CloseReason)
  unless_requested rest true r = (good (some CloseReason.server_shutdown), r)
  unless_requested rest false r = rest r

  -- The loops `run_without_idle_timeout` and `run_with_idle_timeout`; it is still open at the end of
  -- the turns when the result is `good none`.
  unfoldable pub run :
      TcpConnectionConfig → List Turn → StreamConnectionRuntime P N W → Outcome (Option CloseReason)
  run config [] r = (good none, r)
  run config ((requested, event) ∷ turns) r =
      unless_requested (λ r'. continue_with (run config turns) (on_event config event r')) requested
        r
