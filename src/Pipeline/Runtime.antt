-- ===== src/Pipeline/Runtime.antt =====
-- src/pipeline/stream/runtime.rs: a message on its way in through the stages to the handler, and the
-- handler's writes on their way out to the socket.
use rs_netty.Common.{
  Bool, true, false, if◌then◌else◌, Option, none, some, List, [], ◌∷◌, ◌++◌, length,
}
use rs_netty.Common.Bytes.{Bytes}
use rs_netty.Error.{Result, Message, fmt, io, pipeline, ok, err}
use rs_netty.Context.{
  Done, done, ConnectionStats, add_bytes_written, add_frame_written, StreamOutboxCommand, write,
  flush, Context, Call, calls, has_flush_command,
}
use rs_netty.Pipeline.{Flow, next, stop, Stage}

-- A run of the handler on one message, poll by poll. A poll makes calls of the context; then the
-- future is ready with a result, or it waits, and goes on with the answers to its flushes. `H` is the
-- state of the handler: after the run, or when its future is dropped at this wait.
pub data Handling (W H : Type 0) : Type 0 where
  ready : List (Call W) → Done → H → Handling W H
  waiting : List (Call W) → H → (List Done → Handling W H) → Handling W H

-- What is on its way to the socket `N`.
pub record Wire (N : Type 0) : Type 0 where
  pub socket : N
  pub write_buf : Bytes
  pub stats : Option ConnectionStats

-- The codec, the outbound stages and the wire, which draining the outbox changes.
pub record Sink (C O N : Type 0) : Type 0 where
  pub codec : C
  pub outbound : O
  pub wire : Wire N

abbrev pub is_empty : Bytes → Bool
is_empty [] = true
is_empty (b ∷ bs) = false

-- `write_all` of a socket gives an error, if there is one, and the socket after it.
module _ {N : Type 0} (write_all : N → Bytes → Option Message × N) where
  abbrev pub written : Wire N → Option Message × N → Done × Wire N
  written w (none, socket) = (
    done,
    record {
      socket = socket;
      write_buf = [];
      stats = add_bytes_written (length w.write_buf) w.stats;
    },
  )
  written w (some e, socket) = (err (io e), record w { socket = socket })

  unfoldable pub flush_write_buf : Wire N → Done × Wire N
  flush_write_buf w =
      if is_empty w.write_buf then (done, w) else written w (write_all w.socket w.write_buf)

-- The parts of a pipeline that send: the encoder, the outbound stages and the socket.
pub record Sending (C O N W Out : Type 0) : Type 0 where
  pub encode : C → Out → Bytes → Done × C × Bytes
  pub process : Stage O W Out
  pub write_all : N → Bytes → Option Message × N

module _ {C O N W Out : Type 0} (ops : Sending C O N W Out) where
  abbrev pub encode_flow : C → Bytes → Result (Flow Out) × O → Done × C × O × Bytes
  encode_flow codec dst (ok (next msg), outbound) =
      let (result, codec', dst') = ops.encode codec msg dst in (result, codec', outbound, dst')
  encode_flow codec dst (ok stop, outbound) = (done, codec, outbound, dst)
  encode_flow codec dst (err e, outbound) = (err e, codec, outbound, dst)

  -- `process_outbound`, which the commands of a channel use.
  unfoldable pub process_outbound : C → O → W → Bytes → Done × C × O × Bytes
  process_outbound codec outbound msg dst = encode_flow codec dst (ops.process outbound msg)

  abbrev pub count_encoded : Done → Option ConnectionStats → Option ConnectionStats
  count_encoded (ok a) stats = add_frame_written stats
  count_encoded (err e) stats = stats

  abbrev pub encode_next : Sink C O N → Result (Flow Out) × O → Done × Sink C O N
  encode_next s (ok (next msg), outbound) =
      let (result, codec', dst) = ops.encode s.codec msg s.wire.write_buf in
      (
        result,
        record {
          codec = codec';
          outbound = outbound;
          wire = record {
            socket = s.wire.socket;
            write_buf = dst;
            stats = count_encoded result s.wire.stats;
          };
        },
      )
  encode_next s (ok stop, outbound) = (done, record s { outbound = outbound })
  encode_next s (err e, outbound) = (err e, record s { outbound = outbound })

  -- `encode_outbound`, which the outbox uses: it counts the frame that it has encoded.
  unfoldable pub encode_outbound : Sink C O N → W → Done × Sink C O N
  encode_outbound s msg = encode_next s (ops.process s.outbound msg)

  abbrev pub flush_sink : Sink C O N → Done × Sink C O N
  flush_sink s =
      let (result, wire) = flush_write_buf ops.write_all s.wire in
      (result, record s { wire = wire })

  -- What the sender of a flush is given.
  abbrev pub flush_ack : Done → Done
  flush_ack (ok a) = done
  flush_ack (err e) = err (pipeline (fmt "flush failed: {err}" []))

  -- A command that fails ends the loop over the commands. The answers go to the flushes, in order.
  abbrev pub Drained : Type 0
  Drained = Done × List Done × Sink C O N

  abbrev pub if_done : (List Done → Sink C O N → Drained) → Drained → Drained
  if_done rest (ok a, answers, s) = rest answers s
  if_done rest (err e, answers, s) = (err e, answers, s)

  abbrev pub run_command : StreamOutboxCommand W → List Done → Sink C O N → Drained
  run_command (write msg) answers s =
      let (result, s') = encode_outbound s msg in (result, answers, s')
  run_command flush answers s =
      let (result, s') = flush_sink s in (result, answers ++ (flush_ack result ∷ []), s')

  unfoldable pub run_commands : List (StreamOutboxCommand W) → List Done → Sink C O N → Drained
  run_commands [] answers s = (done, answers, s)
  run_commands (c ∷ cs) answers s = if_done (run_commands cs) (run_command c answers s)

  abbrev pub final_flush : Bool → List Done → Sink C O N → Drained
  final_flush true answers s = let (result, s') = flush_sink s in (result, answers, s')
  final_flush false answers s = (done, answers, s)

  -- `drain_stream_outbox` takes the commands out of the outbox first.
  abbrev pub after_drain : Context W → Drained → Done × Context W × Sink C O N
  after_drain ctx (result, answers, s) = (result, record ctx { outbox = []; answers = answers }, s)

  unfoldable pub drain_stream_outbox : Bool → Context W → Sink C O N → Done × Context W × Sink C O N
  drain_stream_outbox flush_at_end ctx s =
      after_drain ctx (if_done (final_flush flush_at_end) (run_commands ctx.outbox ctx.answers s))

  abbrev pub drain_if : Bool → Context W → Sink C O N → Done × Context W × Sink C O N
  drain_if true ctx s = drain_stream_outbox false ctx s
  drain_if false ctx s = (done, ctx, s)

  -- While the handler waits for something else than a flush, the outbox stays as it is.
  abbrev pub between_polls : Context W → Sink C O N → Done × Context W × Sink C O N
  between_polls ctx s = drain_if (has_flush_command ctx.outbox) ctx s

  -- The result, the handler, the context and the sink.
  abbrev pub Handled : Type 0 → Type 0
  Handled H = Done × H × Context W × Sink C O N

  module _ {H : Type 0} where
    abbrev pub finish : Done → H → Done × Context W × Sink C O N → Handled H
    finish result h (ok a, ctx, s) = (result, h, ctx, s)
    finish result h (err e, ctx, s) = (err e, h, ctx, s)

    abbrev pub go_on :
        H → (Context W → Sink C O N → Handled H) → Done × Context W × Sink C O N → Handled H
    go_on h rest (ok a, ctx, s) = rest ctx s
    go_on h rest (err e, ctx, s) = (err e, h, ctx, s)

    -- The loop over the polls, and what follows it.
    unfoldable pub run_handler : Handling W H → Context W → Sink C O N → Handled H
    run_handler (ready cs result h) ctx s =
        finish result h (drain_stream_outbox true (calls cs ctx) s)
    run_handler (waiting cs h k) ctx s =
        go_on h (λ ctx' s'. run_handler (k ctx'.answers) ctx' s') (between_polls (calls cs ctx) s)
