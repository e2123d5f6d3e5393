-- ===== src/Datagram/Runtime.antt =====
-- src/pipeline/datagram/runtime.rs: a datagram on its way in to the handler, and the handler's writes on
-- their way out, each in a datagram of its own.
use rs_netty.Common.{Bool, true, false, if◌then◌else◌, Option, none, some, List, [], ◌∷◌, ◌++◌}
use rs_netty.Common.Bytes.{Bytes}
use rs_netty.Error.{Result, Message, io, ok, err}
use rs_netty.Context.{Done, done}
use rs_netty.Pipeline.{Flow, next, stop, Stage}
use rs_netty.Pipeline.Runtime.{is_empty}
use rs_netty.Pipeline.Inbound.{StreamPipeline}
use rs_netty.Datagram.{
  DatagramOutboxCommand, flush, DatagramContext, Handling, ready, waiting, calls, has_flush_command,
}
use DatagramOutboxCommand.{write_to}

-- What sends: the encoder, the outbound stages, and `send_to` of the socket `N`, which gives an error,
-- if there is one, and the socket after it.
pub record Sending (C O N A W Out : Type 0) : Type 0 where
  pub encode_datagram : C → Out → Bytes → Done × C × Bytes
  pub process : Stage O W Out
  pub send_to : N → Bytes → A → Option Message × N

-- What receives; a pipeline has the parts of a stream pipeline.
pub record Receiving (C I B H A Item Msg Cur W : Type 0) : Type 0 where
  pub decode_datagram : C → Bytes → Result Item × C
  pub inbound : Stage I Item Msg
  pub business : Stage B Msg Cur
  pub read : H → Cur → Handling A W H

pub record Sink (C O N : Type 0) : Type 0 where
  pub codec : C
  pub outbound : O
  pub socket : N
  pub write_buf : Bytes

module _ {C O N A W Out : Type 0} (ops : Sending C O N A W Out) where
  abbrev pub encode_flow : Sink C O N → Result (Flow Out) × O → Done × Sink C O N
  encode_flow s (ok (next msg), outbound) =
      let (result, codec, dst) = ops.encode_datagram s.codec msg s.write_buf in
      (result, record s { codec = codec; outbound = outbound; write_buf = dst })
  encode_flow s (ok stop, outbound) = (done, record s { outbound = outbound })
  encode_flow s (err e, outbound) = (err e, record s { outbound = outbound })

  -- `process_outbound` has the same code.
  unfoldable pub encode_datagram_outbound : Sink C O N → W → Done × Sink C O N
  encode_datagram_outbound s msg = encode_flow s (ops.process s.outbound msg)

  abbrev pub sent : Sink C O N → Option Message × N → Done × Sink C O N
  sent s (none, socket) = (done, record s { socket = socket; write_buf = [] })
  sent s (some e, socket) = (err (io e), record s { socket = socket })

  unfoldable pub flush_datagram : A → Sink C O N → Done × Sink C O N
  flush_datagram peer s =
      if is_empty s.write_buf then (done, s) else sent s (ops.send_to s.socket s.write_buf peer)

  abbrev pub then_flush : A → Done × Sink C O N → Done × Sink C O N
  then_flush peer (ok a, s) = flush_datagram peer s
  then_flush peer (err e, s) = (err e, s)

  -- A message is encoded, and its datagram sent.
  abbrev pub send_message : A → W → Sink C O N → Done × Sink C O N
  send_message peer msg s = then_flush peer (encode_datagram_outbound s msg)

  abbrev pub Drained : Type 0
  Drained = Done × List Done × Sink C O N

  abbrev pub if_done : (List Done → Sink C O N → Drained) → Drained → Drained
  if_done rest (ok a, answers, s) = rest answers s
  if_done rest (err e, answers, s) = (err e, answers, s)

  abbrev pub run_command : DatagramOutboxCommand A W → List Done → Sink C O N → Drained
  run_command (write_to peer msg) answers s =
      let (result, s') = send_message peer msg s in (result, answers, s')
  run_command flush answers s = (done, answers ++ (done ∷ []), s)

  unfoldable pub run_commands : List (DatagramOutboxCommand A W) → List Done → Sink C O N → Drained
  run_commands [] answers s = (done, answers, s)
  run_commands (c ∷ cs) answers s = if_done (run_commands cs) (run_command c answers s)

  abbrev pub after_drain : DatagramContext A W → Drained → Done × DatagramContext A W × Sink C O N
  after_drain ctx (result, answers, s) = (result, record ctx { outbox = []; answers = answers }, s)

  unfoldable pub drain_datagram_outbox :
      DatagramContext A W → Sink C O N → Done × DatagramContext A W × Sink C O N
  drain_datagram_outbox ctx s = after_drain ctx (run_commands ctx.outbox ctx.answers s)

  abbrev pub drain_if :
      Bool → DatagramContext A W → Sink C O N → Done × DatagramContext A W × Sink C O N
  drain_if true ctx s = drain_datagram_outbox ctx s
  drain_if false ctx s = (done, ctx, s)

  abbrev pub between_polls :
      DatagramContext A W → Sink C O N → Done × DatagramContext A W × Sink C O N
  between_polls ctx s = drain_if (has_flush_command ctx.outbox) ctx s

  abbrev pub Handled : Type 0 → Type 0
  Handled H = Done × H × DatagramContext A W × Sink C O N

  module _ {H : Type 0} where
    abbrev pub finish : Done → H → Done × DatagramContext A W × Sink C O N → Handled H
    finish result h (ok a, ctx, s) = (result, h, ctx, s)
    finish result h (err e, ctx, s) = (err e, h, ctx, s)

    abbrev pub go_on :
        H
        → (DatagramContext A W → Sink C O N → Handled H)
        → Done × DatagramContext A W × Sink C O N
        → Handled H
    go_on h rest (ok a, ctx, s) = rest ctx s
    go_on h rest (err e, ctx, s) = (err e, h, ctx, s)

    unfoldable pub run_handler : Handling A W H → DatagramContext A W → Sink C O N → Handled H
    run_handler (ready cs result h) ctx s = finish result h (drain_datagram_outbox (calls cs ctx) s)
    run_handler (waiting cs h k) ctx s =
        go_on h (λ ctx' s'. run_handler (k ctx'.answers) ctx' s') (between_polls (calls cs ctx) s)

-- The handler is awaited to its end; nothing answers its flushes meanwhile.
abbrev pub run_unflushed :
    {A W H : Type 0} → Handling A W H → DatagramContext A W → Done × H × DatagramContext A W
run_unflushed (ready cs result h) ctx = (result, h, calls cs ctx)
run_unflushed (waiting cs h k) ctx = let ctx' = calls cs ctx in run_unflushed (k ctx'.answers) ctx'

module _ {C I B H O N A Item Msg Cur W Out : Type 0} (rx : Receiving C I B H A Item Msg Cur W)
    (tx : Sending C O N A W Out) where
  -- The result, the pipeline, the context, the socket and the write buffer.
  abbrev pub Received : Type 0
  Received = Done × StreamPipeline C I B H O × DatagramContext A W × N × Bytes

  abbrev pub sink_of : StreamPipeline C I B H O → N → Bytes → Sink C O N
  sink_of p socket buf = record {
    codec = p.codec;
    outbound = p.outbound;
    socket = socket;
    write_buf = buf;
  }

  abbrev pub handled : StreamPipeline C I B H O → Handled tx H → Received
  handled p (result, h, ctx, s) = (
    result,
    record p { codec = s.codec; handler = h; outbound = s.outbound },
    ctx,
    s.socket,
    s.write_buf,
  )

  abbrev pub after_business :
      StreamPipeline C I B H O → DatagramContext A W → N → Bytes → Result (Flow Cur) × B → Received
  after_business p ctx socket buf (ok (next msg), b) =
      handled (record p { business = b })
        (run_handler tx (rx.read p.handler msg) ctx (sink_of p socket buf))
  after_business p ctx socket buf (ok stop, b) = (done, record p { business = b }, ctx, socket, buf)
  after_business p ctx socket buf (err e, b) = (err e, record p { business = b }, ctx, socket, buf)

  abbrev pub after_inbound :
      StreamPipeline C I B H O → DatagramContext A W → N → Bytes → Result (Flow Msg) × I → Received
  after_inbound p ctx socket buf (ok (next msg), i) =
      after_business (record p { inbound = i }) ctx socket buf (rx.business p.business msg)
  after_inbound p ctx socket buf (ok stop, i) = (done, record p { inbound = i }, ctx, socket, buf)
  after_inbound p ctx socket buf (err e, i) = (err e, record p { inbound = i }, ctx, socket, buf)

  unfoldable pub process_inbound_flushable :
      StreamPipeline C I B H O → DatagramContext A W → N → Bytes → Item → Received
  process_inbound_flushable p ctx socket buf msg =
      after_inbound p ctx socket buf (rx.inbound p.inbound msg)

  abbrev Awaited : Type 0
  Awaited = Done × StreamPipeline C I B H O × DatagramContext A W

  abbrev awaited : StreamPipeline C I B H O → Done × H × DatagramContext A W → Awaited
  awaited p (result, h, ctx) = (result, record p { handler = h }, ctx)

  abbrev await_business :
      StreamPipeline C I B H O → DatagramContext A W → Result (Flow Cur) × B → Awaited
  await_business p ctx (ok (next msg), b) =
      awaited (record p { business = b }) (run_unflushed (rx.read p.handler msg) ctx)
  await_business p ctx (ok stop, b) = (done, record p { business = b }, ctx)
  await_business p ctx (err e, b) = (err e, record p { business = b }, ctx)

  abbrev await_inbound :
      StreamPipeline C I B H O → DatagramContext A W → Result (Flow Msg) × I → Awaited
  await_inbound p ctx (ok (next msg), i) =
      await_business (record p { inbound = i }) ctx (rx.business p.business msg)
  await_inbound p ctx (ok stop, i) = (done, record p { inbound = i }, ctx)
  await_inbound p ctx (err e, i) = (err e, record p { inbound = i }, ctx)

  pub process_inbound :
      StreamPipeline C I B H O
      → DatagramContext A W
      → Item
      → Done × StreamPipeline C I B H O × DatagramContext A W
  process_inbound p ctx msg = await_inbound p ctx (rx.inbound p.inbound msg)
