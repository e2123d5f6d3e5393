-- ===== src/Pipeline/Unflushed.antt =====
-- `process_inbound` of src/pipeline/stream/runtime.rs, which leaves the outbox to its caller, and what
-- `process_inbound_flushable` adds to it.
use rs_netty.Common.{◌≡◌, refl, sym, ap, ◌||◌, Bool, true, false, List, [], ◌∷◌, ◌++◌, arith}
use rs_netty.Error.{Result, ok, err}
use rs_netty.Context.{
  Done, done, StreamOutboxCommand, write, flush, Context, Call, write_msg, flush_outbox,
  write_and_flush_msg, request_close, call, calls, has_flush_command,
}
use rs_netty.Pipeline.{Flow, next, stop}
use rs_netty.Pipeline.Runtime.{
  Wire, Sink, Sending, Handling, ready, waiting, run_handler, finish, drain_stream_outbox,
  run_commands, flush_write_buf,
}
use rs_netty.Pipeline.Inbound.{
  StreamPipeline, Receiving, Received, sink_of, handled, after_business, after_inbound,
  process_inbound_flushable,
}

module _ {W H : Type 0} where
  -- The handler is awaited to its end; nothing answers its flushes meanwhile.
  abbrev pub run_unflushed : Handling W H → Context W → Done × H × Context W
  run_unflushed (ready cs result h) ctx = (result, h, calls cs ctx)
  run_unflushed (waiting cs h k) ctx =
      let ctx' = calls cs ctx in run_unflushed (k ctx'.answers) ctx'

module _ {W : Type 0} where
  abbrev flushes : Call W → Bool
  flushes (write_msg msg) = false
  flushes flush_outbox = true
  flushes (write_and_flush_msg msg) = true
  flushes request_close = false

  abbrev flush_among : List (Call W) → Bool
  flush_among [] = false
  flush_among (c ∷ cs) = flushes c || flush_among cs

  -- No poll asks for a flush, whatever it has been answered.
  abbrev pub NeverFlushes : {H : Type 0} → Handling W H → Type 0
  NeverFlushes (ready cs result h) = flush_among cs ≡ false
  NeverFlushes (waiting cs h k) =
      (flush_among cs ≡ false) × ((answers : List Done) → NeverFlushes (k answers))

  no_flush-write :
      (cs : List (StreamOutboxCommand W)) (msg : W)
      → has_flush_command cs ≡ false
      → has_flush_command (cs ++ (write msg ∷ [])) ≡ false
  no_flush-write [] msg h = refl
  no_flush-write (write m ∷ cs) msg h = no_flush-write cs msg h
  no_flush-write (flush ∷ cs) msg h = absurd (ground arith)

  calls-no_flush :
      (cs : List (Call W)) (ctx : Context W)
      → flush_among cs ≡ false
      → has_flush_command ctx.outbox ≡ false
      → has_flush_command (calls cs ctx).outbox ≡ false
  calls-no_flush [] ctx h k = k
  calls-no_flush (write_msg msg ∷ cs) ctx h k =
      calls-no_flush cs (call (write_msg msg) ctx) h (no_flush-write ctx.outbox msg k)
  calls-no_flush (flush_outbox ∷ cs) ctx h k = absurd (ground arith)
  calls-no_flush (write_and_flush_msg msg ∷ cs) ctx h k = absurd (ground arith)
  calls-no_flush (request_close ∷ cs) ctx h k = calls-no_flush cs (call request_close ctx) h k

abbrev Awaited : Type 0 → Type 0 → Type 0
Awaited P W = Done × P × Context W

module _ {C I B H O N Item Msg Cur W Out : Type 0} (rx : Receiving C I B H Item Msg Cur W)
    (tx : Sending C O N W Out) where
  abbrev awaited :
      StreamPipeline C I B H O → Done × H × Context W → Awaited (StreamPipeline C I B H O) W
  awaited p (result, h, ctx) = (result, record p { handler = h }, ctx)

  abbrev await_business :
      StreamPipeline C I B H O
      → Context W
      → Result (Flow Cur) × B
      → Awaited (StreamPipeline C I B H O) W
  await_business p ctx (ok (next msg), b) =
      awaited (record p { business = b }) (run_unflushed (rx.read p.handler msg) ctx)
  await_business p ctx (ok stop, b) = (done, record p { business = b }, ctx)
  await_business p ctx (err e, b) = (err e, record p { business = b }, ctx)

  abbrev await_inbound :
      StreamPipeline C I B H O
      → Context W
      → Result (Flow Msg) × I
      → Awaited (StreamPipeline C I B H O) W
  await_inbound p ctx (ok (next msg), i) =
      await_business (record p { inbound = i }) ctx (rx.business p.business msg)
  await_inbound p ctx (ok stop, i) = (done, record p { inbound = i }, ctx)
  await_inbound p ctx (err e, i) = (err e, record p { inbound = i }, ctx)

  pub process_inbound :
      StreamPipeline C I B H O → Context W → Item → Awaited (StreamPipeline C I B H O) W
  process_inbound p ctx msg = await_inbound p ctx (rx.inbound p.inbound msg)

  -- Draining the outbox after a call of `process_inbound`.
  abbrev pub then_drain : Wire N → Awaited (StreamPipeline C I B H O) W → Received rx tx
  then_drain wire (result, p, ctx) =
      handled rx tx p
        (finish tx result p.handler (drain_stream_outbox tx true ctx (sink_of rx tx p wire)))

run_handler-run_unflushed :
    {C O N W Out H : Type 0} (ops : Sending C O N W Out) (handling : Handling W H) (ctx : Context W)
    (s : Sink C O N)
    → NeverFlushes handling
    → has_flush_command ctx.outbox ≡ false
    → run_handler ops handling ctx s ≡ (
        let (result, h, ctx') = run_unflushed handling ctx in
        finish ops result h (drain_stream_outbox ops true ctx' s))
unfolding run_handler
run_handler-run_unflushed ops (ready cs result h) ctx s n e = refl
run_handler-run_unflushed ops (waiting cs h k) ctx s n e =
    let q = calls-no_flush cs ctx n.0 e in
    rw q (
      run_handler-run_unflushed ops (k (calls cs ctx).answers) (calls cs ctx) s
        (n.1 (calls cs ctx).answers) q)

module _ {C I B H O N Item Msg Cur W Out : Type 0} (rx : Receiving C I B H Item Msg Cur W)
    (tx : Sending C O N W Out) where
  -- Draining does nothing when there is nothing to send.
  then_drain_empty :
      (p : StreamPipeline C I B H O) (ctx : Context W) (wire : Wire N) (result : Done)
      → ctx.outbox ≡ []
      → wire.write_buf ≡ []
      → then_drain rx tx wire (result, p, ctx) ≡ (result, p, ctx, wire)
  unfolding drain_stream_outbox run_commands flush_write_buf
  then_drain_empty p ctx wire result e f = rw (e, f) refl

  -- For a handler that never asks for a flush, with an empty outbox and nothing buffered: the message
  -- is processed as by `process_inbound`, and then the outbox is drained with a flush at the end,
  -- whatever the stages and the handler answer.
  pub process_inbound_flushable-process_inbound :
      (p : StreamPipeline C I B H O) (ctx : Context W) (wire : Wire N) (msg : Item)
      → ((cur : Cur) → NeverFlushes (rx.read p.handler cur))
      → ctx.outbox ≡ []
      → wire.write_buf ≡ []
      → process_inbound_flushable rx tx p ctx wire msg
        ≡ then_drain rx tx wire (process_inbound rx tx p ctx msg)
  unfolding process_inbound_flushable process_inbound
  process_inbound_flushable-process_inbound p ctx wire msg n e f = go (rx.inbound p.inbound msg)
    where
      via :
          (q : StreamPipeline C I B H O) (r : Result (Flow Cur) × B)
          → q.handler ≡ p.handler
          → after_business rx tx q ctx wire r ≡ then_drain rx tx wire (await_business rx tx q ctx r)
      via q (ok (next cur), b) g = ap (handled rx tx (record q { business = b })) (
          run_handler-run_unflushed tx (rx.read q.handler cur) ctx (sink_of rx tx q wire)
            (rw g (n cur)) (rw e refl))
      via q (ok stop, b) g = sym (then_drain_empty (record q { business = b }) ctx wire done e f)
      via q (err x, b) g = sym (then_drain_empty (record q { business = b }) ctx wire (err x) e f)

      go :
          (r : Result (Flow Msg) × I)
          → after_inbound rx tx p ctx wire r ≡ then_drain rx tx wire (await_inbound rx tx p ctx r)
      go (ok (next m), i) = via (record p { inbound = i }) (rx.business p.business m) refl
      go (ok stop, i) = sym (then_drain_empty (record p { inbound = i }) ctx wire done e f)
      go (err x, i) = sym (then_drain_empty (record p { inbound = i }) ctx wire (err x) e f)
