-- ===== src/Pipeline/Inbound.antt =====
-- `process_inbound` and `process_inbound_flushable` of src/pipeline/stream/runtime.rs, and the pipeline
-- as its runtime sees it (`StreamRuntimePipeline`).
use rs_netty.Common.Bytes.{Bytes}
use rs_netty.Error.{Result, ok, err}
use rs_netty.Codec.{Poll}
use rs_netty.Context.{Done, Context}
use rs_netty.Pipeline.{Flow, next, stop, Stage}
use rs_netty.Pipeline.Runtime.{
  Wire, Sink, Sending, Handling, Handled, run_handler, process_outbound,
}

pub record StreamPipeline (C I B H O : Type 0) : Type 0 where
  pub codec : C
  pub inbound : I
  pub business : B
  pub handler : H
  pub outbound : O

-- The parts of a pipeline that receive: the decoder, the stages and the handler.
pub record Receiving (C I B H Item Msg Cur W : Type 0) : Type 0 where
  pub decode : C → Bytes → Poll C Item
  pub inbound : Stage I Item Msg
  pub business : Stage B Msg Cur
  pub read : H → Cur → Handling W H

-- The interface of a pipeline `P` to the connection: the split borrows are passed and returned.
pub record StreamRuntimePipeline (P N W Item : Type 0) : Type 0 where
  pub decode : P → Bytes → Poll P Item
  pub process_inbound_flushable : P → Context W → Wire N → Item → Done × P × Context W × Wire N
  pub process_outbound : P → W → Bytes → Done × P × Bytes

module _ {C I B H O N Item Msg Cur W Out : Type 0} (rx : Receiving C I B H Item Msg Cur W)
    (tx : Sending C O N W Out) where
  abbrev pub Received : Type 0
  Received = Done × StreamPipeline C I B H O × Context W × Wire N

  abbrev pub with_codec :
      StreamPipeline C I B H O → Poll C Item → Poll (StreamPipeline C I B H O) Item
  with_codec p (result, codec, buf) = (result, record p { codec = codec }, buf)

  abbrev pub decode_frame : StreamPipeline C I B H O → Bytes → Poll (StreamPipeline C I B H O) Item
  decode_frame p buf = with_codec p (rx.decode p.codec buf)

  abbrev pub sink_of : StreamPipeline C I B H O → Wire N → Sink C O N
  sink_of p wire = record { codec = p.codec; outbound = p.outbound; wire = wire }

  abbrev pub handled : StreamPipeline C I B H O → Handled tx H → Received
  handled p (result, h, ctx, s) =
      (result, record p { codec = s.codec; handler = h; outbound = s.outbound }, ctx, s.wire)

  abbrev pub after_business :
      StreamPipeline C I B H O → Context W → Wire N → Result (Flow Cur) × B → Received
  after_business p ctx wire (ok (next msg), business) =
      handled (record p { business = business })
        (run_handler tx (rx.read p.handler msg) ctx (sink_of p wire))
  after_business p ctx wire (ok stop, business) =
      (ok tt, record p { business = business }, ctx, wire)
  after_business p ctx wire (err e, business) = (err e, record p { business = business }, ctx, wire)

  abbrev pub after_inbound :
      StreamPipeline C I B H O → Context W → Wire N → Result (Flow Msg) × I → Received
  after_inbound p ctx wire (ok (next msg), inbound) =
      after_business (record p { inbound = inbound }) ctx wire (rx.business p.business msg)
  after_inbound p ctx wire (ok stop, inbound) = (ok tt, record p { inbound = inbound }, ctx, wire)
  after_inbound p ctx wire (err e, inbound) = (err e, record p { inbound = inbound }, ctx, wire)

  unfoldable pub process_inbound_flushable :
      StreamPipeline C I B H O → Context W → Wire N → Item → Received
  process_inbound_flushable p ctx wire msg = after_inbound p ctx wire (rx.inbound p.inbound msg)

  abbrev pub sent_out :
      StreamPipeline C I B H O → Done × C × O × Bytes → Done × StreamPipeline C I B H O × Bytes
  sent_out p (result, codec, outbound, dst) =
      (result, record p { codec = codec; outbound = outbound }, dst)

  abbrev pub process_outbound_msg :
      StreamPipeline C I B H O → W → Bytes → Done × StreamPipeline C I B H O × Bytes
  process_outbound_msg p msg dst = sent_out p (process_outbound tx p.codec p.outbound msg dst)

  abbrev pub stream_pipeline : StreamRuntimePipeline (StreamPipeline C I B H O) N W Item
  stream_pipeline = record {
    decode = decode_frame;
    process_inbound_flushable = process_inbound_flushable;
    process_outbound = process_outbound_msg;
  }
