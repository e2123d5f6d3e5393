-- ===== src/Tcp/Stream.antt =====
-- A connection that reads a stream: what it does does not depend on how the stream is cut into reads.
use rs_netty.Common.{
  ℕ, zero, suc, ◌≤◌, ◌<◌, ◌≡◌, refl, ap, Bool, true, false, Option, none, some, [], ◌++◌, length,
  length-append, arith,
}
use rs_netty.Common.Bytes.{Bytes}
use rs_netty.Error.{Error, Message, ok, err}
use rs_netty.Codec.{Poll, IsFraming, IsErr}
use rs_netty.Context.{Done, done, Context}
use rs_netty.Pipeline.Runtime.{Wire}
use rs_netty.Pipeline.Inbound.{StreamRuntimePipeline}
use rs_netty.Tcp.{CloseReason, good, failed, stuck}
use rs_netty.Tcp.Connection.{
  StreamConnectionRuntime, Outcome, unless_closed, after_process, count_frame, after_decode,
  frame_loop,
}

-- The decoder of the pipeline is a framing, and processing a message keeps its state valid, with no
-- counters.
pub record IsSteady {P N W Item : Type 0} (pipe : StreamRuntimePipeline P N W Item)
    (Valid : P → Type 0) : Type 0 where
  pub laws : IsFraming pipe.decode Valid
  pub keeps :
      (p : P) (ctx : Context W) (wire : Wire N) (msg : Item)
      → Valid p
      → wire.stats ≡ none
      → (pipe.process_inbound_flushable p ctx wire msg).0 ≡ done
      → let (result, p', ctx', wire') = pipe.process_inbound_flushable p ctx wire msg in
        Valid p' × (wire'.stats ≡ none)

module _ {P N W Item : Type 0} (pipe : StreamRuntimePipeline P N W Item)
    (write_all : N → Bytes → Option Message × N) (Valid : P → Type 0)
    (steady : IsSteady pipe Valid) where
  abbrev Runtime : Type 0
  Runtime = StreamConnectionRuntime P N W

  abbrev pub IsQuiet : Runtime → Type 0
  IsQuiet r = Valid r.pipeline × (r.wire.stats ≡ none)

  -- More bytes behind those in the buffer.
  abbrev pub with_more : Bytes → Runtime → Runtime
  with_more more r = record r { read_buf = r.read_buf ++ more }

  -- A message is processed in the same way before two loops that do the same.
  process_same :
      (f g : Runtime → Outcome pipe write_all (Option CloseReason)) (r : Runtime)
      (d : Done × P × Context W × Wire N)
      → (d.0 ≡ done → Valid d.1 × (d.3.stats ≡ none))
      → ((r' : Runtime) → IsQuiet r' → r'.read_buf ≡ r.read_buf → f r' ≡ g r')
      → after_process pipe write_all f r d ≡ after_process pipe write_all g r d
  process_same f g r (ok a, p, ctx, wire) q ih = go ctx.close_requested
    where
      r' : Runtime
      r' = record r { pipeline = p; ctx = ctx; wire = wire }

      go : (b : Bool) → unless_closed pipe write_all f b r' ≡ unless_closed pipe write_all g b r'
      go true = refl
      go false = ih r' (q refl) refl
  process_same f g r (err e, p, ctx, wire) q ih = refl

  keeps_quiet :
      (r : Runtime) (p : P) (msg : Item)
      → Valid p
      → r.wire.stats ≡ none
      → let d = pipe.process_inbound_flushable p r.ctx (count_frame pipe write_all r.wire) msg in
        d.0 ≡ done → Valid d.1 × (d.3.stats ≡ none)
  keeps_quiet r p msg v e h =
      steady.keeps p r.ctx (count_frame pipe write_all r.wire) msg v (rw e refl) h

  decode_fuel :
      (f g : ℕ) (r : Runtime) (d : Poll P Item)
      → IsQuiet r
      → pipe.decode r.pipeline r.read_buf ≡ d
      → ((r' : Runtime)
          → IsQuiet r'
          → length r'.read_buf < length r.read_buf
          → frame_loop pipe write_all f r' ≡ frame_loop pipe write_all g r')
      → after_decode pipe write_all (frame_loop pipe write_all f) r d
        ≡ after_decode pipe write_all (frame_loop pipe write_all g) r d
  decode_fuel f g r (ok none, p, buf) q e ih = refl
  decode_fuel f g r (ok (some msg), p, buf) q e ih =
      let (v, shorter, _) = steady.laws.frames r.pipeline r.read_buf [] q.0 e in
      process_same (frame_loop pipe write_all f) (frame_loop pipe write_all g)
        (record r { read_buf = buf })
        (pipe.process_inbound_flushable p r.ctx (count_frame pipe write_all r.wire) msg)
        (keeps_quiet r p msg v q.1) (λ r' q' same. ih r' q' (rw same shorter))
  decode_fuel f g r (err x, p, buf) q e ih = refl

  -- Any fuel above the number of buffered bytes gives the same.
  pub frame_loop_fuel :
      (f g : ℕ) (r : Runtime)
      → IsQuiet r
      → length r.read_buf < f
      → length r.read_buf < g
      → frame_loop pipe write_all f r ≡ frame_loop pipe write_all g r
  unfolding frame_loop
  frame_loop_fuel zero g r q h k = elim h [ ]
  frame_loop_fuel (suc f) zero r q h k = elim k [ ]
  frame_loop_fuel (suc f) (suc g) r q h k =
      decode_fuel f g r (pipe.decode r.pipeline r.read_buf) q refl
        (λ r' q' shorter. frame_loop_fuel f g r' q' (omega arith) (omega arith))

  -- The loop with more bytes behind: it does the same, and goes on where it stopped.
  abbrev pub GoesOn :
      Bytes
      → Outcome pipe write_all (Option CloseReason)
      → Outcome pipe write_all (Option CloseReason)
      → Type 0
  GoesOn more (good none, r) d =
      IsQuiet r
      × ((f : ℕ)
          → length (r.read_buf ++ more) < f
          → d ≡ frame_loop pipe write_all f (with_more more r))
  GoesOn more (good (some reason), r) d = d.0 ≡ good (some reason)
  GoesOn more (failed x, r) (failed y, r') = Unit
  GoesOn more (failed x, r) _ = ⊥
  GoesOn more (stuck, r) d = ⊥

  process-GoesOn :
      (more : Bytes) (f g : Runtime → Outcome pipe write_all (Option CloseReason)) (r : Runtime)
      (d : Done × P × Context W × Wire N)
      → (d.0 ≡ done → Valid d.1 × (d.3.stats ≡ none))
      → ((r' : Runtime)
          → IsQuiet r'
          → r'.read_buf ≡ r.read_buf
          → GoesOn more (f r') (g (with_more more r')))
      → GoesOn more
          (after_process pipe write_all f r d)
          (after_process pipe write_all g (with_more more r) d)
  process-GoesOn more f g r (ok a, p, ctx, wire) q ih = go ctx.close_requested
    where
      r' : Runtime
      r' = record r { pipeline = p; ctx = ctx; wire = wire }

      go :
          (b : Bool)
          → GoesOn more
              (unless_closed pipe write_all f b r')
              (unless_closed pipe write_all g b (with_more more r'))
      go true = refl
      go false = ih r' (q refl) refl
  process-GoesOn more f g r (err e, p, ctx, wire) q ih = tt

  failed-GoesOn :
      (more : Bytes) (e : Error) (f g : Runtime → Outcome pipe write_all (Option CloseReason))
      (r r' : Runtime) (p : P) (buf : Bytes) (d : Poll P Item)
      → IsErr d.0
      → GoesOn more
          (after_decode pipe write_all f r (err e, p, buf))
          (after_decode pipe write_all g r' d)
  failed-GoesOn more e f g r r' p buf (ok x, p', buf') h = absurd h
  failed-GoesOn more e f g r r' p buf (err x, p', buf') h = tt

  decode-GoesOn :
      (more : Bytes) (f g : ℕ) (r : Runtime) (d : Poll P Item)
      → IsQuiet r
      → pipe.decode r.pipeline r.read_buf ≡ d
      → length (r.read_buf ++ more) < suc g
      → ((r' : Runtime)
          → IsQuiet r'
          → length r'.read_buf < length r.read_buf
          → GoesOn more
              (frame_loop pipe write_all f r')
              (frame_loop pipe write_all g (with_more more r')))
      → GoesOn more
          (after_decode pipe write_all (frame_loop pipe write_all f) r d)
          (frame_loop pipe write_all (suc g) (with_more more r))
  decode-GoesOn more f g r (ok none, p, buf) q e h ih =
      let (same_p, same_buf) = steady.laws.waits r.pipeline r.read_buf q.0 e in
      rw (same_p, same_buf) (q, λ f' h'. frame_loop_fuel (suc g) f' (with_more more r) q h h')
  decode-GoesOn more f g r (ok (some msg), p, buf) q e h ih =
      let (v, shorter, longer) = steady.laws.frames r.pipeline r.read_buf more q.0 e in
      unfold frame_loop in
      rw longer (
        process-GoesOn more (frame_loop pipe write_all f) (frame_loop pipe write_all g)
          (record r { read_buf = buf })
          (pipe.process_inbound_flushable p r.ctx (count_frame pipe write_all r.wire) msg)
          (keeps_quiet r p msg v q.1) (λ r' q' same. ih r' q' (rw same shorter)))
  decode-GoesOn more f g r (err x, p, buf) q e h ih =
      unfold frame_loop in
      failed-GoesOn more x (frame_loop pipe write_all f) (frame_loop pipe write_all g) r
        (with_more more r) p buf (pipe.decode r.pipeline (r.read_buf ++ more))
        (steady.laws.fails r.pipeline r.read_buf more q.0 e)

  pub frame_loop-GoesOn :
      (more : Bytes) (f g : ℕ) (r : Runtime)
      → IsQuiet r
      → length r.read_buf < f
      → length (r.read_buf ++ more) < g
      → GoesOn more (frame_loop pipe write_all f r) (frame_loop pipe write_all g (with_more more r))
  unfolding frame_loop
  frame_loop-GoesOn more zero g r q h k = elim h [ ]
  frame_loop-GoesOn more (suc f) zero r q h k = elim k [ ]
  frame_loop-GoesOn more (suc f) (suc g) r q h k =
      decode-GoesOn more f g r (pipe.decode r.pipeline r.read_buf) q refl k (λ r' q' shorter.
        frame_loop-GoesOn more f g r' q' (omega arith)
          (omega (arith, length-append r.read_buf more, length-append r'.read_buf more)))

  -- While the connection stays open, the buffer does not grow.
  abbrev pub Shrinks : ℕ → Outcome pipe write_all (Option CloseReason) → Type 0
  Shrinks n (good none, r) = length r.read_buf ≤ n
  Shrinks n (good (some reason), r) = Unit
  Shrinks n (failed x, r) = Unit
  Shrinks n (stuck, r) = Unit

  Shrinks-le :
      (n m : ℕ) (d : Outcome pipe write_all (Option CloseReason))
      → Shrinks n d
      → n ≤ m
      → Shrinks m d
  Shrinks-le n m (good none, r) h k = omega arith
  Shrinks-le n m (good (some reason), r) h k = tt
  Shrinks-le n m (failed x, r) h k = tt
  Shrinks-le n m (stuck, r) h k = tt

  process-Shrinks :
      (n : ℕ) (f : Runtime → Outcome pipe write_all (Option CloseReason)) (r : Runtime)
      (d : Done × P × Context W × Wire N)
      → (d.0 ≡ done → Valid d.1 × (d.3.stats ≡ none))
      → ((r' : Runtime) → IsQuiet r' → r'.read_buf ≡ r.read_buf → Shrinks n (f r'))
      → Shrinks n (after_process pipe write_all f r d)
  process-Shrinks n f r (ok a, p, ctx, wire) q ih = go ctx.close_requested
    where
      r' : Runtime
      r' = record r { pipeline = p; ctx = ctx; wire = wire }

      go : (b : Bool) → Shrinks n (unless_closed pipe write_all f b r')
      go true = tt
      go false = ih r' (q refl) refl
  process-Shrinks n f r (err e, p, ctx, wire) q ih = tt

  decode-Shrinks :
      (f : Runtime → Outcome pipe write_all (Option CloseReason)) (r : Runtime) (d : Poll P Item)
      → IsQuiet r
      → pipe.decode r.pipeline r.read_buf ≡ d
      → ((r' : Runtime)
          → IsQuiet r'
          → length r'.read_buf < length r.read_buf
          → Shrinks (length r'.read_buf) (f r'))
      → Shrinks (length r.read_buf) (after_decode pipe write_all f r d)
  decode-Shrinks f r (ok none, p, buf) q e ih =
      let (same_p, same_buf) = steady.laws.waits r.pipeline r.read_buf q.0 e in
      omega (arith, ap length same_buf)
  decode-Shrinks f r (ok (some msg), p, buf) q e ih =
      let (v, shorter, _) = steady.laws.frames r.pipeline r.read_buf [] q.0 e in
      process-Shrinks (length r.read_buf) f (record r { read_buf = buf })
        (pipe.process_inbound_flushable p r.ctx (count_frame pipe write_all r.wire) msg)
        (keeps_quiet r p msg v q.1)
        (λ r' q' same.
          let s : length r'.read_buf < length r.read_buf = omega (arith, ap length same) in
          Shrinks-le (length r'.read_buf) (length r.read_buf) (f r') (ih r' q' s) (omega arith))
  decode-Shrinks f r (err x, p, buf) q e ih = tt

  pub frame_loop-Shrinks :
      (f : ℕ) (r : Runtime)
      → IsQuiet r
      → Shrinks (length r.read_buf) (frame_loop pipe write_all f r)
  unfolding frame_loop
  frame_loop-Shrinks zero r q = tt
  frame_loop-Shrinks (suc f) r q =
      decode-Shrinks (frame_loop pipe write_all f) r (pipe.decode r.pipeline r.read_buf) q refl
        (λ r' q' shorter. frame_loop-Shrinks f r' q')
