-- ===== src/Pipeline/Delivery.antt =====
-- What a handler writes reaches the socket, in the order of the writes.
use rs_netty.Common.{
  ◌≡◌, refl, sym, ap, subst, ◌∙◌, Bool, true, false, Option, none, some, List, [], ◌∷◌, ◌++◌,
  append-nil, append_assoc, arith,
}
use rs_netty.Common.Bytes.{Bytes}
use rs_netty.Error.{Result, Message, ok, err}
use rs_netty.Context.{
  Done, done, StreamOutboxCommand, write, flush, Context, calls, has_flush_command,
}
use rs_netty.Pipeline.{Flow, next, stop}
use rs_netty.Pipeline.Runtime.{
  Wire, Sink, Sending, Handling, ready, waiting, written, flush_write_buf, process_outbound,
  encode_outbound, encode_next, flush_sink, run_command, run_commands, if_done, Drained,
  drain_stream_outbox, run_handler, after_drain, final_flush, finish, go_on, drain_if,
  between_polls, Handled,
}
use rs_netty.Pipeline.Ledger.{
  IsSocket, IsAppending, writes, all_done, answered, said_before, answered_if, said, encodings,
  ledger,
}

module _ {C O N W Out : Type 0} (ops : Sending C O N W Out) (delivered : N → Bytes)
    (socket : IsSocket ops.write_all delivered) (appends : IsAppending ops.encode) where
  written_lem :
      (w : Wire N) (r : Option Message × N)
      → ops.write_all w.socket w.write_buf ≡ r
      → (written ops.write_all w r).0 ≡ done
      → (delivered (written ops.write_all w r).1.socket ≡ delivered w.socket ++ w.write_buf)
        × ((written ops.write_all w r).1.write_buf ≡ [])
  written_lem w (none, n) e h = ground (arith, socket.sends w.socket w.write_buf e)
  written_lem w (some x, n) e h = absurd (ground arith)

  -- A flush that succeeds has delivered the whole buffer.
  pub flush_write_buf_lem :
      (w : Wire N)
      → let (result, w') = flush_write_buf ops.write_all w in
        result ≡ done
        → (delivered w'.socket ≡ delivered w.socket ++ w.write_buf) × (w'.write_buf ≡ [])
  unfolding flush_write_buf
  flush_write_buf_lem w h = ground (
    arith,
    append-nil (delivered w.socket),
    written_lem w (ops.write_all w.socket w.write_buf) refl,
  )

  pub flush-ledger :
      (s : Sink C O N) (msgs : List W)
      → let (result, s') = flush_sink ops s in
        result ≡ done
        → (ledger ops delivered s' msgs ≡ ledger ops delivered s msgs) × (s'.wire.write_buf ≡ [])
  flush-ledger s msgs h = ground (
    arith,
    flush_write_buf_lem s.wire,
    append_assoc (delivered s.wire.socket) s.wire.write_buf (encodings ops s.codec s.outbound msgs),
  )

  encode_next-ledger :
      (s : Sink C O N) (msg : W) (msgs : List W) (r : Result (Flow Out) × O)
      → ops.process s.outbound msg ≡ r
      → let (result, s') = encode_next ops s r in
        result ≡ done → ledger ops delivered s' msgs ≡ ledger ops delivered s (msg ∷ msgs)
  unfolding process_outbound
  encode_next-ledger s msg msgs (ok (next x), o) e h =
      rw (e, appends s.codec x s.wire.write_buf)
        (ap (λ t. delivered s.wire.socket ++ t)
          (append_assoc s.wire.write_buf (ops.encode s.codec x []).2
            (encodings ops (ops.encode s.codec x []).1 o msgs)))
  encode_next-ledger s msg msgs (ok stop, o) e h = rw e refl
  encode_next-ledger s msg msgs (err x, o) e h = absurd (ground arith)

  encode_outbound-ledger :
      (s : Sink C O N) (msg : W) (msgs : List W)
      → let (result, s') = encode_outbound ops s msg in
        result ≡ done → ledger ops delivered s' msgs ≡ ledger ops delivered s (msg ∷ msgs)
  unfolding encode_outbound
  encode_outbound-ledger s msg msgs h =
      encode_next-ledger s msg msgs (ops.process s.outbound msg) refl h

  command-ledger :
      (c : StreamOutboxCommand W) (cs : List (StreamOutboxCommand W)) (msgs : List W)
      (answers : List Done) (s : Sink C O N)
      → let (result, answers', s') = run_command ops c answers s in
        result ≡ done
        → ledger ops delivered s' (writes cs ++ msgs)
          ≡ ledger ops delivered s (writes (c ∷ cs) ++ msgs)
  command-ledger (write msg) cs msgs answers s h =
      encode_outbound-ledger s msg (writes cs ++ msgs) h
  command-ledger flush cs msgs answers s h = (flush-ledger s (writes cs ++ msgs) h).0

  if_done-ledger :
      (cs : List (StreamOutboxCommand W)) (msgs : List W) (d : Drained ops)
      → (if_done ops (run_commands ops cs) d).0 ≡ done
      → ((answers : List Done) (s : Sink C O N)
          → let (result, answers', s') = run_commands ops cs answers s in
            result ≡ done
            → ledger ops delivered s' msgs ≡ ledger ops delivered s (writes cs ++ msgs))
      → (d.0 ≡ done)
        × (ledger ops delivered (if_done ops (run_commands ops cs) d).2 msgs
            ≡ ledger ops delivered d.2 (writes cs ++ msgs))
  if_done-ledger cs msgs (ok a, answers, s) h ih = (refl, ih answers s h)
  if_done-ledger cs msgs (err e, answers, s) h ih = absurd (ground arith)

  -- Commands that all succeed keep the ledger: what they write is delivered or buffered, in order.
  pub run_commands-ledger :
      (cs : List (StreamOutboxCommand W)) (msgs : List W) (answers : List Done) (s : Sink C O N)
      → let (result, answers', s') = run_commands ops cs answers s in
        result ≡ done → ledger ops delivered s' msgs ≡ ledger ops delivered s (writes cs ++ msgs)
  unfolding run_commands
  run_commands-ledger [] msgs answers s h = refl
  run_commands-ledger (c ∷ cs) msgs answers s h =
      let (e, q) =
        if_done-ledger cs msgs (run_command ops c answers s) h (run_commands-ledger cs msgs) in
      q ∙ command-ledger c cs msgs answers s e

  final_flush-ledger :
      (at_end : Bool) (msgs : List W) (d : Drained ops)
      → let (result, answers', s') = if_done ops (final_flush ops at_end) d in
        result ≡ done
        → (d.0 ≡ done)
          × (ledger ops delivered s' msgs ≡ ledger ops delivered d.2 msgs)
          × (at_end ≡ true → s'.wire.write_buf ≡ [])
  final_flush-ledger true msgs (ok a, answers, s) h =
      let (p, q) = flush-ledger s msgs h in (refl, p, λ e. q)
  final_flush-ledger false msgs (ok a, answers, s) h = (refl, refl, λ e. absurd (ground arith))
  final_flush-ledger at_end msgs (err e, answers, s) h = absurd (ground arith)

  drain-ledger :
      (at_end : Bool) (msgs : List W) (ctx : Context W) (s : Sink C O N)
      → let (result, ctx', s') = drain_stream_outbox ops at_end ctx s in
        result ≡ done
        → (ledger ops delivered s' msgs ≡ ledger ops delivered s (writes ctx.outbox ++ msgs))
          × (ctx'.outbox ≡ [])
          × (at_end ≡ true → s'.wire.write_buf ≡ [])
  unfolding drain_stream_outbox
  drain-ledger at_end msgs ctx s h =
      let d = run_commands ops ctx.outbox ctx.answers s in
      let (e, p, q) = final_flush-ledger at_end msgs d h in
      (p ∙ run_commands-ledger ctx.outbox msgs ctx.answers s e, refl, q)

  if_done-answers :
      (cs : List (StreamOutboxCommand W)) (d : Drained ops)
      → (if_done ops (run_commands ops cs) d).0 ≡ done
      → ((answers : List Done) (s : Sink C O N)
          → (run_commands ops cs answers s).0 ≡ done
          → (run_commands ops cs answers s).1 ≡ answers ++ all_done cs)
      → (if_done ops (run_commands ops cs) d).1 ≡ d.1 ++ all_done cs
  if_done-answers cs (ok a, answers, s) h ih = ih answers s h
  if_done-answers cs (err e, answers, s) h ih = absurd (ground arith)

  command-answers :
      (c : StreamOutboxCommand W) (cs : List (StreamOutboxCommand W)) (answers : List Done)
      (s : Sink C O N)
      → (run_command ops c answers s).0 ≡ done
      → (run_command ops c answers s).1 ++ all_done cs ≡ answers ++ all_done (c ∷ cs)
  command-answers (write msg) cs answers s h = refl
  command-answers flush cs answers s h =
      ground (arith, append_assoc answers (done ∷ []) (all_done cs))

  run_commands-answers :
      (cs : List (StreamOutboxCommand W)) (answers : List Done) (s : Sink C O N)
      → (run_commands ops cs answers s).0 ≡ done
      → (run_commands ops cs answers s).1 ≡ answers ++ all_done cs
  unfolding run_commands
  run_commands-answers [] answers s h = sym (append-nil answers)
  run_commands-answers (c ∷ cs) answers s h =
      let d = run_command ops c answers s in
      if_done-answers cs d h (run_commands-answers cs)
      ∙ command-answers c cs answers s (if_done-ledger cs [] d h (run_commands-ledger cs [])).0

  drain-answered :
      (ctx : Context W) (s : Sink C O N)
      → let (result, ctx', s') = drain_stream_outbox ops false ctx s in
        result ≡ done → ctx' ≡ answered ctx
  unfolding drain_stream_outbox
  drain-answered ctx s h =
      go (run_commands ops ctx.outbox ctx.answers s) h
        (run_commands-answers ctx.outbox ctx.answers s)
    where
      go :
          (d : Drained ops)
          → (if_done ops (final_flush ops false) d).0 ≡ done
          → (d.0 ≡ done → d.1 ≡ ctx.answers ++ all_done ctx.outbox)
          → (after_drain ops ctx (if_done ops (final_flush ops false) d)).1 ≡ answered ctx
      go (ok a, answers, s') k f = rw (f refl) refl
      go (err e, answers, s') k f = absurd (ground arith)

  drain_if-ledger :
      (flushes : Bool) (msgs : List W) (ctx : Context W) (s : Sink C O N)
      → let (result, ctx', s') = drain_if ops flushes ctx s in
        result ≡ done
        → (ledger ops delivered s' msgs ≡ ledger ops delivered s (said_before flushes ctx ++ msgs))
          × (ctx' ≡ answered_if flushes ctx)
  drain_if-ledger true msgs ctx s h = ((drain-ledger false msgs ctx s h).0, drain-answered ctx s h)
  drain_if-ledger false msgs ctx s h = (refl, refl)

  module _ {H : Type 0} where
    -- What a run of the handler that succeeds is to leave.
    abbrev Arrives : Handled ops H → Sink C O N → List W → Type 0
    Arrives (result, h, ctx', s') s msgs =
        (delivered s'.wire.socket ≡ ledger ops delivered s msgs)
        × (s'.wire.write_buf ≡ [])
        × (ctx'.outbox ≡ [])

    finish-Arrives :
        (result : Done) (h : H) (ctx : Context W) (s : Sink C O N)
        (d : Done × Context W × Sink C O N)
        → (d.0 ≡ done
            → (ledger ops delivered d.2 [] ≡ ledger ops delivered s (writes ctx.outbox ++ []))
              × (d.1.outbox ≡ [])
              × (d.2.wire.write_buf ≡ []))
        → (finish ops result h d).0 ≡ done
        → Arrives (finish ops result h d) s (writes ctx.outbox)
    finish-Arrives result h ctx s (ok a, ctx', s') f k =
        let (p, q, r) = f refl in
        ground (arith, append-nil (writes ctx.outbox), append-nil (delivered s'.wire.socket))
    finish-Arrives result h ctx s (err x, ctx', s') f k = absurd (ground arith)

    go_on-Arrives :
        (h : H) (rest : Context W → Sink C O N → Handled ops H) (d : Done × Context W × Sink C O N)
        (ctx : Context W) (s : Sink C O N) (before after : List W)
        → (go_on ops h rest d).0 ≡ done
        → (d.0 ≡ done
            → (ledger ops delivered d.2 after ≡ ledger ops delivered s (before ++ after))
              × (d.1 ≡ ctx))
        → ((s' : Sink C O N) → (rest ctx s').0 ≡ done → Arrives (rest ctx s') s' after)
        → Arrives (go_on ops h rest d) s (before ++ after)
    go_on-Arrives h rest (ok a, ctx', s') ctx s before after k f ih =
        let (p, q) = f refl in
        subst (λ c. (rest c s').0 ≡ done → Arrives (rest c s') s (before ++ after)) (sym q)
          (λ k'. let (sends, empty, taken) = ih s' k' in (sends ∙ p, empty, taken)) k
    go_on-Arrives h rest (err x, ctx', s') ctx s before after k f ih = absurd (ground arith)

    -- For a socket and an encoder with their laws, from any state: a run of the handler in which
    -- everything succeeds has delivered what was delivered and buffered before and then the encodings
    -- of all that the outbox held and the handler wrote, in order and nothing else; the buffer and the
    -- outbox are empty.
    pub handler_writes_arrive :
        (handling : Handling W H) (ctx : Context W) (s : Sink C O N)
        → let (result, h, ctx', s') = run_handler ops handling ctx s in
          result ≡ done
          → (delivered s'.wire.socket ≡ ledger ops delivered s (said handling ctx))
            × (s'.wire.write_buf ≡ [])
            × (ctx'.outbox ≡ [])
    unfolding run_handler
    handler_writes_arrive (ready cs result h) ctx s k =
        finish-Arrives result h (calls cs ctx) s (drain_stream_outbox ops true (calls cs ctx) s)
          (λ e. let (p, q, r) = drain-ledger true [] (calls cs ctx) s e in (p, q, r refl)) k
    handler_writes_arrive (waiting cs h next_poll) ctx s k =
        let ctx' = calls cs ctx in
        let flushes = has_flush_command ctx'.outbox in
        let ctx'' = answered_if flushes ctx' in
        go_on-Arrives h (λ c t. run_handler ops (next_poll c.answers) c t)
          (between_polls ops ctx' s) ctx'' s (said_before flushes ctx')
          (said (next_poll ctx''.answers) ctx'') k (drain_if-ledger flushes _ ctx' s)
          (λ s'. handler_writes_arrive (next_poll ctx''.answers) ctx'' s')
