-- ===== src/Pipeline/Preserve.antt =====
-- Properties of the sink that a run of the handler keeps.
use rs_netty.Common.{◌≡◌, refl, Bool, true, false, List, [], ◌∷◌, arith}
use rs_netty.Error.{ok, err}
use rs_netty.Context.{
  Done, done, StreamOutboxCommand, write, flush, Context, calls, has_flush_command,
}
use rs_netty.Pipeline.Runtime.{
  Sink, Sending, Handling, ready, waiting, encode_outbound, flush_sink, run_command, run_commands,
  if_done, Drained, final_flush, drain_stream_outbox, run_handler, finish, go_on, drain_if,
  between_polls, Handled,
}

-- A property that a flush keeps when it succeeds, and so does encoding.
module _ {C O N W Out : Type 0} (ops : Sending C O N W Out) (Good : Sink C O N → Type 0)
    (flush_keeps : (s : Sink C O N)
      → Good s
      → (flush_sink ops s).0 ≡ done
      → Good (flush_sink ops s).1)
    (encode_keeps : (s : Sink C O N) (msg : W)
      → Good s
      → (encode_outbound ops s msg).0 ≡ done
      → Good (encode_outbound ops s msg).1) where
  command-Good :
      (c : StreamOutboxCommand W) (answers : List Done) (s : Sink C O N)
      → Good s
      → (run_command ops c answers s).0 ≡ done
      → Good (run_command ops c answers s).2
  command-Good (write msg) answers s g h = encode_keeps s msg g h
  command-Good flush answers s g h = flush_keeps s g h

  if_done-Good :
      (d : Drained ops) (rest : List Done → Sink C O N → Drained ops)
      → (d.0 ≡ done → Good d.2)
      → ((answers : List Done) (s : Sink C O N)
          → Good s
          → (rest answers s).0 ≡ done
          → Good (rest answers s).2)
      → (if_done ops rest d).0 ≡ done
      → Good (if_done ops rest d).2
  if_done-Good (ok a, answers, s) rest g ih h = ih answers s (g refl) h
  if_done-Good (err e, answers, s) rest g ih h = absurd (ground arith)

  run_commands-Good :
      (cs : List (StreamOutboxCommand W)) (answers : List Done) (s : Sink C O N)
      → Good s
      → (run_commands ops cs answers s).0 ≡ done
      → Good (run_commands ops cs answers s).2
  unfolding run_commands
  run_commands-Good [] answers s g h = g
  run_commands-Good (c ∷ cs) answers s g h =
      if_done-Good (run_command ops c answers s) (run_commands ops cs) (command-Good c answers s g)
        (run_commands-Good cs) h

  final_flush-Good :
      (at_end : Bool) (answers : List Done) (s : Sink C O N)
      → Good s
      → (final_flush ops at_end answers s).0 ≡ done
      → Good (final_flush ops at_end answers s).2
  final_flush-Good true answers s g h = flush_keeps s g h
  final_flush-Good false answers s g h = g

  drain-Good :
      (at_end : Bool) (ctx : Context W) (s : Sink C O N)
      → Good s
      → (drain_stream_outbox ops at_end ctx s).0 ≡ done
      → Good (drain_stream_outbox ops at_end ctx s).2
  unfolding drain_stream_outbox
  drain-Good at_end ctx s g h =
      if_done-Good (run_commands ops ctx.outbox ctx.answers s) (final_flush ops at_end)
        (run_commands-Good ctx.outbox ctx.answers s g) (final_flush-Good at_end) h

  drain_if-Good :
      (flushes : Bool) (ctx : Context W) (s : Sink C O N)
      → Good s
      → (drain_if ops flushes ctx s).0 ≡ done
      → Good (drain_if ops flushes ctx s).2
  drain_if-Good true ctx s g h = drain-Good false ctx s g h
  drain_if-Good false ctx s g h = g

  module _ {H : Type 0} where
    finish-Good :
        (result : Done) (h : H) (d : Done × Context W × Sink C O N)
        → (d.0 ≡ done → Good d.2)
        → (finish ops result h d).0 ≡ done
        → Good (finish ops result h d).3
    finish-Good result h (ok a, ctx, s) g k = g refl
    finish-Good result h (err e, ctx, s) g k = absurd (ground arith)

    go_on-Good :
        (h : H) (rest : Context W → Sink C O N → Handled ops H) (d : Done × Context W × Sink C O N)
        → (d.0 ≡ done → Good d.2)
        → ((ctx : Context W) (s : Sink C O N)
            → Good s
            → (rest ctx s).0 ≡ done
            → Good (rest ctx s).3)
        → (go_on ops h rest d).0 ≡ done
        → Good (go_on ops h rest d).3
    go_on-Good h rest (ok a, ctx, s) g ih k = ih ctx s (g refl) k
    go_on-Good h rest (err e, ctx, s) g ih k = absurd (ground arith)

    pub run_handler-Good :
        (handling : Handling W H) (ctx : Context W) (s : Sink C O N)
        → Good s
        → (run_handler ops handling ctx s).0 ≡ done
        → Good (run_handler ops handling ctx s).3
    unfolding run_handler
    run_handler-Good (ready cs result h) ctx s g k =
        finish-Good result h (drain_stream_outbox ops true (calls cs ctx) s)
          (drain-Good true (calls cs ctx) s g) k
    run_handler-Good (waiting cs h next_poll) ctx s g k =
        let ctx' = calls cs ctx in
        go_on-Good h (λ c t. run_handler ops (next_poll c.answers) c t) (between_polls ops ctx' s)
          (drain_if-Good (has_flush_command ctx'.outbox) ctx' s g)
          (λ c t. run_handler-Good (next_poll c.answers) c t) k
