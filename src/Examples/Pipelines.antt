-- ===== src/Examples/Pipelines.antt =====
-- The theorems on pipelines, at the echo server.
use rs_netty.Common.{◌≡◌, refl, some, [], ◌∷◌, ◌++◌}
use rs_netty.Common.Bytes.{Bytes}
use rs_netty.Codec.FixedLength
use rs_netty.Context.{new_context, write, flush, new_stats}
use rs_netty.Pipeline.Runtime.{
  Wire, flush_write_buf, encode_outbound, run_commands, drain_stream_outbox, run_handler,
}
use rs_netty.Pipeline.Ledger.{said, ledger}
use rs_netty.Pipeline.Delivery.{handler_writes_arrive}
use rs_netty.Pipeline.Flush.{Extends, flush_answer_delivers}
use rs_netty.Pipeline.Inbound.{process_inbound_flushable}
use rs_netty.Pipeline.Unflushed.{
  process_inbound, then_drain, process_inbound_flushable-process_inbound,
}
use rs_netty.Pipeline.Counters.{IsCounted, run_handler-IsCounted}
use rs_netty.Examples.Echo.{
  write_all-IsSocket, encode-IsAppending, delivered, tx, rx, echo, plain_echo, pipeline, idle_wire,
  sink,
}

handler_writes_arrive_example :
    let (result, h, ctx', s') = run_handler tx (echo 0 (5 ∷ 6 ∷ [])) new_context sink in
    (delivered s'.wire.socket ≡ ledger tx delivered sink (said (echo 0 (5 ∷ 6 ∷ [])) new_context))
    × (s'.wire.write_buf ≡ [])
    × (ctx'.outbox ≡ [])
unfolding run_handler drain_stream_outbox run_commands encode_outbound flush_write_buf
    FixedLength.encode
handler_writes_arrive_example =
    handler_writes_arrive tx delivered write_all-IsSocket encode-IsAppending (echo 0 (5 ∷ 6 ∷ []))
      new_context sink refl

flush_answer_delivers_example :
    let (result, answers', s') =
      run_commands tx ((write (5 ∷ 6 ∷ []) ∷ []) ++ (flush ∷ write (1 ∷ []) ∷ [])) [] sink in
    Extends (ledger tx delivered sink ((5 ∷ 6 ∷ []) ∷ [])) (delivered s'.wire.socket)
unfolding run_commands encode_outbound flush_write_buf FixedLength.encode
flush_answer_delivers_example =
    flush_answer_delivers tx delivered write_all-IsSocket encode-IsAppending
      (write (5 ∷ 6 ∷ []) ∷ []) (write (1 ∷ []) ∷ []) [] sink refl

process_inbound_flushable-process_inbound_example :
    process_inbound_flushable (rx plain_echo) tx pipeline new_context idle_wire (5 ∷ 6 ∷ [])
    ≡ then_drain
        (rx plain_echo)
        tx
        idle_wire
        (process_inbound (rx plain_echo) tx pipeline new_context (5 ∷ 6 ∷ []))
process_inbound_flushable-process_inbound_example =
    process_inbound_flushable-process_inbound (rx plain_echo) tx pipeline new_context idle_wire
      (5 ∷ 6 ∷ []) (λ cur. refl) refl refl

abbrev counted : Wire Bytes
counted = record { socket = []; write_buf = 9 ∷ 9 ∷ []; stats = some new_stats }

run_handler-IsCounted_example :
    let (result, h, ctx', s') =
      run_handler tx (echo 0 (5 ∷ 6 ∷ [])) new_context (record sink { wire = counted }) in
    IsCounted tx delivered write_all-IsSocket s'.wire
unfolding run_handler drain_stream_outbox run_commands encode_outbound flush_write_buf
    FixedLength.encode
run_handler-IsCounted_example =
    run_handler-IsCounted tx delivered write_all-IsSocket (echo 0 (5 ∷ 6 ∷ [])) new_context
      (record sink { wire = counted }) refl refl
