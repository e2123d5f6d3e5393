-- ===== src/Pipeline/Ledger.antt =====
-- What the bytes on their way to the socket should be: laws of a socket and of an encoder, the ledger
-- of a connection, and the messages that a handler says.
use rs_netty.Common.{◌≡◌, Bool, true, false, Option, none, some, List, [], ◌∷◌, ◌++◌}
use rs_netty.Common.Bytes.{Bytes}
use rs_netty.Error.{Message}
use rs_netty.Context.{
  Done, done, StreamOutboxCommand, write, flush, Context, calls, has_flush_command,
}
use rs_netty.Pipeline.Runtime.{Sink, Sending, Handling, ready, waiting, process_outbound}

-- `write_all` of a socket: it sends the whole buffer, or gives an error after a part of it.
pub record IsSocket {N : Type 0} (write_all : N → Bytes → Option Message × N)
    (delivered : N → Bytes) : Type 0 where
  pub sends :
      (n : N) (buf : Bytes) {n' : N}
      → write_all n buf ≡ (none, n')
      → delivered n' ≡ delivered n ++ buf
  pub breaks :
      (n : N) (buf : Bytes) {e : Message} {n' : N}
      → write_all n buf ≡ (some e, n')
      → (part rest : Bytes) × (part ++ rest ≡ buf) × (delivered n' ≡ delivered n ++ part)

-- An encoder appends to the buffer, and does not look at what is in it.
abbrev pub IsAppending : {C Out : Type 0} → (C → Out → Bytes → Done × C × Bytes) → Type 0
IsAppending {C} {Out} encode =
    (c : C) (x : Out) (dst : Bytes)
    → encode c x dst ≡ ((encode c x []).0, (encode c x []).1, dst ++ (encode c x []).2)

-- The messages among the commands of an outbox.
abbrev pub writes : {W : Type 0} → List (StreamOutboxCommand W) → List W
writes [] = []
writes (write msg ∷ cs) = msg ∷ writes cs
writes (flush ∷ cs) = writes cs

module _ {W : Type 0} where
  -- The answers to the flushes among the commands, when all of them succeed.
  abbrev pub all_done : List (StreamOutboxCommand W) → List Done
  all_done [] = []
  all_done (write msg ∷ cs) = all_done cs
  all_done (flush ∷ cs) = done ∷ all_done cs

  abbrev pub answered : Context W → Context W
  answered ctx = record ctx { outbox = []; answers = ctx.answers ++ all_done ctx.outbox }

  abbrev pub said_before : Bool → Context W → List W
  said_before true ctx = writes ctx.outbox
  said_before false ctx = []

  abbrev pub answered_if : Bool → Context W → Context W
  answered_if true ctx = answered ctx
  answered_if false ctx = ctx

  -- The messages in the outbox, and all that the handler adds to it in a run in which its flushes
  -- succeed.
  abbrev pub said : {H : Type 0} → Handling W H → Context W → List W
  said (ready cs result h) ctx = writes (calls cs ctx).outbox
  said (waiting cs h k) ctx =
      let ctx' = calls cs ctx in
      let flushes = has_flush_command ctx'.outbox in
      let next_ctx = answered_if flushes ctx' in
      said_before flushes ctx' ++ said (k next_ctx.answers) next_ctx

module _ {C O N W Out : Type 0} (ops : Sending C O N W Out) where
  -- The bytes of these messages, each encoded into an empty buffer.
  abbrev pub encodings : C → O → List W → Bytes
  encodings codec outbound [] = []
  encodings codec outbound (msg ∷ msgs) =
      let (result, codec', outbound', frame) = process_outbound ops codec outbound msg [] in
      frame ++ encodings codec' outbound' msgs

  module _ (delivered : N → Bytes) where
    -- What has been delivered, what is buffered, and what these messages would add.
    abbrev pub ledger : Sink C O N → List W → Bytes
    ledger s msgs =
        delivered s.wire.socket ++ (s.wire.write_buf ++ encodings s.codec s.outbound msgs)
