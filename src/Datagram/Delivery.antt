-- ===== src/Datagram/Delivery.antt =====
-- Each message that a datagram handler writes goes out as a datagram of its own, in order.
use rs_netty.Common.{
  ◌≡◌, refl, sym, ap, subst, ◌∙◌, Bool, true, false, if◌then◌else◌, Option, none, some, List, [],
  ◌∷◌, ◌++◌, append-nil, append_assoc, arith,
}
use rs_netty.Common.Bytes.{Bytes}
use rs_netty.Error.{Result, Message, ok, err}
use rs_netty.Context.{Done, done}
use rs_netty.Pipeline.{Flow, next, stop}
use rs_netty.Pipeline.Runtime.{is_empty}
use rs_netty.Datagram.{
  DatagramOutboxCommand, flush, DatagramContext, Handling, ready, waiting, calls, has_flush_command,
}
use DatagramOutboxCommand.{write_to}
use rs_netty.Datagram.Runtime.{
  Sending, Sink, encode_flow, encode_datagram_outbound, sent, flush_datagram, then_flush,
  send_message, Drained, if_done, run_command, run_commands, drain_datagram_outbox, drain_if,
  between_polls, Handled, finish, go_on, run_handler,
}

-- `send_to` that succeeds has sent the whole datagram; `log` is what was sent.
pub record IsUdpSocket {N A : Type 0} (send_to : N → Bytes → A → Option Message × N)
    (log : N → List (A × Bytes)) : Type 0 where
  pub sends :
      (n : N) (buf : Bytes) (peer : A) {n' : N}
      → send_to n buf peer ≡ (none, n')
      → log n' ≡ log n ++ ((peer, buf) ∷ [])

-- The messages among the commands of an outbox, with their peers.
abbrev pub messages : {A W : Type 0} → List (DatagramOutboxCommand A W) → List (A × W)
messages [] = []
messages (write_to peer msg ∷ cs) = (peer, msg) ∷ messages cs
messages (flush ∷ cs) = messages cs

module _ {A W : Type 0} where
  abbrev pub all_done : List (DatagramOutboxCommand A W) → List Done
  all_done [] = []
  all_done (write_to peer msg ∷ cs) = all_done cs
  all_done (flush ∷ cs) = done ∷ all_done cs

  abbrev pub answered : DatagramContext A W → DatagramContext A W
  answered ctx = record ctx { outbox = []; answers = ctx.answers ++ all_done ctx.outbox }

  abbrev pub said_before : Bool → DatagramContext A W → List (A × W)
  said_before true ctx = messages ctx.outbox
  said_before false ctx = []

  abbrev pub answered_if : Bool → DatagramContext A W → DatagramContext A W
  answered_if true ctx = answered ctx
  answered_if false ctx = ctx

  -- The messages in the outbox, and all that the handler adds to it in a run that succeeds.
  abbrev pub said : {H : Type 0} → Handling A W H → DatagramContext A W → List (A × W)
  said (ready cs result h) ctx = messages (calls cs ctx).outbox
  said (waiting cs h k) ctx =
      let ctx' = calls cs ctx in
      let flushes = has_flush_command ctx'.outbox in
      let next_ctx = answered_if flushes ctx' in
      said_before flushes ctx' ++ said (k next_ctx.answers) next_ctx

-- No datagram is sent for an empty encoding.
abbrev pub datagram : {A : Type 0} → A → Bytes → List (A × Bytes)
datagram peer [] = []
datagram peer (b ∷ bs) = (peer, b ∷ bs) ∷ []

module _ {C O N A W Out : Type 0} (ops : Sending C O N A W Out) where
  -- A message encoded into an empty buffer, and codec and stages after it.
  abbrev pub encoding : C → Result (Flow Out) × O → Bytes × C × O
  encoding codec (ok (next msg), outbound) =
      let (result, codec', dst) = ops.encode_datagram codec msg [] in (dst, codec', outbound)
  encoding codec (ok stop, outbound) = ([], codec, outbound)
  encoding codec (err e, outbound) = ([], codec, outbound)

  -- The datagrams of these messages.
  abbrev pub datagrams : C → O → List (A × W) → List (A × Bytes)
  datagrams codec outbound [] = []
  datagrams codec outbound ((peer, msg) ∷ msgs) =
      let (dst, codec', outbound') = encoding codec (ops.process outbound msg) in
      datagram peer dst ++ datagrams codec' outbound' msgs

  module _ (log : N → List (A × Bytes)) (socket : IsUdpSocket ops.send_to log) where
    -- What has been sent, and what these messages would add.
    abbrev pub ledger : Sink C O N → List (A × W) → List (A × Bytes)
    ledger s msgs = log s.socket ++ datagrams s.codec s.outbound msgs

    -- After a message: its datagram is sent, nothing is buffered, and the rest is as before.
    abbrev Sent : A → Bytes → Sink C O N → Done × Sink C O N → Type 0
    Sent peer buf s (result, s') =
        result ≡ done
        → (log s'.socket ≡ log s.socket ++ datagram peer buf)
          × (s'.codec ≡ s.codec)
          × (s'.outbound ≡ s.outbound)
          × (s'.write_buf ≡ [])

    flush-Sent : (peer : A) (s : Sink C O N) → Sent peer s.write_buf s (flush_datagram ops peer s)
    unfolding flush_datagram
    flush-Sent peer s h = go s.write_buf refl h
      where
        after_send :
            (buf : Bytes) (r : Option Message × N)
            → ops.send_to s.socket s.write_buf peer ≡ r
            → datagram peer buf ≡ (peer, s.write_buf) ∷ []
            → Sent peer buf s (sent ops s r)
        after_send buf (none, n) e d k =
            rw d (socket.sends s.socket s.write_buf peer e, refl, refl, refl)
        after_send buf (some m, n) e d k = absurd (ground arith)

        go :
            (buf : Bytes)
            → s.write_buf ≡ buf
            → Sent peer buf s (
                if is_empty buf
                then (done, s)
                else sent ops s (ops.send_to s.socket s.write_buf peer))
        go [] e k = (sym (append-nil (log s.socket)), refl, refl, e)
        go (b ∷ bs) e k =
            after_send (b ∷ bs) (ops.send_to s.socket s.write_buf peer) refl (rw e refl) k

    then_flush-ledger :
        (peer : A) (msgs : List (A × W)) (result : Done) (s : Sink C O N)
        → let (result', s') = then_flush ops peer (result, s) in
          result' ≡ done
          → (ledger s' msgs
              ≡ log s.socket ++ (datagram peer s.write_buf ++ datagrams s.codec s.outbound msgs))
            × (s'.write_buf ≡ [])
    then_flush-ledger peer msgs (ok a) s h =
        let (l, c, o, b) = flush-Sent peer s h in
        (
          rw (l, c, o)
              (append_assoc (log s.socket) (datagram peer s.write_buf)
                (datagrams s.codec s.outbound msgs)),
          b,
        )
    then_flush-ledger peer msgs (err e) s h = absurd (ground arith)

    pub send-ledger :
        (peer : A) (msg : W) (s : Sink C O N) (msgs : List (A × W))
        → s.write_buf ≡ []
        → let (result, s') = send_message ops peer msg s in
          result ≡ done → (ledger s' msgs ≡ ledger s ((peer, msg) ∷ msgs)) × (s'.write_buf ≡ [])
    unfolding encode_datagram_outbound
    send-ledger peer msg s msgs e = go (ops.process s.outbound msg)
      where
        go :
            (r : Result (Flow Out) × O)
            → let (result, s') = then_flush ops peer (encode_flow ops s r) in
              let (dst, codec, outbound) = encoding s.codec r in
              result ≡ done
              → (ledger s' msgs
                  ≡ log s.socket ++ (datagram peer dst ++ datagrams codec outbound msgs))
                × (s'.write_buf ≡ [])
        go (ok (next x), o) = rw e (λ h.
            then_flush-ledger peer msgs (ops.encode_datagram s.codec x []).0
              (record {
                codec = (ops.encode_datagram s.codec x []).1;
                outbound = o;
                socket = s.socket;
                write_buf = (ops.encode_datagram s.codec x []).2;
              })
              h)
        go (ok stop, o) = rw e (λ h.
            then_flush-ledger peer msgs done
              (record { codec = s.codec; outbound = o; socket = s.socket; write_buf = [] }) h)
        go (err x, o) = λ h. absurd (ground arith)

    -- What a list of commands, or a run of the handler, is to leave when it succeeds.
    abbrev pub Arrives : List (A × W) → List (A × W) → Sink C O N → Sink C O N → Type 0
    Arrives msgs before s s' = (ledger s' msgs ≡ ledger s (before ++ msgs)) × (s'.write_buf ≡ [])

    Arrives-trans :
        (msgs xs ys : List (A × W)) (s t u : Sink C O N)
        → Arrives (ys ++ msgs) xs s t
        → Arrives msgs ys t u
        → Arrives msgs (xs ++ ys) s u
    Arrives-trans msgs xs ys s t u (p, q) (p', q') =
        (p' ∙ p ∙ ap (ledger s) (sym (append_assoc xs ys msgs)), q')

    command-Arrives :
        (c : DatagramOutboxCommand A W) (msgs : List (A × W)) (answers : List Done) (s : Sink C O N)
        → s.write_buf ≡ []
        → let (result, answers', s') = run_command ops c answers s in
          result ≡ done
          → Arrives msgs (messages (c ∷ [])) s s' × (answers' ≡ answers ++ all_done (c ∷ []))
    command-Arrives (write_to peer msg) msgs answers s e h =
        (send-ledger peer msg s msgs e h, sym (append-nil answers))
    command-Arrives flush msgs answers s e h = ((refl, e), refl)

    messages-cons :
        (c : DatagramOutboxCommand A W) (cs : List (DatagramOutboxCommand A W))
        → (messages (c ∷ cs) ≡ messages (c ∷ []) ++ messages cs)
          × (all_done (c ∷ cs) ≡ all_done (c ∷ []) ++ all_done cs)
    messages-cons (write_to peer msg) cs = (refl, refl)
    messages-cons flush cs = (refl, refl)

    -- Commands that succeed, from answers and a sink whose buffer is empty.
    abbrev Ran :
        List (DatagramOutboxCommand A W)
        → List (A × W)
        → List Done
        → Sink C O N
        → Drained ops
        → Type 0
    Ran cs msgs answers s (result, answers', s') =
        result ≡ done → Arrives msgs (messages cs) s s' × (answers' ≡ answers ++ all_done cs)

    if_done-Ran :
        (c : DatagramOutboxCommand A W) (cs : List (DatagramOutboxCommand A W))
        (msgs : List (A × W)) (answers : List Done) (s : Sink C O N) (d : Drained ops)
        → Ran (c ∷ []) (messages cs ++ msgs) answers s d
        → ((answers' : List Done) (s' : Sink C O N)
            → s'.write_buf ≡ []
            → Ran cs msgs answers' s' (run_commands ops cs answers' s'))
        → Ran (c ∷ cs) msgs answers s (if_done ops (run_commands ops cs) d)
    if_done-Ran c cs msgs answers s (ok a, answers', s') first ih h =
        let (p, q) = first refl in
        let (p', q') = ih answers' s' p.1 h in
        let (m, n) = messages-cons c cs in
        rw (m, n)
          (
            Arrives-trans msgs (messages (c ∷ [])) (messages cs) s s'
                (run_commands ops cs answers' s').2 p p',
            q'
                ∙ ap (λ l. l ++ all_done cs) q
                ∙ append_assoc answers (all_done (c ∷ [])) (all_done cs),
          )
    if_done-Ran c cs msgs answers s (err e, answers', s') first ih h = absurd (ground arith)

    commands-Ran :
        (cs : List (DatagramOutboxCommand A W)) (msgs : List (A × W)) (answers : List Done)
        (s : Sink C O N)
        → s.write_buf ≡ []
        → Ran cs msgs answers s (run_commands ops cs answers s)
    unfolding run_commands
    commands-Ran [] msgs answers s e = λ h. ((refl, e), sym (append-nil answers))
    commands-Ran (c ∷ cs) msgs answers s e =
        if_done-Ran c cs msgs answers s (run_command ops c answers s)
          (command-Arrives c (messages cs ++ msgs) answers s e) (commands-Ran cs msgs)

    drain-Arrives :
        (ctx : DatagramContext A W) (msgs : List (A × W)) (s : Sink C O N)
        → s.write_buf ≡ []
        → let (result, ctx', s') = drain_datagram_outbox ops ctx s in
          result ≡ done → Arrives msgs (messages ctx.outbox) s s' × (ctx' ≡ answered ctx)
    unfolding drain_datagram_outbox
    drain-Arrives ctx msgs s e h =
        let (p, q) = commands-Ran ctx.outbox msgs ctx.answers s e h in (p, rw q refl)

    drain_if-Arrives :
        (flushes : Bool) (ctx : DatagramContext A W) (msgs : List (A × W)) (s : Sink C O N)
        → s.write_buf ≡ []
        → let (result, ctx', s') = drain_if ops flushes ctx s in
          result ≡ done
          → Arrives msgs (said_before flushes ctx) s s' × (ctx' ≡ answered_if flushes ctx)
    drain_if-Arrives true ctx msgs s e h = drain-Arrives ctx msgs s e h
    drain_if-Arrives false ctx msgs s e h = ((refl, e), refl)

    module _ {H : Type 0} where
      abbrev HandlerArrives : Handled ops H → Sink C O N → List (A × W) → Type 0
      HandlerArrives (result, h, ctx', s') s msgs =
          result ≡ done → (log s'.socket ≡ ledger s msgs) × (s'.write_buf ≡ []) × (ctx'.outbox ≡ [])

      finish-HandlerArrives :
          (result : Done) (h : H) (ctx : DatagramContext A W) (s : Sink C O N)
          (d : Done × DatagramContext A W × Sink C O N)
          → (d.0 ≡ done → Arrives [] (messages ctx.outbox) s d.2 × (d.1 ≡ answered ctx))
          → HandlerArrives (finish ops result h d) s (messages ctx.outbox)
      finish-HandlerArrives result h ctx s (ok a, ctx', s') f k =
          let (p, q) = f refl in
          (
            sym (append-nil (log s'.socket))
                ∙ p.0
                ∙ ap (ledger s) (append-nil (messages ctx.outbox)),
            p.1,
            ap (λ c. c.outbox) q,
          )
      finish-HandlerArrives result h ctx s (err e, ctx', s') f k = absurd (ground arith)

      go_on-HandlerArrives :
          (h : H) (rest : DatagramContext A W → Sink C O N → Handled ops H)
          (d : Done × DatagramContext A W × Sink C O N) (ctx : DatagramContext A W) (s : Sink C O N)
          (before after : List (A × W))
          → (d.0 ≡ done → Arrives after before s d.2 × (d.1 ≡ ctx))
          → ((s' : Sink C O N) → s'.write_buf ≡ [] → HandlerArrives (rest ctx s') s' after)
          → HandlerArrives (go_on ops h rest d) s (before ++ after)
      go_on-HandlerArrives h rest (ok a, ctx', s') ctx s before after f ih =
          let (p, q) = f refl in
          subst (λ c. HandlerArrives (rest c s') s (before ++ after)) (sym q)
            (λ k. let (sends, empty, taken) = ih s' p.1 k in (sends ∙ p.0, empty, taken))
      go_on-HandlerArrives h rest (err e, ctx', s') ctx s before after f ih =
          λ k. absurd (ground arith)

      -- For a socket with its laws, and nothing buffered: a run of the handler in which everything
      -- succeeds has sent, after what was sent before, one datagram for each message of the outbox and
      -- of the handler, to its peer and in order, and none for a message that is stopped or has an
      -- empty encoding. The buffer and the outbox are empty.
      pub datagrams_arrive :
          (handling : Handling A W H) (ctx : DatagramContext A W) (s : Sink C O N)
          → s.write_buf ≡ []
          → let (result, h, ctx', s') = run_handler ops handling ctx s in
            result ≡ done
            → (log s'.socket ≡ ledger s (said handling ctx))
              × (s'.write_buf ≡ [])
              × (ctx'.outbox ≡ [])
      unfolding run_handler
      datagrams_arrive (ready cs result h) ctx s e =
          finish-HandlerArrives result h (calls cs ctx) s
            (drain_datagram_outbox ops (calls cs ctx) s) (drain-Arrives (calls cs ctx) [] s e)
      datagrams_arrive (waiting cs h next_poll) ctx s e =
          let ctx' = calls cs ctx in
          let flushes = has_flush_command ctx'.outbox in
          let ctx'' = answered_if flushes ctx' in
          go_on-HandlerArrives h (λ c t. run_handler ops (next_poll c.answers) c t)
            (between_polls ops ctx' s) ctx'' s (said_before flushes ctx')
            (said (next_poll ctx''.answers) ctx'')
            (drain_if-Arrives flushes ctx' (said (next_poll ctx''.answers) ctx'') s e)
            (λ s' e'. datagrams_arrive (next_poll ctx''.answers) ctx'' s' e')
