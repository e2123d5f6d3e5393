-- ===== src/Pipeline/Flush.antt =====
-- What the answer to a flush promises: the bytes of everything written before are with the socket.
use rs_netty.Common.{
  ℕ, suc, ◌+◌, ◌≤◌, if◌then◌else◌, ◌≡◌, refl, sym, ap, subst, ◌∙◌, Option, none, some, List, [],
  ◌∷◌, ◌++◌, append-nil, append_assoc, length, length-append, get_elem?, get_elem?-append_length,
  get_elem?-past, arith,
}
use rs_netty.Common.Bytes.{Bytes}
use rs_netty.Error.{Result, Message, ok, err}
use rs_netty.Context.{Done, done, StreamOutboxCommand, write, flush}
use rs_netty.Pipeline.{Flow, next, stop}
use rs_netty.Pipeline.Runtime.{
  Wire, Sink, Sending, is_empty, written, flush_write_buf, encode_outbound, encode_next, flush_sink,
  flush_ack, run_command, run_commands, if_done, Drained,
}
use rs_netty.Pipeline.Ledger.{IsSocket, IsAppending, writes, ledger}
use rs_netty.Pipeline.Delivery.{flush-ledger, run_commands-ledger}

-- `b` is `a` and something behind it.
abbrev pub Extends {ℓ} : {A : Type ℓ} → List A → List A → Type ℓ
Extends {A} a b = (rest : List A) × (b ≡ a ++ rest)

pub Extends-refl {ℓ} : {A : Type ℓ} (a : List A) → Extends a a
Extends-refl a = ([], sym (append-nil a))

pub Extends-trans {ℓ} : {A : Type ℓ} (a b c : List A) → Extends a b → Extends b c → Extends a c
Extends-trans a b c (r, e) (t, f) = (r ++ t, rw (f, e) (append_assoc a r t))

abbrev pub flush_count : {W : Type 0} → List (StreamOutboxCommand W) → ℕ
flush_count [] = 0
flush_count (write msg ∷ cs) = flush_count cs
flush_count (flush ∷ cs) = suc (flush_count cs)

module _ {C O N W Out : Type 0} (ops : Sending C O N W Out) (delivered : N → Bytes)
    (socket : IsSocket ops.write_all delivered) where
  abbrev sent_by : Sink C O N → Bytes
  sent_by s = delivered s.wire.socket

  written-Extends :
      (w : Wire N) (r : Option Message × N)
      → ops.write_all w.socket w.write_buf ≡ r
      → Extends (delivered w.socket) (delivered (written ops.write_all w r).1.socket)
  written-Extends w (none, n) e = (w.write_buf, socket.sends w.socket w.write_buf e)
  written-Extends w (some x, n) e =
      let (part, rest, _, q) = socket.breaks w.socket w.write_buf e in (part, q)

  flush_write_buf-Extends :
      (w : Wire N)
      → Extends (delivered w.socket) (delivered (flush_write_buf ops.write_all w).1.socket)
  unfolding flush_write_buf
  flush_write_buf-Extends w = go w.write_buf
    where
      go :
          (buf : Bytes)
          → Extends (delivered w.socket) (
              delivered
                (if is_empty buf
                  then (done, w)
                  else written ops.write_all w (ops.write_all w.socket w.write_buf)).1.socket)
      go [] = Extends-refl (delivered w.socket)
      go (b ∷ bs) = written-Extends w (ops.write_all w.socket w.write_buf) refl

  encode_outbound-Extends :
      (s : Sink C O N) (msg : W) → Extends (sent_by s) (sent_by (encode_outbound ops s msg).1)
  unfolding encode_outbound
  encode_outbound-Extends s msg = go (ops.process s.outbound msg)
    where
      go : (r : Result (Flow Out) × O) → Extends (sent_by s) (sent_by (encode_next ops s r).1)
      go (ok (next x), o) = Extends-refl (sent_by s)
      go (ok stop, o) = Extends-refl (sent_by s)
      go (err e, o) = Extends-refl (sent_by s)

  -- How far the answers have come: as many as there were flushes, or at most so many after an error.
  abbrev Grows : List Done → ℕ → Sink C O N → Drained ops → Type 0
  Grows answers n s (ok a, answers', s') =
      (length answers' ≡ length answers + n)
      × Extends answers answers'
      × Extends (sent_by s) (sent_by s')
  Grows answers n s (err e, answers', s') =
      (length answers' ≤ length answers + n)
      × Extends answers answers'
      × Extends (sent_by s) (sent_by s')

  command-Grows :
      (c : StreamOutboxCommand W) (answers : List Done) (s : Sink C O N)
      → Grows answers (flush_count (c ∷ [])) s (run_command ops c answers s)
  command-Grows (write msg) answers s =
      go (encode_outbound ops s msg) (encode_outbound-Extends s msg)
    where
      go :
          (r : Done × Sink C O N)
          → Extends (sent_by s) (sent_by r.1)
          → Grows answers 0 s (r.0, answers, r.1)
      go (ok a, s') e = (omega arith, Extends-refl answers, e)
      go (err x, s') e = (omega arith, Extends-refl answers, e)
  command-Grows flush answers s = go (flush_sink ops s) (flush_write_buf-Extends s.wire)
    where
      go :
          (r : Done × Sink C O N)
          → Extends (sent_by s) (sent_by r.1)
          → Grows answers 1 s (r.0, answers ++ (flush_ack ops r.0 ∷ []), r.1)
      go (ok a, s') e =
          (omega (arith, length-append answers (flush_ack ops (ok a) ∷ [])), (_, refl), e)
      go (err x, s') e =
          (omega (arith, length-append answers (flush_ack ops (err x) ∷ [])), (_, refl), e)

  Grows-trans :
      (n m : ℕ) (answers mid : List Done) (s s' : Sink C O N) (d : Drained ops)
      → length mid ≡ length answers + n
      → Extends answers mid
      → Extends (sent_by s) (sent_by s')
      → Grows mid m s' d
      → Grows answers (n + m) s d
  Grows-trans n m answers mid s s' (ok a, last, s'') e p q (f, p', q') = (
    omega arith,
    Extends-trans answers mid last p p',
    Extends-trans (sent_by s) (sent_by s') (sent_by s'') q q',
  )
  Grows-trans n m answers mid s s' (err x, last, s'') e p q (f, p', q') = (
    omega arith,
    Extends-trans answers mid last p p',
    Extends-trans (sent_by s) (sent_by s') (sent_by s'') q q',
  )

  if_done-Grows :
      (n m : ℕ) (answers : List Done) (s : Sink C O N) (d : Drained ops)
      (rest : List Done → Sink C O N → Drained ops)
      → Grows answers n s d
      → ((mid : List Done) (s' : Sink C O N) → Grows mid m s' (rest mid s'))
      → Grows answers (n + m) s (if_done ops rest d)
  if_done-Grows n m answers s (ok a, mid, s') rest (e, p, q) ih =
      Grows-trans n m answers mid s s' (rest mid s') e p q (ih mid s')
  if_done-Grows n m answers s (err x, mid, s') rest (e, p, q) ih = (omega arith, p, q)

  run_commands-Grows :
      (cs : List (StreamOutboxCommand W)) (answers : List Done) (s : Sink C O N)
      → Grows answers (flush_count cs) s (run_commands ops cs answers s)
  unfolding run_commands
  run_commands-Grows [] answers s = (omega arith, Extends-refl answers, Extends-refl (sent_by s))
  run_commands-Grows (write msg ∷ cs) answers s =
      let e : 0 + flush_count cs ≡ flush_count cs = omega arith in
      subst (λ n. Grows answers n s (run_commands ops (write msg ∷ cs) answers s)) e
        (if_done-Grows 0 (flush_count cs) answers s (run_command ops (write msg) answers s)
          (run_commands ops cs) (command-Grows (write msg) answers s) (run_commands-Grows cs))
  run_commands-Grows (flush ∷ cs) answers s =
      let e : 1 + flush_count cs ≡ suc (flush_count cs) = omega arith in
      subst (λ n. Grows answers n s (run_commands ops (flush ∷ cs) answers s)) e
        (if_done-Grows 1 (flush_count cs) answers s (run_command ops flush answers s)
          (run_commands ops cs) (command-Grows flush answers s) (run_commands-Grows cs))

  if_done_assoc :
      (f g : List Done → Sink C O N → Drained ops) (d : Drained ops)
      → if_done ops (λ a s. if_done ops g (f a s)) d ≡ if_done ops g (if_done ops f d)
  if_done_assoc f g (ok a, answers, s) = refl
  if_done_assoc f g (err e, answers, s) = refl

  run_commands-append :
      (xs ys : List (StreamOutboxCommand W)) (answers : List Done) (s : Sink C O N)
      → run_commands ops (xs ++ ys) answers s
        ≡ if_done ops (run_commands ops ys) (run_commands ops xs answers s)
  unfolding run_commands
  run_commands-append [] ys answers s = refl
  run_commands-append (x ∷ xs) ys answers s =
      ap (λ f. if_done ops f (run_command ops x answers s))
        (λ i a t. run_commands-append xs ys a t i)
      ∙ if_done_assoc (run_commands ops xs) (run_commands ops ys) (run_command ops x answers s)

  Grows-sent :
      (n : ℕ) (answers : List Done) (s : Sink C O N) (d : Drained ops)
      → Grows answers n s d
      → Extends (sent_by s) (sent_by d.2)
  Grows-sent n answers s (ok a, mid, s') (e, p, q) = q
  Grows-sent n answers s (err x, mid, s') (e, p, q) = q

  module _ (appends : IsAppending ops.encode) where
    after_flush :
        (after : List (StreamOutboxCommand W)) (answers : List Done) (s : Sink C O N)
        (r : Done × Sink C O N)
        → (r.0 ≡ done
            → (ledger ops delivered r.1 [] ≡ ledger ops delivered s []) × (r.1.wire.write_buf ≡ []))
        → let d =
            if_done ops (run_commands ops after) (r.0, answers ++ (flush_ack ops r.0 ∷ []), r.1) in
          get_elem? d.1 (length answers) ≡ some done
          → Extends (ledger ops delivered s []) (sent_by d.2)
    after_flush after answers s (ok a, s') f h =
        let (p, q) = f refl in
        let all_sent : sent_by s' ≡ ledger ops delivered s [] =
          ground (arith, append-nil (sent_by s')) in
        subst (λ t. Extends t (sent_by (run_commands ops after (answers ++ (done ∷ [])) s').2))
          all_sent
          (Grows-sent (flush_count after) (answers ++ (done ∷ [])) s'
            (run_commands ops after (answers ++ (done ∷ [])) s')
            (run_commands-Grows after (answers ++ (done ∷ [])) s'))
    after_flush after answers s (err x, s') f h =
        absurd (ground (arith, get_elem?-append_length answers (flush_ack ops (err x)) []))

    after_before :
        (n : ℕ) (before : Bytes) (after : List (StreamOutboxCommand W)) (answers : List Done)
        (s : Sink C O N) (d : Drained ops)
        → Grows answers n s d
        → (d.0 ≡ done → ledger ops delivered d.2 [] ≡ before)
        → let d' = if_done ops (run_commands ops (flush ∷ after)) d in
          get_elem? d'.1 (length answers + n) ≡ some done → Extends before (sent_by d'.2)
    unfolding run_commands
    after_before n before after answers s (ok a, mid, s') (e, p, q) f h =
        subst (λ t. Extends t (sent_by (run_commands ops (flush ∷ after) mid s').2)) (f refl)
          (after_flush after mid s' (flush_sink ops s')
            (flush-ledger ops delivered socket appends s' []) (rw e h))
    after_before n before after answers s (err x, mid, s') (e, p, q) f h =
        absurd (ground (arith, get_elem?-past mid (length answers + n) e))

    -- For a socket and an encoder with their laws, from any state: when the flush behind the commands
    -- `before` is answered with success, all the bytes buffered before and the encodings of the
    -- messages in `before` have been delivered, in order, whatever the commands behind it do.
    pub flush_answer_delivers :
        (before after : List (StreamOutboxCommand W)) (answers : List Done) (s : Sink C O N)
        → let (result, answers', s') = run_commands ops (before ++ (flush ∷ after)) answers s in
          get_elem? answers' (length answers + flush_count before) ≡ some done
          → Extends (ledger ops delivered s (writes before)) (delivered s'.wire.socket)
    flush_answer_delivers before after answers s h =
        let e = run_commands-append before (flush ∷ after) answers s in
        rw e (
          after_before (flush_count before) (ledger ops delivered s (writes before)) after answers s
            (run_commands ops before answers s) (run_commands-Grows before answers s)
            (λ k.
              rw (append-nil (writes before)) at
                (run_commands-ledger ops delivered socket appends before [] answers s k))
            (subst (λ d. get_elem? d.1 (length answers + flush_count before) ≡ some done) e h))
