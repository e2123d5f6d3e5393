-- ===== src/Codec/Framing.antt =====
-- Reading a stream through a framing decoder: the frames do not depend on how the transport cuts the
-- stream into reads. The loop is that of `handle_read` in src/transport/tcp/connection.rs, without
-- the handler.
pub mod Sent
use rs_netty.Common.{
  ℕ, zero, suc, ◌<◌, ◌≡◌, refl, ap, ◌∙◌, none, some, List, [], ◌∷◌, ◌++◌, append-nil, append_assoc,
  length, arith,
}
use rs_netty.Common.Bytes.{Bytes}
use rs_netty.Error.{Error, ok, err}
use rs_netty.Codec.{Poll, IsErr, IsFraming}

-- The frames of a read, and what the loop ended with: it waits for bytes, it failed, or it ran out of
-- fuel.
pub data Trace (S Item : Type 0) : Type 0 where
  pending : S → Bytes → Trace S Item
  failed : Error → Trace S Item
  frame : Item → Trace S Item → Trace S Item
  stuck : Trace S Item

module _ {S Item : Type 0} where
  -- Two traces with the same frames and the same end; errors may differ in their numbers.
  abbrev pub Agree : Trace S Item → Trace S Item → Type 0
  Agree (pending s buf) (pending s' buf') = (s ≡ s') × (buf ≡ buf')
  Agree (failed e) (failed e') = Unit
  Agree (frame x t) (frame y u) = (x ≡ y) × Agree t u
  Agree stuck stuck = Unit
  Agree _ _ = ⊥

  -- The loop did not run out of fuel.
  abbrev pub IsSettled : Trace S Item → Type 0
  IsSettled (pending s buf) = Unit
  IsSettled (failed e) = Unit
  IsSettled (frame x t) = IsSettled t
  IsSettled stuck = ⊥

  Agree-refl : (t : Trace S Item) → Agree t t
  Agree-refl (pending s buf) = (refl, refl)
  Agree-refl (failed e) = tt
  Agree-refl (frame x t) = (refl, Agree-refl t)
  Agree-refl stuck = tt

  Agree-trans : (t u v : Trace S Item) → Agree t u → Agree u v → Agree t v
  Agree-trans (pending s b) (pending s' b') (pending s'' b'') (p, q) (p', q') = (p ∙ p', q ∙ q')
  Agree-trans (failed e) (failed e') (failed e'') h k = tt
  Agree-trans (frame x t) (frame y u) (frame z v) (p, h) (q, k) = (p ∙ q, Agree-trans t u v h k)
  Agree-trans stuck stuck stuck h k = tt
  Agree-trans _ _ _ h k = ground arith

abbrev pub concat : List Bytes → Bytes
concat [] = []
concat (chunk ∷ chunks) = chunk ++ concat chunks

abbrev collect : {S Item : Type 0} → (S → Bytes → Trace S Item) → Poll S Item → Trace S Item
collect next (ok none, s, buf) = pending s buf
collect next (ok (some x), s, buf) = frame x (next s buf)
collect next (err e, s, buf) = failed e

module _ {S Item : Type 0} (decode : S → Bytes → Poll S Item) where
  drain : ℕ → S → Bytes → Trace S Item
  drain zero s buf = stuck
  drain (suc fuel) s buf = collect (drain fuel) (decode s buf)

  -- Every frame takes a byte at least, so this fuel is enough.
  pub read_all : S → Bytes → Trace S Item
  read_all s buf = drain (suc (length buf)) s buf

  -- More bytes come in.
  abbrev on_read : Trace S Item → Bytes → Trace S Item
  on_read (pending s buf) chunk = read_all s (buf ++ chunk)
  on_read (failed e) chunk = failed e
  on_read (frame x t) chunk = frame x (on_read t chunk)
  on_read stuck chunk = stuck

  -- The reads of a connection, one after the other.
  pub reads : Trace S Item → List Bytes → Trace S Item
  reads t [] = t
  reads t (chunk ∷ chunks) = reads (on_read t chunk) chunks

  module _ (Valid : S → Type 0) (laws : IsFraming decode Valid) where
    collect_fuel :
        (f g : ℕ) (s : S) (buf : Bytes) (p : Poll S Item)
        → Valid s
        → decode s buf ≡ p
        → ((s' : S) (rest : Bytes)
            → Valid s'
            → length rest < length buf
            → drain f s' rest ≡ drain g s' rest)
        → collect (drain f) p ≡ collect (drain g) p
    collect_fuel f g s buf (ok none, s', rest) v e ih = refl
    collect_fuel f g s buf (ok (some x), s', rest) v e ih =
        let (v', shorter, _) = laws.frames s buf [] v e in ap (frame x) (ih s' rest v' shorter)
    collect_fuel f g s buf (err x, s', rest) v e ih = refl

    -- Any fuel above the number of buffered bytes gives the same trace.
    drain_fuel :
        (f g : ℕ) (s : S) (buf : Bytes)
        → Valid s
        → length buf < f
        → length buf < g
        → drain f s buf ≡ drain g s buf
    unfolding drain
    drain_fuel zero g s buf v hf hg = elim hf [ ]
    drain_fuel (suc f) zero s buf v hf hg = elim hg [ ]
    drain_fuel (suc f) (suc g) s buf v hf hg =
        collect_fuel f g s buf (decode s buf) v refl
          (λ s' rest v' shorter. drain_fuel f g s' rest v' (omega arith) (omega arith))

    collect-IsSettled :
        (f : ℕ) (s : S) (buf : Bytes) (p : Poll S Item)
        → Valid s
        → decode s buf ≡ p
        → ((s' : S) (rest : Bytes)
            → Valid s'
            → length rest < length buf
            → IsSettled (drain f s' rest))
        → IsSettled (collect (drain f) p)
    collect-IsSettled f s buf (ok none, s', rest) v e ih = tt
    collect-IsSettled f s buf (ok (some x), s', rest) v e ih =
        let (v', shorter, _) = laws.frames s buf [] v e in ih s' rest v' shorter
    collect-IsSettled f s buf (err x, s', rest) v e ih = tt

    drain-IsSettled :
        (f : ℕ) (s : S) (buf : Bytes) → Valid s → length buf < f → IsSettled (drain f s buf)
    unfolding drain
    drain-IsSettled zero s buf v h = elim h [ ]
    drain-IsSettled (suc f) s buf v h =
        collect-IsSettled f s buf (decode s buf) v refl
          (λ s' rest v' shorter. drain-IsSettled f s' rest v' (omega arith))

    pub read_all_frame :
        (s : S) (buf : Bytes) {x : Item} {s' : S} {rest : Bytes}
        → Valid s
        → decode s buf ≡ (ok (some x), s', rest)
        → read_all s buf ≡ frame x (read_all s' rest)
    unfolding read_all drain
    read_all_frame s buf {x} {s'} {rest} v e =
        let (v', shorter, _) = laws.frames s buf [] v e in
        rw e (
          ap (frame x)
            (drain_fuel (length buf) (suc (length rest)) s' rest v' shorter (omega arith)))

    Agree-failed :
        (s : S) (buf : Bytes) (e : Error)
        → IsErr (decode s buf).0
        → Agree (failed e) (read_all s buf)
    unfolding read_all drain
    Agree-failed s buf e h = go (decode s buf) h
      where
        go : (p : Poll S Item) → IsErr p.0 → Agree (failed e) (collect (drain (length buf)) p)
        go (ok a, s', rest) k = absurd k
        go (err e', s', rest) k = tt

    collect-on_read :
        (f : ℕ) (s : S) (buf more : Bytes) (p : Poll S Item)
        → Valid s
        → decode s buf ≡ p
        → ((s' : S) (rest : Bytes)
            → Valid s'
            → length rest < length buf
            → Agree (on_read (drain f s' rest) more) (read_all s' (rest ++ more)))
        → Agree (on_read (collect (drain f) p) more) (read_all s (buf ++ more))
    collect-on_read f s buf more (ok none, s', rest) v e ih =
        let (same_s, same_buf) = laws.waits s buf v e in rw (same_s, same_buf) (Agree-refl _)
    collect-on_read f s buf more (ok (some x), s', rest) v e ih =
        let (v', shorter, longer) = laws.frames s buf more v e in
        rw (read_all_frame s (buf ++ more) v longer) (refl, ih s' rest v' shorter)
    collect-on_read f s buf more (err x, s', rest) v e ih =
        Agree-failed s (buf ++ more) x (laws.fails s buf more v e)

    drain-on_read :
        (f : ℕ) (s : S) (buf more : Bytes)
        → Valid s
        → length buf < f
        → Agree (on_read (drain f s buf) more) (read_all s (buf ++ more))
    unfolding drain
    drain-on_read zero s buf more v h = elim h [ ]
    drain-on_read (suc f) s buf more v h =
        collect-on_read f s buf more (decode s buf) v refl
          (λ s' rest v' shorter. drain-on_read f s' rest more v' (omega arith))

    Agree-on_read :
        (t u : Trace S Item) (more : Bytes) → Agree t u → Agree (on_read t more) (on_read u more)
    Agree-on_read (pending s b) (pending s' b') more (p, q) = rw (p, q) (Agree-refl _)
    Agree-on_read (failed e) (failed e') more h = tt
    Agree-on_read (frame x t) (frame y u) more (p, h) = (p, Agree-on_read t u more h)
    Agree-on_read stuck stuck more h = tt
    Agree-on_read _ _ more h = ground arith

    reads-Agree :
        (t : Trace S Item) (s : S) (buf : Bytes) (chunks : List Bytes)
        → Valid s
        → Agree t (read_all s buf)
        → Agree (reads t chunks) (read_all s (buf ++ concat chunks))
    unfolding reads
    reads-Agree t s buf [] v h = rw append-nil h
    reads-Agree t s buf (c ∷ cs) v h = rw (← append_assoc) (
        reads-Agree (on_read t c) s (buf ++ c) cs v (
          Agree-trans (on_read t c) (on_read (read_all s buf) c) (read_all s (buf ++ c))
            (Agree-on_read t (read_all s buf) c h)
            (unfold read_all in drain-on_read (suc (length buf)) s buf c v (omega arith))))

    -- For a decoder with the laws of a framing, in a valid state: reading a stream in any chunks gives
    -- the frames, and the end, of reading it at once (two errors count as the same end), and reading
    -- it at once does not run out of fuel.
    pub reads-eq-read_all :
        (s : S) (buf : Bytes) (chunks : List Bytes)
        → Valid s
        → Agree (reads (read_all s buf) chunks) (read_all s (buf ++ concat chunks))
          × IsSettled (read_all s (buf ++ concat chunks))
    reads-eq-read_all s buf chunks v = (
      reads-Agree (read_all s buf) s buf chunks v (Agree-refl _),
      unfold read_all in drain-IsSettled _ s (buf ++ concat chunks) v (omega arith),
    )
