-- ===== src/Codec/Framing/Sent.antt =====
-- What one side encodes, the other side decodes, in whatever chunks the bytes arrive.
use rs_netty.Common.{
  ◌≡◌, ap, subst, ◌∙◌, none, some, List, [], ◌∷◌, ◌++◌, append-nil, append_assoc, All,
}
use rs_netty.Common.Bytes.{Bytes}
use rs_netty.Error.{Result, ok}
use rs_netty.Codec.{Poll, IsFraming}
use rs_netty.Codec.Framing.{
  Trace, pending, failed, frame, stuck, Agree, concat, drain, read_all, reads, read_all_frame,
  reads-eq-read_all,
}

module _ {S Item : Type 0} where
  -- These items, then waiting with an empty buffer.
  abbrev pub sent : S → List Item → Trace S Item
  sent s [] = pending s []
  sent s (x ∷ xs) = frame x (sent s xs)

  -- The items are encoded one after the other into one buffer.
  abbrev pub encode_all :
      (S → Item → Bytes → Result (Unit {0}) × Bytes) → S → List Item → Bytes → Bytes
  encode_all encode s [] dst = dst
  encode_all encode s (x ∷ xs) dst = encode_all encode s xs (encode s x dst).1

  Agree-sent : (t : Trace S Item) (s : S) (xs : List Item) → Agree t (sent s xs) → t ≡ sent s xs
  Agree-sent (pending s' buf) s [] h = rw (h.0, h.1)
  Agree-sent (frame y t) s (x ∷ xs) h = rw h.0 (ap (frame x) (Agree-sent t s xs h.1))
  Agree-sent (pending s' buf) s (x ∷ xs) h = absurd h
  Agree-sent (frame y t) s [] h = absurd h
  Agree-sent (failed e) s [] h = absurd h
  Agree-sent (failed e) s (x ∷ xs) h = absurd h
  Agree-sent stuck s [] h = absurd h
  Agree-sent stuck s (x ∷ xs) h = absurd h

module _ {S Item : Type 0} (decode : S → Bytes → Poll S Item) (Valid : S → Type 0)
    (laws : IsFraming decode Valid) (s : S) (valid : Valid s)
    (encode : S → Item → Bytes → Result (Unit {0}) × Bytes) (bytes_of : Item → Bytes)
    (P : Item → Type 0)
    (reads_back : (x : Item) (rest : Bytes)
      → P x
      → decode s (bytes_of x ++ rest) ≡ (ok (some x), s, rest))
    (writes : (x : Item) (dst : Bytes) → P x → (encode s x dst).1 ≡ dst ++ bytes_of x)
    (waits : decode s [] ≡ (ok none, s, [])) where
  wire : List Item → Bytes
  wire [] = []
  wire (x ∷ xs) = bytes_of x ++ wire xs

  encode_all-wire :
      (xs : List Item) (dst : Bytes) → All P xs → encode_all encode s xs dst ≡ dst ++ wire xs
  unfolding wire
  encode_all-wire [] dst h = rw append-nil
  encode_all-wire (x ∷ xs) dst h =
      rw (writes x dst h.0)
        (encode_all-wire xs (dst ++ bytes_of x) h.1 ∙ append_assoc dst (bytes_of x) (wire xs))

  read_all-wire : (xs : List Item) → All P xs → read_all decode s (wire xs) ≡ sent s xs
  unfolding wire read_all drain
  read_all-wire [] h = rw waits
  read_all-wire (x ∷ xs) h =
      read_all_frame decode Valid laws s (bytes_of x ++ wire xs) valid (reads_back x (wire xs) h.0)
      ∙ ap (frame x) (read_all-wire xs h.1)

  pub reads-sent :
      (xs : List Item) (chunks : List Bytes)
      → All P xs
      → concat chunks ≡ encode_all encode s xs []
      → reads decode (read_all decode s []) chunks ≡ sent s xs
  reads-sent xs chunks h e = Agree-sent _ s xs (
      subst (λ t. Agree (reads decode (read_all decode s []) chunks) t)
        (ap (read_all decode s) (e ∙ encode_all-wire xs [] h) ∙ read_all-wire xs h)
        (reads-eq-read_all decode Valid laws s [] chunks valid).0)
