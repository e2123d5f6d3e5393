-- ===== src/Mqtt/Reader/Many.antt =====
-- The loop `while reader.remaining() > 0` on a row of items.
use rs_netty.Common.{
  ℕ, zero, suc, ◌+◌, ◌-◌, ◌≤◌, ◌<◌, ◌≡◌, ap, List, [], ◌∷◌, ◌++◌, length, drop, ◌==◌, false, All,
  arith, length-append, length-drop,
}
use rs_netty.Common.Bytes.{Bytes}
use rs_netty.Error.{ok}
use rs_netty.Mqtt.Reader.{Reader, M, remaining, read_many, read_while_remaining}
use rs_netty.Mqtt.Reader.Reads.{Reads, ReadsAll, at_pos, drop-past, InSlice, InSlice-past}

module _ {A : Type 0} (bytes_of : A → Bytes) where
  abbrev pub bytes_of_all : List A → Bytes
  bytes_of_all [] = []
  bytes_of_all (x ∷ xs) = bytes_of x ++ bytes_of_all xs

ahead : (pos : ℕ) (src bs : Bytes) → drop pos src ≡ bs → length src - pos ≡ length bs
ahead pos src bs e = omega (arith, length-drop pos src, ap (λ (b : Bytes). length b) e)

module _ {A : Type 0} (item : M A) (bytes_of : A → Bytes) (P : A → Type 0)
    (reads : (x : A) → P x → Reads item (bytes_of x) x)
    (nonempty : (x : A) → P x → 0 < length (bytes_of x)) where
  read_many_lem :
      (fuel : ℕ) (xs : List A) (src : Bytes) (pos : ℕ)
      → All P xs
      → length (bytes_of_all bytes_of xs) ≤ fuel
      → InSlice pos src
      → drop pos src ≡ bytes_of_all bytes_of xs
      → (r : Reader) × (read_many item fuel (at_pos src pos) ≡ ok (xs, r)) × (remaining r ≡ 0)
  unfolding read_many
  read_many_lem zero [] src pos h hf u e =
      let none_left : length src - pos ≡ 0 = ahead pos src [] e in
      (at_pos src pos, rw none_left, none_left)
  read_many_lem (suc fuel) [] src pos h hf u e =
      let none_left : length src - pos ≡ 0 = ahead pos src [] e in
      (at_pos src pos, rw none_left, none_left)
  read_many_lem zero (x ∷ xs) src pos h hf u e =
      absurd (omega (arith, nonempty x h.0, length-append (bytes_of x) (bytes_of_all bytes_of xs)))
  read_many_lem (suc fuel) (x ∷ xs) src pos h hf u e =
      let more : Bytes = bytes_of_all bytes_of xs in
      let (r', read, done) =
        read_many_lem fuel xs src (pos + length (bytes_of x)) h.1
          (omega (arith, nonempty x h.0, length-append (bytes_of x) more))
          (InSlice-past pos src (bytes_of x) more u e) (drop-past pos src (bytes_of x) more e) in
      let some_left : ((length src - pos) == 0) ≡ false = ground (
        arith,
        ahead pos src (bytes_of x ++ more) e,
        nonempty x h.0,
        length-append (bytes_of x) more,
      ) in
      (r', rw (some_left, (reads x h.0).run src more pos u e, read), done)

  pub ReadsAll-read_while_remaining :
      (xs : List A) → All P xs → ReadsAll (read_while_remaining item) (bytes_of_all bytes_of xs) xs
  unfolding read_while_remaining
  ReadsAll-read_while_remaining xs h = record {
    run = λ src pos u e. read_many_lem _ xs src pos h (omega (arith, ahead pos src _ e)) u e;
  }
