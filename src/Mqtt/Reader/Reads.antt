-- ===== src/Mqtt/Reader/Reads.antt =====
-- What a read returns when the bytes ahead are known: rules for `M`, and one for each primitive.
use rs_netty.Common.{
  ℕ, zero, suc, ◌+◌, ◌-◌, ◌^◌, ◌≤◌, ◌<◌, ◌≡◌, sym, ap, subst, ◌∙◌, Bool, String, true, false, List,
  [], ◌∷◌, ◌++◌, length, take, drop, get_or, arith, length-append, length-drop, take-length_append,
  drop-length_append, append_assoc, append-nil,
}
use rs_netty.Common.Bytes.{Bytes, from_be_bytes, to_be_bytes, from_be_bytes-to_be_bytes}
use rs_netty.Common.Words.{IsUsize}
use rs_netty.Error.{Result, ok, Error}
use rs_netty.Utf8.{from_utf8, is_utf8, from_utf8_ok}
use rs_netty.Mqtt.Reader.{
  Reader, refuse_if, ◌>>◌, left, M, ◌>>=◌, pure, lift, remaining, read_exact, read_u8, read_u16,
  read_u32, read_utf8_string, read_binary_data, read_remaining_bytes,
}

abbrev pub at_pos : Bytes → ℕ → Reader
at_pos src pos = record { src = src; pos = pos }

-- The position of a reader lies in its slice, whose length is a `usize`.
abbrev pub InSlice : ℕ → Bytes → Type 0
InSlice pos src = (pos ≤ length src) × IsUsize (length src)

module _ {A : Type 0} where
  -- With `bs` ahead, `m` takes `bs` and returns `x`, whatever follows.
  pub record Reads (m : M A) (bs : Bytes) (x : A) : Type 0 where
    pub run :
        (src rest : Bytes) (pos : ℕ)
        → InSlice pos src
        → drop pos src ≡ bs ++ rest
        → m (at_pos src pos) ≡ ok (x, at_pos src (pos + length bs))

  -- The same where nothing follows, and nothing is left.
  pub record ReadsAll (m : M A) (bs : Bytes) (x : A) : Type 0 where
    pub run :
        (src : Bytes) (pos : ℕ)
        → InSlice pos src
        → drop pos src ≡ bs
        → (r : Reader) × (m (at_pos src pos) ≡ ok (x, r)) × (remaining r ≡ 0)

  pub Reads-ReadsAll : {m : M A} {bs : Bytes} {x : A} → Reads m bs x → ReadsAll m bs x
  Reads-ReadsAll {bs = bs} r = record {
    run = λ src pos u e. (
      at_pos src (pos + length bs),
      r.run src [] pos u (e ∙ sym (append-nil bs)),
      omega (arith, ap (λ (xs : Bytes). length xs) e, length-drop pos src),
    );
  }

  pub Reads-pure : (x : A) → Reads (pure x) [] x
  Reads-pure x = record {
    run = λ src rest pos u e. let same : pos ≡ pos + 0 = omega arith in rw (← same);
  }

drop-add {ℓ} : {A : Type ℓ} (a b : ℕ) (xs : List A) → drop (a + b) xs ≡ drop b (drop a xs)
drop-add zero b xs = let e : 0 + b ≡ b = omega arith in rw e
drop-add (suc a) zero [] = let e : suc a + 0 ≡ suc a = omega arith in rw e
drop-add (suc a) (suc b) [] = let e : suc a + suc b ≡ suc (a + suc b) = omega arith in rw e
drop-add (suc a) b (x ∷ xs) =
    let e : suc a + b ≡ suc (a + b) = omega arith in rw e (drop-add a b xs)

-- Behind `bs` stands what followed it.
pub drop-past :
    (pos : ℕ) (src bs rest : Bytes) → drop pos src ≡ bs ++ rest → drop (pos + length bs) src ≡ rest
drop-past pos src bs rest e = rw (drop-add pos (length bs) src, e) (drop-length_append bs rest)

pub InSlice-past :
    (pos : ℕ) (src bs rest : Bytes)
    → InSlice pos src
    → drop pos src ≡ bs ++ rest
    → InSlice (pos + length bs) src
InSlice-past pos src bs rest u e =
    omega (arith, ap (λ (xs : Bytes). length xs) e, length-drop pos src, length-append bs rest)

pos-past : (pos : ℕ) (bs cs : Bytes) → pos + length bs + length cs ≡ pos + length (bs ++ cs)
pos-past pos bs cs = omega (arith, length-append bs cs)

module _ {A B : Type 0} where
  pub Reads-bind :
      {m : M A} (f : A → M B) {bs cs : Bytes} {x : A} {y : B}
      → Reads m bs x
      → Reads (f x) cs y
      → Reads (m >>= f) (bs ++ cs) y
  Reads-bind f {bs} {cs} r k = record {
    run = λ src rest pos u e.
        let e' : drop pos src ≡ bs ++ (cs ++ rest) = e ∙ append_assoc bs cs rest in
        rw (r.run src (cs ++ rest) pos u e') (
          rw
            (k.run src rest (pos + length bs) (InSlice-past pos src bs (cs ++ rest) u e')
              (drop-past pos src bs (cs ++ rest) e'))
            (rw (pos-past pos bs cs)));
  }

  pub ReadsAll-bind :
      {m : M A} (f : A → M B) {bs cs : Bytes} {x : A} {y : B}
      → Reads m bs x
      → ReadsAll (f x) cs y
      → ReadsAll (m >>= f) (bs ++ cs) y
  ReadsAll-bind f {bs} {cs} r k = record {
    run = λ src pos u e.
        let (r', read, done) =
          k.run src (pos + length bs) (InSlice-past pos src bs cs u e)
            (drop-past pos src bs cs e) in
        (r', rw (r.run src cs pos u e) read, done);
  }

  -- The last action of a block returns what it makes of its read.
  pub Reads-map :
      {m : M A} (f : A → B) {bs : Bytes} {x : A}
      → Reads m bs x
      → Reads (m >>= λ a. pure (f a)) bs (f x)
  Reads-map f r = record { run = λ src rest pos u e. rw (r.run src rest pos u e) }

  -- The last action of a block checks what it read.
  pub Reads-bind-lift :
      {m : M A} (f : A → Result B) {bs : Bytes} {x : A} {y : B}
      → Reads m bs x
      → f x ≡ ok y
      → Reads (m >>= λ a. lift (f a)) bs y
  Reads-bind-lift f r fits = record {
    run = λ src rest pos u e. rw (r.run src rest pos u e) (rw fits);
  }

pub Reads-read_exact : (bs : Bytes) → Reads (read_exact (length bs)) bs bs
unfolding read_exact
Reads-read_exact bs = record {
  run = λ src rest pos u e. ground (
    arith,
    ap (λ (xs : Bytes). length xs) e,
    length-drop pos src,
    length-append bs rest,
    take-length_append bs rest,
    ap (λ (xs : Bytes). take (length bs) xs) e,
  );
}

pub Reads-read_u8 : (v : ℕ) → Reads read_u8 (v ∷ []) v
Reads-read_u8 v =
    unfold read_u8 in Reads-map (λ bytes. get_or bytes 0 0) (Reads-read_exact (v ∷ []))

pub Reads-read_u16 : (v : ℕ) → v < 2 ^ 16 → Reads read_u16 (to_be_bytes 2 v) v
Reads-read_u16 v h =
    subst (λ n. Reads read_u16 (to_be_bytes 2 v) n) (from_be_bytes-to_be_bytes 2 v h)
      (unfold read_u16 in Reads-map from_be_bytes (Reads-read_exact (to_be_bytes 2 v)))

pub Reads-read_u32 : (v : ℕ) → v < 2 ^ 32 → Reads read_u32 (to_be_bytes 4 v) v
Reads-read_u32 v h =
    subst (λ n. Reads read_u32 (to_be_bytes 4 v) n) (from_be_bytes-to_be_bytes 4 v h)
      (unfold read_u32 in Reads-map from_be_bytes (Reads-read_exact (to_be_bytes 4 v)))

-- A length-prefixed text or byte string.
abbrev pub prefixed : Bytes → Bytes
prefixed bs = to_be_bytes 2 (length bs) ++ bs

pub Reads-read_binary_data :
    (bs : Bytes) → length bs < 2 ^ 16 → Reads read_binary_data (prefixed bs) bs
Reads-read_binary_data bs h =
    unfold read_binary_data in
    Reads-bind read_exact (Reads-read_u16 (length bs) h) (Reads-read_exact bs)

pub Reads-read_utf8_string :
    (bs : Bytes) → length bs < 2 ^ 16 → is_utf8 bs ≡ true → Reads read_utf8_string (prefixed bs) bs
Reads-read_utf8_string bs h utf8 =
    unfold read_utf8_string in
    Reads-bind _ (Reads-read_u16 (length bs) h) (
      Reads-bind-lift (from_utf8 Error.decode "{err}") (Reads-read_exact bs)
        (from_utf8_ok Error.decode "{err}" bs utf8))

pub ReadsAll-read_remaining_bytes : (bs : Bytes) → ReadsAll read_remaining_bytes bs bs
unfolding read_remaining_bytes
ReadsAll-read_remaining_bytes bs = record {
  run = λ src pos u e. (record { src = src; pos = length src }, rw e, omega arith);
}

module _ {A B : Type 0} where
  -- A block whose last action reads nothing.
  pub Reads-end :
      {m : M A} (f : A → M B) {bs : Bytes} {x : A} {y : B}
      → Reads m bs x
      → Reads (f x) [] y
      → Reads (m >>= f) bs y
  Reads-end {m} f {bs} {x} {y} r k =
      subst (λ b. Reads (m >>= f) b y) (append-nil bs) (Reads-bind f r k)

  pub ReadsAll-end :
      {m : M A} (f : A → M B) {bs : Bytes} {x : A} {y : B}
      → ReadsAll m bs x
      → ((r : Reader) → f x r ≡ ok (y, r))
      → ReadsAll (m >>= f) bs y
  ReadsAll-end f q k = record {
    run = λ src pos u e. let (r', read, done) = q.run src pos u e in (r', rw read (k r'), done);
  }

module _ {A : Type 0} where
  pub Reads-refuse_if :
      (test : Bool) (text : String) {m : M A} {bs : Bytes} {x : A}
      → test ≡ false
      → Reads m bs x
      → Reads (refuse_if test text >> m) bs x
  Reads-refuse_if test text h r = record { run = λ src rest pos u e. rw h (r.run src rest pos u e) }

  pub ReadsAll-refuse_if :
      (test : Bool) (text : String) {m : M A} {bs : Bytes} {x : A}
      → test ≡ false
      → ReadsAll m bs x
      → ReadsAll (refuse_if test text >> m) bs x
  ReadsAll-refuse_if test text h r = record {
    run = λ src pos u e. let (r', read, done) = r.run src pos u e in (r', rw h read, done);
  }

module _ {A B : Type 0} where
  -- A call that reads nothing.
  pub Reads-lift :
      (result : Result A) (f : A → M B) {bs : Bytes} {x : A} {y : B}
      → result ≡ ok x
      → Reads (f x) bs y
      → Reads (lift result >>= f) bs y
  Reads-lift result f h r = record { run = λ src rest pos u e. rw h (r.run src rest pos u e) }

  pub ReadsAll-lift :
      (result : Result A) (f : A → M B) {bs : Bytes} {x : A} {y : B}
      → result ≡ ok x
      → ReadsAll (f x) bs y
      → ReadsAll (lift result >>= f) bs y
  ReadsAll-lift result f h r = record {
    run = λ src pos u e. let (r', read, done) = r.run src pos u e in (r', rw h read, done);
  }

module _ {B : Type 0} where
  -- `remaining` tells how many bytes are ahead.
  pub ReadsAll-left :
      (f : ℕ → M B) {bs : Bytes} {y : B}
      → ReadsAll (f (length bs)) bs y
      → ReadsAll (left >>= f) bs y
  ReadsAll-left f {bs} r = record {
    run = λ src pos u e.
        let (r', read, done) = r.run src pos u e in
        let ahead : length src - pos ≡ length bs =
          omega (arith, ap (λ (xs : Bytes). length xs) e, length-drop pos src) in
        (r', rw ahead read, done);
  }
