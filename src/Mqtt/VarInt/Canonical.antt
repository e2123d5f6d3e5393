-- ===== src/Mqtt/VarInt/Canonical.antt =====
-- The length prefix has one form only: what `decode_remaining_length_prefix` accepts is what
-- `write_variable_integer` writes.
use rs_netty.Common.{
  ℕ, zero, suc, ◌+◌, ◌*◌, ◌/◌, ◌%◌, ◌≤◌, ◌≡◌, refl, sym, ap, ap₂, ◌∙◌, Bool-cases, inl, inr,
  Option-cases, some, [], ◌∷◌, ◌++◌, take, ◌==◌, bit_and, arith,
}
use rs_netty.Common.Bits.{and_7f, and_80}
use rs_netty.Common.Bytes.{Bytes, IsBytes}
use rs_netty.Error.{ok, Result-cases}
use rs_netty.Mqtt.VarInt.{
  validate_variable_integer_encoding, prefix_loop, decode_remaining_length_prefix,
}
use rs_netty.Mqtt.Types.{max_remaining_length}
use rs_netty.Mqtt.VarInt.{write_variable_integer}
use rs_netty.Mqtt.VarInt.RoundTrip.{write_variable_integer_lem, varint_bytes, split_group}

-- The form of `m + 1` groups, the shortest or not.
exact : ℕ → ℕ → Bytes
exact zero x = x ∷ []
exact (suc m) x = (x % 128 + 128) ∷ exact m (x / 128)

record IsRead (index value multiplier rounds : ℕ) (src : Bytes) (v n : ℕ) : Type 0 where
  m : ℕ
  x : ℕ
  sum : v ≡ value + x * multiplier
  count : n ≡ index + suc m
  form : take (suc m) src ≡ exact m x
  few : suc m ≤ rounds
  valid : validate_variable_integer_encoding v n ≡ ok tt

prefix_loop-IsRead :
    (rounds index value multiplier : ℕ) (src : Bytes) {v n : ℕ}
    → IsBytes src
    → prefix_loop rounds index value multiplier src ≡ some (ok (v, n))
    → IsRead index value multiplier rounds src v n
unfolding prefix_loop exact
prefix_loop-IsRead zero index value multiplier src h e = cc
prefix_loop-IsRead (suc rounds) index value multiplier [] h e = cc
prefix_loop-IsRead (suc rounds) index value multiplier (b ∷ src) {v} {n} (hb, h) e =
    elim (Bool-cases (bit_and b 0x80 == 0)) [
      | inl last ↦
          let low : bit_and b 0x7f ≡ b % 128 = and_7f b hb in
          let top : bit_and b 0x80 ≡ b / 128 * 128 = and_80 b hb in
          let same : b % 128 ≡ b = ground (arith, last, top) in
          elim (Result-cases
            (validate_variable_integer_encoding (value + b % 128 * multiplier) (index + 1))) [
              | inl (u, good) ↦
                  let ev : v ≡ value + b % 128 * multiplier = ground (arith, last, low, good) in
                  let en : n ≡ index + 1 = ground (arith, last, low, good) in
                  record {
                    m = 0;
                    x = b;
                    sum = ev ∙ ap (λ t. value + t * multiplier) same;
                    count = en;
                    form = refl;
                    few = omega arith;
                    valid = rw (ev, en) good;
                  }
              | inr (x, bad) ↦ absurd (ground (arith, last, low, bad))
            ]
      | inr more ↦
          let low : bit_and b 0x7f ≡ b % 128 = and_7f b hb in
          let top : bit_and b 0x80 ≡ b / 128 * 128 = and_80 b hb in
          let r =
            prefix_loop-IsRead rounds (index + 1) (value + b % 128 * multiplier) (multiplier * 128)
              src {v = v} {n = n} h (rw (more, low) at e) in
          let x = b % 128 + 128 * r.x in
          let lowest : x % 128 ≡ b % 128 = omega arith in
          let others : x / 128 ≡ r.x = omega arith in
          let byte : b ≡ x % 128 + 128 = ground (arith, more, top) in
          record {
            m = suc r.m;
            x = x;
            sum =
                r.sum
                ∙ ap₂ (λ a c. value + a * multiplier + c * (multiplier * 128)) (sym lowest)
                    (sym others)
                ∙ split_group value x multiplier;
            count = omega (arith, r.count);
            form = ap₂ ◌∷◌ byte (r.form ∙ ap (exact r.m) (sym others));
            few = omega (arith, r.few);
            valid = r.valid;
          }
    ]

-- The shortest form is the one whose length `remaining_length_len` counts.
exact-shortest :
    (m v : ℕ)
    → suc m ≤ 4
    → validate_variable_integer_encoding v (suc m) ≡ ok tt
    → exact m v ≡ varint_bytes v
unfolding exact validate_variable_integer_encoding varint_bytes
exact-shortest zero v h e = ground arith
exact-shortest (suc zero) v h e = ground arith
exact-shortest (suc (suc zero)) v h e = ground arith
exact-shortest (suc (suc (suc zero))) v h e = ground arith
exact-shortest (suc (suc (suc (suc m)))) v h e = absurd (omega arith)

IsRead-shortest : (src : Bytes) {v n : ℕ} → IsRead 0 0 1 4 src v n → take n src ≡ varint_bytes v
IsRead-shortest src {v} {n} r =
    let same : r.x ≡ v = omega (arith, r.sum) in
    let count : n ≡ suc r.m = omega (arith, r.count) in
    rw count (r.form ∙ ap (exact r.m) same ∙ exact-shortest r.m v r.few (rw count at r.valid))

-- A number of at most four groups.
counted-le :
    (m v : ℕ)
    → suc m ≤ 4
    → validate_variable_integer_encoding v (suc m) ≡ ok tt
    → v ≤ max_remaining_length
unfolding validate_variable_integer_encoding
counted-le zero v h e = ground arith
counted-le (suc zero) v h e = ground arith
counted-le (suc (suc zero)) v h e = ground arith
counted-le (suc (suc (suc zero))) v h e = ground arith
counted-le (suc (suc (suc (suc m)))) v h e = absurd (omega arith)

IsRead-le : (src : Bytes) {v n : ℕ} → IsRead 0 0 1 4 src v n → v ≤ max_remaining_length
IsRead-le src {v} {n} r =
    let count : n ≡ suc r.m = omega (arith, r.count) in counted-le r.m v r.few (rw count at r.valid)

-- When a length prefix is read from a buffer of bytes, as `v` and the number `n` of its bytes, then
-- these `n` bytes are the ones that `write_variable_integer` appends for `v`: a length that is not in
-- its shortest form is not accepted.
pub length_prefix_canonical :
    (src dst : Bytes) {v n : ℕ}
    → IsBytes src
    → decode_remaining_length_prefix src ≡ ok (some (v, n))
    → write_variable_integer v dst ≡ ok (dst ++ take n src)
unfolding decode_remaining_length_prefix
length_prefix_canonical src dst {v} {n} h e = elim (Option-cases (prefix_loop 4 0 0 1 src)) [
  | inl absent ↦ absurd (ground (arith, absent))
  | inr (r, at) ↦ elim (Result-cases r) [
    | inl (p, good) ↦
        let same : prefix_loop 4 0 0 1 src ≡ some (ok (v, n)) = ground (arith, at, good) in
        let read = prefix_loop-IsRead 4 0 0 1 src {v = v} {n = n} h same in
        write_variable_integer_lem v dst (IsRead-le src read)
        ∙ ap (λ bs. ok (dst ++ bs)) (sym (IsRead-shortest src read))
    | inr (x, bad) ↦ absurd (ground (arith, at, bad))
  ]
]
