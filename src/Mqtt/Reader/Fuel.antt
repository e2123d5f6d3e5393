-- ===== src/Mqtt/Reader/Fuel.antt =====
-- The loops over the items of a packet have enough fuel: every item takes a byte.
use rs_netty.Common.{
  ℕ, zero, suc, ◌+◌, ◌≤◌, ◌≡◌, ◌≢◌, refl, ap, ◌∙◌, Bool, true, false, inl, inr, String,
  if◌then◌else◌, arith,
}
use rs_netty.Error.{Result, ok, err, Error, no_fuel, Result-cases}
use rs_netty.Common.Bytes.{Bytes}
use rs_netty.Utf8.{from_utf8}
use rs_netty.Mqtt.VarInt.{validate_variable_integer_encoding}
use rs_netty.Mqtt.Reader.{
  Reader, M, ◌>>=◌, pure, fail, lift, refuse_if, remaining, read_exact, read_u8, read_u16, read_u32,
  read_utf8_string, read_binary_data, read_variable_integer, integer_loop, read_many,
}

-- A read that succeeds takes `k` bytes at least, and one that fails has an error of the program.
pub record Takes {A : Type 0} (k : ℕ) (m : M A) : Type 0 where
  pub least : (r : Reader) {x : A} {r' : Reader} → m r ≡ ok (x, r') → remaining r' + k ≤ remaining r
  pub answers : (r : Reader) → m r ≢ err no_fuel

module _ {A B : Type 0} where
  pub Takes-bind :
      {k : ℕ} (m : M A) (f : A → M B) → Takes k m → ((x : A) → Takes 0 (f x)) → Takes k (m >>= f)
  Takes-bind {k} m f t u = record {
    least = λ r {x = y} {r' = r'} e. elim (Result-cases (m r)) [
      | inl ((x, r1), at) ↦
          let e1 : f x r1 ≡ ok (y, r') = rw at at e in
          omega (arith, t.least r at, (u x).least r1 e1)
      | inr (x, at) ↦ absurd (ground (arith, at))
    ];
    answers = λ r h. elim (Result-cases (m r)) [
      | inl ((x, r1), at) ↦ (u x).answers r1 (rw at at h)
      | inr (e, at) ↦
          let h' : Path (Result (B × Reader)) (err e) (err no_fuel) = rw at at h in
          let same : e ≡ no_fuel = cc in t.answers r (at ∙ ap err same)
    ];
  }

module _ {A : Type 0} where
  pub Takes-pure : (x : A) → Takes 0 (pure x)
  Takes-pure x = record { least = λ r e. ground arith; answers = λ r e. cc }

  pub Takes-fail : (k : ℕ) (e : Error) → e ≢ no_fuel → Takes {A = A} k (fail e)
  Takes-fail k e n = record { least = λ r h. ground arith; answers = λ r h. n cc }

  pub Takes-lift : (result : Result A) → result ≢ err no_fuel → Takes 0 (lift result)
  Takes-lift (ok x) n = record { least = λ r e. ground arith; answers = λ r e. cc }
  Takes-lift (err y) n = record {
    least = λ r e. ground arith;
    answers = λ r e. let same : y ≡ no_fuel = cc in n (ap err same);
  }

  pub Takes-less : (k : ℕ) (m : M A) → Takes k m → Takes 0 m
  Takes-less k m t = record { least = λ r e. omega (arith, t.least r e); answers = t.answers }

  pub Takes-one : (m : M A) → Takes 2 m → Takes 1 m
  Takes-one m t = record { least = λ r e. omega (arith, t.least r e); answers = t.answers }

  pub Takes-if :
      (k : ℕ) (test : Bool) (m n : M A) → Takes k m → Takes k n → Takes k (if test then m else n)
  Takes-if k true m n t u = t
  Takes-if k false m n t u = u

pub Takes-refuse_if : (test : Bool) (text : String) → Takes 0 (refuse_if test text)
Takes-refuse_if true text = record { least = λ r e. ground arith; answers = λ r e. ground arith }
Takes-refuse_if false text = record { least = λ r e. ground arith; answers = λ r e. cc }

pub Takes-read_exact : (n : ℕ) → Takes n (read_exact n)
unfolding read_exact
Takes-read_exact n = record { least = λ r e. ground arith; answers = λ r e. ground arith }

pub Takes-read_u8 : Takes 1 read_u8
unfolding read_u8
Takes-read_u8 = Takes-bind _ _ (Takes-read_exact 1) (λ x. Takes-pure _)

pub Takes-read_u16 : Takes 2 read_u16
unfolding read_u16
Takes-read_u16 = Takes-bind _ _ (Takes-read_exact 2) (λ x. Takes-pure _)

pub Takes-read_u32 : Takes 4 read_u32
unfolding read_u32
Takes-read_u32 = Takes-bind _ _ (Takes-read_exact 4) (λ x. Takes-pure _)

text-answers : (bs : Bytes) → from_utf8 Error.decode "{err}" bs ≢ err no_fuel
unfolding from_utf8
text-answers bs = λ e. ground arith

pub Takes-read_utf8_string : Takes 2 read_utf8_string
unfolding read_utf8_string
Takes-read_utf8_string = Takes-bind _ _ Takes-read_u16 (λ len.
    Takes-bind _ _ (Takes-less len _ (Takes-read_exact len)) (λ bs. Takes-lift _ (text-answers bs)))

pub Takes-read_binary_data : Takes 2 read_binary_data
unfolding read_binary_data
Takes-read_binary_data =
    Takes-bind _ _ Takes-read_u16 (λ len. Takes-less len _ (Takes-read_exact len))

integer-answers :
    (value encoded_len : ℕ) → validate_variable_integer_encoding value encoded_len ≢ err no_fuel
unfolding validate_variable_integer_encoding
integer-answers value encoded_len = λ e. ground arith

Takes-integer_loop :
    (rounds encoded_len value multiplier : ℕ)
    → Takes 1 (integer_loop rounds encoded_len value multiplier)
unfolding integer_loop
Takes-integer_loop zero encoded_len value multiplier = Takes-fail 1 _ (λ e. ground arith)
Takes-integer_loop (suc rounds) encoded_len value multiplier = Takes-bind _ _ Takes-read_u8 (λ b.
    Takes-if 0 _ _ _ (Takes-bind _ _ (Takes-lift _ (integer-answers _ _)) (λ u. Takes-pure _))
      (Takes-less 1 _ (Takes-integer_loop rounds _ _ _)))

pub Takes-read_variable_integer : Takes 1 read_variable_integer
unfolding read_variable_integer
Takes-read_variable_integer = Takes-integer_loop 4 1 0 1

module _ {A : Type 0} (item : M A) (takes : Takes 1 item) where
  -- With as much fuel as there are bytes, more fuel changes nothing.
  pub read_many_fuel :
      (f g : ℕ) (self : Reader)
      → remaining self ≤ f
      → remaining self ≤ g
      → read_many item f self ≡ read_many item g self
  unfolding read_many
  read_many_fuel zero zero self hf hg = refl
  read_many_fuel zero (suc g) self hf hg = ground arith
  read_many_fuel (suc f) zero self hf hg = ground arith
  read_many_fuel (suc f) (suc g) self hf hg = elim (Result-cases (item self)) [
    | inl ((x, r), at) ↦
        let less = takes.least self at in
        ground (arith, at, less, read_many_fuel f g r (omega (arith, less)) (omega (arith, less)))
    | inr (e, at) ↦ ground (arith, at)
  ]

  -- With as much fuel as there are bytes, the loop does not run out of it.
  pub read_many-answers :
      (fuel : ℕ) (self : Reader) → remaining self ≤ fuel → read_many item fuel self ≢ err no_fuel
  unfolding read_many
  read_many-answers zero self h = λ e. ground arith
  read_many-answers (suc fuel) self h = λ e. elim (Result-cases (item self)) [
    | inl ((x, r), at) ↦
        let less = takes.least self at in
        (elim (Result-cases (read_many item fuel r)) [
          | inl ((xs, r'), more) ↦ ground (arith, at, more)
          | inr (y, more) ↦
              let same : y ≡ no_fuel = ground (arith, at, more) in
              read_many-answers fuel r (omega (arith, less)) (more ∙ ap err same)
        ])
    | inr (y, at) ↦
        let same : y ≡ no_fuel = ground (arith, at) in takes.answers self (at ∙ ap err same)
  ]
