-- ===== src/Policer/Bucket.antt =====
-- The arithmetic of a token bucket: no overflow, no failed assertion, and how much it lets through.
use native.Mathlib.Nat.{le-div_iff_mul-le, div-lt_iff_lt-mul, add-mul}
use vigor.Prelude.{
  ℕ, ◌+◌, ◌-◌, ◌*◌, ◌/◌, ◌≤◌, ◌<◌, ◌≡◌, ◌⊎◌, refl, true, false, arith, Bool-cases, inl, inr,
  if◌then◌else◌, ltb,
}
use vigor.Policer.{Config, DynamicValue, second, refill, asserted, u64}

-- The rate is positive, which the parsing of the command line checks, and a burst in nanoseconds
-- fits in 63 bits.
pub record IsConfig (config : Config) : Type 0 where
  pub positive : 0 < config.rate
  pub small : config.burst * second < 9223372036854775808

-- A bucket at the time `now`.
pub record IsBucket (config : Config) (now : ℕ) (value : DynamicValue) : Type 0 where
  pub full : value.bucket_size ≤ config.burst
  pub past : value.bucket_time ≤ now

-- The time after which a bucket is full.
abbrev pub fill_time : Config → ℕ
fill_time config = config.burst * second / config.rate

-- The tokens of a bucket at a later time in plain arithmetic: those of the time that has passed come
-- to it, up to a burst, and after the time that fills an empty bucket it is full.
abbrev pub tokens_at : Config → DynamicValue → (time : ℕ) → ℕ
tokens_at config value time =
    let tokens = value.bucket_size + (time - value.bucket_time) * config.rate / second in
    if ltb (time - value.bucket_time) (fill_time config)
    then (if ltb config.burst tokens then config.burst else tokens)
    else config.burst

-- There are never more than a burst.
pub tokens_at-le :
    (config : Config) (value : DynamicValue) (time : ℕ) → tokens_at config value time ≤ config.burst
tokens_at-le config value time = ground arith

module _ {config : Config} (c : IsConfig config) {time : ℕ} (in_time : time < 9223372036854775808)
    {value : DynamicValue} (b : IsBucket config time value) where
  abbrev elapsed : ℕ
  elapsed = time - value.bucket_time

  young : elapsed < fill_time config → elapsed * config.rate ≤ config.burst * second
  young l = (le-div_iff_mul-le c.positive).0 (omega (arith, l))

  old : ltb elapsed (fill_time config) ≡ false → config.burst * second < (elapsed + 1) * config.rate
  old l = (div-lt_iff_lt-mul c.positive).0 (ground (arith, l))

  -- Without the wrap-around of the code.
  pub refill_plain : refill config value time ≡ tokens_at config value time
  unfolding refill
  refill_plain =
      let small = c.small in
      let full = b.full in
      let past = b.past in
      let diff : u64 (time + (18446744073709551616 - value.bucket_time)) ≡ elapsed = omega arith in
      let limit : u64 (config.burst * second) ≡ config.burst * second = omega arith in
      rw (diff, limit)
        (elim (Bool-cases (ltb elapsed (fill_time config))) [
          | inr l ↦ rw l refl
          | inl l ↦
              let product = young (ground (arith, l)) in
              let tokens : u64 (elapsed * config.rate) ≡ elapsed * config.rate =
                omega (arith, product) in
              let sum : u64 (value.bucket_size + elapsed * config.rate / second)
                  ≡ value.bucket_size + elapsed * config.rate / second =
                omega (arith, product) in
              rw (l, tokens, sum) refl
        ])

  -- The assertions hold.
  pub asserted_lem : asserted config value time ≡ true
  unfolding asserted
  asserted_lem = ground (arith, b.full, b.past)

  -- For a positive rate, a burst whose nanoseconds fit in 63 bits, a bucket that is not over-full
  -- and a signed 64-bit time not before its own: after the refill there are no more tokens than a
  -- burst and no fewer than before, none of the arithmetic overflows, and the new tokens are at
  -- most those of the time that has passed and one nanosecond more. The bucket is full, or has
  -- exactly the whole tokens of that time more.
  pub refill_bounds :
      let tokens = refill config value time in
      let e = time - value.bucket_time in
      (tokens ≤ config.burst)
      × (value.bucket_size ≤ tokens)
      × (tokens * second ≤ value.bucket_size * second + (e + 1) * config.rate)
      × ((tokens ≡ config.burst) ⊎ (tokens ≡ value.bucket_size + e * config.rate / second))
  refill_bounds =
      let full = b.full in
      let more = add-mul elapsed 1 config.rate in
      rw refill_plain (elim (Bool-cases (ltb elapsed (fill_time config))) [
        | inl l ↦ rw l (ground (arith, young, more))
        | inr l ↦ let product = old l in rw l (omega arith, full, omega (arith, product), inl refl)
      ])
