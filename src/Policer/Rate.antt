-- ===== src/Policer/Rate.antt =====
-- How much a bucket lets through over any number of packets.
use native.Mathlib.Nat.{add-mul}
use vigor.Prelude.{
  ℕ, suc, ◌+◌, ◌-◌, ◌*◌, ◌≤◌, ◌<◌, ◌≡◌, ap, List, [], ◌∷◌, arith, if◌then◌else◌, ltb,
}
use vigor.Prelude.Lists.{length}
use vigor.Policer.{Config, DynamicValue, second, refill, spend}
use vigor.Policer.Bucket.{IsConfig, IsBucket, refill_bounds}

-- Packets of one destination, with their times and sizes: how many bytes of them pass.
unfoldable pub passed : Config → DynamicValue → List (ℕ × ℕ) → ℕ
passed config value [] = 0
passed config value ((time, size) ∷ packets) =
    let (fwd, value') = spend (refill config value time) size time in
    (if fwd then size else 0) + passed config value' packets

-- The packets come in the order of their times, which are signed 64-bit numbers.
abbrev pub InOrder : ℕ → List (ℕ × ℕ) → Type 0
InOrder now [] = Unit {0}
InOrder now ((time, size) ∷ packets) =
    (now ≤ time) × (time < 9223372036854775808) × InOrder time packets

-- The time of the last packet.
abbrev pub finish : ℕ → List (ℕ × ℕ) → ℕ
finish now [] = now
finish now ((time, size) ∷ packets) = finish time packets

finish-le : (now : ℕ) (packets : List (ℕ × ℕ)) → InOrder now packets → now ≤ finish now packets
finish-le now [] o = omega arith
finish-le now ((time, size) ∷ packets) (l, _, o) = omega (arith, l, finish-le time packets o)

-- What a packet takes and what it leaves are the tokens that were there.
pub spend_lem :
    (tokens size time : ℕ)
    → let (fwd, value') = spend tokens size time in
      ((if fwd then size else 0) + value'.bucket_size ≡ tokens)
      × (value'.bucket_time ≡ time)
      × (fwd ≡ ltb size tokens)
unfolding spend
spend_lem tokens size time = ground arith

pub spend-IsBucket :
    {config : Config} (tokens size time : ℕ)
    → tokens ≤ config.burst
    → IsBucket config time (spend tokens size time).1
unfolding spend
spend-IsBucket tokens size time l = ground (arith, l)

-- For a positive rate, a burst whose nanoseconds fit in 63 bits, and a bucket that is not
-- over-full: whatever packets of one destination come, in the order of their times and each at a
-- signed 64-bit time, the bytes that its bucket lets through are at most its tokens at the start
-- and those of the time up to the last packet, and of one nanosecond more for each packet.
pub passed_bound :
    {config : Config} (value : DynamicValue) (now : ℕ) (packets : List (ℕ × ℕ))
    → IsConfig config
    → IsBucket config now value
    → InOrder now packets
    → passed config value packets * second
      ≤ value.bucket_size * second
        + (finish now packets - value.bucket_time + length packets) * config.rate
unfolding passed
passed_bound value now [] c b o = omega arith
passed_bound {config} value now ((time, size) ∷ packets) c b (l, small, o) =
    let here : IsBucket config time value = record {
      full = b.full;
      past = omega (arith, b.past);
    } in
    let tokens = refill config value time in
    let (most, _, bound, _) = refill_bounds c small here in
    let (split, at, _) = spend_lem tokens size time in
    let value' = (spend tokens size time).1 in
    let rest = passed_bound value' time packets c (spend-IsBucket tokens size time most) o in
    let late = finish-le time packets o in
    let sum =
      add-mul (time - value.bucket_time + 1) (finish time packets - time + length packets)
        config.rate in
    let span : time - value.bucket_time + 1 + (finish time packets - time + length packets)
        ≡ finish time packets - value.bucket_time + suc (length packets) =
      omega (arith, here.past) in
    let whole = ap (λ k. k * config.rate) span in
    omega (arith, bound, split, rw at at rest, sum, whole)
