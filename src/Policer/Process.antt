-- ===== src/Policer/Process.antt =====
-- `policer_expire_entries` and `nf_process`.
use native.Mathlib.Nat.{mul-div_cancel, mul_right_comm, div-le_self}
use vigor.Prelude.{
  ℕ, ◌+◌, ◌*◌, ◌/◌, ◌≤◌, ◌<◌, ◌≡◌, ◌≢◌, ◌⊎◌, refl, ap, sym, ◌∙◌, Bool, true, false, arith, Option,
  none, some, if◌then◌else◌, ltb, ◌==◌, Bool-cases, inl, inr,
}
use vigor.Prelude.Int.{ℤ, pos, sub_ℕ}
use vigor.Prelude.Time.{before, before_lem}
use vigor.Prelude.Lists
use vigor.MapImpl.Interface.{KeyOps, Build}
use vigor.DoubleChain.Entries.{recent}
use vigor.ItemTable.{IsItemTable-later}
use vigor.ItemTable.Expire.{unless_old-some, unless_old, expire_lem}
use vigor.Policer.{
  IpAddr, Config, DynamicValue, Policer, second, u64, nf_process, forward, police, with_items,
  policer_expire_entries,
}
use vigor.Policer.Bucket.{IsConfig, tokens_at, fill_time}
use vigor.Policer.Check.{judged, bucket, IsPolicer, policer_check_tb_lem}

-- The time before which a bucket is too old: as many whole seconds ago as the rate fits in a burst.
abbrev pub oldest : Config → ℕ → ℤ
oldest config time = sub_ℕ time (second * (config.burst / config.rate))

-- The code, which wraps, finds the same time.
before-oldest :
    {config : Config} (time : ℕ)
    → IsConfig config
    → time < 9223372036854775808
    → before time (u64 (second * (config.burst / config.rate))) ≡ oldest config time
before-oldest {config} time c in_time =
    let rounds = div-le_self config.burst config.rate in
    let small = c.small in
    let plain : u64 (second * (config.burst / config.rate))
        ≡ second * (config.burst / config.rate) =
      omega (arith, rounds, small) in
    ap (before time) plain
    ∙ before_lem time (second * (config.burst / config.rate)) in_time (omega (arith, rounds, small))

module _ ⦃ops : KeyOps IpAddr⦄ ⦃build : Build⦄ {config : Config} (c : IsConfig config)
    {size now : ℕ} {p : Policer} (r : IsPolicer config size now p) (time : ℕ) (later : now ≤ time)
    (in_time : time < 9223372036854775808) where
  -- The bucket of a destination that is not too old.
  abbrev pub young_bucket : IpAddr → Option (DynamicValue × ℤ)
  young_bucket q = unless_old (oldest config time) (bucket p q)

  abbrev pub has_room : Bool
  has_room = ltb (Lists.length (recent (oldest config time) r.table.entries)) size

  expire_entries_lem :
      (p' : Policer) × (policer_expire_entries config p time ≡ some p')
      × (r' : IsPolicer config size now p') × (r'.table.entries
          ≡ recent (oldest config time) r.table.entries)
      × ((q : IpAddr) → bucket p' q ≡ young_bucket q)
  unfolding policer_expire_entries with_items
  expire_entries_lem =
      let last = oldest config time in
      let (count, items', e, table, left, view) = expire_lem r.table last in
      let p' : Policer = record p { items = items' } in
      let v = view DynamicValue p.dyn_vals.items in
      let r' : IsPolicer config size now p' = record {
        table = table;
        buckets = λ q value t h.
            r.buckets q value t (unless_old-some last (bucket p q) value t (sym (v q) ∙ h));
      } in
      (p', rw (before-oldest time c in_time, e) refl, r', left, v)

  IsPolicer-later : {p' : Policer} → IsPolicer config size now p' → IsPolicer config size time p'
  IsPolicer-later r' = record {
    table = IsItemTable-later time later r'.table;
    buckets = λ q value t h.
        let (b, at) = r'.buckets q value t h in
        (record { full = b.full; past = omega (arith, b.past) }, at);
  }

  -- For a sound policer, a positive rate and a burst whose nanoseconds fit in 63 bits: an IPv4
  -- packet from the WAN device, which is not the LAN device, at a signed 64-bit time not before
  -- the last one, faults nowhere, so every assertion of the code holds. If its destination has a
  -- bucket after the expiry, the tokens of that bucket are, in plain arithmetic, those that it
  -- had and those of the time that has passed, at most a burst, and a burst after the time that
  -- fills an empty bucket; the packet goes to the LAN device and takes as many tokens as it has
  -- bytes exactly if the bucket has more, and else it goes back and the bucket keeps them.
  -- Without a bucket it goes to the LAN device, and gets one with the rest of a burst, exactly if
  -- it is not larger than a burst and there is room. The policer is sound again, and no other
  -- bucket changes but those that are too old.
  pub nf_process-incoming :
      (dst : IpAddr) (length : ℕ)
      → config.lan_device ≢ config.wan_device
      → let (fwd, after) = judged config (young_bucket dst) has_room length time in
        (p' : Policer) × (nf_process config p config.wan_device length time (some dst)
          ≡ some (if fwd then config.lan_device else config.wan_device, p'))
        × IsPolicer config size time p'
        × ((q : IpAddr) → bucket p' q ≡ (if ops.keys_eq dst q then after else young_bucket q))
  unfolding nf_process forward police
  nf_process-incoming dst length apart =
      let (p1, e, r1, left, view) = expire_entries_lem in
      let out = policer_check_tb_lem c r1 dst length time later in_time in
      let lan : (config.wan_device == config.lan_device) ≡ false = ground (arith, apart) in
      let wan : (config.wan_device == config.wan_device) ≡ true = ground arith in
      (
        out.after,
        rw (e, lan, wan, out.returns) (rw (view dst, left) refl),
        out.sound,
        λ q. out.view q ∙ rw (view dst, view q, left) refl,
      )

  -- An IPv4 packet from a device other than the WAN device, or from the LAN device, over a sound
  -- policer, goes to the WAN device if it came from the LAN device and is dropped if not. Its
  -- length plays no part, and no bucket changes but those that are too old.
  pub nf_process-not_policed :
      (device : ℕ) (dst : IpAddr) (length : ℕ)
      → (device ≢ config.wan_device) ⊎ (device ≡ config.lan_device)
      → (p' : Policer) × (nf_process config p device length time (some dst)
          ≡ some (if device == config.lan_device then config.wan_device else device, p'))
        × IsPolicer config size time p'
        × ((q : IpAddr) → bucket p' q ≡ young_bucket q)
  unfolding nf_process forward
  nf_process-not_policed device dst length other =
      let (p1, e, r1, left, view) = expire_entries_lem in
      (p1, rw e (ground (arith, other)), IsPolicer-later r1, view)

  -- With a burst that is `k` times the rate, the expiry takes what is older than `k` seconds.
  unless_old-whole :
      (value : DynamicValue) (k : ℕ)
      → config.burst ≡ k * config.rate
      → unless_old (oldest config time) (some (value, pos value.bucket_time)) ≡ (
          if ltb (value.bucket_time + k * second) time
          then none
          else some (value, pos value.bucket_time))
  unless_old-whole value k whole =
      let rounds : config.burst / config.rate ≡ k =
        ap (λ x. x / config.rate) whole ∙ mul-div_cancel k c.positive in
      let last : oldest config time ≡ sub_ℕ time (k * second) =
        ap (sub_ℕ time) (omega (arith, rounds)) in
      rw last (ground arith)

  -- Then `k` seconds fill any bucket.
  tokens_at-whole :
      (value : DynamicValue) (k : ℕ)
      → config.burst ≡ k * config.rate
      → value.bucket_time + k * second < time
      → tokens_at config value time ≡ config.burst
  tokens_at-whole value k whole past =
      let filled : fill_time config ≡ k * second =
        ap (λ x. x * second / config.rate) whole
        ∙ ap (λ x. x / config.rate) (mul_right_comm k config.rate second)
        ∙ mul-div_cancel (k * second) c.positive in
      ground (arith, filled, past)

  -- For a sound policer, a positive rate, a burst that is `k` times the rate, whose nanoseconds
  -- fit in 63 bits, and a signed 64-bit time not before the last one: `policer_expire_entries`
  -- faults nowhere. It leaves a bucket that was last used at most `k` seconds ago as it is. It
  -- takes any older one away, and that bucket has a full burst of tokens at that time.
  pub expiry_harmless :
      (q : IpAddr) (value : DynamicValue) (t : ℤ) (k : ℕ)
      → config.burst ≡ k * config.rate
      → bucket p q ≡ some (value, t)
      → (p' : Policer) × (policer_expire_entries config p time ≡ some p')
        × (((time ≤ value.bucket_time + k * second) × (bucket p' q ≡ some (value, t)))
            ⊎ ((value.bucket_time + k * second < time)
                × (bucket p' q ≡ none)
                × (tokens_at config value time ≡ config.burst)))
  expiry_harmless q value t k whole found =
      let (p', e, _, _, view) = expire_entries_lem in
      let (_, at) = r.buckets q value t found in
      let was : bucket p q ≡ some (value, pos value.bucket_time) =
        found ∙ ap (λ u. some (value, u)) at in
      let left : bucket p' q ≡ (
          if ltb (value.bucket_time + k * second) time
          then none
          else some (value, pos value.bucket_time)) =
        view q ∙ ap (unless_old (oldest config time)) was ∙ unless_old-whole value k whole in
      (
        p',
        e,
        elim (Bool-cases (ltb (value.bucket_time + k * second) time)) [
          | inl past ↦
              let late : value.bucket_time + k * second < time = ground (arith, past) in
              inr (late, left ∙ rw past refl, tokens_at-whole value k whole late)
          | inr young ↦
              let soon : time ≤ value.bucket_time + k * second = ground (arith, young) in
              let kept : bucket p' q ≡ some (value, pos value.bucket_time) = left ∙ rw young refl in
              inl (soon, kept ∙ ap (λ u. some (value, u)) (sym at))
        ],
      )
