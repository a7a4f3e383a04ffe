-- ===== src/Policer/Check.antt =====
-- `policer_check_tb`, against the bucket of each destination.
use vigor.Prelude.{
  ℕ, ◌-◌, ◌≤◌, ◌<◌, ◌≡◌, refl, subst, sym, ap, ◌∙◌, Bool, true, false, arith, Option, none, some,
  Bool-cases, Option-cases, inl, inr, if◌then◌else◌, ltb,
}
use vigor.Prelude.Arrays.{write}
use vigor.Prelude.Int.{ℤ, pos}
use vigor.Prelude.Lists
use vigor.MapImpl.Interface.{KeyOps, Build}
use vigor.DoubleChain.Order.{time_of}
use vigor.DoubleChain.{dchain_rejuvenate_index}
use vigor.Map.Refine.{map_get-Models}
use vigor.Vector.{vector_borrow, vector_return}
use vigor.ItemTable.{live, live-known, live-same, IsItemTable, IsItemTable-later}
use vigor.ItemTable.Refresh.{refresh_lem}
use vigor.ItemTable.Admit.{admit_lem, full_lem}
use vigor.Policer.{
  IpAddr, Config, DynamicValue, Policer, refill, spend, policer_check_tb, check_or_admit,
  check_known, admit_bucket, record_bucket,
}
use vigor.Policer.Bucket.{IsConfig, IsBucket, tokens_at, tokens_at-le, refill_plain, asserted_lem}

-- Whether a packet passes a bucket, which is exactly if the bucket has more tokens than the packet
-- has bytes, and the bucket then.
abbrev pub weighed : (tokens size time : ℕ) → Bool × DynamicValue
weighed tokens size time =
    if ltb size tokens
    then (true, record { bucket_size = tokens - size; bucket_time = time })
    else (false, record { bucket_size = tokens; bucket_time = time })

-- What becomes of the bucket of a destination, and whether the packet passes. `free` tells whether
-- the table has room for one more.
abbrev pub judged :
    Config
    → Option (DynamicValue × ℤ)
    → (free : Bool) → (size time : ℕ) → Bool × Option (DynamicValue × ℤ)
judged config (some (value, t)) free size time =
    let (fwd, value') = weighed (tokens_at config value time) size time in
    (fwd, some (value', pos time))
judged config none free size time =
    if ltb config.burst size
    then (false, none)
    else if free
    then (true, some (record { bucket_size = config.burst - size; bucket_time = time }, pos time))
    else (false, none)

module _ ⦃ops : KeyOps IpAddr⦄ ⦃build : Build⦄ where
  -- The bucket of a destination.
  abbrev pub bucket : Policer → IpAddr → Option (DynamicValue × ℤ)
  bucket p q = live p.dyn_vals.items p.items q

  pub record IsPolicer (config : Config) (size now : ℕ) (p : Policer) : Type 0 where
    pub table : IsItemTable size now p.items
    pub buckets :
        (q : IpAddr) (value : DynamicValue) (t : ℤ)
        → bucket p q ≡ some (value, t)
        → IsBucket config now value × (t ≡ pos value.bucket_time)

weighed-IsBucket :
    {config : Config} (tokens size time : ℕ)
    → tokens ≤ config.burst
    → IsBucket config time (weighed tokens size time).1
weighed-IsBucket tokens size time l = ground (arith, l)

-- The code compares and subtracts as `weighed` does.
spend-weighed : (tokens size time : ℕ) → spend tokens size time ≡ weighed tokens size time
unfolding spend
spend-weighed tokens size time = refl

module _ ⦃ops : KeyOps IpAddr⦄ ⦃build : Build⦄ {config : Config} (c : IsConfig config)
    {size now : ℕ} {p : Policer} (r : IsPolicer config size now p) (dst : IpAddr) (length time : ℕ)
    (later : now ≤ time) (in_time : time < 9223372036854775808) where
  judged-IsBucket :
      (free : Bool) (was : Option (DynamicValue × ℤ)) (value : DynamicValue) (t : ℤ)
      → ((v : DynamicValue) (u : ℤ) → was ≡ some (v, u) → IsBucket config time v)
      → (judged config was free length time).1 ≡ some (value, t)
      → IsBucket config time value × (t ≡ pos value.bucket_time)
  judged-IsBucket free none value t old e = ground arith
  judged-IsBucket free (some (v, u)) value t old e =
      let tokens = tokens_at config v time in
      let made =
        weighed-IsBucket {config = config} tokens length time (tokens_at-le config v time) in
      let same : (weighed tokens length time).1 ≡ value = ground (arith, e) in
      let at : (weighed tokens length time).1.bucket_time ≡ time = ground arith in
      (subst (IsBucket config time) same made, ground (arith, e, at))

  -- The invariant after a step, from what the step does to the buckets.
  next-IsPolicer :
      {p' : Policer} (free : Bool)
      → IsItemTable size time p'.items
      → ((q : IpAddr)
          → bucket p' q ≡ (
              if ops.keys_eq dst q
              then (judged config (bucket p dst) free length time).1
              else bucket p q))
      → IsPolicer config size time p'
  next-IsPolicer free table view = record {
    table = table;
    buckets = λ q value t e. elim (Bool-cases (ops.keys_eq dst q)) [
      | inl same ↦
          judged-IsBucket free (bucket p dst) value t (λ v u h. aged v (r.buckets dst v u h).0)
            (sym (view q ∙ rw same refl) ∙ e)
      | inr other ↦
          let (b, at) = r.buckets q value t (sym (view q ∙ rw other refl) ∙ e) in (aged value b, at)
    ];
  }
    where
      aged : (v : DynamicValue) → IsBucket config now v → IsBucket config time v
      aged v b = record { full = b.full; past = omega (arith, b.past) }

  -- What the call leaves when `free` tells whether an index is free.
  pub record Checked (free : Bool) (out : Option (Bool × Policer)) : Type 0 where
    pub after : Policer
    pub returns : out ≡ some ((judged config (bucket p dst) free length time).0, after)
    pub sound : IsPolicer config size time after
    pub view :
        (q : IpAddr)
        → bucket after q ≡ (
            if ops.keys_eq dst q
            then (judged config (bucket p dst) free length time).1
            else bucket p q)

  checked :
      (free : Bool) (out : Option (Bool × Policer)) (p' : Policer)
      → out ≡ some ((judged config (bucket p dst) free length time).0, p')
      → IsItemTable size time p'.items
      → ((q : IpAddr)
          → bucket p' q ≡ (
              if ops.keys_eq dst q
              then (judged config (bucket p dst) free length time).1
              else bucket p q))
      → Checked free out
  checked free out p' e table view = record {
    after = p';
    returns = e;
    sound = next-IsPolicer free table view;
    view = view;
  }

  known_lem :
      (free : Bool) (i : ℕ)
      → r.table.dict.read dst ≡ some i
      → Checked free (check_known config p i length time)
  unfolding check_known vector_borrow vector_return
  known_lem free i e =
      let vals = p.dyn_vals.items in
      let value = vals i in
      let value' = (weighed (tokens_at config value time) length time).1 in
      let was : bucket p dst ≡ some (value, time_of i r.table.entries) =
        live-known vals r.table dst ∙ rw e refl in
      let (b, _) = r.buckets dst value (time_of i r.table.entries) was in
      let here : IsBucket config time value = record {
        full = b.full;
        past = omega (arith, b.past);
      } in
      let fine = asserted_lem c in_time here in
      let spent : spend (refill config value time) length time
          ≡ weighed (tokens_at config value time) length time =
        ap (λ n. spend n length time) (refill_plain c in_time here)
        ∙ spend-weighed (tokens_at config value time) length time in
      let (table, _, view) = refresh_lem r.table dst i time later e in
      let p' : Policer = record {
        items = record p.items { chain = (dchain_rejuvenate_index p.items.chain i (pos time)).1 };
        dyn_vals = record p.dyn_vals { items = write vals i value' };
      } in
      checked free _ p' (rw (fine, was, spent) refl) table (λ q.
        view DynamicValue vals (write vals i value') q (λ j ne. ground arith)
        ∙ rw was (ground arith))

  -- A destination without a bucket, whose packet is not larger than a burst.
  new_lem :
      (free : Bool)
      → free ≡ ltb (Lists.length r.table.entries) size
      → r.table.dict.read dst ≡ none
      → Checked free (check_or_admit config p dst length time none)
  unfolding check_or_admit admit_bucket record_bucket vector_return
  new_lem free f e =
      let vals = p.dyn_vals.items in
      let was : bucket p dst ≡ none = live-known vals r.table dst ∙ rw e refl in
      let first : DynamicValue = record {
        bucket_size = config.burst - length;
        bucket_time = time;
      } in
      let same = live-same vals p.items dst in
      elim (Bool-cases (ltb config.burst length)) [
        | inl large ↦
            checked free _ p (rw (large, was) (rw large refl))
              (IsItemTable-later time later r.table) (λ q. same q ∙ rw was (rw large refl))
        | inr fits ↦ elim (Bool-cases free) [
          | inr full ↦
              let none_free = full_lem r.table time (ground (arith, sym f ∙ full)) in
              checked free _ p (rw (fits, was, none_free) (rw (fits, full) refl))
                (IsItemTable-later time later r.table) (λ q. same q ∙ rw was (rw (fits, full) refl))
          | inl room ↦
              let (i, chain', map', e1, e2, _, table, _, view) =
                admit_lem r.table dst time later e (ground (arith, sym f ∙ room)) in
              let p' : Policer = record {
                items = record {
                  chain = chain';
                  vector = vector_return p.items.vector i dst;
                  map = map';
                };
                dyn_vals = record p.dyn_vals { items = write vals i first };
              } in
              checked free _ p' (rw (fits, was, e1) (rw (e2, fits, room) refl)) table (λ q.
                view DynamicValue vals (write vals i first) q (λ j ne. ground arith)
                ∙ rw was (rw (fits, room) (ground arith)))
        ]
      ]

  -- comment
  pub policer_check_tb_lem :
      Checked (ltb (Lists.length r.table.entries) size) (policer_check_tb config p dst length time)
  unfolding policer_check_tb check_or_admit
  policer_check_tb_lem =
      let free = ltb (Lists.length r.table.entries) size in
      let g = map_get-Models r.table.dict p.items.map dst r.table.table.map in
      elim (Option-cases (r.table.dict.read dst)) [
        | inl e ↦ rw (g, e) (new_lem free refl e)
        | inr (i, e) ↦ rw (g, e) (known_lem free i e)
      ]
