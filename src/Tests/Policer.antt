-- ===== src/Tests/Policer.antt =====
-- A policer with room for three destinations.
use vigor.Prelude.{
  ℕ, ◌+◌, ◌-◌, ◌*◌, ◌≤◌, ◌<◌, ◌≡◌, ◌↔◌, ◌⊎◌, false, refl, ap, sym, ◌∙◌, true, none, some, arith,
  ◌==◌, if◌then◌else◌, List, [], ◌∷◌,
}
use vigor.Prelude.Int.{ℤ, pos}
use vigor.Prelude.Arrays.{u32}
use vigor.MapImpl.{Table}
use vigor.MapImpl.Interface.{KeyOps}
use vigor.DoubleChain.Entries.{recent}
use vigor.ItemTable.Expire.{unless_old}
use vigor.Policer.{
  IpAddr, DynamicValue, Config, Policer, second, refill, spend, policer_check_tb, nf_process,
  policer_expire_entries,
}
use vigor.Policer.Bucket.{IsConfig, IsBucket, tokens_at}
use vigor.Policer.Rate.{passed, passed_bound}
use vigor.Policer.Check.{judged, bucket, IsPolicer, Checked, policer_check_tb_lem}
use vigor.Policer.Process.{young_bucket, has_room, oldest, nf_process-incoming, expiry_harmless}
use vigor.Tests.Keys.{build}
use vigor.Tests.Start.{no_items, no_items-IsItemTable, nothing_lives}

addr_eq_iff : (a b : IpAddr) → ((a.addr == b.addr) ≡ true) ↔ (a ≡ b)
addr_eq_iff a b = ground arith

instance abbrev addr_keys : KeyOps IpAddr
addr_keys = record {
  keys_eq = λ a b. a.addr == b.addr;
  khash = λ a. u32 a.addr;
  keys_eq_iff = addr_eq_iff;
  khash-lt = λ a. omega arith;
}

abbrev memory : Table IpAddr
memory = record {
  busybits = λ _. 7;
  keyps = λ i. record { addr = i };
  khs = λ _. 3;
  chns = λ _. 9;
  vals = λ _. 1;
}

abbrev start : Policer
start = record {
  items = no_items memory;
  dyn_vals = record { items = λ _. record { bucket_size = 0; bucket_time = 0 }; capacity = 3 };
}

-- Two bytes per second, and six at once.
abbrev config : Config
config = record { lan_device = 0; wan_device = 1; rate = 2; burst = 6 }

abbrev config-IsConfig : IsConfig config
config-IsConfig = record { positive = omega arith; small = omega arith }

no_bucket : (q : IpAddr) → bucket start q ≡ none
no_bucket q = nothing_lives memory start.dyn_vals.items q

abbrev start-empty :
    (q : IpAddr) (value : DynamicValue) (t : ℤ)
    → bucket start q ≡ some (value, t)
    → IsBucket config 5 value × (t ≡ pos value.bucket_time)
start-empty q value t e =
    let no : none ≡ some (value, t) = sym (no_bucket q) ∙ e in absurd (ground (arith, no))

abbrev start-IsPolicer : IsPolicer config 3 5 start
start-IsPolicer = record { table = no_items-IsItemTable memory; buckets = start-empty }

abbrev dst : IpAddr
dst = record { addr = 20 }

-- Two tokens, at the time 7.
abbrev two : DynamicValue
two = record { bucket_size = 2; bucket_time = 7 }

abbrev two-IsBucket : (now : ℕ) → 7 ≤ now → IsBucket config now two
two-IsBucket now l = record { full = omega arith; past = l }

-- Of two packets, the first of 4 bytes passes after 1.5 seconds, and the second does not.
abbrev packets : List (ℕ × ℕ)
packets = (1500000007, 4) ∷ (1500000008, 4) ∷ []

passed-packets : passed config two packets ≡ 4
unfolding passed refill spend
passed-packets = refl

passed_bound_example : passed config two packets * second ≤ 2 * second + (1500000008 - 7 + 2) * 2
passed_bound_example =
    passed_bound two 7 packets config-IsConfig (two-IsBucket 7 (omega arith))
      (omega arith, omega arith, (omega arith, omega arith, tt))

policer_check_tb_lem_example :
    Checked config-IsConfig start-IsPolicer dst 4 7
      (omega arith)
      (omega arith)
      true
      (policer_check_tb config start dst 4 7)
policer_check_tb_lem_example =
    policer_check_tb_lem config-IsConfig start-IsPolicer dst 4 7 (omega arith) (omega arith)

not_yet : young_bucket config-IsConfig start-IsPolicer 7 (omega arith) (omega arith) dst ≡ none
not_yet = ap (unless_old (oldest config 7)) (no_bucket dst)

-- The policer after the packet.
abbrev after : Policer
after =
    (nf_process-incoming config-IsConfig start-IsPolicer 7 (omega arith) (omega arith) dst 4
      (λ e. absurd (omega arith))).0

two_left : IsPolicer config 3 7 after × (bucket after dst ≡ some (two, pos 7))
unfolding recent
two_left =
    let (_, _, r, view) =
      nf_process-incoming config-IsConfig start-IsPolicer 7 (omega arith) (omega arith) dst 4
        (λ e. absurd (omega arith)) in
    (r, view dst ∙ ap (λ o. (judged config o true 4 7).1) not_yet)

nf_process-incoming_example :
    let (fwd, then_has) =
      judged config
        (young_bucket config-IsConfig two_left.0 1500000007 (omega arith) (omega arith) dst)
        (has_room config-IsConfig two_left.0 1500000007 (omega arith) (omega arith))
        4
        1500000007 in
    (p' : Policer) × (nf_process config after 1 4 1500000007 (some dst)
      ≡ some (if fwd then 0 else 1, p'))
    × IsPolicer config 3 1500000007 p'
    × ((q : IpAddr)
        → bucket p' q ≡ (
            if dst.addr == q.addr
            then then_has
            else young_bucket config-IsConfig two_left.0 1500000007 (omega arith) (omega arith) q))
nf_process-incoming_example =
    nf_process-incoming config-IsConfig two_left.0 1500000007 (omega arith) (omega arith) dst 4
      (λ e. absurd (omega arith))

-- After 1.5 seconds there are five tokens: a packet of 4 bytes passes and one of 5 does not.
weighs :
    (judged config (some (two, pos 7)) true 4 1500000007
      ≡ (true, some (record { bucket_size = 1; bucket_time = 1500000007 }, pos 1500000007)))
    × (judged config (some (two, pos 7)) true 5 1500000007
        ≡ (false, some (record { bucket_size = 5; bucket_time = 1500000007 }, pos 1500000007)))
weighs = (refl, refl)

refilled :
    (p' : Policer) × (nf_process config after 1 4 1500000007 (some dst) ≡ some (0, p'))
    × (bucket p' dst ≡ some (record { bucket_size = 1; bucket_time = 1500000007 }, pos 1500000007))
refilled =
    let (r, was) = two_left in
    let still : young_bucket config-IsConfig r 1500000007 (omega arith) (omega arith) dst
        ≡ some (two, pos 7) =
      ap (unless_old (oldest config 1500000007)) was in
    let (p', e, _, view) =
      nf_process-incoming config-IsConfig r 1500000007 (omega arith) (omega arith) dst 4
        (λ e. absurd (omega arith)) in
    (p', e ∙ rw still refl, view dst ∙ rw still refl)

-- Four seconds later it is gone, and would be full.
expiry_harmless_example :
    (p' : Policer) × (policer_expire_entries config after 4000000007 ≡ some p')
    × (((4000000007 ≤ 7 + 3 * second) × (bucket p' dst ≡ some (two, pos 7)))
        ⊎ ((7 + 3 * second < 4000000007)
            × (bucket p' dst ≡ none)
            × (tokens_at config two 4000000007 ≡ 6)))
expiry_harmless_example =
    expiry_harmless config-IsConfig two_left.0 4000000007 (omega arith) (omega arith) dst two
      (pos 7) 3 refl two_left.1

-- With a burst below the rate no bucket outlives the moment it was used in.
abbrev short_burst : Config
short_burst = record { lan_device = 0; wan_device = 1; rate = 4; burst = 3 }

abbrev spent : DynamicValue
spent = record { bucket_size = 0; bucket_time = 7 }

-- The bucket is too old a nanosecond later, when it should have no token yet.
short_burst_expires : unless_old (oldest short_burst 8) (some (spent, pos 7)) ≡ none
short_burst_expires = refl

short_burst_empty : refill short_burst spent 8 ≡ 0
unfolding refill
short_burst_empty = refl
