-- ===== src/Tests/Bridge.antt =====
-- A bridge with room for three addresses, and no static rule.
use vigor.Prelude.{
  ℕ, ◌+◌, ◌*◌, ◌<◌, ◌≡◌, ◌↔◌, refl, ap, ◌∙◌, Bool, true, none, some, arith, ◌==◌, ◌&&◌,
}
use vigor.Prelude.Arrays.{u32}
use vigor.MapImpl.{Table}
use vigor.MapImpl.Interface.{KeyOps}
use vigor.DoubleChain.Entries.{recent}
use vigor.Map.Dict.{Dict, empty, update}
use vigor.Map.Dict
use vigor.Map.{map_get, map_put}
use vigor.Map.Refine.{map_get-Models, map_put-Models}
use vigor.Prelude.Time.{last_time}
use vigor.ItemTable.Expire.{unless_old}
use vigor.Ether.{EtherAddr, rte_ether_addr_allocate, ether_keys}
use vigor.Bridge.{Bridge, StaticKey, nf_process}
use vigor.Bridge.Learn.{learned, IsBridge, Keeps}
use vigor.Bridge.Process.{
  rule_of, outcome, after_frame, remembered, nf_process-forwards, nf_process-learned,
}
use vigor.Tests.Keys.{build, or_else}
use vigor.Tests.Start.{no_items, no_items-IsItemTable, nothing_lives, empty_map, empty_map-Models}

crc-lt : (hash byte : ℕ) → u32 (hash * 31 + byte) < 4294967296
crc-lt hash byte = omega arith

instance abbrev addr_keys : KeyOps EtherAddr
addr_keys = ether_keys (λ hash byte. u32 (hash * 31 + byte)) crc-lt

abbrev static_eq : StaticKey → StaticKey → Bool
static_eq a b = addr_keys.keys_eq a.addr b.addr && a.device == b.device

static_eq_iff : (a b : StaticKey) → (static_eq a b ≡ true) ↔ (a ≡ b)
static_eq_iff a b = ground (arith, addr_keys.keys_eq_iff a.addr b.addr)

instance abbrev static_keys : KeyOps StaticKey
static_keys = record {
  keys_eq = static_eq;
  khash = λ a. u32 (addr_keys.khash a.addr + a.device);
  keys_eq_iff = static_eq_iff;
  khash-lt = λ a. omega arith;
}

abbrev memory : {K : Type 0} → K → Table K
memory key = record {
  busybits = λ _. 7;
  keyps = λ _. key;
  khs = λ _. 3;
  chns = λ _. 9;
  vals = λ _. 1;
}

abbrev addr : ℕ → EtherAddr
addr n = record rte_ether_addr_allocate { byte5 = n }

abbrev rules : Table StaticKey
rules = memory (record { addr = addr 0; device = 0 })

-- Addresses expire after a microsecond.
abbrev start : Bridge
start = record {
  items = no_items (memory (addr 0));
  dyn_vals = record { items = λ _. record { device = 9 }; capacity = 3 };
  st_map = empty_map rules;
  expiration_time = 1;
}

abbrev start-IsBridge : IsBridge 3 5 start
start-IsBridge = record { addresses = no_items-IsItemTable (memory (addr 0)) }

no_rule : (dst : EtherAddr) (device : ℕ) → rule_of start dst device ≡ none
no_rule dst device =
    map_get-Models empty (empty_map rules) (record { addr = dst; device = device })
      (empty_map-Models rules)

new_address : (q : EtherAddr) → remembered start-IsBridge 7 (omega arith) q ≡ none
new_address q =
    ap (unless_old (last_time 7 1)) (nothing_lives (memory (addr 0)) start.dyn_vals.items q)

-- A static rule that drops frames from the device 1 to the address 20.
abbrev ruled : StaticKey
ruled = record { addr = addr 20; device = 1 }

abbrev drop_rule : Dict StaticKey
drop_rule = record { read = update (λ _. none) ruled (some 4294967294); size = 1 }

abbrev guarded : Bridge
guarded = record start {
  st_map = or_else (empty_map rules) (map_put (empty_map rules) ruled 4294967294);
}

guarded-IsBridge : IsBridge 3 5 guarded
guarded-IsBridge = record { addresses = start-IsBridge.addresses }

nf_process-forwards_example :
    (b' : Bridge) × (nf_process guarded 1 7 (addr 10) (addr 20)
      ≡ some (
        outcome 1
            (rule_of guarded (addr 20) 1)
            (after_frame guarded-IsBridge 7 (omega arith) (addr 10) 1 (addr 20)),
        b',
      ))
    × IsBridge 3 7 b'
    × Keeps guarded b'
    × ((q : EtherAddr) → learned b' q ≡ after_frame guarded-IsBridge 7 (omega arith) (addr 10) 1 q)
nf_process-forwards_example =
    nf_process-forwards guarded-IsBridge 7 (omega arith) 1 (addr 10) (addr 20)

drops : rule_of guarded (addr 20) 1 ≡ some 4294967294
unfolding Dict.put
drops =
    let (m, e, _, r) =
      map_put-Models empty drop_rule (empty_map rules) ruled 4294967294 (empty_map-Models rules)
        refl in
    ap (λ o. map_get (or_else (empty_map rules) o) ruled) e
    ∙ map_get-Models drop_rule m ruled r
    ∙ rw ((static_eq_iff ruled ruled).1 refl) refl

-- The frame goes back to the device that it came from.
dropped_by_rule : (b' : Bridge) × (nf_process guarded 1 7 (addr 10) (addr 20) ≡ some (1, b'))
dropped_by_rule =
    let (b', e, _, _, _) =
      nf_process-forwards guarded-IsBridge 7 (omega arith) 1 (addr 10) (addr 20) in
    (
      b',
      e
          ∙ ap
              (λ rule. some (
                outcome 1 rule (after_frame guarded-IsBridge 7 (omega arith) (addr 10) 1 (addr 20)),
                b',
              ))
              drops,
    )

nf_process-learned_example :
    (d : ℕ) × (b1 : Bridge) × (b2 : Bridge) × (nf_process start 1 7 (addr 10) (addr 20)
      ≡ some (d, b1))
    × (nf_process b1 2 900 (addr 20) (addr 10) ≡ some (1, b2))
unfolding recent
nf_process-learned_example =
    nf_process-learned start-IsBridge 1 2 7 900 (addr 10) (addr 20) (addr 20) (omega arith)
      (omega arith) (omega arith) (omega arith) (omega arith) (omega arith) (new_address (addr 10))
      refl (no_rule (addr 10) 2)
