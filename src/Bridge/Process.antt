-- ===== src/Bridge/Process.antt =====
-- `bridge_get_device` and `nf_process` of the bridge: where a frame goes.
use vigor.Prelude.{
  ℕ, ◌+◌, ◌*◌, ◌≤◌, ◌<◌, ◌≡◌, refl, ◌∙◌, ap, Option, none, some, arith, Option-cases, Bool,
  Bool-cases, true, inl, inr, if◌then◌else◌, ltb, ◌==◌,
}
use vigor.Prelude.Int.{ℤ, pos}
use vigor.Prelude.Time.{last_time}
use vigor.Prelude.Lists.{length}
use vigor.MapImpl.Interface.{KeyOps, Build}
use vigor.DoubleChain.Entries.{recent}
use vigor.Map.Refine.{map_get-Models}
use vigor.Map.{map_get}
use vigor.Vector.{vector_borrow, Vector}
use vigor.Vector.Borrow.{vector_return-borrow}
use vigor.Ether.{EtherAddr}
use vigor.ItemTable.{opened}
use vigor.ItemTable.Expire.{unless_old, not_old}
use vigor.Bridge.{
  Bridge, DynamicValue, StaticKey, minus_one, bridge_get_device, device_or_dynamic, device_of_index,
  verdict, forward, learn, nf_process,
}
use vigor.Bridge.Learn.{
  learned, IsBridge, Keeps, bridge_expire_entries_lem, bridge_put_update_entry_lem,
}

-- Where a frame goes that a device number of 32 bits is found for: -2 drops it, so that it goes back
-- to its own device, and -1 floods it, which is the device 65535.
abbrev pub sent_to : (device found : ℕ) → ℕ
sent_to device found =
    if found == 4294967294 then device else if found == 4294967295 then 65535 else found

-- A static rule goes before what was learned, and a frame to an unknown address is flooded.
abbrev pub outcome : (device : ℕ) → (rule : Option ℕ) → Option (DynamicValue × ℤ) → ℕ
outcome device (some rule) l = sent_to device rule
outcome device none (some (value, t)) = sent_to device value.device
outcome device none none = 65535

-- The device of a learned address, or -1.
abbrev device_or_none : Option (DynamicValue × ℤ) → ℕ
device_or_none none = minus_one
device_or_none (some (value, t)) = value.device

-- A static rule goes before what was learned.
abbrev target : (rule : Option ℕ) → Option (DynamicValue × ℤ) → ℕ
target (some device) l = device
target none l = device_or_none l

module _ ⦃ops : KeyOps EtherAddr⦄ ⦃static_ops : KeyOps StaticKey⦄ ⦃build : Build⦄ where
  verdict-sent_to : (device found : ℕ) → verdict device found ≡ sent_to device found
  unfolding verdict
  verdict-sent_to device found = ground arith

  verdict-outcome :
      (device : ℕ) (rule : Option ℕ) (l : Option (DynamicValue × ℤ))
      → verdict device (target rule l) ≡ outcome device rule l
  verdict-outcome device (some rule) l = verdict-sent_to device rule
  verdict-outcome device none (some (value, t)) = verdict-sent_to device value.device
  verdict-outcome device none none = verdict-sent_to device minus_one

module _ ⦃ops : KeyOps EtherAddr⦄ ⦃static_ops : KeyOps StaticKey⦄ ⦃build : Build⦄ where
  -- The static rule for a destination and the device that the frame comes from.
  abbrev pub rule_of : Bridge → EtherAddr → (device : ℕ) → Option ℕ
  rule_of b dst device = map_get b.st_map (record { addr = dst; device = device })

module _ ⦃ops : KeyOps EtherAddr⦄ ⦃static_ops : KeyOps StaticKey⦄ ⦃build : Build⦄ {size now : ℕ}
    {b : Bridge} (r : IsBridge size now b) where
  dynamic_lem :
      (dst : EtherAddr) → device_or_dynamic b dst none ≡ (device_or_none (learned b dst), b)
  unfolding device_or_dynamic device_of_index vector_borrow
  dynamic_lem dst =
      let g = map_get-Models r.dict b.items.map dst r.table.map in
      elim (Option-cases (r.dict.read dst)) [
        | inl e ↦ rw (g, e) refl
        | inr (i, e) ↦
            rw (g, e)
              (ap
                (λ (v : Vector DynamicValue).
                  ((b.dyn_vals.items i).device, record b { dyn_vals = v }))
                (unfold vector_borrow in vector_return-borrow b.dyn_vals i))
      ]

  -- The lookup changes nothing.
  bridge_get_device_lem :
      (dst : EtherAddr) (device : ℕ)
      → bridge_get_device b dst device ≡ (target (rule_of b dst device) (learned b dst), b)
  unfolding bridge_get_device device_or_dynamic
  bridge_get_device_lem dst device = elim (Option-cases (rule_of b dst device)) [
    | inl e ↦ rw e (dynamic_lem dst)
    | inr (out, e) ↦ rw e refl
  ]

module _ ⦃ops : KeyOps EtherAddr⦄ ⦃static_ops : KeyOps StaticKey⦄ ⦃build : Build⦄ {size before : ℕ}
    {b : Bridge} (r : IsBridge size before b) (now : ℕ) (later : before ≤ now) where
  -- The addresses that are left when the frame has come in, before its source is learned.
  abbrev pub remembered : EtherAddr → Option (DynamicValue × ℤ)
  remembered q = unless_old (last_time now b.expiration_time) (learned b q)

  abbrev pub has_space : Bool
  has_space = ltb (length (recent (last_time now b.expiration_time) r.entries)) size

  -- The addresses after a frame.
  abbrev pub after_frame : (src : EtherAddr) (device : ℕ) → EtherAddr → Option (DynamicValue × ℤ)
  after_frame src device q =
      if ops.keys_eq src q
      then opened (remembered src) has_space (record { device = device }) (pos now)
      else remembered q

  -- A live address keeps the device that it was learned from, whoever the frame is from.
  after_frame-known :
      (src : EtherAddr) (device : ℕ) (q : EtherAddr) (first other : ℕ) (t : ℤ)
      → remembered q ≡ some (record { device = first }, t)
      → outcome other none (after_frame src device q) ≡ sent_to other first
  after_frame-known src device q first other t e = elim (Bool-cases (ops.keys_eq src q)) [
    | inr another ↦ rw (another, e) refl
    | inl alike ↦
        let same : src ≡ q = (ops.keys_eq_iff src q).0 alike in
        let e' : remembered src ≡ some (record { device = first }, t) = ap remembered same ∙ e in
        rw (alike, e') refl
  ]

  -- A frame over a sound bridge, at a time not before the last one, faults nowhere. Its source is
  -- refreshed with the device that it was learned from if it is known after the expiry, learned
  -- if it is not and there is room, and left out if there is none. It then goes where the static
  -- rule for its destination and its device says, and without one to the device that its
  -- destination was learned from. A device of -1 floods it, as does a destination that is not
  -- known, and one of -2 drops it, both in 32 bits. The static rules stay as they are.
  pub nf_process-forwards :
      (device : ℕ) (src dst : EtherAddr)
      → (b' : Bridge) × (nf_process b device now src dst
          ≡ some (outcome device (rule_of b dst device) (after_frame src device dst), b'))
        × IsBridge size now b'
        × Keeps b b'
        × ((q : EtherAddr) → learned b' q ≡ after_frame src device q)
  unfolding nf_process learn forward
  nf_process-forwards device src dst =
      let (b1, e, r1, left, (rules, expires), view) = bridge_expire_entries_lem r now in
      let (b2, e', r2, (rules', expires'), view') =
        bridge_put_update_entry_lem r1 now src device later in
      let seen : (q : EtherAddr) → learned b2 q ≡ after_frame src device q =
        λ q. view' q ∙ rw (view src, view q, left) refl in
      (
        b2,
        rw (e, e', bridge_get_device_lem r2 dst device, rules' ∙ rules, seen dst)
            (ap (λ d. some (d, b2))
              (verdict-outcome device (rule_of b dst device) (after_frame src device dst))),
        r2,
        (rules' ∙ rules, expires' ∙ expires),
        seen,
      )

module _ ⦃ops : KeyOps EtherAddr⦄ ⦃static_ops : KeyOps StaticKey⦄ ⦃build : Build⦄ {size before : ℕ}
    {b : Bridge} (r : IsBridge size before b) where
  -- Let a frame come from a device (its number fits in 16 bits) while its source is not known and
  -- the sound bridge has room, and let a frame to that address come from a device without a
  -- static rule for it, not before the first and no later than the expiration time after it. If
  -- neither the time of the second frame nor the expiration time in nanoseconds overflows a
  -- signed 64-bit number, then the second frame goes to the device that the first one came from.
  pub nf_process-learned :
      (device other first now : ℕ) (src dst src' : EtherAddr) (l : before ≤ first)
      → first ≤ now
      → now ≤ first + b.expiration_time * 1000
      → now < 9223372036854775808
      → b.expiration_time * 1000 < 9223372036854775808
      → device < 65536
      → remembered r first l src ≡ none
      → has_space r first l ≡ true
      → rule_of b src other ≡ none
      → (d : ℕ) × (b1 : Bridge) × (b2 : Bridge) × (nf_process b device first src dst ≡ some (d, b1))
        × (nf_process b1 other now src' src ≡ some (device, b2))
  nf_process-learned device other first now src dst src' l later soon small short narrow new room
        free_rule =
      let (b1, e, r1, (rules, keep), view) = nf_process-forwards r first l device src dst in
      let (b2, e', _, _, _) = nf_process-forwards r1 now later other src' src in
      let value : DynamicValue = record { device = device } in
      let self : ops.keys_eq src src ≡ true = (ops.keys_eq_iff src src).1 refl in
      let found : learned b1 src ≡ some (value, pos first) = view src ∙ rw (self, new, room) refl in
      let still : remembered r1 now later src ≡ some (value, pos first) =
        rw (found, keep) (not_old value first now b.expiration_time small short soon) in
      let seen = after_frame-known r1 now later src' other src device other (pos first) still in
      let rule : rule_of b1 src other ≡ none = rw rules free_rule in
      let out : outcome other (rule_of b1 src other) (after_frame r1 now later src' other src)
          ≡ device =
        ap (λ o. outcome other o (after_frame r1 now later src' other src)) rule
        ∙ seen
        ∙ ground (arith, narrow) in
      (_, b1, b2, e, e' ∙ ap (λ d. some (d, b2)) out)
