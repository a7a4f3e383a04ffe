-- ===== src/Balancer/Filled.antt =====
-- A load balancer over the table that `cht_fill_cht` has filled, as lb_balancer.c sets it up.
use vigor.Prelude.{
  ℕ, suc, ◌%◌, ◌≤◌, ◌<◌, ◌≡◌, refl, sym, ap, subst, ◌∙◌, Bool, true, Option, none, some,
  Option-cases, inl, inr, arith,
}
use vigor.Prelude.Arrays.{Array}
use vigor.Prelude.Int.{ℤ, pos}
use mathlib.Core.Option.{some-injective}
use native.Mathlib.Nat.{mod-lt}
use vigor.MapImpl.Interface.{KeyOps, Build}
use vigor.DoubleChain.{DoubleChain}
use vigor.DoubleChain.Entries.{has}
use vigor.Map.{Map, map_put}
use vigor.Ether.{EtherAddr}
use vigor.Vector.{Vector}
use vigor.DoubleChain.Refine.{has-lt}
use vigor.Cht.{cht_fill_cht}
use vigor.Cht.Choose.{row_of}
use vigor.Cht.Permut.{IsSize}
use vigor.Cht.Fill.{IsRow, Chooses-serves, cht_fill_cht_lem}
use vigor.ItemTable.{live-known}
use vigor.Balancer.{
  LoadBalancer, LoadBalancedFlow, LoadBalancedBackend, lb_get_backend, lb_process_heartbit,
  refresh_or_admit, admit_backend, record_backend,
}
use vigor.Balancer.Flows.{IsBalancer, preferred, is_active}
use vigor.Balancer.Backend.{Served, stays, moves, placed, lb_get_backend_lem}
use vigor.Balancer.Heartbeat.{backend_of}

-- The height and the table of the hash.
abbrev pub hash_of : LoadBalancer → Vector ℕ × ℕ
hash_of b = (b.cht, b.cht_height)

module _ ⦃ops : KeyOps LoadBalancedFlow⦄ ⦃ips : KeyOps ℕ⦄ ⦃build : Build⦄ where
  record_keeps :
      (b b' : LoadBalancer) (backend : LoadBalancedBackend) (i : ℕ) (chain : DoubleChain)
      (stored : Option (Map ℕ))
      → record_backend b backend i chain stored ≡ some b'
      → hash_of b' ≡ hash_of b
  unfolding record_backend
  record_keeps b b' backend i chain none e = absurd (ground (arith, e))
  record_keeps b b' backend i chain (some stored) e = ap hash_of (sym (some-injective _ _ e))

  admit_keeps :
      (b b' : LoadBalancer) (backend : LoadBalancedBackend) (out : Option ℕ × DoubleChain)
      → admit_backend b backend out ≡ some b'
      → hash_of b' ≡ hash_of b
  unfolding admit_backend
  admit_keeps b b' backend (none, chain) e = ap hash_of (sym (some-injective _ _ e))
  admit_keeps b b' backend (some i, chain) e =
      record_keeps b b' backend i chain (map_put b.active.map backend.ip i) e

  refresh_keeps :
      (b b' : LoadBalancer) (backend : LoadBalancedBackend) (now : ℤ) (known : Option ℕ)
      → refresh_or_admit b backend now known ≡ some b'
      → hash_of b' ≡ hash_of b
  unfolding refresh_or_admit
  refresh_keeps b b' backend now none e = admit_keeps b b' backend _ e
  refresh_keeps b b' backend now (some i) e = ap hash_of (sym (some-injective _ _ e))

  -- A heartbeat leaves the consistent hash as it is.
  pub lb_process_heartbit-hash_of :
      (b b' : LoadBalancer) (flow : LoadBalancedFlow) (mac_addr : EtherAddr) (nic : ℕ) (now : ℤ)
      → lb_process_heartbit b flow mac_addr nic now ≡ some b'
      → hash_of b' ≡ hash_of b
  unfolding lb_process_heartbit
  lb_process_heartbit-hash_of b b' flow mac_addr nic now e = refresh_keeps b b' _ now _ e

  -- Whatever the flow was, it gets an active backend if its row has them all.
  choice_serves :
      {row : ℕ → ℕ} {active : ℕ → Bool} {size : ℕ} {free : Bool} {now : ℤ}
      {was new : Option (ℕ × ℤ)} (choice : Option ℕ)
      → IsRow size row
      → (j : ℕ) → j < size
      → active j ≡ true
      → Served row active size free now was choice new
      → (v : ℕ) × (choice ≡ some v) × (active v ≡ true)
  choice_serves _ row j l on (stays i t here) = (i, refl, here)
  choice_serves choice row j l on (moves i t _ gone c) = Chooses-serves choice row j l on c
  choice_serves choice row j l on (placed _ c) = Chooses-serves choice row j l on c

  -- Over a filled table with an active backend the choice is an active index.
  pub choice-IsActive :
      {flow_size backend_size now : ℕ} {b : LoadBalancer}
      (r : IsBalancer flow_size backend_size now b) (flow : LoadBalancedFlow) (time : ℕ)
      (later : now ≤ time) (ip : ℕ) (known : LoadBalancedBackend × ℤ) (permutations next : Array ℕ)
      (cht : Vector ℕ) {free : Bool} {at : ℤ} {was new : Option (ℕ × ℤ)} (choice : Option ℕ)
      → IsSize b.cht_height backend_size
      → b.cht ≡ (cht_fill_cht (some permutations) (some next) cht b.cht_height backend_size).1
      → backend_of b ip ≡ some known
      → Served
          (preferred r flow time later)
          (is_active r flow time later)
          backend_size
          free
          at
          was
          choice
          new
      → (v : ℕ) × (choice ≡ some v) × (has v r.active.entries ≡ true)
  choice-IsActive {backend_size} {b} r flow time later ip known permutations next cht choice z
        filled active served =
      let bucket = mod-lt (ops.khash flow) {m = b.cht_height} (omega (arith, z.fewer)) in
      let (_, rows) = cht_fill_cht_lem permutations next cht z in
      let row : IsRow backend_size (preferred r flow time later) =
        subst (λ x. IsRow backend_size (row_of x (ops.khash flow % b.cht_height) backend_size))
          (sym filled) (rows (ops.khash flow % b.cht_height) bucket) in
      elim (Option-cases (r.active.dict.read ip)) [
        | inl e ↦
            absurd (
              let view = live-known b.backends.items r.active ip in ground (arith, active, view, e))
        | inr (i, e) ↦
            let (here, _) = r.active.table.coherent.stored ip i e in
            choice_serves choice row i (has-lt i r.active.table.chain here) here served
      ]

  -- Over a sound load balancer whose consistent hash is one that `cht_fill_cht` filled, for as
  -- many backends as it has room for and a height that is a prime below 40000 and above that
  -- number: if some address has an active backend, then at a time not before the last one
  -- `lb_get_backend` returns for every flow, known or not, the backend of an active index.
  pub lb_get_backend-serves :
      {flow_size backend_size now : ℕ} {b : LoadBalancer}
      (r : IsBalancer flow_size backend_size now b) (flow : LoadBalancedFlow) (time : ℕ)
      (later : now ≤ time) (fuel ip : ℕ) (known : LoadBalancedBackend × ℤ)
      (permutations next : Array ℕ) (cht : Vector ℕ)
      → IsSize b.cht_height backend_size
      → b.cht ≡ (cht_fill_cht (some permutations) (some next) cht b.cht_height backend_size).1
      → backend_of b ip ≡ some known
      → (v : ℕ) × (after : LoadBalancer) × (lb_get_backend (suc (suc fuel)) b flow (pos time)
          ≡ some (some (b.backends.items v), after))
        × (has v r.active.entries ≡ true)
  lb_get_backend-serves r flow time later fuel ip known permutations next cht z filled active =
      let (choice, new, served, leaves) = lb_get_backend_lem r flow time later fuel in
      let (v, chosen, on) =
        choice-IsActive r flow time later ip known permutations next cht choice z filled active
          served in
      (v, leaves.after, leaves.returns ∙ rw chosen refl, on)
