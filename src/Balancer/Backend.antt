-- ===== src/Balancer/Backend.antt =====
-- `lb_get_backend`: a flow stays at its backend while the backend is active.
use vigor.Prelude.{
  ℕ, suc, ◌≤◌, ◌≡◌, refl, sym, ◌∙◌, ap, Bool, true, false, Option, none, some, arith, Bool-cases,
  Option-cases, inl, inr, if◌then◌else◌, ltb,
}
use vigor.Prelude.Arrays.{write}
use vigor.Prelude.Int.{ℤ, pos}
use vigor.Prelude.Lists.{length}
use vigor.MapImpl.Interface.{KeyOps, Build}
use vigor.DoubleChain.Entries.{has}
use vigor.DoubleChain.Order.{time_of}
use vigor.DoubleChain.Refine.{dchain_is_index_allocated_lem}
use vigor.Map.Refine.{map_get-Models}
use vigor.Map.{map_erase, map_get}
use vigor.Expirator.{or_key}
use vigor.Vector.{Vector, vector_borrow, vector_return}
use vigor.Vector.Borrow.{vector_return-borrow}
use vigor.Cht.Choose.{Chooses}
use vigor.ItemTable.{IsItemTable-later, live-known, known}
use vigor.ItemTable.Refresh.{refresh_lem}
use vigor.ItemTable.Forget.{forget_lem, forgotten}
use vigor.Balancer.{
  LoadBalancer, LoadBalancedFlow, returned, keep_backend, drop_flow, got, keep_or_place,
  lb_get_backend,
}
use vigor.Balancer.Flows.{
  assigned, IsBalancer, kept, preferred, is_active, Leaves, ids_after, place_new_lem,
}

module _ ⦃ops : KeyOps LoadBalancedFlow⦄ ⦃ips : KeyOps ℕ⦄ ⦃build : Build⦄
    {flow_size backend_size now : ℕ} {b : LoadBalancer}
    (r : IsBalancer flow_size backend_size now b) (flow : LoadBalancedFlow) (time : ℕ)
    (later : now ≤ time) where
  keep_lem :
      (i : ℕ)
      → r.flows.dict.read flow ≡ some i
      → Leaves r flow time later
          (some (b.flow_id_to_backend_id.items i))
          (some (b.flow_id_to_backend_id.items i, pos time))
          (got (keep_backend b i (b.flow_id_to_backend_id.items i) (pos time)))
  unfolding got keep_backend vector_borrow vector_return
  keep_lem i e =
      let vals = b.flow_id_to_backend_id.items in
      let (flows, _, view) = refresh_lem r.flows flow i time later e in
      let was : assigned b flow ≡ some (vals i, time_of i r.flows.entries) =
        live-known vals r.flows flow ∙ rw e refl in
      let after = (keep_backend b i (vals i) (pos time)).1 in
      let seen : (q : LoadBalancedFlow)
          → assigned after q
            ≡ (if ops.keys_eq flow q then some (vals i, pos time) else assigned b q) =
        λ q. view ℕ vals (write vals i (vals i)) q (λ k ne. ground arith) ∙ ground arith in
      let small = r.ids flow (vals i) (time_of i r.flows.entries) was in
      record {
        after = after;
        returns = refl;
        sound = record {
          flows = flows;
          active = IsItemTable-later time later r.active;
          capacity = r.capacity;
          ids =
              ids_after r flow time later after (some (vals i, pos time))
                (λ k t h. ground (arith, h, small)) seen;
          short = r.short;
          rows = r.rows;
        };
        same_backends = vector_return-borrow b.backends (vals i);
        same_active = refl;
        view = seen;
      }

  -- The borrowed elements go back unchanged.
  drop_flow-forgotten :
      (i : ℕ) (e : r.flows.dict.read flow ≡ some i)
      → drop_flow b flow i ≡ record b { flows = forgotten r.flows flow i e }
  unfolding drop_flow
  drop_flow-forgotten i e =
      let (here, key) = r.flows.table.coherent.stored flow i e in
      let (_, _, _, trash, _) = forget_lem r.flows flow i e in
      let out : or_key (map_erase b.flows.map flow).1 (vector_borrow b.flows.vector i)
          ≡ vector_borrow b.flows.vector i =
        ap (λ o. or_key o (vector_borrow b.flows.vector i)) trash
        ∙ unfold vector_borrow in sym key in
      let drop : Vector LoadBalancedFlow → Vector ℕ → LoadBalancer = λ v w. record b {
        flows = record (forgotten r.flows flow i e) { vector = v };
        flow_id_to_backend_id = w;
      } in
      ap (λ k. drop (vector_return b.flows.vector i k) (returned b.flow_id_to_backend_id i)) out
      ∙ ap (λ v. drop v (returned b.flow_id_to_backend_id i))
          (vector_return-borrow b.flows.vector i)
      ∙ ap (drop b.flows.vector) (vector_return-borrow b.flow_id_to_backend_id i)

  -- A flow whose backend is gone is placed as one that is not known, and there is room for it.
  move_lem :
      (i fuel : ℕ)
      → r.flows.dict.read flow ≡ some i
      → (choice : Option ℕ) × Chooses
          (preferred r flow time later)
          (is_active r flow time later)
          backend_size
          choice
        × Leaves r flow time later choice
            (kept choice true (pos time))
            (lb_get_backend (suc fuel) (drop_flow b flow i) flow (pos time))
  unfolding lb_get_backend keep_or_place
  move_lem i fuel e =
      let (flows, gone, room, _, view) = forget_lem r.flows flow i e in
      let vals = b.flow_id_to_backend_id.items in
      let b1 : LoadBalancer = record b { flows = forgotten r.flows flow i e } in
      let seen : (q : LoadBalancedFlow)
          → assigned b1 q ≡ (if ops.keys_eq flow q then none else assigned b q) =
        view ℕ vals in
      let r1 : IsBalancer flow_size backend_size now b1 = record {
        flows = flows;
        active = r.active;
        capacity = r.capacity;
        ids = ids_after r flow time later b1 none (λ j t h. absurd (ground (arith, h))) seen;
        short = r.short;
        rows = r.rows;
      } in
      let (choice, c, out) = place_new_lem r1 flow time later gone in
      let free : ltb (length flows.entries) flow_size ≡ true = ground (arith, room) in
      let unknown : map_get b1.flows.map flow ≡ none =
        map_get-Models flows.dict b1.flows.map flow flows.table.map ∙ gone in
      (
        choice,
        c,
        record {
          after = out.after;
          returns = rw (drop_flow-forgotten i e) (rw unknown out.returns);
          sound = out.sound;
          same_backends = out.same_backends;
          same_active = out.same_active;
          view = λ q. out.view q ∙ rw (seen q, free) (ground arith);
        },
      )

-- Which backend a flow gets and what is kept of it: it stays at its own while that one is active,
-- moves to another one if it is not, and is placed if it was not known.
pub data Served (row : ℕ → ℕ) (active : ℕ → Bool) (size : ℕ) (free : Bool) (now : ℤ)
    : Option (ℕ × ℤ) → Option ℕ → Option (ℕ × ℤ) → Type 0 where
  stays :
      (j : ℕ) (t : ℤ)
      → active j ≡ true
      → Served row active size free now (some (j, t)) (some j) (some (j, now))
  moves :
      (j : ℕ) (t : ℤ) (choice : Option ℕ)
      → active j ≡ false
      → Chooses row active size choice
      → Served row active size free now (some (j, t)) choice (kept choice true now)
  placed :
      (choice : Option ℕ)
      → Chooses row active size choice
      → Served row active size free now none choice (kept choice free now)

module _ ⦃ops : KeyOps LoadBalancedFlow⦄ ⦃ips : KeyOps ℕ⦄ ⦃build : Build⦄
    {flow_size backend_size now : ℕ} {b : LoadBalancer}
    (r : IsBalancer flow_size backend_size now b) (flow : LoadBalancedFlow) (time : ℕ)
    (later : now ≤ time) where
  -- Over a sound load balancer, at a time not before the last one, `lb_get_backend` ends within
  -- two calls of itself and faults nowhere. A flow whose backend is active stays at it and is
  -- refreshed; a flow whose backend is gone moves to the first active backend that it prefers,
  -- and is kept there; a flow that was not known goes to that one too, and is kept if there is
  -- room. When no backend that it prefers is active, it has none and is not kept. No other flow
  -- changes, the backends stay as they are, and the balancer is sound again.
  pub lb_get_backend_lem :
      (fuel : ℕ)
      → (choice : Option ℕ) × (new : Option (ℕ × ℤ)) × Served
          (preferred r flow time later)
          (is_active r flow time later)
          backend_size
          (ltb (length r.flows.entries) flow_size)
          (pos time)
          (assigned b flow)
          choice
          new
        × Leaves r flow time later choice new (lb_get_backend (suc (suc fuel)) b flow (pos time))
  unfolding lb_get_backend keep_or_place vector_borrow
  lb_get_backend_lem fuel =
      let g = map_get-Models r.flows.dict b.flows.map flow r.flows.table.map in
      let vals = b.flow_id_to_backend_id.items in
      let was = live-known vals r.flows flow in
      elim (Option-cases (r.flows.dict.read flow)) [
        | inl e ↦
            let (choice, c, out) = place_new_lem r flow time later e in
            (
              choice,
              kept choice (ltb (length r.flows.entries) flow_size) (pos time),
              rw (was ∙ ap (known vals r.flows.entries) e) (placed choice c),
              rw (g, e) out,
            )
        | inr (i, e) ↦
            let found : assigned b flow ≡ some (vals i, time_of i r.flows.entries) =
              was ∙ rw e refl in
            let small = r.ids flow (vals i) (time_of i r.flows.entries) found in
            let tested = dchain_is_index_allocated_lem r.active.table.chain (vals i) small in
            elim (Bool-cases (has (vals i) r.active.entries)) [
              | inl here ↦ (
                some (vals i),
                some (vals i, pos time),
                rw found (stays (vals i) (time_of i r.flows.entries) here),
                rw (g, e) (rw (tested, here) (keep_lem r flow time later i e)),
              )
              | inr gone ↦
                  let (choice, c, out) = move_lem r flow time later i fuel e in
                  (
                    choice,
                    kept choice true (pos time),
                    rw found (moves (vals i) (time_of i r.flows.entries) choice gone c),
                    rw (g, e) (rw (tested, gone) out),
                  )
            ]
      ]
