-- ===== src/Balancer/Flows.antt =====
-- The flows of the load balancer with their backends, and where a new flow goes.
use vigor.Prelude.{
  ℕ, ◌+◌, ◌*◌, ◌%◌, ◌≤◌, ◌<◌, ◌≡◌, refl, sym, ◌∙◌, subst, Bool, true, false, Option, none, some,
  arith, Bool-cases, inl, inr, if◌then◌else◌, ltb,
}
use vigor.Prelude.Arrays.{write}
use vigor.Prelude.Int.{ℤ, pos}
use vigor.Prelude.Lists.{length}
use vigor.MapImpl.Interface.{KeyOps, Build}
use vigor.DoubleChain.Entries.{has}
use vigor.Vector.{vector_borrow, vector_return}
use vigor.Vector.Borrow.{vector_return-borrow}
use vigor.Cht.Choose.{Chooses, row_of, chosen, cht_find_preferred_available_backend_lem}
use vigor.Cht.{cht_find_preferred_available_backend}
use vigor.ItemTable
use vigor.ItemTable.{IsItemTable, IsItemTable-later, live-known, live-same}
use vigor.ItemTable.Admit.{admit_lem, full_lem}
use vigor.Balancer.{
  LoadBalancer, LoadBalancedFlow, LoadBalancedBackend, returned, place, place_new, admit_flow,
  record_flow, read_backend,
}

module _ ⦃ops : KeyOps LoadBalancedFlow⦄ ⦃ips : KeyOps ℕ⦄ ⦃build : Build⦄ where
  -- The index of the backend of a flow, with the time of its last packet.
  abbrev pub assigned : LoadBalancer → LoadBalancedFlow → Option (ℕ × ℤ)
  assigned b q = ItemTable.live b.flow_id_to_backend_id.items b.flows q

  -- Both tables are sound, every index of a backend is in range, and every row of the consistent
  -- hash holds indices in range.
  pub record IsBalancer (flow_size backend_size now : ℕ) (b : LoadBalancer) : Type 0 where
    pub flows : IsItemTable flow_size now b.flows
    pub active : IsItemTable backend_size now b.active
    pub capacity : b.backend_capacity ≡ backend_size
    pub ids : (q : LoadBalancedFlow) (j : ℕ) (t : ℤ) → assigned b q ≡ some (j, t) → j < backend_size
    pub short : (hash : ℕ) → hash % b.cht_height * backend_size + backend_size < 4294967296
    pub rows :
        (hash j : ℕ)
        → j < backend_size
        → row_of b.cht (hash % b.cht_height) backend_size j < backend_size

-- The backend of an index.
abbrev pub backend_at : LoadBalancer → Option ℕ → Option LoadBalancedBackend
backend_at b none = none
backend_at b (some j) = some (b.backends.items j)

-- What is kept of a flow that gets a backend, when `free` tells whether there is room for it.
abbrev pub kept : Option ℕ → (free : Bool) → ℤ → Option (ℕ × ℤ)
kept none free now = none
kept (some j) true now = some (j, now)
kept (some j) false now = none

Chooses-lt :
    {row : ℕ → ℕ} {active : ℕ → Bool} {size j : ℕ}
    → ((k : ℕ) → k < size → row k < size)
    → Chooses row active size (some j)
    → j < size
Chooses-lt small (chosen rank l here before) = small rank l

module _ ⦃ops : KeyOps LoadBalancedFlow⦄ ⦃ips : KeyOps ℕ⦄ ⦃build : Build⦄
    {flow_size backend_size now : ℕ} {b : LoadBalancer}
    (r : IsBalancer flow_size backend_size now b) (flow : LoadBalancedFlow) (time : ℕ)
    (later : now ≤ time) where
  -- The order in which the flow prefers backends.
  abbrev pub preferred : ℕ → ℕ
  preferred = row_of b.cht (ops.khash flow % b.cht_height) backend_size

  abbrev pub is_active : ℕ → Bool
  is_active j = has j r.active.entries

  -- What a call leaves, when the flow gets `choice` and is then `now_assigned`.
  pub record Leaves (choice : Option ℕ) (now_assigned : Option (ℕ × ℤ))
      (out : Option (Option LoadBalancedBackend × LoadBalancer)) : Type 0 where
    pub after : LoadBalancer
    pub returns : out ≡ some (backend_at b choice, after)
    pub sound : IsBalancer flow_size backend_size time after
    pub same_backends : after.backends ≡ b.backends
    pub same_active : after.active ≡ b.active
    pub view :
        (q : LoadBalancedFlow)
        → assigned after q ≡ (if ops.keys_eq flow q then now_assigned else assigned b q)

  pub ids_after :
      (after : LoadBalancer) (now_assigned : Option (ℕ × ℤ))
      → ((j : ℕ) (t : ℤ) → now_assigned ≡ some (j, t) → j < backend_size)
      → ((q : LoadBalancedFlow)
          → assigned after q ≡ (if ops.keys_eq flow q then now_assigned else assigned b q))
      → (q : LoadBalancedFlow) (j : ℕ) (t : ℤ) → assigned after q ≡ some (j, t)
      → j < backend_size
  ids_after after now_assigned small view q j t e = elim (Bool-cases (ops.keys_eq flow q)) [
    | inl same ↦ small j t (sym (view q ∙ rw same refl) ∙ e)
    | inr other ↦ r.ids q j t (sym (view q ∙ rw other refl) ∙ e)
  ]

  place_lem :
      (choice : Option ℕ)
      → r.flows.dict.read flow ≡ none
      → Chooses preferred is_active backend_size choice
      → Leaves choice
          (kept choice (ltb (length r.flows.entries) flow_size) (pos time))
          (place b flow (pos time) (choice, b.cht))
  unfolding place admit_flow record_flow read_backend vector_return vector_borrow
  place_lem none absent c =
      let was : assigned b flow ≡ none =
        live-known b.flow_id_to_backend_id.items r.flows flow ∙ rw absent refl in
      record {
        after = b;
        returns = refl;
        sound = record {
          flows = IsItemTable-later time later r.flows;
          active = IsItemTable-later time later r.active;
          capacity = r.capacity;
          ids = r.ids;
          short = r.short;
          rows = r.rows;
        };
        same_backends = refl;
        same_active = refl;
        view = λ q. live-same b.flow_id_to_backend_id.items b.flows flow q ∙ rw was refl;
      }
  place_lem (some j) absent c =
      let vals = b.flow_id_to_backend_id.items in
      let was : assigned b flow ≡ none = live-known vals r.flows flow ∙ rw absent refl in
      let small = Chooses-lt (r.rows (ops.khash flow)) c in
      let active = IsItemTable-later time later r.active in
      elim (Bool-cases (ltb (length r.flows.entries) flow_size)) [
        | inr full ↦
            let none_free = full_lem r.flows time (ground (arith, full)) in
            record {
              after = record b { backends = returned b.backends j };
              returns = rw none_free refl;
              sound = record {
                flows = IsItemTable-later time later r.flows;
                active = active;
                capacity = r.capacity;
                ids = r.ids;
                short = r.short;
                rows = r.rows;
              };
              same_backends = vector_return-borrow b.backends j;
              same_active = refl;
              view = λ q. live-same vals b.flows flow q ∙ rw (was, full) refl;
            }
        | inl free ↦
            let (i, chain', map', e1, e2, _, flows, _, view) =
              admit_lem r.flows flow time later absent (ground (arith, free)) in
            let after : LoadBalancer = record b {
              flows = record {
                chain = chain';
                vector = vector_return b.flows.vector i flow;
                map = map';
              };
              flow_id_to_backend_id = vector_return b.flow_id_to_backend_id i j;
              backends = returned b.backends j;
            } in
            let seen : (q : LoadBalancedFlow)
                → assigned after q
                  ≡ (if ops.keys_eq flow q then some (j, pos time) else assigned b q) =
              λ q. view ℕ vals (write vals i j) q (λ k ne. ground arith) ∙ ground arith in
            record {
              after = after;
              returns = rw e1 (rw e2 refl);
              sound = record {
                flows = flows;
                active = active;
                capacity = r.capacity;
                ids = ids_after after (some (j, pos time)) (λ k t e. ground (arith, e, small)) seen;
                short = r.short;
                rows = r.rows;
              };
              same_backends = vector_return-borrow b.backends j;
              same_active = refl;
              view = λ q. seen q ∙ rw free refl;
            }
      ]

  -- A flow that is not known goes to the first active backend that it prefers.
  pub place_new_lem :
      r.flows.dict.read flow ≡ none
      → (choice : Option ℕ) × Chooses preferred is_active backend_size choice
        × Leaves choice
            (kept choice (ltb (length r.flows.entries) flow_size) (pos time))
            (place_new b flow (pos time))
  unfolding place_new
  place_new_lem absent =
      let hash = ops.khash flow in
      let (same, c) =
        cht_find_preferred_available_backend_lem hash b.cht b.cht_height r.active.table.chain
          (r.short hash) (r.rows hash) in
      let out =
        cht_find_preferred_available_backend hash b.cht b.active.chain b.cht_height backend_size in
      let free = ltb (length r.flows.entries) flow_size in
      let at_choice = place_lem out.0 absent c in
      (
        out.0,
        c,
        subst
            (λ n. Leaves out.0 (kept out.0 free (pos time)) (
              place b flow (pos time)
                (cht_find_preferred_available_backend hash b.cht b.active.chain b.cht_height n)))
            (sym r.capacity)
            (subst
              (λ cht'.
                Leaves out.0 (kept out.0 free (pos time)) (place b flow (pos time) (out.0, cht')))
              (sym same) at_choice),
      )
