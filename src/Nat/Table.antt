-- ===== src/Nat/Table.antt =====
-- The table of the NAT: which flow has which index, and so which port.
use vigor.Prelude.{
  ℕ, ◌+◌, ◌≤◌, ◌<◌, ◌≡◌, refl, sym, ◌∙◌, ap, Bool, true, false, Option, none, some, arith,
  Bool-cases, Option-cases, inl, inr, if◌then◌else◌, ltb,
}
use vigor.Prelude.Int.{ℤ, pos}
use vigor.Prelude.Time.{last_time}
use vigor.Prelude.Lists.{length}
use vigor.MapImpl.Interface.{KeyOps, Build}
use vigor.DoubleChain.Entries.{has, recent}
use vigor.DoubleChain.Order.{time_of}
use vigor.DoubleChain.{dchain_rejuvenate_index}
use vigor.DoubleChain.Refine.{has-lt}
use vigor.Map.Refine.{map_get-Models}
use vigor.Vector.{vector_return}
use vigor.ItemTable
use vigor.ItemTable.{IsItemTable, IsItemTable-later, live-known, live-same}
use vigor.ItemTable.Refresh.{refresh_lem}
use vigor.ItemTable.Admit.{admit_lem, full_lem}
use vigor.ItemTable.Expire.{unless_old, expire_lem}
use vigor.Nat.{
  FlowId, FlowManager, with_chain, with_items, port_at, flow_manager_expire,
  flow_manager_get_internal, flow_manager_allocate_flow, or_allocate, port_of_known, admit_flow,
  record_flow,
}

module _ ⦃ops : KeyOps FlowId⦄ ⦃build : Build⦄ where
  -- The index and the time of last use of a flow. Its port is the index behind `start_port`.
  abbrev pub mapping : FlowManager → FlowId → Option (ℕ × ℤ)
  mapping m q = ItemTable.live (λ i. i) m.items q

  -- A sound table at the time `now`, for `size` flows whose ports are 16-bit numbers.
  pub record IsNat (size now : ℕ) (m : FlowManager) : Type 0 where
    pub flows : IsItemTable size now m.items
    pub open flows use *
    pub ports : m.start_port + size ≤ 65536

module _ ⦃ops : KeyOps FlowId⦄ ⦃build : Build⦄ {size now : ℕ} {m : FlowManager}
    (r : IsNat size now m) where
  -- What a mapping says of the entries and the vector.
  pub mapping-stored :
      (q : FlowId) (i : ℕ) (t : ℤ)
      → mapping m q ≡ some (i, t)
      → (r.dict.read q ≡ some i)
        × (has i r.entries ≡ true)
        × (m.items.vector.items i ≡ q)
        × (i < size)
  mapping-stored q i t found =
      let same = live-known (λ j. j) r.flows q in
      elim (Option-cases (r.dict.read q)) [
        | inl e ↦
            let no : some (i, t) ≡ none = sym found ∙ same ∙ rw e refl in
            absurd (ground (arith, no))
        | inr (j, e) ↦
            let at_j : some (j, time_of j r.entries) ≡ some (i, t) =
              sym (same ∙ rw e refl) ∙ found in
            let eq : j ≡ i = ground (arith, at_j) in
            let here : r.dict.read q ≡ some i = e ∙ ap some eq in
            let (h, key) = r.table.coherent.stored q i here in
            (here, h, key, has-lt i r.table.chain h)
      ]

  -- Two flows that live in a sound table and have the same index, and so the same port, are the
  -- same flow.
  pub mapping-injective :
      (q q' : FlowId) (i : ℕ) (t t' : ℤ)
      → mapping m q ≡ some (i, t)
      → mapping m q' ≡ some (i, t')
      → q ≡ q'
  mapping-injective q q' i t t' e e' =
      let (_, _, key, _) = mapping-stored q i t e in
      let (_, _, key', _) = mapping-stored q' i t' e' in sym key ∙ key'

  pub flow_manager_expire_lem :
      (time : ℕ)
      → (m' : FlowManager) × (flow_manager_expire m time ≡ some m')
        × (r' : IsNat size now m') × (r'.entries
            ≡ recent (last_time time m.expiration_time) r.entries)
        × (m'.expiration_time ≡ m.expiration_time)
        × (m'.start_port ≡ m.start_port)
        × ((q : FlowId)
            → mapping m' q ≡ unless_old (last_time time m.expiration_time) (mapping m q))
  unfolding flow_manager_expire with_items
  flow_manager_expire_lem time =
      let (count, items', e, r', left, view) =
        expire_lem r.flows (last_time time m.expiration_time) in
      (
        record m { items = items' },
        rw e refl,
        record { flows = r'; ports = r.ports },
        left,
        refl,
        refl,
        view ℕ (λ i. i),
      )

-- A flow with the index, if there is one, used at the time.
abbrev pub used : Option ℕ → ℤ → Option (ℕ × ℤ)
used none time = none
used (some i) time = some (i, time)

abbrev pub port_of : FlowManager → Option ℕ → Option ℕ
port_of m none = none
port_of m (some i) = some (port_at m i)

-- The index that a flow gets: its own if it lives, and else a free one if there is one.
abbrev pub Serves : (size : ℕ) → Option (ℕ × ℤ) → (free : Bool) → Option ℕ → Type 0
Serves size (some (i, t)) free index = index ≡ some i
Serves size none true index = (i : ℕ) × (index ≡ some i) × (i < size)
Serves size none false index = index ≡ none

module _ ⦃ops : KeyOps FlowId⦄ ⦃build : Build⦄ {size now : ℕ} {m : FlowManager}
    (r : IsNat size now m) (id : FlowId) (time : ℕ) (later : now ≤ time) where
  -- What a packet of a flow from inside does to the table.
  pub record Ported (out : Option (Option ℕ × FlowManager)) : Type 0 where
    pub index : Option ℕ
    pub after : FlowManager
    pub returns : out ≡ some (port_of m index, after)
    pub serves : Serves size (mapping m id) (ltb (length r.entries) size) index
    pub sound : IsNat size time after
    pub expires : after.expiration_time ≡ m.expiration_time
    pub starts : after.start_port ≡ m.start_port
    pub view :
        (q : FlowId)
        → mapping after q ≡ (if ops.keys_eq id q then used index (pos time) else mapping m q)

  known_lem :
      (i : ℕ)
      → r.dict.read id ≡ some i
      → Ported (or_allocate id (pos time) (port_of_known m (pos time) (some i)))
  unfolding or_allocate port_of_known
  known_lem i e =
      let (flows, _, view) = refresh_lem r.flows id i time later e in
      record {
        index = some i;
        after = with_chain m (dchain_rejuvenate_index m.items.chain i (pos time)).1;
        returns = refl;
        serves = rw (live-known (λ j. j) r.flows id, e) refl;
        sound = record { flows = flows; ports = r.ports };
        expires = refl;
        starts = refl;
        view = λ q. view ℕ (λ j. j) (λ j. j) q (λ _ _. refl);
      }

  new_lem :
      r.dict.read id ≡ none → Ported (or_allocate id (pos time) (port_of_known m (pos time) none))
  unfolding or_allocate port_of_known flow_manager_allocate_flow admit_flow record_flow
      vector_return
  new_lem e =
      let was : mapping m id ≡ none = live-known (λ j. j) r.flows id ∙ rw e refl in
      elim (Bool-cases (ltb (length r.entries) size)) [
        | inr full ↦
            let none_free = full_lem r.flows time (ground (arith, full)) in
            record {
              index = none;
              after = m;
              returns = rw none_free refl;
              serves = rw (was, full) refl;
              sound = record { flows = IsItemTable-later time later r.flows; ports = r.ports };
              expires = refl;
              starts = refl;
              view = λ q. live-same (λ j. j) m.items id q ∙ rw was refl;
            }
        | inl room ↦
            let (i, chain', map', e1, e2, l, flows, _, view) =
              admit_lem r.flows id time later e (ground (arith, room)) in
            let m' : FlowManager = record m {
              items = record {
                chain = chain';
                vector = vector_return m.items.vector i id;
                map = map';
              };
            } in
            record {
              index = some i;
              after = m';
              returns = rw e1 (rw e2 refl);
              serves = rw (was, room) (i, refl, l);
              sound = record { flows = flows; ports = r.ports };
              expires = refl;
              starts = refl;
              view = λ q. view ℕ (λ j. j) (λ j. j) q (λ _ _. refl);
            }
      ]

  pub ported_lem : Ported (or_allocate id (pos time) (flow_manager_get_internal m id (pos time)))
  unfolding flow_manager_get_internal
  ported_lem =
      let g = map_get-Models r.dict m.items.map id r.table.map in
      elim (Option-cases (r.dict.read id)) [
        | inl e ↦ rw (g, e) (new_lem e)
        | inr (i, e) ↦ rw (g, e) (known_lem i e)
      ]
