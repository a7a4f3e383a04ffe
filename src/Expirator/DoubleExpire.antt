-- ===== src/Expirator/DoubleExpire.antt =====
-- `expire_items` of expirator.c drops exactly what is too old, from the chain and the double map.
use vigor.Prelude.{
  ℕ, zero, suc, ◌+◌, ◌-◌, ◌<◌, ◌≤◌, ◌≡◌, refl, sym, ◌∙◌, ap, arith, false, Option, none, some, [],
  ◌∷◌, Bool-cases, Option-cases, inl, inr, if◌then◌else◌,
}
use vigor.Prelude.Arrays.{Array, write, inc32}
use vigor.Prelude.Int.{ℤ, ltb_ℤ}
use vigor.Prelude.Lists.{length}
use vigor.MapImpl.Interface.{KeyOps, Build}
use vigor.DoubleChain.Entries.{Entries, has, drop_expired, drop_expired-le, elem-slots}
use vigor.DoubleChain.Refine.{length-le, Models as ChainModels}
use vigor.DoubleChain.Expire.{dchain_expire_one_index_old, dchain_expire_one_index-none}
use vigor.DoubleChain.{DoubleChain, dchain_expire_one_index}
use vigor.Map.Dict.{is_some}
use vigor.DoubleMap.{ValueOps, dmap_erase}
use vigor.DoubleMap.Refine.{IsDouble, dmap_erase_lem}
use vigor.Expirator.Double.{DoubleItems, expire_items_from, expire_items}

has-drop_expired :
    (time : ℤ) (i : ℕ) (es : Entries) → has i es ≡ false → has i (drop_expired time es) ≡ false
unfolding drop_expired
has-drop_expired time i [] h = refl
has-drop_expired time i ((j, t) ∷ es) h = ground (arith, has-drop_expired time i es, h)

module _ {ℓ} {K1 K2 V : Type ℓ} ⦃key1 : KeyOps K1⦄ ⦃key2 : KeyOps K2⦄ ⦃build : Build⦄
    (ops : ValueOps K1 K2 V) where
  -- The chain holds the entries, the map the values, and an index has both or none.
  pub record IsPair (size : ℕ) (es : Entries) (vals : Array (Option V))
      (items : DoubleItems K1 K2 V) : Type ℓ where
    pub room : size ≤ items.map.capacity
    pub few : size < 2147483648
    pub chain : ChainModels size es items.chain
    pub map : IsDouble ops vals items.map
    pub agree : (i : ℕ) → has i es ≡ is_some (vals i)

  -- What the loop comes to.
  pub record ItemsExpired (size : ℕ) (time : ℤ) (count : ℕ) (es : Entries) (vals : Array (Option V))
      (out : Option (ℕ × DoubleItems K1 K2 V)) : Type ℓ where
    pub left : Array (Option V)
    pub after : DoubleItems K1 K2 V
    pub returns : out ≡ some (count + (length es - length (drop_expired time es)), after)
    pub pair : IsPair size (drop_expired time es) left after
    pub kept : (i : ℕ) → left i ≡ (if has i (drop_expired time es) then vals i else none)

  stops :
      (fuel size count : ℕ) (time : ℤ) (es : Entries) (vals : Array (Option V))
      (items : DoubleItems K1 K2 V)
      → IsPair size es vals items
      → drop_expired time es ≡ es
      → ItemsExpired size time count es vals (expire_items_from ops (suc fuel) items time count)
  unfolding expire_items_from
  stops fuel size count time es vals items p same = record {
    left = vals;
    after = items;
    returns =
        rw (dchain_expire_one_index-none time es p.chain same)
          (ap (λ (k : ℕ). some (k, items)) (omega (arith, ap length same)));
    pair = rw same p;
    kept = λ i. rw same (ground (arith, p.agree i));
  }

  goes_on :
      (fuel count : ℕ) (time : ℤ) (items : DoubleItems K1 K2 V) (i : ℕ) (chain' : DoubleChain)
      → dchain_expire_one_index items.chain time ≡ (some i, chain')
      → expire_items_from ops (suc fuel) items time count
        ≡ expire_items_from ops fuel
            (record { chain = chain'; map = dmap_erase ops items.map i })
            time
            (inc32 count)
  unfolding expire_items_from
  goes_on fuel count time items i chain' e = rw e refl

  -- One round of the loop.
  forget-IsPair :
      (size i : ℕ) (t : ℤ) (rest : Entries) (vals : Array (Option V)) (items : DoubleItems K1 K2 V)
      (chain' : DoubleChain)
      → IsPair size ((i, t) ∷ rest) vals items
      → ChainModels size rest chain'
      → (has i rest ≡ false)
        × IsPair size rest
            (write vals i none)
            (record { chain = chain'; map = dmap_erase ops items.map i })
  forget-IsPair size i t rest vals items chain' p r =
      let (fresh, _) = p.chain.holds.al_once in
      let gone : has i rest ≡ false = sym (elem-slots i rest) ∙ fresh in
      elim (Option-cases (vals i)) [
        | inl e ↦ absurd (ground (arith, p.agree i, e))
        | inr (v, e) ↦
            let (cap, double) = dmap_erase_lem ops vals items.map v i p.map e in
            (
              gone,
              record {
                room = rw cap p.room;
                few = p.few;
                chain = r;
                map = double;
                agree = λ j. ground (arith, p.agree j, gone);
              },
            )
      ]

  loop_lem :
      (fuel : ℕ) (es : Entries) (size count : ℕ) (time : ℤ) (vals : Array (Option V))
      (items : DoubleItems K1 K2 V)
      → length es < fuel
      → count + length es < 4294967296
      → IsPair size es vals items
      → ItemsExpired size time count es vals (expire_items_from ops fuel items time count)
  loop_lem zero es size count time vals items l n p = absurd (omega arith)
  loop_lem (suc fuel) [] size count time vals items l n p =
      stops fuel size count time [] vals items p (unfold drop_expired in refl)
  loop_lem (suc fuel) ((i, t) ∷ rest) size count time vals items l n p =
      elim (Bool-cases (ltb_ℤ t time)) [
        | inr young ↦
            stops fuel size count time ((i, t) ∷ rest) vals items p
              (unfold drop_expired in rw young)
        | inl old ↦
            let (chain', e, r) = dchain_expire_one_index_old time i t rest p.chain old in
            let (fresh, p') = forget-IsPair size i t rest vals items chain' p r in
            let out =
              loop_lem fuel rest size (inc32 count) time (write vals i none) _ (omega arith)
                (omega arith) p' in
            let dropped : drop_expired time ((i, t) ∷ rest) ≡ drop_expired time rest =
              unfold drop_expired in rw old in
            record {
              left = out.left;
              after = out.after;
              returns =
                  goes_on fuel count time items i chain' e
                  ∙ out.returns
                  ∙ ap (λ (k : ℕ). some (k, out.after))
                      (omega (arith, drop_expired-le time rest, ap length dropped));
              pair = rw dropped out.pair;
              kept =
                  λ j. rw dropped (out.kept j ∙ ground (arith, has-drop_expired time i rest fresh));
            }
      ]

  -- Let a sound chain and a sound double map use the same indices, as many as the capacity at
  -- most. Then `expire_items` ends within its fuel. It drops entries from the oldest end until
  -- one is not older than the time, returns how many it dropped, and leaves a sound chain and a
  -- sound double map that use the same indices; an index that is left has the value that it had,
  -- and every other one has none.
  pub expire_items_lem :
      (es : Entries) (size : ℕ) (time : ℤ) (vals : Array (Option V)) (items : DoubleItems K1 K2 V)
      → IsPair size es vals items
      → ItemsExpired size time 0 es vals (expire_items ops items time)
  unfolding expire_items
  expire_items_lem es size time vals items p =
      loop_lem (items.map.capacity + 1) es size 0 time vals items
        (omega (arith, length-le p.chain, p.room)) (omega (arith, length-le p.chain, p.few)) p
