-- ===== src/DoubleChain/Expire.antt =====
-- `dchain_expire_one_index`, as its contract has it.
use vigor.Prelude.{
  ℕ, ◌+◌, ◌≡◌, Option, refl, ◌∙◌, ap, subst, true, arith, [], ◌∷◌, none, some, Bool-cases, inl, inr,
  if◌then◌else◌,
}
use vigor.Prelude.Int.{ℤ, ltb_ℤ}
use vigor.DoubleChainImpl.Inv.{Holds}
use vigor.DoubleChainImpl.Free.{free_index_of_allocated}
use vigor.DoubleChainImpl.Rejuvenate.{get_oldest_index_lem}
use vigor.DoubleChainImpl.{Cells}
use vigor.DoubleChainImpl
use vigor.DoubleChain.Entries.{
  Entries, without, slots, slots-without, drop_expired, drop_expired_kept,
}
use vigor.DoubleChain.{DoubleChain, expire_oldest, dchain_expire_one_index}
use vigor.DoubleChain.Refine.{Models}

without_first : (i : ℕ) (t : ℤ) (rest : Entries) → without i ((i, t) ∷ rest) ≡ rest
unfolding without
without_first i t rest = ground arith

module _ {size : ℕ} {chain : DoubleChain} (time : ℤ) where
  oldest_of_entry :
      (i : ℕ) (t : ℤ) (rest : Entries)
      → Models size ((i, t) ∷ rest) chain
      → DoubleChainImpl.get_oldest_index chain.cells ≡ some i
  oldest_of_entry i t rest r = get_oldest_index_lem r.holds ∙ ap some (omega arith)

  -- An oldest entry that is older than `time` goes.
  pub dchain_expire_one_index_old :
      (i : ℕ) (t : ℤ) (rest : Entries)
      → Models size ((i, t) ∷ rest) chain
      → ltb_ℤ t time ≡ true
      → (chain' : DoubleChain) × (dchain_expire_one_index chain time ≡ (some i, chain'))
        × Models size rest chain'
  unfolding dchain_expire_one_index expire_oldest
  dchain_expire_one_index_old i t rest r old =
      let (done, h) = free_index_of_allocated r.holds i (ground arith) in
      let c = (DoubleChainImpl.free_index chain.cells i).1 in
      (
        record chain { cells = c },
        rw (oldest_of_entry i t rest r, r.stamped.0, old, done),
        record {
          free_cells = (i + 2) ∷ r.free_cells;
          holds =
              subst (λ l. Holds size l ((i + 2) ∷ r.free_cells) c)
                (slots-without i ((i, t) ∷ rest) ∙ ap slots (without_first i t rest)) h;
          stamped = r.stamped.1;
        },
      )

  -- Without an entry that is older nothing changes.
  pub dchain_expire_one_index-none :
      (es : Entries)
      → Models size es chain
      → drop_expired time es ≡ es
      → dchain_expire_one_index chain time ≡ (none, chain)
  unfolding dchain_expire_one_index expire_oldest
  dchain_expire_one_index-none [] r young = rw (get_oldest_index_lem r.holds)
  dchain_expire_one_index-none ((i, t) ∷ rest) r young =
      rw (oldest_of_entry i t rest r, r.stamped.0, drop_expired_kept time i t rest young)

-- The entries that the call takes out, and what it leaves.
abbrev pub take_expired : ℤ → Entries → Option ℕ × Entries
take_expired time [] = (none, [])
take_expired time ((i, t) ∷ es) = if ltb_ℤ t time then (some i, es) else (none, (i, t) ∷ es)

-- `dchain_expire_one_index` looks at the oldest entry alone. If it is older than the time it goes
-- and its index is handed out; if it is not, or there is none, the result is 0 and the entries are
-- what they were.
pub dchain_expire_one_index_lem :
    {size : ℕ} {chain : DoubleChain} (time : ℤ) (es : Entries)
    → Models size es chain
    → let (out, chain') = dchain_expire_one_index chain time in
      (out ≡ (take_expired time es).0) × Models size (take_expired time es).1 chain'
dchain_expire_one_index_lem time [] r =
    let e = dchain_expire_one_index-none time [] r (unfold drop_expired in refl) in rw e (refl, r)
dchain_expire_one_index_lem time ((i, t) ∷ rest) r = elim (Bool-cases (ltb_ℤ t time)) [
  | inl old ↦
      let (chain', e, r') = dchain_expire_one_index_old time i t rest r old in
      rw (e, old) (refl, r')
  | inr young ↦
      let e =
        dchain_expire_one_index-none time ((i, t) ∷ rest) r (unfold drop_expired in rw young) in
      rw (e, young) (refl, r)
]
