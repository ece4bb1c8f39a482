-- ===== src/Ovm/PropertyExecutor/Blocks.antt =====
-- The exclusion proofs of ovm/src/quantifiers/block_range_quantifier.rs.
use plasma_rust_framework.Prelude.{
  ℕ, ◌+◌, ◌-◌, ◌%◌, ◌^◌, ◌≤◌, ◌<◌, ◌≡◌, refl, Bool, true, false, some, [], ◌∷◌, arith, ==_refl,
}
use plasma_rust_framework.PlasmaCore.Range as Coins
use plasma_rust_framework.Db.Range
use plasma_rust_framework.Db.Range.{get_intersection}
use plasma_rust_framework.Ovm.Quantifiers.{quantified}
use plasma_rust_framework.Ovm.External.{External}
use plasma_rust_framework.Ovm.RangeAtBlockDb.{RangeAtBlockRecord}
use plasma_rust_framework.Ovm.Stored.{
  verify_exclusion, sum_of, included_blocks, state_updates_of, blocks_quantified,
}

whole_intersection :
    (r : Range.Range) (start end : ℕ)
    → start < end
    → r.start ≤ start
    → end ≤ r.end
    → get_intersection r start end ≡ some (Range.new start end r.value)
unfolding get_intersection
whole_intersection r start end h a b = ground arith

whole_sum :
    (r : Range.Range) (start end : ℕ)
    → start < end
    → r.start ≤ start
    → end ≤ r.end
    → sum_of start end (r ∷ []) 0 ≡ (end + (2 ^ 64 - start)) % 2 ^ 64
unfolding sum_of
whole_sum r start end h a b = rw (whole_intersection r start end h a b, sum_of) (omega arith)

no_blocks :
    (ext : External) (r : Range.Range) (rec : RangeAtBlockRecord) (verified : Bool)
    → ext.range_at_block_abi.decode r.value ≡ some rec
    → rec.plasma_data_block.is_included ≡ false
    → verify_exclusion ext rec.plasma_data_block rec.inclusion_proof ≡ some verified
    → included_blocks ext (r ∷ []) ≡ some []
unfolding included_blocks
no_blocks ext r rec verified e n x = rw (e, included_blocks) (rw (n, x) refl)

-- Where the one range stored over the queried coins is a record of coins that are not included, the quantifier says that
-- nothing is quantified and that this is complete, whether its exclusion proof is verified or refuted.
pub exclusion_ignored :
    (ext : External) (range : Coins.Range) (r : Range.Range) (rec : RangeAtBlockRecord)
    (verified : Bool)
    → range.start < range.end
    → range.end < 2 ^ 64
    → r.start ≤ range.start
    → range.end ≤ r.end
    → ext.range_at_block_abi.decode r.value ≡ some rec
    → rec.plasma_data_block.is_included ≡ false
    → verify_exclusion ext rec.plasma_data_block rec.inclusion_proof ≡ some verified
    → blocks_quantified ext range (r ∷ []) ≡ some (quantified [] true)
unfolding blocks_quantified state_updates_of
exclusion_ignored ext range r rec verified h k a b e n x =
    rw (no_blocks ext r rec verified e n x, blocks_quantified)
      (rw (whole_sum r range.start range.end h a b)
        (rw (==_refl ((range.end + (2 ^ 64 - range.start)) % 2 ^ 64)) refl))
