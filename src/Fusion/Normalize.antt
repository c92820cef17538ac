-- ===== src/Fusion/Normalize.antt =====
-- The scores that `normalize_scores` of services/fusion.py reports.
use knowledgeos.Prelude.{ℕ, ◌≡◌, refl, true, List, [], ◌∷◌, arith, ap, All}
use knowledgeos.Float.{FloatOps, FloatLaws}
use knowledgeos.Fusion.{
  FusedHit, Ranked, before, reciprocal_rank_fusion, normalize_score, normalize_scores,
}
use knowledgeos.Fusion.Merge.{hit_ids}
use knowledgeos.Fusion.Order.{IsSorted, reciprocal_rank_fusion-IsSorted}

module _ (F : FloatOps) where
  open F use {Float, le}

  pub hit_ids-normalize_scores :
      (l : List (FusedHit Float)) → hit_ids (normalize_scores F l) ≡ hit_ids l
  unfolding normalize_scores
  hit_ids-normalize_scores [] = refl
  hit_ids-normalize_scores (h ∷ l) = ap (◌∷◌ h.chunk_id) (hit_ids-normalize_scores l)

  module _ (laws : FloatLaws F) where
    normalize_score_mono :
        (x y : Float) → le x y ≡ true → le (normalize_score F x) (normalize_score F y) ≡ true
    unfolding normalize_score
    normalize_score_mono x y h =
        let best = F.div (F.of_nat 2) (F.of_nat 61) in
        let scaled = laws.div_mono x y 2 61 (omega arith) (omega arith) h in
        ground (
          arith,
          scaled,
          laws.le_refl (F.of_nat 1),
          laws.le_total (F.of_nat 1) (F.div x best),
          laws.le_trans (F.of_nat 1) (F.div x best) (F.div y best),
        )

    normalize_score-le-one : (x : Float) → le (normalize_score F x) (F.of_nat 1) ≡ true
    unfolding normalize_score
    normalize_score-le-one x =
        let scaled = F.div x (F.div (F.of_nat 2) (F.of_nat 61)) in
        ground (arith, laws.le_refl (F.of_nat 1), laws.le_total (F.of_nat 1) scaled)

    -- Every score is at most `1.0`, and no later hit has a higher one.
    abbrev pub IsNormalized : List (FusedHit Float) → Type 0
    IsNormalized [] = Unit
    IsNormalized (h ∷ hs) =
        (le h.score (F.of_nat 1) ≡ true) × All (λ x. le x.score h.score ≡ true) hs × IsNormalized hs

    normalize_scores-All :
        (h : FusedHit Float) (l : List (FusedHit Float))
        → All (λ x. before F h x ≡ true) l
        → All (λ x. le x.score (normalize_score F h.score) ≡ true) (normalize_scores F l)
    unfolding normalize_scores before
    normalize_scores-All h [] p = tt
    normalize_scores-All h (x ∷ l) p =
        (normalize_score_mono x.score h.score (ground (arith, p.0)), normalize_scores-All h l p.1)

    normalize_scores-IsNormalized :
        (l : List (FusedHit Float)) → IsSorted F l → IsNormalized (normalize_scores F l)
    unfolding normalize_scores
    normalize_scores-IsNormalized [] s = tt
    normalize_scores-IsNormalized (h ∷ l) s = (
      normalize_score-le-one h.score,
      normalize_scores-All h l s.0,
      normalize_scores-IsNormalized l s.1,
    )

    -- The normalised fusion lists the same chunks in the same order, by scores of at most `1.0`
    -- that never rise along it.
    pub normalize_scores-reciprocal_rank_fusion :
        (k : ℕ) (ds ss : Ranked Float)
        → let fused = reciprocal_rank_fusion F k ds ss in
          IsNormalized (normalize_scores F fused)
          × (hit_ids (normalize_scores F fused) ≡ hit_ids fused)
    normalize_scores-reciprocal_rank_fusion k ds ss =
        let fused = reciprocal_rank_fusion F k ds ss in
        (
          normalize_scores-IsNormalized fused (reciprocal_rank_fusion-IsSorted F laws k ds ss),
          hit_ids-normalize_scores fused,
        )
