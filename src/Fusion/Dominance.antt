-- ===== src/Fusion/Dominance.antt =====
-- What the ranks of two chunks say about their fused scores, in services/fusion.py.
use knowledgeos.Prelude.{
  ℕ, ◌+◌, ◌≤◌, ◌≡◌, refl, true, Option, none, some, [], ◌∷◌, arith, ◌==◌, inl, inr, IsDistinct,
  Bool-cases, sym, ◌∙◌,
}
use knowledgeos.Float.{FloatOps, FloatLaws, recip}
use knowledgeos.Fusion.{FusedHit, Ranked, reciprocal_rank_fusion}
use knowledgeos.Fusion.Merge.{
  find_hit, ranked_ids, position, expected, fused_hit, add_rank, fused_score,
}
use knowledgeos.Fusion.Order.{find-reciprocal_rank_fusion}

module _ (F : FloatOps) where
  open F use {Float, le}

  module _ (laws : FloatLaws F) where
    -- `a` is ranked by a list, and no worse than `b`, where that list ranks `b`.
    abbrev pub NoWorse : Option (ℕ × Float) → Option (ℕ × Float) → Type 0
    NoWorse a none = Unit
    NoWorse none (some _) = ⊥
    NoWorse (some (r, _)) (some (t, _)) = r ≤ t

    abbrev RankFrom : ℕ → Option (ℕ × Float) → Type 0
    RankFrom n none = Unit
    RankFrom n (some (r, _)) = n ≤ r

    RankFrom-down : (n : ℕ) (o : Option (ℕ × Float)) → RankFrom (n + 1) o → RankFrom n o
    RankFrom-down n none h = tt
    RankFrom-down n (some _) h = omega arith

    position-RankFrom : (id n : ℕ) (l : Ranked Float) → RankFrom n (position id n l)
    unfolding position
    position-RankFrom id n [] = tt
    position-RankFrom id n ((i, s) ∷ l) = elim (Bool-cases (i == id)) [
      | inl here ↦ rw here (omega arith)
      | inr there ↦
          rw there (RankFrom-down n (position id (n + 1) l) (position-RankFrom id (n + 1) l))
    ]

    add_rank_mono :
        (k : ℕ) (d d' : Option (ℕ × Float)) (x y : Float)
        → RankFrom 1 d
        → NoWorse d d'
        → le x y ≡ true
        → le (add_rank F k d' x) (add_rank F k d y) ≡ true
    add_rank_mono k none none x y f p h = h
    add_rank_mono k (some (r, _)) none x y f p h =
        laws.le_trans x y (F.add y (recip F (k + r))) h (laws.le-add_recip y (k + r))
    add_rank_mono k none (some _) x y f p h = elim p [ ]
    add_rank_mono k (some (r, _)) (some (t, _)) x y f p h =
        laws.add_mono x y (recip F (k + t)) (recip F (k + r)) h
          (laws.recip_antitone (k + r) (k + t) (omega arith) (omega arith))

    fused_score_mono :
        (k : ℕ) (d d' s s' : Option (ℕ × Float))
        → RankFrom 1 d
        → RankFrom 1 s
        → NoWorse d d'
        → NoWorse s s'
        → le (fused_score F k d' s') (fused_score F k d s) ≡ true
    fused_score_mono k d d' s s' f g p q =
        add_rank_mono k s s' (add_rank F k d' (F.of_nat 0)) (add_rank F k d (F.of_nat 0)) g q
          (add_rank_mono k d d' (F.of_nat 0) (F.of_nat 0) f p (laws.le_refl (F.of_nat 0)))

    expected-score :
        (k id : ℕ) (d s : Option (ℕ × Float)) (h : FusedHit Float)
        → expected F k id d s ≡ some h
        → h.score ≡ fused_score F k d s
    expected-score k id none none h e = cc
    expected-score k id (some _) s h e = cc
    expected-score k id none (some _) h e = cc

    expected_defined :
        (k a b : ℕ) (d d' s s' : Option (ℕ × Float)) (hb : FusedHit Float)
        → NoWorse d d'
        → NoWorse s s'
        → expected F k b d' s' ≡ some hb
        → (ha : FusedHit Float) × (expected F k a d s ≡ some ha)
    expected_defined k a b (some x) d' s s' hb p q e = (fused_hit F k a (some x) s, refl)
    expected_defined k a b none d' (some y) s' hb p q e = (fused_hit F k a none (some y), refl)
    expected_defined k a b none none none none hb p q e = cc
    expected_defined k a b none (some _) none s' hb p q e = elim p [ ]
    expected_defined k a b none none none (some _) hb p q e = elim q [ ]

    -- Where no list repeats a chunk, and each ranks `a` if it ranks `b`, and no worse, the fusion holds `a` if it holds `b`,
    -- with a score that is no lower.
    pub reciprocal_rank_fusion_dominance :
        (k a b : ℕ) (ds ss : Ranked Float) (hb : FusedHit Float)
        → IsDistinct (ranked_ids ds)
        → IsDistinct (ranked_ids ss)
        → NoWorse (position a 1 ds) (position b 1 ds)
        → NoWorse (position a 1 ss) (position b 1 ss)
        → find_hit b (reciprocal_rank_fusion F k ds ss) ≡ some hb
        → (ha : FusedHit Float) × (find_hit a (reciprocal_rank_fusion F k ds ss) ≡ some ha)
          × (le hb.score ha.score ≡ true)
    reciprocal_rank_fusion_dominance k a b ds ss hb dd sd p q e =
        let found_b = (find-reciprocal_rank_fusion F k b ds ss dd sd).0 in
        let found_a = (find-reciprocal_rank_fusion F k a ds ss dd sd).0 in
        let eb = sym found_b ∙ e in
        let da = position a 1 ds in
        let db = position b 1 ds in
        let sa = position a 1 ss in
        let sb = position b 1 ss in
        let (ha, ea) = expected_defined k a b da db sa sb hb p q eb in
        (
          ha,
          found_a ∙ ea,
          rw (expected-score k a da sa ha ea, expected-score k b db sb hb eb)
              (fused_score_mono k da db sa sb (position-RankFrom a 1 ds) (position-RankFrom a 1 ss)
                p q),
        )
