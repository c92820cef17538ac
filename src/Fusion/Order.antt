-- ===== src/Fusion/Order.antt =====
-- The order of the fused list: `sorted(..., key=lambda h: (-h.score, str(h.chunk_id)))`, and what
-- the ranks of two chunks say about their places.
use knowledgeos.Prelude.{
  ℕ, ◌≡◌, refl, true, false, List, [], ◌∷◌, arith, ◌==◌, inl, inr, contains, IsDistinct, Bool-cases,
  ◌∙◌, ◌||◌, All,
}
use knowledgeos.Float.{FloatOps, FloatLaws}
use knowledgeos.Fusion.{
  FusedHit, Ranked, before, insert_sorted, sort_hits, merge_both, reciprocal_rank_fusion,
}
use knowledgeos.Fusion.Merge.{
  find_hit, hit_ids, ranked_ids, position, expected, find-merge_both, merge_both-IsDistinct,
}

module _ (F : FloatOps) where
  open F use {Float, le}

  -- No hit may stand before one that comes earlier.
  abbrev pub IsSorted : List (FusedHit Float) → Type 0
  IsSorted [] = Unit
  IsSorted (h ∷ hs) = All (λ x. before F h x ≡ true) hs × IsSorted hs

  contains-insert_sorted :
      (j : ℕ) (h : FusedHit Float) (l : List (FusedHit Float))
      → contains j (hit_ids (insert_sorted F h l)) ≡ (j == h.chunk_id || contains j (hit_ids l))
  unfolding insert_sorted
  contains-insert_sorted j h [] = refl
  contains-insert_sorted j h (x ∷ l) = ground (arith, contains-insert_sorted j h l)

  contains-sort_hits :
      (j : ℕ) (l : List (FusedHit Float))
      → contains j (hit_ids (sort_hits F l)) ≡ contains j (hit_ids l)
  unfolding sort_hits
  contains-sort_hits j [] = refl
  contains-sort_hits j (h ∷ l) =
      ground (arith, contains-insert_sorted j h (sort_hits F l), contains-sort_hits j l)

  insert_sorted-IsDistinct :
      (h : FusedHit Float) (l : List (FusedHit Float))
      → contains h.chunk_id (hit_ids l) ≡ false
      → IsDistinct (hit_ids l)
      → IsDistinct (hit_ids (insert_sorted F h l))
  unfolding insert_sorted
  insert_sorted-IsDistinct h [] c d = (refl, tt)
  insert_sorted-IsDistinct h (x ∷ l) c d =
      ground (arith, contains-insert_sorted x.chunk_id h l, insert_sorted-IsDistinct h l)

  pub sort_hits-IsDistinct :
      (l : List (FusedHit Float)) → IsDistinct (hit_ids l) → IsDistinct (hit_ids (sort_hits F l))
  unfolding sort_hits
  sort_hits-IsDistinct [] d = tt
  sort_hits-IsDistinct (h ∷ l) d =
      insert_sorted-IsDistinct h (sort_hits F l) (contains-sort_hits h.chunk_id l ∙ d.0)
        (sort_hits-IsDistinct l d.1)

  find-insert_sorted :
      (j : ℕ) (h : FusedHit Float) (l : List (FusedHit Float))
      → contains h.chunk_id (hit_ids l) ≡ false
      → find_hit j (insert_sorted F h l) ≡ find_hit j (h ∷ l)
  unfolding insert_sorted find_hit
  find-insert_sorted j h [] c = refl
  find-insert_sorted j h (x ∷ l) c = ground (arith, find-insert_sorted j h l)

  find-sort_hits :
      (j : ℕ) (l : List (FusedHit Float))
      → IsDistinct (hit_ids l)
      → find_hit j (sort_hits F l) ≡ find_hit j l
  unfolding sort_hits find_hit
  find-sort_hits j [] d = refl
  find-sort_hits j (h ∷ l) d = ground (
    arith,
    find-insert_sorted j h (sort_hits F l) (contains-sort_hits h.chunk_id l ∙ d.0),
    find-sort_hits j l d.1,
  )

  -- Of two lists without repetition: each chunk that a list ranks is in the fusion once, with its ranks, its scores and the sum of
  -- the reciprocals; no other chunk is.
  pub find-reciprocal_rank_fusion :
      (k id : ℕ) (ds ss : Ranked Float)
      → IsDistinct (ranked_ids ds)
      → IsDistinct (ranked_ids ss)
      → (find_hit id (reciprocal_rank_fusion F k ds ss)
          ≡ expected F k id (position id 1 ds) (position id 1 ss))
        × IsDistinct (hit_ids (reciprocal_rank_fusion F k ds ss))
  unfolding reciprocal_rank_fusion
  find-reciprocal_rank_fusion k id ds ss dd sd =
      let once = merge_both-IsDistinct F k ds ss in
      (
        find-sort_hits id (merge_both F k ds ss) once ∙ find-merge_both F k id ds ss dd sd,
        sort_hits-IsDistinct (merge_both F k ds ss) once,
      )

  module _ (laws : FloatLaws F) where
    before_total : (a b : FusedHit Float) → before F a b ≡ false → before F b a ≡ true
    unfolding before
    before_total a b h =
        ground (arith, laws.le_total a.score b.score, laws.le_total b.score a.score)

    before_trans :
        (a b c : FusedHit Float) → before F a b ≡ true → before F b c ≡ true → before F a c ≡ true
    unfolding before
    before_trans a b c p q = ground (
      arith,
      laws.le_trans a.score b.score c.score,
      laws.le_trans c.score b.score a.score,
      laws.le_trans b.score c.score a.score,
      laws.le_trans c.score a.score b.score,
      laws.le_trans a.score c.score b.score,
      laws.le_trans b.score a.score c.score,
    )

    before-All :
        (a b : FusedHit Float) (l : List (FusedHit Float))
        → before F a b ≡ true
        → All (λ x. before F b x ≡ true) l
        → All (λ x. before F a x ≡ true) l
    before-All a b [] p h = tt
    before-All a b (x ∷ l) p h = (before_trans a b x p h.0, before-All a b l p h.1)

    insert_sorted-All :
        (a h : FusedHit Float) (l : List (FusedHit Float))
        → before F a h ≡ true
        → All (λ x. before F a x ≡ true) l
        → All (λ x. before F a x ≡ true) (insert_sorted F h l)
    unfolding insert_sorted
    insert_sorted-All a h [] p q = (p, tt)
    insert_sorted-All a h (x ∷ l) p q = ground (arith, insert_sorted-All a h l p)

    insert_sorted-IsSorted :
        (h : FusedHit Float) (l : List (FusedHit Float))
        → IsSorted l
        → IsSorted (insert_sorted F h l)
    unfolding insert_sorted
    insert_sorted-IsSorted h [] s = (tt, tt)
    insert_sorted-IsSorted h (x ∷ l) s = elim (Bool-cases (before F h x)) [
      | inl first ↦ rw first ((first, before-All h x l first s.0), s)
      | inr later ↦
          rw later
            (insert_sorted-All x h l (before_total h x later) s.0, insert_sorted-IsSorted h l s.1)
    ]

    -- The fused list is sorted by falling score, and by id where two scores are equal.
    pub reciprocal_rank_fusion-IsSorted :
        (k : ℕ) (ds ss : Ranked Float) → IsSorted (reciprocal_rank_fusion F k ds ss)
    unfolding reciprocal_rank_fusion
    reciprocal_rank_fusion-IsSorted k ds ss = go (merge_both F k ds ss)
      where
        go : (l : List (FusedHit Float)) → IsSorted (sort_hits F l)
        go [] = tt
        go (h ∷ l) = insert_sorted-IsSorted h (sort_hits F l) (go l)
