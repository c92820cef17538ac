-- ===== src/Fusion/Merge.antt =====
-- The dict `merged` of services/fusion.py, looked up by chunk id.
use knowledgeos.Prelude.{
  ℕ, ◌+◌, ◌≡◌, refl, false, Option, none, some, List, [], ◌∷◌, arith, ◌==◌, if◌then◌else◌, contains,
  IsDistinct, ap, ◌∙◌, ◌||◌,
}
use knowledgeos.Float.{FloatOps, recip}
use knowledgeos.Fusion.{
  FusedHit, Ranked, Source, dense, sparse, fresh, update_hit, mark_dense, mark_sparse, merge_ranked,
  merge_both,
}

-- `merged.get(id)`
unfoldable pub find_hit : {Float : Type 0} → ℕ → List (FusedHit Float) → Option (FusedHit Float)
find_hit id [] = none
find_hit id (h ∷ hs) = if h.chunk_id == id then some h else find_hit id hs

abbrev pub hit_ids : {Float : Type 0} → List (FusedHit Float) → List ℕ
hit_ids [] = []
hit_ids (h ∷ hs) = h.chunk_id ∷ hit_ids hs

abbrev pub ranked_ids : {Float : Type 0} → Ranked Float → List ℕ
ranked_ids [] = []
ranked_ids ((id, _) ∷ rest) = id ∷ ranked_ids rest

-- The rank and the score of an id in a ranked list whose first item has the given rank.
unfoldable pub position : {Float : Type 0} → ℕ → ℕ → Ranked Float → Option (ℕ × Float)
position id rank [] = none
position id rank ((i, s) ∷ rest) = if i == id then some (rank, s) else position id (rank + 1) rest

pub position_absent :
    {Float : Type 0} (id rank : ℕ) (l : Ranked Float)
    → contains id (ranked_ids l) ≡ false
    → position id rank l ≡ none
unfolding position
position_absent id rank [] h = refl
position_absent id rank ((i, s) ∷ l) h = ground (arith, position_absent id (rank + 1) l)

pub find_hit_absent :
    {Float : Type 0} (id : ℕ) (l : List (FusedHit Float))
    → contains id (hit_ids l) ≡ false
    → find_hit id l ≡ none
unfolding find_hit
find_hit_absent id [] h = refl
find_hit_absent id (x ∷ l) h = ground (arith, find_hit_absent id l)

module _ (F : FloatOps) where
  open F use {Float, of_nat, add}

  abbrev or_fresh : ℕ → Option (FusedHit Float) → FusedHit Float
  or_fresh id none = fresh F id
  or_fresh id (some h) = h

  abbrev KeepsId : (FusedHit Float → FusedHit Float) → Type 0
  KeepsId f = (h : FusedHit Float) → (f h).chunk_id ≡ h.chunk_id

  find-update_hit :
      (id j : ℕ) (f : FusedHit Float → FusedHit Float) (m : List (FusedHit Float))
      → KeepsId f
      → find_hit j (update_hit F id f m)
        ≡ (if id == j then some (f (or_fresh id (find_hit id m))) else find_hit j m)
  unfolding find_hit update_hit
  find-update_hit id j f [] keeps = ground (arith, keeps (fresh F id))
  find-update_hit id j f (h ∷ m) keeps = ground (arith, keeps h, find-update_hit id j f m keeps)

  contains-update_hit :
      (id j : ℕ) (f : FusedHit Float → FusedHit Float) (m : List (FusedHit Float))
      → KeepsId f
      → contains j (hit_ids (update_hit F id f m)) ≡ (j == id || contains j (hit_ids m))
  unfolding update_hit
  contains-update_hit id j f [] keeps = ground (arith, keeps (fresh F id))
  contains-update_hit id j f (h ∷ m) keeps =
      ground (arith, keeps h, contains-update_hit id j f m keeps)

  update_hit-IsDistinct :
      (id : ℕ) (f : FusedHit Float → FusedHit Float) (m : List (FusedHit Float))
      → KeepsId f
      → IsDistinct (hit_ids m)
      → IsDistinct (hit_ids (update_hit F id f m))
  unfolding update_hit
  update_hit-IsDistinct id f [] keeps d = (refl, tt)
  update_hit-IsDistinct id f (h ∷ m) keeps d = ground (
    arith,
    keeps h,
    update_hit-IsDistinct id f m keeps d.1,
    contains-update_hit id h.chunk_id f m keeps,
  )

  abbrev Mark : Type 0
  Mark = ℕ → Float → FusedHit Float → FusedHit Float

  module _ (mark : Mark) (keeps : (r : ℕ) (s : Float) → KeepsId (mark r s)) where
    merge_ranked-IsDistinct :
        (r : ℕ) (l : Ranked Float) (m : List (FusedHit Float))
        → IsDistinct (hit_ids m)
        → IsDistinct (hit_ids (merge_ranked F mark r l m))
    unfolding merge_ranked
    merge_ranked-IsDistinct r [] m d = d
    merge_ranked-IsDistinct r ((i, s) ∷ l) m d =
        merge_ranked-IsDistinct (r + 1) l (update_hit F i (mark r s) m)
          (update_hit-IsDistinct i (mark r s) m (keeps r s) d)

    abbrev marked : ℕ → Option (ℕ × Float) → Option (FusedHit Float) → Option (FusedHit Float)
    marked id none old = old
    marked id (some (r, s)) old = some (mark r s (or_fresh id old))

    find-merge_ranked :
        (id r : ℕ) (l : Ranked Float) (m : List (FusedHit Float))
        → IsDistinct (ranked_ids l)
        → find_hit id (merge_ranked F mark r l m) ≡ marked id (position id r l) (find_hit id m)
    unfolding merge_ranked position
    find-merge_ranked id r [] m d = refl
    find-merge_ranked id r ((i, s) ∷ l) m d = ground (
      arith,
      find-merge_ranked id (r + 1) l (update_hit F i (mark r s) m) d.1,
      find-update_hit i id (mark r s) m (keeps r s),
      position_absent i (r + 1) l d.0,
    )

  pub merge_both-IsDistinct :
      (k : ℕ) (ds ss : Ranked Float) → IsDistinct (hit_ids (merge_both F k ds ss))
  unfolding merge_both
  merge_both-IsDistinct k ds ss =
      merge_ranked-IsDistinct (mark_sparse F k) (λ r s h. refl) 1 ss _
        (merge_ranked-IsDistinct (mark_dense F k) (λ r s h. refl) 1 ds [] tt)

  -- `0.0`, then one reciprocal for each retriever that found the chunk, dense first
  abbrev pub add_rank : ℕ → Option (ℕ × Float) → Float → Float
  add_rank k none x = x
  add_rank k (some (r, _)) x = add x (recip F (k + r))

  abbrev pub fused_score : ℕ → Option (ℕ × Float) → Option (ℕ × Float) → Float
  fused_score k d s = add_rank k s (add_rank k d (of_nat 0))

  abbrev pub rank_field : Option (ℕ × Float) → Option ℕ
  rank_field none = none
  rank_field (some (r, _)) = some r

  abbrev pub score_field : Option (ℕ × Float) → Option Float
  score_field none = none
  score_field (some (_, s)) = some s

  abbrev pub source_field : Option (ℕ × Float) → Option (ℕ × Float) → List Source
  source_field none none = []
  source_field (some _) none = dense ∷ []
  source_field none (some _) = sparse ∷ []
  source_field (some _) (some _) = dense ∷ sparse ∷ []

  abbrev pub fused_hit : ℕ → ℕ → Option (ℕ × Float) → Option (ℕ × Float) → FusedHit Float
  fused_hit k id d s = record {
    chunk_id = id;
    score = fused_score k d s;
    dense_rank = rank_field d;
    sparse_rank = rank_field s;
    dense_score = score_field d;
    sparse_score = score_field s;
    sources = source_field d s;
  }

  -- What the fusion holds for an id that the two lists rank at `d` and `s`.
  abbrev pub expected : ℕ → ℕ → Option (ℕ × Float) → Option (ℕ × Float) → Option (FusedHit Float)
  expected k id none none = none
  expected k id (some p) s = some (fused_hit k id (some p) s)
  expected k id none (some q) = some (fused_hit k id none (some q))

  both_marks :
      (k id : ℕ) (d s : Option (ℕ × Float))
      → marked
          (mark_sparse F k)
          (λ r s h. refl)
          id
          s
          (marked (mark_dense F k) (λ r s h. refl) id d none)
        ≡ expected k id d s
  both_marks k id none none = refl
  both_marks k id (some p) none = refl
  both_marks k id none (some q) = refl
  both_marks k id (some p) (some q) = refl

  pub find-merge_both :
      (k id : ℕ) (ds ss : Ranked Float)
      → IsDistinct (ranked_ids ds)
      → IsDistinct (ranked_ids ss)
      → find_hit id (merge_both F k ds ss) ≡ expected k id (position id 1 ds) (position id 1 ss)
  unfolding merge_both find_hit
  find-merge_both k id ds ss dd sd =
      find-merge_ranked (mark_sparse F k) (λ r s h. refl) id 1 ss _ sd
      ∙ ap (marked (mark_sparse F k) (λ r s h. refl) id (position id 1 ss))
          (find-merge_ranked (mark_dense F k) (λ r s h. refl) id 1 ds [] dd)
      ∙ both_marks k id (position id 1 ds) (position id 1 ss)
