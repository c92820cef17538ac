-- ===== src/Fusion.antt =====
-- services/fusion.py: reciprocal rank fusion of two ranked lists. A chunk id is the 128-bit number
-- of its UUID, whose order is the order of the canonical text `str(chunk_id)`. The dict `merged` is
-- the list of its values in insertion order, each with its key as a field.
pub mod Merge
pub mod Order
pub mod Dominance
pub mod Normalize
pub mod Similar
pub mod Diversify
use knowledgeos.Prelude.{
  ℕ, ◌+◌, Bool, true, false, ◌&&◌, Option, none, some, List, [], ◌∷◌, leb, ◌==◌, if◌then◌else◌, map,
}
use knowledgeos.Float.{FloatOps, recip}

abbrev pub rrf_k : ℕ
rrf_k = 60

pub data Source : Type 0 where
  dense sparse : Source

pub record FusedHit (Float : Type 0) : Type 0 where
  pub chunk_id : ℕ
  pub score : Float
  pub dense_rank : Option ℕ
  pub sparse_rank : Option ℕ
  pub dense_score : Option Float
  pub sparse_score : Option Float
  pub sources : List Source

abbrev is_some {ℓ} : {A : Type ℓ} → Option A → Bool
is_some none = false
is_some (some _) = true

-- `FusedHit.found_by_both`
unfoldable pub found_by_both : {Float : Type 0} → FusedHit Float → Bool
found_by_both h = is_some h.dense_rank && is_some h.sparse_rank

-- `hit.sources.add(s)`
abbrev pub add_source : Source → List Source → List Source
add_source s [] = s ∷ []
add_source dense (dense ∷ rest) = dense ∷ rest
add_source sparse (sparse ∷ rest) = sparse ∷ rest
add_source s (t ∷ rest) = t ∷ add_source s rest

-- A best-first list of chunk ids with the retriever's own scores.
abbrev pub Ranked : Type 0 → Type 0
Ranked Float = List (ℕ × Float)

module _ (F : FloatOps) where
  open F use {Float, of_nat, add, div, le}

  -- `FusedHit(chunk_id=chunk_id)`
  abbrev pub fresh : ℕ → FusedHit Float
  fresh id = record {
    chunk_id = id;
    score = of_nat 0;
    dense_rank = none;
    sparse_rank = none;
    dense_score = none;
    sparse_score = none;
    sources = [];
  }

  -- `hit = merged.setdefault(id, FusedHit(chunk_id=id))`, and then `hit` is changed by `f`.
  unfoldable pub update_hit :
      ℕ → (FusedHit Float → FusedHit Float) → List (FusedHit Float) → List (FusedHit Float)
  update_hit id f [] = f (fresh id) ∷ []
  update_hit id f (h ∷ merged) =
      if h.chunk_id == id then f h ∷ merged else h ∷ update_hit id f merged

  abbrev pub mark_dense : ℕ → ℕ → Float → FusedHit Float → FusedHit Float
  mark_dense k rank score hit = record hit {
    dense_rank = some rank;
    dense_score = some score;
    score = add hit.score (recip F (k + rank));
    sources = add_source dense hit.sources;
  }

  abbrev pub mark_sparse : ℕ → ℕ → Float → FusedHit Float → FusedHit Float
  mark_sparse k rank score hit = record hit {
    sparse_rank = some rank;
    sparse_score = some score;
    score = add hit.score (recip F (k + rank));
    sources = add_source sparse hit.sources;
  }

  -- The two loops are one, over the fields that they set; `rank` is that of the next item.
  unfoldable pub merge_ranked :
      (ℕ → Float → FusedHit Float → FusedHit Float)
      → ℕ
      → Ranked Float
      → List (FusedHit Float)
      → List (FusedHit Float)
  merge_ranked mark rank [] merged = merged
  merge_ranked mark rank ((id, score) ∷ rest) merged =
      merge_ranked mark (rank + 1) rest (update_hit id (mark rank score) merged)

  -- `a` may stand before `b` under the key `(-score, str(chunk_id))`
  unfoldable pub before : FusedHit Float → FusedHit Float → Bool
  before a b =
      if le b.score a.score
      then (if le a.score b.score then leb a.chunk_id b.chunk_id else true)
      else false

  -- `sorted` is stable: an item goes before those with an equal key that come after it.
  unfoldable pub insert_sorted : FusedHit Float → List (FusedHit Float) → List (FusedHit Float)
  insert_sorted h [] = h ∷ []
  insert_sorted h (x ∷ xs) = if before h x then h ∷ x ∷ xs else x ∷ insert_sorted h xs

  unfoldable pub sort_hits : List (FusedHit Float) → List (FusedHit Float)
  unfolding insert_sorted before
  sort_hits [] = []
  sort_hits (h ∷ hs) = insert_sorted h (sort_hits hs)

  unfoldable pub merge_both : ℕ → Ranked Float → Ranked Float → List (FusedHit Float)
  unfolding merge_ranked update_hit
  merge_both k ds ss = merge_ranked (mark_sparse k) 1 ss (merge_ranked (mark_dense k) 1 ds [])

  unfoldable pub reciprocal_rank_fusion : ℕ → Ranked Float → Ranked Float → List (FusedHit Float)
  unfolding merge_both sort_hits
  reciprocal_rank_fusion k ds ss = sort_hits (merge_both k ds ss)

  -- `min(1.0, score / best_possible)`
  unfoldable pub normalize_score : Float → Float
  normalize_score score =
      let scaled = div score (div (of_nat 2) (of_nat (rrf_k + 1))) in
      if le (of_nat 1) scaled then of_nat 1 else scaled

  unfoldable pub normalize_scores : List (FusedHit Float) → List (FusedHit Float)
  unfolding normalize_score
  normalize_scores =
      map {A = FusedHit Float} (λ hit. record hit { score = normalize_score hit.score })
