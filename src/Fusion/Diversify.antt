-- ===== src/Fusion/Diversify.antt =====
-- `diversify` of services/fusion.py. The dicts `contents` and `documents` are functions into
-- `Option`, and `per_document` is a function to the count, 0 for a missing key.
pub mod Invariant
pub mod Passes
pub mod Maximal
pub mod Backfill
pub mod Laws
use knowledgeos.Prelude.{
  ℕ, ◌+◌, Bool, true, false, ◌&&◌, ◌||◌, Option, none, some, List, [], ◌∷◌, ◌++◌, leb, ltb, ◌==◌,
  if◌then◌else◌, length, contains, take,
}
use knowledgeos.Text.{Text, Unicode}
use knowledgeos.Fusion.{FusedHit}
use knowledgeos.Fusion.Merge.{hit_ids}
use knowledgeos.Fusion.Similar.{too_similar}

-- The state of the loops.
pub record Selection (Float : Type 0) : Type 0 where
  pub selected : List (FusedHit Float)
  pub per_document : ℕ → ℕ

abbrev pub text_or_empty : Option Text → Text
text_or_empty none = []
text_or_empty (some s) = s

abbrev pub bump : Option ℕ → (ℕ → ℕ) → ℕ → ℕ
bump none count d = count d
bump (some doc) count d = if d == doc then count d + 1 else count d

module _ {Float : Type 0} (u : Unicode) (contents : ℕ → Option Text) (documents : ℕ → Option ℕ)
    (limit max_per_document : ℕ) where
  -- `selected.append(hit)` and the count of its document
  unfoldable pub add_hit : FusedHit Float → Selection Float → Selection Float
  add_hit h s = record {
    selected = s.selected ++ h ∷ [];
    per_document = bump (documents h.chunk_id) s.per_document;
  }

  -- `document_id is not None and per_document.get(document_id, 0) >= max_per_document`
  unfoldable pub is_capped : FusedHit Float → Selection Float → Bool
  is_capped h s = elim (documents h.chunk_id) [
    | none ↦ false
    | some doc ↦ leb max_per_document (s.per_document doc)
  ]

  unfoldable pub is_similar_to : FusedHit Float → List (FusedHit Float) → Bool
  is_similar_to h [] = false
  is_similar_to h (s ∷ ss) =
      too_similar u (text_or_empty (contents h.chunk_id)) (text_or_empty (contents s.chunk_id))
      || is_similar_to h ss

  unfoldable pub is_full : Selection Float → Bool
  is_full s = leb limit (length s.selected)

  -- One turn of the greedy loop, past its `break`.
  unfoldable pub greedy_step : FusedHit Float → Selection Float → Selection Float
  unfolding is_capped is_similar_to add_hit
  greedy_step h s =
      if is_capped h s then s else if is_similar_to h s.selected then s else add_hit h s

  unfoldable pub greedy : List (FusedHit Float) → Selection Float → Selection Float
  unfolding greedy_step is_full
  greedy [] s = s
  greedy (h ∷ hs) s = if is_full s then s else greedy hs (greedy_step h s)

  unfoldable pub skips : Bool → List ℕ → FusedHit Float → Selection Float → Bool
  unfolding is_capped
  skips respect_cap chosen h s = contains h.chunk_id chosen || (respect_cap && is_capped h s)

  -- The loop of `_backfill`, over the set `chosen`.
  unfoldable pub backfill_from :
      Bool → List (FusedHit Float) → List ℕ → Selection Float → Selection Float
  unfolding skips add_hit is_full
  backfill_from respect_cap [] chosen s = s
  backfill_from respect_cap (h ∷ hs) chosen s =
      if is_full s
      then s
      else (let skip = skips respect_cap chosen h s in
          backfill_from respect_cap hs (if skip then chosen else h.chunk_id ∷ chosen)
            (if skip then s else add_hit h s))

  unfoldable pub backfill : Bool → List (FusedHit Float) → Selection Float → Selection Float
  unfolding backfill_from
  backfill respect_cap hits s =
      if is_full s then s else backfill_from respect_cap hits (hit_ids s.selected) s

  -- The greedy pass, and the backfill that honours the cap.
  unfoldable pub within_cap : List (FusedHit Float) → Selection Float
  unfolding greedy backfill
  within_cap hits =
      backfill true hits (greedy hits (record { selected = []; per_document = λ _. 0 }))

  unfoldable pub diversify : List (FusedHit Float) → List (FusedHit Float)
  unfolding within_cap
  diversify hits = take limit (backfill false hits (within_cap hits)).selected
