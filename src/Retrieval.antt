-- ===== src/Retrieval.antt =====
-- services/retrieval_service.py: the records of a retrieval.
pub mod Query
pub mod Search
pub mod Isolation
use knowledgeos.Prelude.{
  ℕ, ◌+◌, ◌/◌, Bool, true, false, ◌&&◌, Option, List, [], ◌∷◌, max, length, ltb, if◌then◌else◌,
}
use knowledgeos.Text.{Text, is_empty}

pub record RetrievedChunk (Float : Type 0) : Type 0 where
  pub chunk_id : ℕ
  pub document_id : ℕ
  pub document_title : Text
  pub content : Text
  pub ordinal : ℕ
  pub page_label : Option Text
  pub section : Option Text
  pub score : Float
  pub dense_rank : Option ℕ
  pub sparse_rank : Option ℕ
  pub found_by_both : Bool
  pub dense_score : Option Float
  pub sparse_score : Option Float

-- `max(1, len(self.content) // 4)`
unfoldable pub token_estimate : {Float : Type 0} → RetrievedChunk Float → ℕ
token_estimate c = max 1 (length c.content / 4)

-- `apply_token_budget`: the chunks that fit, the first one always.
unfoldable pub fit_budget :
    {Float : Type 0} → ℕ → ℕ → Bool → List (RetrievedChunk Float) → List (RetrievedChunk Float)
unfolding token_estimate
fit_budget budget used kept_any [] = []
fit_budget budget used kept_any (c ∷ cs) =
    let rest = fit_budget budget (used + token_estimate c) true cs in
    if ltb budget (used + token_estimate c) && kept_any then [] else c ∷ rest

unfoldable pub apply_token_budget :
    {Float : Type 0} → ℕ → List (RetrievedChunk Float) → List (RetrievedChunk Float)
unfolding fit_budget
apply_token_budget budget chunks = fit_budget budget 0 false chunks
