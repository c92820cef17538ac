-- ===== src/Tests/Ranking.antt =====
-- Runs of services/fusion.py and of `retrieve`: two retrievers that share a chunk, three chunks of
-- two documents, and a workspace beside another one.
use knowledgeos.Prelude.{
  leb, ℕ, ◌≤◌, ◌≡◌, refl, true, ◌⊎◌, Option, none, some, List, [], ◌∷◌, arith, length, min,
  IsDistinct, All,
}
use knowledgeos.Text.{Text}
use knowledgeos.Content.{Document, Chunk, SourceType, DocumentStatus}
use knowledgeos.Tests.{fixed, fixed_laws, ascii}
use knowledgeos.Fusion.{FusedHit, Ranked, reciprocal_rank_fusion, normalize_scores}
use knowledgeos.Fusion.Merge.{fused_hit, hit_ids, find_hit, position, expected}
use knowledgeos.Fusion.Order.{find-reciprocal_rank_fusion}
use knowledgeos.Fusion.Dominance.{reciprocal_rank_fusion_dominance}
use knowledgeos.Fusion.Normalize.{IsNormalized, normalize_scores-reciprocal_rank_fusion}
use knowledgeos.Fusion.Diversify.{diversify}
use knowledgeos.Fusion.Diversify.Invariant.{count_document}
use knowledgeos.Fusion.Diversify.Laws.{IsSettledIn, diversify_lem}
use knowledgeos.Retrieval.Search.{Database, Answers, retrieve}
use knowledgeos.Retrieval.Isolation.{IsSound, retrieve-IsSound}
use knowledgeos.Retrieval.Query.Terms.{IsTerm, IsDistinctWords, query_terms-Good}
use knowledgeos.Retrieval.Query.{query_terms, codes}

abbrev dense_list : Ranked ℕ
dense_list = (7, 30) ∷ (8, 20) ∷ []

abbrev sparse_list : Ranked ℕ
sparse_list = (7, 5) ∷ (9, 4) ∷ []

abbrev fused : List (FusedHit ℕ)
fused = reciprocal_rank_fusion fixed 60 dense_list sparse_list

find-reciprocal_rank_fusion_example :
    (find_hit 7 fused ≡ expected fixed 60 7 (some (1, 30)) (some (1, 5)))
    × IsDistinct (hit_ids fused)
unfolding position
find-reciprocal_rank_fusion_example =
    find-reciprocal_rank_fusion fixed 60 7 dense_list sparse_list (refl, (refl, tt))
      (refl, (refl, tt))

normalize_scores-reciprocal_rank_fusion_example :
    IsNormalized fixed fixed_laws (normalize_scores fixed fused)
    × (hit_ids (normalize_scores fixed fused) ≡ hit_ids fused)
normalize_scores-reciprocal_rank_fusion_example =
    normalize_scores-reciprocal_rank_fusion fixed fixed_laws 60 dense_list sparse_list

fused_once : IsDistinct (hit_ids fused)
fused_once =
    (find-reciprocal_rank_fusion fixed 60 7 dense_list sparse_list (refl, (refl, tt))
      (refl, (refl, tt))).1

abbrev hit_8 : FusedHit ℕ
hit_8 = fused_hit fixed 60 8 (some (2, 20)) none

found_8 : find_hit 8 fused ≡ some hit_8
unfolding position
found_8 =
    (find-reciprocal_rank_fusion fixed 60 8 dense_list sparse_list (refl, (refl, tt))
      (refl, (refl, tt))).0

reciprocal_rank_fusion_dominance_example :
    (h : FusedHit ℕ) × (find_hit 7 fused ≡ some h) × (leb hit_8.score h.score ≡ true)
unfolding position
reciprocal_rank_fusion_dominance_example =
    reciprocal_rank_fusion_dominance fixed fixed_laws 60 7 8 dense_list sparse_list hit_8
      (refl, (refl, tt)) (refl, (refl, tt)) (omega arith) tt found_8

contents : ℕ → Option Text
contents id = some (id ∷ [])

documents : ℕ → Option ℕ
documents id = some 1

diversify_lem_example :
    let chosen = diversify ascii contents documents 2 1 fused in
    IsDistinct (hit_ids chosen)
    × All (λ h. find_hit h.chunk_id fused ≡ some h) chosen
    × (length chosen ≡ min 2 (length fused))
    × (((doc : ℕ) → count_document documents doc chosen ≤ 1)
        ⊎ All (IsSettledIn ascii contents documents 2 1 fused fused_once chosen) fused)
diversify_lem_example = diversify_lem ascii contents documents 2 1 fused fused_once

a_document : ℕ → DocumentStatus → Document
a_document n status = record {
  id = n;
  workspace_id = n;
  uploaded_by = 0;
  title = codes "Guide";
  source_type = SourceType.pdf;
  source_uri = none;
  mime_type = none;
  checksum = 0;
  byte_size = 0;
  storage_key = none;
  status = status;
  error_message = none;
  page_count = 1;
  chunk_count = 1;
  token_count = 1;
  processed_at = none;
}

a_chunk : ℕ → ℕ → Chunk
a_chunk n d = record {
  id = n;
  document_id = d;
  workspace_id = d;
  ordinal = 0;
  content = codes "leave policy";
  token_count = 3;
  page_from = some 1;
  page_to = none;
  section = none;
  vector_id = none;
}

stored : Database
stored = record {
  chunks = a_chunk 7 1 ∷ a_chunk 8 2 ∷ [];
  documents = a_document 1 DocumentStatus.ready ∷ a_document 2 DocumentStatus.ready ∷ [];
}

-- A vector store that leaks a chunk of another workspace.
leaky : Answers fixed
leaky = record {
  dense = λ limit. some dense_list;
  matches = λ q c. true;
  rank = λ q c. 1;
  sparse_works = true;
  took_ms = 3;
}

retrieve-IsSound_example : IsSound fixed stored 1 8 (
    retrieve fixed ascii
      (record { retrieval_top_k = 8; retrieval_candidates = 40 })
      leaky
      stored
      1
      (codes "leave policy")
      none
      none
      [])
retrieve-IsSound_example =
    retrieve-IsSound fixed ascii (record { retrieval_top_k = 8; retrieval_candidates = 40 }) leaky
      stored 1 (codes "leave policy") none none []

query_terms-Good_example :
    let terms = query_terms ascii (codes "What is the leave policy?") in
    All IsTerm terms × IsDistinctWords terms × (length terms ≤ 24)
query_terms-Good_example = query_terms-Good ascii (codes "What is the leave policy?")
