-- ===== src/Ingestion/Counted.antt =====
-- The number of a document's chunks, which `_run` of services/ingestion_pipeline.py stores.
use knowledgeos.Prelude.{
  ℕ, ◌+◌, ◌≡◌, refl, inl, inr, List, [], ◌∷◌, ◌++◌, ◌==◌, if◌then◌else◌, arith, All, Bool-cases,
  length,
}
use knowledgeos.Content.{Chunk}
use knowledgeos.Ingestion.{without_chunks}

-- How many of the chunks are the document's.
unfoldable pub own_chunks : ℕ → List Chunk → ℕ
own_chunks id [] = 0
own_chunks id (c ∷ cs) = (if c.document_id == id then 1 else 0) + own_chunks id cs

pub own_chunks-without_chunks :
    (id : ℕ) (cs rows : List Chunk)
    → All (λ (c : Chunk). c.document_id ≡ id) rows
    → own_chunks id (without_chunks id cs ++ rows) ≡ length rows
unfolding own_chunks without_chunks
own_chunks-without_chunks id [] [] h = refl
own_chunks-without_chunks id [] (c ∷ rows) h =
    let own = h.0 in ground (arith, own, own_chunks-without_chunks id [] rows h.1)
own_chunks-without_chunks id (c ∷ cs) rows h = elim (Bool-cases (c.document_id == id)) [
  | inl own ↦ rw own (own_chunks-without_chunks id cs rows h)
  | inr other ↦ rw other (rw other (omega (arith, own_chunks-without_chunks id cs rows h)))
]
