-- ===== src/Chunking/Document.antt =====
-- `chunk_document` of services/chunking.py: the chunks of the pages of a parsed document, numbered
-- through.
use knowledgeos.Retrieval.Query.{codes}
use knowledgeos.Ingestion.{ParsedPage, ParsedDocument, TextChunk, Attempt, returned, raised}
use knowledgeos.Prelude.{
  ℕ, ◌+◌, Option, none, some, List, [], ◌∷◌, ◌++◌, map, leb, ◌==◌, if◌then◌else◌, length,
}
use knowledgeos.Text.{Text, is_empty, strip, Unicode}
use knowledgeos.Chunking.Pack.{split_page}
use knowledgeos.Chunking.Absorb.{absorb_fragments}

-- The chunks of a page, from an ordinal on.
unfoldable pub page_chunks : ℕ → ParsedPage → List Text → List TextChunk
page_chunks ordinal page [] = []
page_chunks ordinal page (body ∷ bodies) =
    let rest = page_chunks (if is_empty body then ordinal else ordinal + 1) page bodies in
    if is_empty body
    then rest
    else record {
      ordinal = ordinal;
      content = body;
      page_from = some page.number;
      page_to = some page.number;
      section = page.section;
    }
      ∷ rest

module _ (u : Unicode) where
  unfoldable pub page_windows : ℕ → ℕ → ParsedPage → List Text
  unfolding split_page absorb_fragments strip
  page_windows target overlap page =
      absorb_fragments u target (map (strip u) (split_page u target overlap page.text))

  unfoldable pub chunk_pages : ℕ → ℕ → ℕ → List ParsedPage → List TextChunk
  unfolding page_chunks page_windows
  chunk_pages target overlap ordinal [] = []
  chunk_pages target overlap ordinal (page ∷ pages) =
      let chunks = page_chunks ordinal page (page_windows target overlap page) in
      chunks ++ chunk_pages target overlap (ordinal + length chunks) pages

-- `a or b` for a size: 0 counts as not given.
abbrev pub size_or : Option ℕ → ℕ → ℕ
size_or none default = default
size_or (some n) default = if n == 0 then default else n

-- `chunk_document`, from `chunk_size_chars` and `chunk_overlap_chars` of the settings
unfoldable pub chunk_document :
    Unicode → ℕ → ℕ → Option ℕ → Option ℕ → ParsedDocument → Attempt (List TextChunk)
unfolding chunk_pages
chunk_document u size_chars overlap_chars target overlap document =
    if leb (size_or target size_chars) (size_or overlap overlap_chars)
    then raised (codes "chunk overlap must be smaller than the chunk size")
    else returned
        (chunk_pages u (size_or target size_chars) (size_or overlap overlap_chars) 0 document.pages)
