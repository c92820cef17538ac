-- ===== src/Chunking/Numbered.antt =====
-- services/chunking.py: the chunks of a document are numbered through, and each is of a page of it.
use knowledgeos.Prelude.{
  ℕ, ◌+◌, ◌≡◌, refl, subst, inl, inr, false, Option, some, List, [], ◌∷◌, ◌++◌, arith, length, All,
  All-append, All-imp, Any, ◌<◌, leb,
}
use knowledgeos.Text.{Text, is_empty, Unicode}
use knowledgeos.Chunking.Document.{page_chunks, page_windows, chunk_pages, chunk_document, size_or}
use knowledgeos.Ingestion.{ParsedPage, ParsedDocument, TextChunk, returned}

-- The ordinals count from a number on.
abbrev pub IsNumbered : ℕ → List TextChunk → Type 0
IsNumbered n [] = Unit
IsNumbered n (c ∷ cs) = (c.ordinal ≡ n) × IsNumbered (n + 1) cs

-- A chunk has text, and the number and the section of the page.
abbrev pub IsOfPage : TextChunk → ParsedPage → Type 0
IsOfPage c page =
    (is_empty c.content ≡ false)
    × (c.page_from ≡ some page.number)
    × (c.page_to ≡ some page.number)
    × (c.section ≡ page.section)

IsNumbered-append :
    (n : ℕ) (cs ds : List TextChunk)
    → IsNumbered n cs
    → IsNumbered (n + length cs) ds
    → IsNumbered n (cs ++ ds)
IsNumbered-append n [] ds hc hd = subst (λ k. IsNumbered k ds) (omega arith) hd
IsNumbered-append n (c ∷ cs) ds hc hd =
    (hc.0, IsNumbered-append (n + 1) cs ds hc.1 (subst (λ k. IsNumbered k ds) (omega arith) hd))

page_chunks-IsNumbered :
    (n : ℕ) (page : ParsedPage) (bodies : List Text)
    → IsNumbered n (page_chunks n page bodies)
      × All (λ c. IsOfPage c page) (page_chunks n page bodies)
unfolding page_chunks
page_chunks-IsNumbered n page [] = (tt, tt)
page_chunks-IsNumbered n page ([] ∷ bodies) = page_chunks-IsNumbered n page bodies
page_chunks-IsNumbered n page ((x ∷ body) ∷ bodies) =
    let (numbered, of_page) = page_chunks-IsNumbered (n + 1) page bodies in
    ((refl, numbered), ((refl, refl, refl, refl), of_page))

module _ (u : Unicode) (target overlap : ℕ) where
  chunk_pages-IsNumbered :
      (n : ℕ) (pages : List ParsedPage)
      → IsNumbered n (chunk_pages u target overlap n pages)
        × All (λ c. Any (IsOfPage c) pages) (chunk_pages u target overlap n pages)
  unfolding chunk_pages
  chunk_pages-IsNumbered n [] = (tt, tt)
  chunk_pages-IsNumbered n (page ∷ pages) =
      let chunks = page_chunks n page (page_windows u target overlap page) in
      let (numbered, of_page) =
        page_chunks-IsNumbered n page (page_windows u target overlap page) in
      let (later, of_pages) = chunk_pages-IsNumbered (n + length chunks) pages in
      (
        IsNumbered-append n chunks _ numbered later,
        All-append (λ c. Any (IsOfPage c) (page ∷ pages)) chunks _
            (All-imp (λ c. IsOfPage c page) _ chunks (λ c h. inl h) of_page)
            (All-imp (λ c. Any (IsOfPage c) pages) _
              (chunk_pages u target overlap (n + length chunks) pages) (λ c h. inr h) of_pages),
      )

-- With an overlap below the chunk size `chunk_document` returns chunks that are numbered 0, 1, 2, and
-- so on; each has text, and the page numbers and the section of a page of the document.
pub chunk_document-IsNumbered :
    (u : Unicode) (size_chars overlap_chars : ℕ) (target overlap : Option ℕ)
    (document : ParsedDocument)
    → size_or overlap overlap_chars < size_or target size_chars
    → (cs : List TextChunk) × (chunk_document u size_chars overlap_chars target overlap document
        ≡ returned cs)
      × IsNumbered 0 cs
      × All (λ c. Any (IsOfPage c) document.pages) cs
unfolding chunk_document
chunk_document-IsNumbered u size_chars overlap_chars target overlap document below =
    let size = size_or target size_chars in
    let tail = size_or overlap overlap_chars in
    let accepted : leb size tail ≡ false = ground (arith, below) in
    (
      chunk_pages u size tail 0 document.pages,
      rw accepted refl,
      (chunk_pages-IsNumbered u size tail 0 document.pages).0,
      (chunk_pages-IsNumbered u size tail 0 document.pages).1,
    )
