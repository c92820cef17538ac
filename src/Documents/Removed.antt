-- ===== src/Documents/Removed.antt =====
-- `delete_document` of api/v1/documents.py: who may delete a document, and what is left of it.
use knowledgeos.Access.Loads.{HasRole, load_document-HasRole}
use Prim.Native.String.{String}
use knowledgeos.Prelude.{
  ℕ, ◌≤◌, ◌≡◌, refl, inl, inr, false, List, [], ◌∷◌, ◌==◌, Bool-cases, All, contains, sym, ap, ◌∙◌,
  subst, arith, leb, Any-elim, Any, Any-imp,
}
use knowledgeos.Errors.{AppError, Result, ok, err, passed}
use knowledgeos.Content.{Document, Chunk, IngestionJob}
use knowledgeos.Access.{rank, Role, satisfies, load_document}
use knowledgeos.Documents.{
  other_documents, other_jobs, other_chunks, other_vectors, Service, Request, needs_admin,
  remove_rows, delete_loaded, delete_found, delete_document,
}

other_documents-All :
    (id : ℕ) (ds : List Document)
    → All (λ (d : Document). (d.id == id) ≡ false) (other_documents id ds)
other_documents-All id [] = tt
other_documents-All id (d ∷ ds) = elim (Bool-cases (d.id == id)) [
  | inl same ↦ rw same (other_documents-All id ds)
  | inr other ↦ rw other (other, other_documents-All id ds)
]

other_jobs-All :
    (id : ℕ) (js : List IngestionJob)
    → All (λ (j : IngestionJob). (j.document_id == id) ≡ false) (other_jobs id js)
other_jobs-All id [] = tt
other_jobs-All id (j ∷ js) = elim (Bool-cases (j.document_id == id)) [
  | inl same ↦ rw same (other_jobs-All id js)
  | inr other ↦ rw other (other, other_jobs-All id js)
]

other_chunks-All :
    (id : ℕ) (cs : List Chunk)
    → All (λ (c : Chunk). (c.document_id == id) ≡ false) (other_chunks id cs)
other_chunks-All id [] = tt
other_chunks-All id (c ∷ cs) = elim (Bool-cases (c.document_id == id)) [
  | inl same ↦ rw same (other_chunks-All id cs)
  | inr other ↦ rw other (other, other_chunks-All id cs)
]

other_vectors-contains : (id : ℕ) (vs : List ℕ) → contains id (other_vectors id vs) ≡ false
other_vectors-contains id [] = refl
other_vectors-contains id (v ∷ vs) = ground (arith, other_vectors-contains id vs)

-- Nothing of a document is left: no row, no job, no chunk and no vector.
abbrev IsGone : ℕ → Service → Type 0
IsGone id s =
    All (λ (d : Document). (d.id == id) ≡ false) s.tables.documents
    × All (λ (j : IngestionJob). (j.document_id == id) ≡ false) s.jobs
    × All (λ (c : Chunk). (c.document_id == id) ≡ false) s.chunks
    × (contains id s.vectors ≡ false)

-- How a deletion ends: refused, with nothing changed, or done by an admin of the organization of the
-- document's workspace.
pub data DeleteEnd (q : Request) (id : ℕ) (s : Service) (out : Result (Unit {0}) × Service)
    : Type 0 where
  kept : (e : AppError) → out.0 ≡ err e → out.1 ≡ s → DeleteEnd q id s out
  deleted :
      (d : Document) (role : Role)
      → out.0 ≡ ok tt
      → d.id ≡ id
      → Any (λ (e : Document). e ≡ d) s.tables.documents
      → HasRole s.tables q.user d.workspace_id role
      → rank Role.admin ≤ rank role
      → IsGone id out.1
      → DeleteEnd q id s out

module _ (q : Request) (s : Service) where
  remove_rows-DeleteEnd :
      (d : Document) (role : Role) (o : Result (Unit {0}))
      → Any (λ (e : Document). e ≡ d) s.tables.documents
      → HasRole s.tables q.user d.workspace_id role
      → rank Role.admin ≤ rank role
      → DeleteEnd q d.id s (remove_rows o d.id s)
  unfolding remove_rows
  remove_rows-DeleteEnd d role (err e) row has admin = kept e refl refl
  remove_rows-DeleteEnd d role (ok _) row has admin = deleted d role refl refl row has admin (
    other_documents-All d.id s.tables.documents,
    other_jobs-All d.id s.jobs,
    other_chunks-All d.id s.chunks,
    other_vectors-contains d.id s.vectors,
  )

  delete_loaded-DeleteEnd :
      (d : Document) (role : Role) (v : Result (Unit {0})) (what : String)
      → Any (λ (e : Document). e ≡ d) s.tables.documents
      → HasRole s.tables q.user d.workspace_id role
      → needs_admin role what ≡ v
      → DeleteEnd q d.id s (delete_loaded q d v s)
  unfolding satisfies
  delete_loaded-DeleteEnd d role (err e) what row has admin = kept e refl refl
  delete_loaded-DeleteEnd d role (ok _) what row has admin =
      let allowed = (passed (leb (rank Role.admin) (rank role)) (ok tt) _ tt admin).0 in
      remove_rows-DeleteEnd d role q.delete_vectors row has (ground (arith, allowed))

  delete_found-DeleteEnd :
      (id : ℕ) (o : Result (Document × Role))
      → load_document s.tables q.user id ≡ o
      → DeleteEnd q id s (delete_found q o s)
  delete_found-DeleteEnd id (err e) loaded = kept e refl refl
  delete_found-DeleteEnd id (ok (d, role)) loaded =
      let (row, has) = load_document-HasRole s.tables q.user id d role loaded in
      let key : d.id ≡ id =
        Any-elim _ (d.id ≡ id) s.tables.documents
          (λ e (same, id_of). ap (λ (x : Document). x.id) (sym same) ∙ id_of) row in
      subst (λ k. DeleteEnd q k s (delete_found q (ok (d, role)) s)) key
        (delete_loaded-DeleteEnd d role
          (needs_admin role "Requires ADMIN role to delete a document.")
          "Requires ADMIN role to delete a document."
          (Any-imp _ (λ (e : Document). e ≡ d) s.tables.documents (λ e (same, id_of). same) row) has
          refl)

  -- `delete_document` ends in one of two ways. It refuses and nothing has changed; or its caller is an
  -- admin of the organization of the workspace of a stored document with the id, and no row, job, chunk or
  -- vector of the id is left.
  pub delete_document-DeleteEnd : (id : ℕ) → DeleteEnd q id s (delete_document q id s)
  unfolding delete_document
  delete_document-DeleteEnd id = delete_found-DeleteEnd id (load_document s.tables q.user id) refl
