-- ===== src/Intake/Unique.antt =====
-- services/document_service.py: an upload never leaves two documents of a workspace with the same
-- bytes, and a repeated upload changes nothing.
use mathlib.Core.Option.{some-injective}
use knowledgeos.Text.{is_empty}
use knowledgeos.Errors.{AppError, Result, ok, err}
use knowledgeos.Ingestion.{set_document}
use knowledgeos.Prelude.{
  ℕ, ◌≡◌, refl, sym, subst, inl, inr, Bool, ◌&&◌, Option, none, some, List, [], ◌∷◌, ◌++◌, arith,
  ◌==◌, if◌then◌else◌, Bool-cases, ◌∙◌, true, false, ltb, length, IsDistinct, contains, ap, ◌⊎◌,
  ==_refl,
}
use knowledgeos.Content.{SourceType, Document}
use knowledgeos.Intake.{
  queue_job, pending_again, requeue_document, find_duplicate, is_usable, new_document, new_key,
  place, Platform, Store, Upload, resolved_type, typed_intake, intake_bytes, IntakeResult,
}

-- No two documents of a workspace have the same checksum.
abbrev pub IsUnique : List Document → Type 0
IsUnique [] = Unit
IsUnique (d ∷ ds) = (find_duplicate d.workspace_id d.checksum ds ≡ none) × IsUnique ds

-- A change of a row that a search by workspace and checksum does not see.
abbrev KeepsKey : (Document → Document) → Type 0
KeepsKey f = (d : Document) → ((f d).workspace_id ≡ d.workspace_id) × ((f d).checksum ≡ d.checksum)

find_duplicate-set_document-none :
    (w c id : ℕ) (f : Document → Document) (ds : List Document)
    → KeepsKey f
    → find_duplicate w c ds ≡ none
    → find_duplicate w c (set_document id f ds) ≡ none
unfolding find_duplicate set_document
find_duplicate-set_document-none w c id f [] keeps h = refl
find_duplicate-set_document-none w c id f (d ∷ ds) keeps h =
    ground (arith, keeps d, find_duplicate-set_document-none w c id f ds keeps)

set_document-IsUnique :
    (id : ℕ) (f : Document → Document) (ds : List Document)
    → KeepsKey f
    → IsUnique ds
    → IsUnique (set_document id f ds)
unfolding set_document
set_document-IsUnique id f [] keeps h = tt
set_document-IsUnique id f (d ∷ ds) keeps h = elim (Bool-cases (d.id == id)) [
  | inl here ↦ rw here (
    subst (λ w. find_duplicate w (f d).checksum ds ≡ none) (sym (keeps d).0)
        (subst (λ c. find_duplicate d.workspace_id c ds ≡ none) (sym (keeps d).1) h.0),
    h.1,
  )
  | inr later ↦ rw later (
    find_duplicate-set_document-none d.workspace_id d.checksum id f ds keeps h.0,
    set_document-IsUnique id f ds keeps h.1,
  )
]

-- A search of a list with one more row.
find_duplicate-snoc :
    (w c : ℕ) (ds : List Document) (e : Document)
    → find_duplicate w c ds ≡ none
    → find_duplicate w c (ds ++ e ∷ [])
      ≡ (if e.workspace_id == w && e.checksum == c then some e else none)
unfolding find_duplicate
find_duplicate-snoc w c [] e h = refl
find_duplicate-snoc w c (d ∷ ds) e h = ground (arith, find_duplicate-snoc w c ds e)

no_row_here :
    (b : Bool) (d : Document) (o : Option Document)
    → (if b then some d else o) ≡ none
    → (b ≡ false) × (o ≡ none)
no_row_here true d o h = cc h
no_row_here false d o h = (refl, h)

snoc-IsUnique :
    (ds : List Document) (e : Document)
    → find_duplicate e.workspace_id e.checksum ds ≡ none
    → IsUnique ds
    → IsUnique (ds ++ e ∷ [])
unfolding find_duplicate
snoc-IsUnique [] e fresh h = (refl, tt)
snoc-IsUnique (d ∷ ds) e fresh h =
    let (other, later) =
      no_row_here (d.workspace_id == e.workspace_id && d.checksum == e.checksum) d _ fresh in
    let swapped : (e.workspace_id == d.workspace_id && e.checksum == d.checksum) ≡ false =
      ground (arith, other) in
    (
      find_duplicate-snoc d.workspace_id d.checksum ds e h.0 ∙ rw swapped refl,
      snoc-IsUnique ds e later h.1,
    )

-- The first row that a search finds is here, or later.
found_row :
    (b : Bool) (d e : Document) (o : Option Document)
    → (if b then some d else o) ≡ some e
    → ((b ≡ true) × (d ≡ e)) ⊎ ((b ≡ false) × (o ≡ some e))
found_row true d e o h = inl (refl, some-injective d e h)
found_row false d e o h = inr (refl, h)

abbrev pub document_ids : List Document → List ℕ
document_ids [] = []
document_ids (d ∷ ds) = d.id ∷ document_ids ds

found_contains :
    (w c : ℕ) (ds : List Document) (e : Document)
    → find_duplicate w c ds ≡ some e
    → contains e.id (document_ids ds) ≡ true
unfolding find_duplicate
found_contains w c [] e h = cc h
found_contains w c (d ∷ ds) e h =
    elim (found_row (d.workspace_id == w && d.checksum == c) d e _ h) [
      | inl (matches, same) ↦
          let key : d.id ≡ e.id = ap (λ (x : Document). x.id) same in ground (arith, key)
      | inr (other, later) ↦ ground (arith, found_contains w c ds e later)
    ]

find_duplicate-set_document :
    (w c : ℕ) (f : Document → Document) (ds : List Document) (e : Document)
    → KeepsKey f
    → find_duplicate w c ds ≡ some e
    → IsDistinct (document_ids ds)
    → find_duplicate w c (set_document e.id f ds) ≡ some (f e)
unfolding find_duplicate set_document
find_duplicate-set_document w c f [] e keeps h ids = cc h
find_duplicate-set_document w c f (d ∷ ds) e keeps h ids =
    elim (found_row (d.workspace_id == w && d.checksum == c) d e _ h) [
      | inl (matches, same) ↦
          let here : (d.id == e.id) ≡ true =
            subst (λ (x : Document). (d.id == x.id) ≡ true) same (==_refl d.id) in
          let still : ((f d).workspace_id == w && (f d).checksum == c) ≡ true =
            ground (arith, matches, keeps d) in
          rw here (rw still (ap (λ x. some (f x)) same))
      | inr (other, later) ↦
          let there : (d.id == e.id) ≡ false =
            ground (arith, ids.0, found_contains w c ds e later) in
          rw there (rw other (find_duplicate-set_document w c f ds e keeps later ids.1))
    ]

module _ (p : Platform) (up : Upload) where
  -- What an upload makes of the store where the storage and the queue answer.
  abbrev placed : SourceType → Option Document → Store → IntakeResult × Store
  placed kind none s = (
    record { document = new_document p up kind; duplicate = false },
    queue_job up.job_id up.document_id (record s {
      documents = s.documents ++ new_document p up kind ∷ [];
      keys = s.keys ++ new_key p up ∷ [];
    }),
  )
  placed kind (some existing) s =
      if is_usable existing.status then (record { document = existing; duplicate = true }, s) else (
        record { document = pending_again existing; duplicate = false },
        requeue_document up.job_id existing s,
      )

  went_on :
      (stop : Bool) (e : AppError) (s t : Store) (r : IntakeResult)
      (out : Result IntakeResult × Store)
      → ◌≡◌ {A = Result IntakeResult × Store} (if stop then (err e, s) else out) (ok r, t)
      → (stop ≡ false) × (out ≡ (ok r, t))
  went_on true e s t r out h = cc h
  went_on false e s t r out h = (refl, h)

  answered :
      (put : Result (Unit {0})) (s t : Store) (r : IntakeResult)
      (then_do : Result IntakeResult × Store)
      → ◌≡◌ {A = Result IntakeResult × Store}
          (elim put [ err e ↦ (err e, s) | ok _ ↦ then_do ])
          (ok r, t)
      → then_do ≡ (ok r, t)
  answered (err e) s t r then_do h = cc h
  answered (ok _) s t r then_do h = h

  pushed :
      (push : Result (Unit {0})) (left t : Store) (r : IntakeResult) (out : IntakeResult × Store)
      → ◌≡◌ {A = Result IntakeResult × Store}
          (elim push [ err e ↦ (err e, left) | ok _ ↦ (ok out.0, out.1) ])
          (ok r, t)
      → out ≡ (r, t)
  pushed (err e) left t r out h = cc h
  pushed (ok _) left t r (r', t') h = cc h

  usable_or :
      (b : Bool) (x y : IntakeResult × Store) (out : Result IntakeResult × Store) (s : Store)
      (r : IntakeResult) (t : Store)
      → (out ≡ (ok r, t) → y ≡ (r, t))
      → ◌≡◌ {A = Result IntakeResult × Store} (if b then (ok x.0, x.1) else out) (ok r, t)
      → (if b then x else y) ≡ (r, t)
  usable_or true (r', t') y out s r t k h = cc h
  usable_or false x y out s r t k h = k h

  place-placed :
      (kind : SourceType) (o : Option Document) (s t : Store) (r : IntakeResult)
      → place p up kind o s ≡ (ok r, t)
      → placed kind o s ≡ (r, t)
  unfolding place
  place-placed kind none s t r h =
      pushed p.push _ t r (placed kind none s) (answered p.put s t r _ h)
  place-placed kind (some e) s t r h =
      usable_or (is_usable e.status) _ _ _ s r t (pushed p.push s t r _) h

  placed-IsUnique :
      (kind : SourceType) (o : Option Document) (s : Store)
      → find_duplicate up.workspace_id (p.sha256 up.bytes) s.documents ≡ o
      → IsUnique s.documents
      → IsUnique (placed kind o s).1.documents
  unfolding queue_job requeue_document
  placed-IsUnique kind none s fresh h = snoc-IsUnique s.documents (new_document p up kind) fresh h
  placed-IsUnique kind (some e) s found h = elim (Bool-cases (is_usable e.status)) [
    | inl usable ↦ rw usable h
    | inr stuck ↦
        rw stuck (set_document-IsUnique e.id pending_again s.documents (λ d. (refl, refl)) h)
  ]

  typed_intake-IsUnique :
      (kind : Result SourceType) (s t : Store) (r : IntakeResult)
      → typed_intake p up kind s ≡ (ok r, t)
      → IsUnique s.documents
      → IsUnique t.documents
  unfolding typed_intake
  typed_intake-IsUnique (err e) s t r h unique = cc h
  typed_intake-IsUnique (ok kind) s t r h unique =
      let o = find_duplicate up.workspace_id (p.sha256 up.bytes) s.documents in
      let made = place-placed kind o s t r h in
      subst (λ (x : IntakeResult × Store). IsUnique x.1.documents) made
        (placed-IsUnique kind o s refl unique)

  -- What an upload that is taken has passed.
  intake_bytes_passed :
      (s t : Store) (r : IntakeResult)
      → intake_bytes p up s ≡ (ok r, t)
      → typed_intake p up (resolved_type p up) s ≡ (ok r, t)
  unfolding intake_bytes
  intake_bytes_passed s t r h =
      let (some_bytes, h1) = went_on (is_empty up.bytes) _ s t r _ h in
      (went_on (ltb p.max_upload_bytes (length up.bytes)) _ s t r _ h1).1

  intake_bytes-IsUnique :
      (s t : Store) (r : IntakeResult)
      → intake_bytes p up s ≡ (ok r, t)
      → IsUnique s.documents
      → IsUnique t.documents
  intake_bytes-IsUnique s t r h unique =
      typed_intake-IsUnique (resolved_type p up) s t r (intake_bytes_passed s t r h) unique

  -- The same upload again, with other ids for its rows.
  abbrev pub again : ℕ → ℕ → Upload
  again document_id job_id = record up { document_id = document_id; job_id = job_id }

  find_duplicate-placed :
      (kind : SourceType) (o : Option Document) (s : Store)
      → find_duplicate up.workspace_id (p.sha256 up.bytes) s.documents ≡ o
      → IsDistinct (document_ids s.documents)
      → (find_duplicate up.workspace_id (p.sha256 up.bytes) (placed kind o s).1.documents
          ≡ some (placed kind o s).0.document)
        × (is_usable (placed kind o s).0.document.status ≡ true)
  unfolding queue_job requeue_document
  find_duplicate-placed kind none s fresh ids =
      let same : (up.workspace_id == up.workspace_id && p.sha256 up.bytes == p.sha256 up.bytes)
          ≡ true =
        ground arith in
      (
        find_duplicate-snoc up.workspace_id (p.sha256 up.bytes) s.documents (new_document p up kind)
              fresh
            ∙ rw same refl,
        refl,
      )
  find_duplicate-placed kind (some e) s found ids = elim (Bool-cases (is_usable e.status)) [
    | inl usable ↦ rw usable (found, usable)
    | inr stuck ↦ rw stuck (
      find_duplicate-set_document up.workspace_id (p.sha256 up.bytes) pending_again s.documents e
          (λ d. (refl, refl)) found ids,
      refl,
    )
  ]

  place-again :
      (kind : SourceType) (o : Option Document) (t : Store) (d : Document) (id job : ℕ)
      → o ≡ some d
      → is_usable d.status ≡ true
      → place p (again id job) kind o t ≡ (ok (record { document = d; duplicate = true }), t)
  unfolding place
  place-again kind none t d id job e usable = cc e
  place-again kind (some x) t d id job e usable =
      let same : d ≡ x = some-injective d x (sym e) in
      subst
        (λ (y : Document).
          ◌≡◌ {A = Result IntakeResult × Store} (place p (again id job) kind (some y) t)
            (ok (record { document = d; duplicate = true }), t))
        same (rw usable refl)

  typed_intake-again :
      (kind : Result SourceType) (s t : Store) (r : IntakeResult) (id job : ℕ)
      → IsDistinct (document_ids s.documents)
      → typed_intake p up kind s ≡ (ok r, t)
      → typed_intake p (again id job) kind t
        ≡ (ok (record { document = r.document; duplicate = true }), t)
  unfolding typed_intake
  typed_intake-again (err e) s t r id job ids h = cc h
  typed_intake-again (ok kind) s t r id job ids h =
      let o = find_duplicate up.workspace_id (p.sha256 up.bytes) s.documents in
      let made = place-placed kind o s t r h in
      let (found, usable) =
        subst
          (λ (x : IntakeResult × Store).
            (find_duplicate up.workspace_id (p.sha256 up.bytes) x.1.documents ≡ some x.0.document)
            × (is_usable x.0.document.status ≡ true))
          made (find_duplicate-placed kind o s refl ids) in
      place-again kind _ t r.document id job found usable

  -- An upload that is taken keeps the documents of a workspace different in their bytes. The same upload
  -- again, right after it, gives the document of the first as a duplicate and changes nothing: no row,
  -- no stored key and no job; the ids of the documents were different.
  pub intake_bytes-again :
      (s t : Store) (r : IntakeResult) (id job : ℕ)
      → IsUnique s.documents
      → IsDistinct (document_ids s.documents)
      → intake_bytes p up s ≡ (ok r, t)
      → IsUnique t.documents
        × (intake_bytes p (again id job) t
            ≡ (ok (record { document = r.document; duplicate = true }), t))
  unfolding intake_bytes
  intake_bytes-again s t r id job unique ids h =
      let (has_bytes, h1) = went_on (is_empty up.bytes) _ s t r _ h in
      let (within, h2) = went_on (ltb p.max_upload_bytes (length up.bytes)) _ s t r _ h1 in
      (
        intake_bytes-IsUnique s t r h unique,
        rw has_bytes (rw within (typed_intake-again (resolved_type p up) s t r id job ids h2)),
      )
