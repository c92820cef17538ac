-- ===== src/Intake/Raised.antt =====
-- What an upload that raises leaves: `intake_bytes` of services/document_service.py.
use knowledgeos.Prelude.{
  ◌≡◌, refl, inl, inr, ◌⊎◌, Bool, true, false, Option, none, some, [], ◌∷◌, ◌++◌, ltb,
  if◌then◌else◌, length,
}
use knowledgeos.Text.{is_empty}
use knowledgeos.Errors.{AppError, Result, ok, err}
use knowledgeos.Content.{SourceType, Document}
use knowledgeos.Intake.{
  new_key, is_usable, place, Platform, Store, Upload, typed_intake, resolved_type, intake_bytes,
  IntakeResult,
}

module _ (p : Platform) (up : Upload) (s : Store) where
  -- Nothing, but where the queue raises, the bytes of a new document may be stored.
  abbrev pub IsLeft : AppError → Store → Type 0
  IsLeft e t =
      (t ≡ s)
      ⊎ ((p.put ≡ ok tt) × (p.push ≡ err e) × (t ≡ record s { keys = s.keys ++ new_key p up ∷ [] }))

  abbrev pub LeftIfRaised : Result IntakeResult × Store → Type 0
  LeftIfRaised (err e, t) = IsLeft e t
  LeftIfRaised (ok r, t) = Unit

  raised_push :
      (push : Result (Unit {0})) (left : Store) (out : IntakeResult × Store)
      → ((e : AppError) → push ≡ err e → IsLeft e left)
      → LeftIfRaised (elim push [ err e ↦ (err e, left) | ok _ ↦ (ok out.0, out.1) ])
  raised_push (err e) left out k = k e refl
  raised_push (ok _) left out k = tt

  raised_put :
      (put : Result (Unit {0})) (out : Result IntakeResult × Store)
      → (put ≡ ok tt → LeftIfRaised out)
      → LeftIfRaised (elim put [ err e ↦ (err e, s) | ok _ ↦ out ])
  raised_put (err e) out k = inl refl
  raised_put (ok _) out k = k refl

  unless :
      (stop : Bool) (a b : Result IntakeResult × Store)
      → LeftIfRaised a
      → LeftIfRaised b
      → LeftIfRaised (if stop then a else b)
  unless true a b ha hb = ha
  unless false a b ha hb = hb

  place-LeftIfRaised :
      (kind : SourceType) (o : Option Document) → LeftIfRaised (place p up kind o s)
  unfolding place
  place-LeftIfRaised kind none =
      raised_put p.put _ (λ put. raised_push p.push _ _ (λ e push. inr (put, push, refl)))
  place-LeftIfRaised kind (some d) =
      unless (is_usable d.status) _ _ tt (raised_push p.push s _ (λ e push. inl refl))

  typed_intake-LeftIfRaised : (kind : Result SourceType) → LeftIfRaised (typed_intake p up kind s)
  unfolding typed_intake
  typed_intake-LeftIfRaised (err e) = inl refl
  typed_intake-LeftIfRaised (ok kind) = place-LeftIfRaised kind _

  pub intake_bytes-LeftIfRaised : LeftIfRaised (intake_bytes p up s)
  unfolding intake_bytes
  intake_bytes-LeftIfRaised = unless (is_empty up.bytes) _ _ (inl refl) (
      unless (ltb p.max_upload_bytes (length up.bytes)) _ _ (inl refl)
        (typed_intake-LeftIfRaised (resolved_type p up)))
