-- ===== src/Fusion/Diversify/Invariant.antt =====
-- What every pass of `diversify` keeps: the selection is a set of the hits, counted by document.
use knowledgeos.Prelude.{
  ℕ, ◌+◌, ◌≡◌, refl, ap, true, false, Option, none, some, List, [], ◌∷◌, ◌++◌, ◌==◌, if◌then◌else◌,
  length, contains, arith, All, IsDistinct, ==_refl, SameMembers,
}
use knowledgeos.Fusion.{FusedHit}
use knowledgeos.Fusion.Merge.{hit_ids, find_hit}
use knowledgeos.Fusion.Diversify.{bump}

module _ {Float : Type 0} where
  pub hit_ids-append :
      (xs ys : List (FusedHit Float)) → hit_ids (xs ++ ys) ≡ hit_ids xs ++ hit_ids ys
  hit_ids-append [] ys = refl
  hit_ids-append (x ∷ xs) ys = ap (◌∷◌ x.chunk_id) (hit_ids-append xs ys)

  -- The number of hits whose id is not in a list.
  abbrev pub left_out : List ℕ → List (FusedHit Float) → ℕ
  left_out chosen [] = 0
  left_out chosen (h ∷ hs) =
      if contains h.chunk_id chosen then left_out chosen hs else left_out chosen hs + 1

  pub left_out_same :
      (a b : List ℕ) (hs : List (FusedHit Float)) → SameMembers a b → left_out a hs ≡ left_out b hs
  left_out_same a b [] h = refl
  left_out_same a b (x ∷ hs) h = ground (arith, h x.chunk_id, left_out_same a b hs h)

  pub left_out_other :
      (x : ℕ) (c : List ℕ) (hs : List (FusedHit Float))
      → contains x (hit_ids hs) ≡ false
      → left_out (x ∷ c) hs ≡ left_out c hs
  left_out_other x c [] h = refl
  left_out_other x c (y ∷ hs) h = ground (arith, left_out_other x c hs)

  pub left_out_member :
      (x : ℕ) (c : List ℕ) (hs : List (FusedHit Float))
      → IsDistinct (hit_ids hs)
      → contains x (hit_ids hs) ≡ true
      → contains x c ≡ false
      → left_out (x ∷ c) hs + 1 ≡ left_out c hs
  left_out_member x c [] d m n = cc
  left_out_member x c (y ∷ hs) d m n =
      ground (arith, left_out_member x c hs d.1, left_out_other x c hs)

  pub left_out_nil : (hs : List (FusedHit Float)) → left_out [] hs ≡ length hs
  left_out_nil [] = refl
  left_out_nil (h ∷ hs) = omega (arith, left_out_nil hs)

  pub find_hit-contains :
      (id : ℕ) (h : FusedHit Float) (hs : List (FusedHit Float))
      → find_hit id hs ≡ some h
      → contains id (hit_ids hs) ≡ true
  unfolding find_hit
  find_hit-contains id h [] e = cc
  find_hit-contains id h (x ∷ hs) e = ground (arith, find_hit-contains id h hs)

  find_hit_later :
      (x : FusedHit Float) (hits rest : List (FusedHit Float))
      → contains x.chunk_id (hit_ids rest) ≡ false
      → All (λ h. find_hit h.chunk_id hits ≡ some h) rest
      → All (λ h. find_hit h.chunk_id (x ∷ hits) ≡ some h) rest
  unfolding find_hit
  find_hit_later x hits [] n a = tt
  find_hit_later x hits (h ∷ rest) n a =
      (ground (arith, a.0), find_hit_later x hits rest (ground arith) a.1)

  -- In a list without repeated ids, each hit is found under its id.
  pub IsDistinct-All_found :
      (hits : List (FusedHit Float))
      → IsDistinct (hit_ids hits)
      → All (λ h. find_hit h.chunk_id hits ≡ some h) hits
  unfolding find_hit
  IsDistinct-All_found [] d = tt
  IsDistinct-All_found (h ∷ hits) d =
      (rw (==_refl h.chunk_id) refl, find_hit_later h hits hits d.0 (IsDistinct-All_found hits d.1))

  -- The number of selected hits from a document.
  abbrev pub count_document : (ℕ → Option ℕ) → ℕ → List (FusedHit Float) → ℕ
  count_document documents d [] = 0
  count_document documents d (h ∷ hs) = elim (documents h.chunk_id) [
    | none ↦ count_document documents d hs
    | some doc ↦
        (if d == doc then count_document documents d hs + 1 else count_document documents d hs)
  ]

  pub count_document-snoc :
      (documents : ℕ → Option ℕ) (d : ℕ) (h : FusedHit Float) (hs : List (FusedHit Float))
      → count_document documents d (hs ++ h ∷ [])
        ≡ bump (documents h.chunk_id) (λ e. count_document documents e hs) d
  count_document-snoc documents d h [] = ground arith
  count_document-snoc documents d h (x ∷ hs) = ground (arith, count_document-snoc documents d h hs)
