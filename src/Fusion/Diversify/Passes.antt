-- ===== src/Fusion/Diversify/Passes.antt =====
-- The passes of `diversify` keep the invariant of the selection; those that honour the cap keep
-- every document within it.
use knowledgeos.Prelude.{
  ℕ, ◌+◌, ◌≤◌, ◌≡◌, false, Option, none, some, List, [], ◌∷◌, ◌++◌, length, contains, arith, All,
  All-append, IsDistinct, Bool-cases, inl, inr, length-append, IsDistinct-snoc, contains-snoc,
}
use knowledgeos.Fusion.{FusedHit}
use knowledgeos.Fusion.Merge.{hit_ids, find_hit}
use knowledgeos.Text.{Text, Unicode}
use knowledgeos.Fusion.Diversify.{
  Selection, add_hit, bump, is_capped, is_similar_to, is_full, greedy_step, greedy,
}
use knowledgeos.Fusion.Diversify.Invariant.{
  hit_ids-append, left_out, left_out_same, left_out_member, find_hit-contains, count_document,
  count_document-snoc,
}

bump_ext : (o : Option ℕ) (f g : ℕ → ℕ) (d : ℕ) → ((e : ℕ) → f e ≡ g e) → bump o f d ≡ bump o g d
bump_ext none f g d h = h d
bump_ext (some doc) f g d h = ground (arith, h d)

module _ {Float : Type 0} (u : Unicode) (contents : ℕ → Option Text) (documents : ℕ → Option ℕ)
    (limit cap : ℕ) (hits : List (FusedHit Float)) (distinct : IsDistinct (hit_ids hits)) where
  pub record IsSelection (s : Selection Float) : Type 0 where
    pub partition : length s.selected + left_out (hit_ids s.selected) hits ≡ length hits
    pub once : IsDistinct (hit_ids s.selected)
    pub bounded : length s.selected ≤ limit
    pub counted : (d : ℕ) → s.per_document d ≡ count_document documents d s.selected
    pub found : All (λ h. find_hit h.chunk_id hits ≡ some h) s.selected

  abbrev pub IsWithinCap : Selection Float → Type 0
  IsWithinCap s = (d : ℕ) → count_document documents d s.selected ≤ cap

  pub add_hit-IsSelection :
      (h : FusedHit Float) (s : Selection Float)
      → IsSelection s
      → find_hit h.chunk_id hits ≡ some h
      → contains h.chunk_id (hit_ids s.selected) ≡ false
      → is_full u contents documents limit cap s ≡ false
      → IsSelection (add_hit u contents documents limit cap h s)
  unfolding add_hit is_full
  add_hit-IsSelection h s v f n room = record {
    partition = rw hit_ids-append (
        omega (
          arith,
          v.partition,
          length-append s.selected (h ∷ []),
          left_out_same (hit_ids s.selected ++ h.chunk_id ∷ []) (h.chunk_id ∷ hit_ids s.selected)
              hits (λ j. contains-snoc j h.chunk_id (hit_ids s.selected)),
          left_out_member h.chunk_id (hit_ids s.selected) hits distinct
              (find_hit-contains h.chunk_id h hits f) n,
        ));
    once = rw hit_ids-append (IsDistinct-snoc (hit_ids s.selected) h.chunk_id v.once n);
    bounded = ground (arith, length-append s.selected (h ∷ []));
    counted = λ d. rw count_document-snoc (
        bump_ext (documents h.chunk_id) s.per_document (λ e. count_document documents e s.selected)
          d v.counted);
    found = All-append _ s.selected (h ∷ []) v.found (f, tt);
  }

  pub add_hit-IsWithinCap :
      (h : FusedHit Float) (s : Selection Float)
      → IsSelection s
      → IsWithinCap s
      → is_capped u contents documents limit cap h s ≡ false
      → IsWithinCap (add_hit u contents documents limit cap h s)
  unfolding add_hit is_capped
  add_hit-IsWithinCap h s v w free d = rw count_document-snoc (ground (arith, w d, v.counted d))

  abbrev pub IsFresh : Selection Float → List (FusedHit Float) → Type 0
  IsFresh s = All (λ x. contains x.chunk_id (hit_ids s.selected) ≡ false)

  abbrev pub AllFound : List (FusedHit Float) → Type 0
  AllFound = All (λ h. find_hit h.chunk_id hits ≡ some h)

  add_hit-IsFresh :
      (h : FusedHit Float) (s : Selection Float) (rest : List (FusedHit Float))
      → contains h.chunk_id (hit_ids rest) ≡ false
      → IsFresh s rest
      → IsFresh (add_hit u contents documents limit cap h s) rest
  unfolding add_hit
  add_hit-IsFresh h s [] n f = tt
  add_hit-IsFresh h s (x ∷ rest) n f = (
    rw (hit_ids-append, contains-snoc) (ground (arith, f.0)),
    add_hit-IsFresh h s rest (ground arith) f.1,
  )

  -- What holds while the passes that honour the cap run.
  abbrev pub IsBalanced : Selection Float → Type 0
  IsBalanced s = IsSelection s × IsWithinCap s

  greedy_step-IsBalanced :
      (h : FusedHit Float) (s : Selection Float)
      → IsBalanced s
      → find_hit h.chunk_id hits ≡ some h
      → contains h.chunk_id (hit_ids s.selected) ≡ false
      → is_full u contents documents limit cap s ≡ false
      → IsBalanced (greedy_step u contents documents limit cap h s)
  unfolding greedy_step
  greedy_step-IsBalanced h s (v, w) f n room =
      elim (Bool-cases (is_capped u contents documents limit cap h s)) [
        | inl capped ↦ rw capped (v, w)
        | inr free ↦
            rw free (elim (Bool-cases (is_similar_to u contents documents limit cap h s.selected)) [
              | inl similar ↦ rw similar (v, w)
              | inr new ↦
                  rw new (add_hit-IsSelection h s v f n room, add_hit-IsWithinCap h s v w free)
            ])
      ]

  greedy_step-IsFresh :
      (h : FusedHit Float) (s : Selection Float) (rest : List (FusedHit Float))
      → contains h.chunk_id (hit_ids rest) ≡ false
      → IsFresh s rest
      → IsFresh (greedy_step u contents documents limit cap h s) rest
  unfolding greedy_step
  greedy_step-IsFresh h s rest n f =
      elim (Bool-cases (is_capped u contents documents limit cap h s)) [
        | inl capped ↦ rw capped f
        | inr free ↦
            rw free (elim (Bool-cases (is_similar_to u contents documents limit cap h s.selected)) [
              | inl similar ↦ rw similar f
              | inr new ↦ rw new (add_hit-IsFresh h s rest n f)
            ])
      ]

  pub greedy-IsBalanced :
      (rest : List (FusedHit Float)) (s : Selection Float)
      → IsDistinct (hit_ids rest)
      → AllFound rest
      → IsFresh s rest
      → IsBalanced s
      → IsBalanced (greedy u contents documents limit cap rest s)
  unfolding greedy
  greedy-IsBalanced [] s d a f b = b
  greedy-IsBalanced (h ∷ rest) s d a f b =
      elim (Bool-cases (is_full u contents documents limit cap s)) [
        | inl full ↦ rw full b
        | inr room ↦ rw room (
            greedy-IsBalanced rest (greedy_step u contents documents limit cap h s) d.1 a.1
              (greedy_step-IsFresh h s rest d.0 f.1) (greedy_step-IsBalanced h s b a.0 f.0 room))
      ]
