-- ===== src/Fusion/Diversify/Maximal.antt =====
-- When the pass that honours the cap ends short of the limit, only capped documents are left.
use knowledgeos.Prelude.{
  ℕ, ◌≤◌, ◌≡◌, refl, ap, subst, Bool, true, false, ◌||◌, Option, none, some, List, [], ◌∷◌, leb,
  contains, arith, All, Bool-cases, inl, inr, ==_refl, SameMembers, contains-snoc,
}
use knowledgeos.Fusion.{FusedHit}
use knowledgeos.Fusion.Merge.{hit_ids}
use knowledgeos.Text.{Text, Unicode}
use knowledgeos.Fusion.Diversify.{
  Selection, add_hit, bump, is_capped, is_full, skips, backfill_from,
}
use knowledgeos.Fusion.Diversify.Invariant.{hit_ids-append}

le-bump : (o : Option ℕ) (f : ℕ → ℕ) (d : ℕ) → f d ≤ bump o f d
le-bump none f d = omega arith
le-bump (some doc) f d = ground arith

module _ {Float : Type 0} (u : Unicode) (contents : ℕ → Option Text) (documents : ℕ → Option ℕ)
    (limit cap : ℕ) where
  pub add_hit-SameMembers :
      (h : FusedHit Float) (s : Selection Float) (chosen : List ℕ)
      → SameMembers chosen (hit_ids s.selected)
      → SameMembers
          (h.chunk_id ∷ chosen)
          (hit_ids (add_hit u contents documents limit cap h s).selected)
  unfolding add_hit
  add_hit-SameMembers h s chosen same j =
      rw (hit_ids-append, contains-snoc) (ground (arith, same j))

  pub record Grows (s t : Selection Float) : Type 0 where
    ids : (j : ℕ) → contains j (hit_ids s.selected) ≡ true → contains j (hit_ids t.selected) ≡ true
    counts : (d : ℕ) → s.per_document d ≤ t.per_document d

  add_hit-Grows :
      (h : FusedHit Float) (s t : Selection Float)
      → Grows (add_hit u contents documents limit cap h s) t
      → Grows s t
  unfolding add_hit
  add_hit-Grows h s t g = record {
    ids = λ j e. g.ids j (rw (hit_ids-append, contains-snoc) (ground (arith, e)));
    counts = λ d. omega (arith, g.counts d, le-bump (documents h.chunk_id) s.per_document d);
  }

  pub backfill_from-Grows :
      (respect : Bool) (rest : List (FusedHit Float)) (chosen : List ℕ) (s : Selection Float)
      → Grows s (backfill_from u contents documents limit cap respect rest chosen s)
  unfolding backfill_from
  backfill_from-Grows respect [] chosen s = record { ids = λ j e. e; counts = λ d. omega arith }
  backfill_from-Grows respect (h ∷ rest) chosen s =
      elim (Bool-cases (is_full u contents documents limit cap s)) [
        | inl full ↦ rw full (record { ids = λ j e. e; counts = λ d. omega arith })
        | inr room ↦
            rw room (elim (Bool-cases (skips u contents documents limit cap respect chosen h s)) [
              | inl skip ↦ rw skip (backfill_from-Grows respect rest chosen s)
              | inr new ↦ rw new (
                  add_hit-Grows h s _ (
                    backfill_from-Grows respect rest (h.chunk_id ∷ chosen)
                      (add_hit u contents documents limit cap h s)))
            ])
      ]

  -- A hit is selected, or its document is at the cap.
  abbrev pub IsSettled : Selection Float → FusedHit Float → Type 0
  IsSettled s h =
      (contains h.chunk_id (hit_ids s.selected) || is_capped u contents documents limit cap h s)
      ≡ true

  pub Grows-IsSettled :
      (s t : Selection Float) (h : FusedHit Float) → Grows s t → IsSettled s h → IsSettled t h
  unfolding is_capped
  Grows-IsSettled s t h g e = elim (Bool-cases (contains h.chunk_id (hit_ids s.selected))) [
    | inl old ↦ ground (arith, g.ids h.chunk_id old)
    | inr new ↦ by_document (documents h.chunk_id) (rw new at e)
  ]
    where
      by_document :
          (o : Option ℕ)
          → elim o [ none ↦ false | some doc ↦ leb cap (s.per_document doc) ] ≡ true
          → (contains h.chunk_id (hit_ids t.selected)
              || elim o [ none ↦ false | some doc ↦ leb cap (t.per_document doc) ])
            ≡ true
      by_document none e = cc
      by_document (some doc) e = ground (arith, g.counts doc)

  skipped-IsSettled :
      (chosen : List ℕ) (h : FusedHit Float) (s : Selection Float)
      → SameMembers chosen (hit_ids s.selected)
      → skips u contents documents limit cap true chosen h s ≡ true
      → IsSettled s h
  unfolding skips
  skipped-IsSettled chosen h s m e = ground (arith, m h.chunk_id)

  added-IsSettled :
      (h : FusedHit Float) (s : Selection Float)
      → IsSettled (add_hit u contents documents limit cap h s) h
  unfolding add_hit
  added-IsSettled h s = rw (hit_ids-append, contains-snoc, ==_refl h.chunk_id) refl

  pub backfill_from-IsSettled :
      (rest : List (FusedHit Float)) (chosen : List ℕ) (s t : Selection Float)
      → SameMembers chosen (hit_ids s.selected)
      → backfill_from u contents documents limit cap true rest chosen s ≡ t
      → is_full u contents documents limit cap t ≡ false
      → All (IsSettled t) rest
  unfolding backfill_from
  backfill_from-IsSettled [] chosen s t m e short = tt
  backfill_from-IsSettled (h ∷ rest) chosen s t m e short =
      elim (Bool-cases (is_full u contents documents limit cap s)) [
        | inl full ↦ cc (full, short, ap (is_full u contents documents limit cap) (rw full at e))
        | inr room ↦ (elim (Bool-cases (skips u contents documents limit cap true chosen h s)) [
          | inl skip ↦
              let e' = rw (room, skip) at e in
              (
                Grows-IsSettled s t h (subst (Grows s) e' (backfill_from-Grows true rest chosen s))
                    (skipped-IsSettled chosen h s m skip),
                backfill_from-IsSettled rest chosen s t m e' short,
              )
          | inr new ↦
              let e' = rw (room, new) at e in
              let s' = add_hit u contents documents limit cap h s in
              (
                Grows-IsSettled s' t h
                    (subst (Grows s') e' (backfill_from-Grows true rest (h.chunk_id ∷ chosen) s'))
                    (added-IsSettled h s),
                backfill_from-IsSettled rest (h.chunk_id ∷ chosen) s' t
                    (add_hit-SameMembers h s chosen m) e' short,
              )
        ])
      ]
