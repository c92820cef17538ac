-- ===== src/Fusion/Diversify/Laws.antt =====
-- What `diversify` promises: how many hits it returns, which, and how many of one document.
use knowledgeos.Prelude.{
  ℕ, ◌≤◌, ◌≡◌, refl, sym, subst, true, false, ◌⊎◌, Option, none, some, List, [], ◌∷◌, leb, length,
  contains, arith, All, IsDistinct, Bool-cases, inl, inr, min, take_of_length-le,
}
use knowledgeos.Fusion.{FusedHit}
use knowledgeos.Fusion.Merge.{hit_ids, find_hit}
use knowledgeos.Text.{Text, Unicode}
use knowledgeos.Fusion.Diversify.{
  Selection, is_capped, is_full, greedy, backfill, within_cap, diversify,
}
use knowledgeos.Fusion.Diversify.Invariant.{left_out_nil, IsDistinct-All_found, count_document}
use knowledgeos.Fusion.Diversify.Passes.{IsSelection, IsWithinCap, greedy-IsBalanced}
use knowledgeos.Fusion.Diversify.Maximal.{
  Grows, backfill_from-Grows, Grows-IsSettled, IsSettled, backfill_from-IsSettled,
}
use knowledgeos.Fusion.Diversify.Backfill.{backfill_from-IsSelection, length-backfill_from}

module _ {Float : Type 0} (u : Unicode) (contents : ℕ → Option Text) (documents : ℕ → Option ℕ)
    (limit cap : ℕ) (hits : List (FusedHit Float)) (distinct : IsDistinct (hit_ids hits)) where
  abbrev start : Selection Float
  start = record { selected = []; per_document = λ _. 0 }

  abbrev greedy_done : Selection Float
  greedy_done = greedy u contents documents limit cap hits start

  abbrev capped : Selection Float
  capped = within_cap u contents documents limit cap hits

  abbrev chosen_hits : List (FusedHit Float)
  chosen_hits = diversify u contents documents limit cap hits

  start-IsSelection : IsSelection u contents documents limit cap hits distinct start
  start-IsSelection = record {
    partition = omega (arith, left_out_nil hits);
    once = tt;
    bounded = omega arith;
    counted = λ d. refl;
    found = tt;
  }

  fresh_start : (rest : List (FusedHit Float)) → All (λ h. contains h.chunk_id [] ≡ false) rest
  fresh_start [] = tt
  fresh_start (h ∷ rest) = (refl, fresh_start rest)

  greedy_done-IsBalanced :
      IsSelection u contents documents limit cap hits distinct greedy_done
      × IsWithinCap u contents documents limit cap hits distinct greedy_done
  greedy_done-IsBalanced =
      greedy-IsBalanced u contents documents limit cap hits distinct hits start distinct
        (IsDistinct-All_found hits distinct) (fresh_start hits)
        (start-IsSelection, λ d. omega arith)

  capped-IsBalanced :
      IsSelection u contents documents limit cap hits distinct capped
      × IsWithinCap u contents documents limit cap hits distinct capped
  unfolding within_cap
  capped-IsBalanced = elim (Bool-cases (is_full u contents documents limit cap greedy_done)) [
    | inl full ↦ rw full greedy_done-IsBalanced
    | inr room ↦ rw room (
        backfill_from-IsSelection u contents documents limit cap hits distinct true hits
          (hit_ids greedy_done.selected) greedy_done (IsDistinct-All_found hits distinct)
          (λ j. refl) greedy_done-IsBalanced.0 greedy_done-IsBalanced.1)
  ]

  abbrev final : Selection Float
  final = backfill u contents documents limit cap false hits capped

  final-IsSelection : IsSelection u contents documents limit cap hits distinct final
  unfolding backfill
  final-IsSelection = elim (Bool-cases (is_full u contents documents limit cap capped)) [
    | inl full ↦ rw full capped-IsBalanced.0
    | inr room ↦
        rw room
          (backfill_from-IsSelection u contents documents limit cap hits distinct false hits
            (hit_ids capped.selected) capped (IsDistinct-All_found hits distinct) (λ j. refl)
            capped-IsBalanced.0 tt).0
  ]

  chosen_hits_lem : chosen_hits ≡ final.selected
  unfolding diversify
  chosen_hits_lem = take_of_length-le limit final.selected final-IsSelection.bounded

  -- From distinct hits: the selection has no chunk twice, and each of its hits is one of those given.
  pub diversify-found :
      IsDistinct (hit_ids chosen_hits) × All (λ h. find_hit h.chunk_id hits ≡ some h) chosen_hits
  diversify-found = rw chosen_hits_lem (final-IsSelection.once, final-IsSelection.found)

  length-final : length final.selected ≡ min limit (length hits)
  unfolding backfill is_full
  length-final =
      let v = capped-IsBalanced.0 in
      elim (Bool-cases (is_full u contents documents limit cap capped)) [
        | inl full ↦ rw full (ground (arith, v.bounded, v.partition))
        | inr room ↦ rw room (
            omega (
              arith,
              v.partition,
              length-backfill_from u contents documents limit cap hits distinct hits
                  (hit_ids capped.selected) capped distinct v.bounded,
            ))
      ]

  -- From distinct hits, diversity never costs a source: the selection has as many hits as the limit and the candidates
  -- allow.
  pub length-diversify : length chosen_hits ≡ min limit (length hits)
  length-diversify = rw chosen_hits_lem length-final

  -- A hit is selected, or the selection has `cap` chunks of its document.
  abbrev pub IsSettledIn : List (FusedHit Float) → FusedHit Float → Type 0
  IsSettledIn chosen h =
      (contains h.chunk_id (hit_ids chosen) ≡ true)
      ⊎ ((doc : ℕ) × (documents h.chunk_id ≡ some doc)
          × (cap ≤ count_document documents doc chosen))

  settled_in :
      (s : Selection Float) (h : FusedHit Float)
      → IsSelection u contents documents limit cap hits distinct s
      → IsSettled u contents documents limit cap s h
      → IsSettledIn s.selected h
  unfolding is_capped
  settled_in s h v e = elim (Bool-cases (contains h.chunk_id (hit_ids s.selected))) [
    | inl here ↦ inl here
    | inr absent ↦ inr (by_document (documents h.chunk_id) refl (rw absent at e))
  ]
    where
      by_document :
          (o : Option ℕ)
          → documents h.chunk_id ≡ o
          → elim o [ none ↦ false | some doc ↦ leb cap (s.per_document doc) ] ≡ true
          → (doc : ℕ) × (documents h.chunk_id ≡ some doc)
            × (cap ≤ count_document documents doc s.selected)
      by_document none p q = cc
      by_document (some doc) p q = (doc, p, ground (arith, v.counted doc))

  All-IsSettledIn :
      (rest : List (FusedHit Float))
      → All (IsSettled u contents documents limit cap capped) rest
      → Grows u contents documents limit cap capped final
      → All (IsSettledIn final.selected) rest
  All-IsSettledIn [] a g = tt
  All-IsSettledIn (h ∷ rest) a g = (
    settled_in final h final-IsSelection
        (Grows-IsSettled u contents documents limit cap capped final h g a.0),
    All-IsSettledIn rest a.1 g,
  )

  capped-IsSettled :
      is_full u contents documents limit cap capped ≡ false
      → All (IsSettled u contents documents limit cap capped) hits
  unfolding within_cap
  capped-IsSettled short = elim (Bool-cases (is_full u contents documents limit cap greedy_done)) [
    | inl full ↦ absurd (cc (full, short, unchanged full))
    | inr room ↦
        backfill_from-IsSettled u contents documents limit cap hits (hit_ids greedy_done.selected)
          greedy_done capped (λ j. refl) (rw room refl) short
  ]
    where
      unchanged :
          is_full u contents documents limit cap greedy_done ≡ true
          → is_full u contents documents limit cap capped
            ≡ is_full u contents documents limit cap greedy_done
      unchanged full = rw full full

  final-Grows :
      is_full u contents documents limit cap capped ≡ false
      → Grows u contents documents limit cap capped final
  unfolding backfill
  final-Grows short = rw short (
      backfill_from-Grows u contents documents limit cap false hits (hit_ids capped.selected)
        capped)

  final_full : is_full u contents documents limit cap capped ≡ true → final ≡ capped
  unfolding backfill
  final_full full = rw full refl

  -- From distinct hits: no document has more than `cap` chunks in the selection, or every hit that is not selected is
  -- of a document that has at least `cap` there.
  diversify_cap :
      ((doc : ℕ) → count_document documents doc chosen_hits ≤ cap)
      ⊎ All (IsSettledIn chosen_hits) hits
  diversify_cap =
      rw chosen_hits_lem (elim (Bool-cases (is_full u contents documents limit cap capped)) [
        | inl full ↦ inl (λ doc.
            subst (λ (s : Selection Float). count_document documents doc s.selected ≤ cap)
              (sym (final_full full)) (capped-IsBalanced.1 doc))
        | inr room ↦ inr (All-IsSettledIn hits (capped-IsSettled room) (final-Grows room))
      ])

  -- From distinct hits: the selection has no chunk twice, each of its hits is one of those given, and it
  -- has as many as the limit and the candidates allow. No document has more than `cap` chunks in it, or
  -- every hit that is not selected is of a document that has at least `cap` there.
  pub diversify_lem :
      IsDistinct (hit_ids chosen_hits)
      × All (λ h. find_hit h.chunk_id hits ≡ some h) chosen_hits
      × (length chosen_hits ≡ min limit (length hits))
      × (((doc : ℕ) → count_document documents doc chosen_hits ≤ cap)
          ⊎ All (IsSettledIn chosen_hits) hits)
  diversify_lem = (diversify-found.0, diversify-found.1, length-diversify, diversify_cap)
