-- ===== src/Fusion/Diversify/Backfill.antt =====
-- The two passes of `_backfill` in `diversify`.
use knowledgeos.Prelude.{
  ℕ, ◌+◌, ◌≤◌, ◌≡◌, sym, ◌∙◌, Bool, true, false, Option, some, List, [], ◌∷◌, leb, length, contains,
  arith, All, IsDistinct, Bool-cases, inl, inr, length-append, SameMembers, min,
}
use knowledgeos.Fusion.{FusedHit}
use knowledgeos.Fusion.Merge.{hit_ids, find_hit}
use knowledgeos.Text.{Text, Unicode}
use knowledgeos.Fusion.Diversify.{Selection, add_hit, is_capped, is_full, skips, backfill_from}
use knowledgeos.Fusion.Diversify.Invariant.{left_out, left_out_other}
use knowledgeos.Fusion.Diversify.Maximal.{add_hit-SameMembers}
use knowledgeos.Fusion.Diversify.Passes.{
  IsSelection, IsWithinCap, add_hit-IsSelection, add_hit-IsWithinCap,
}

module _ {Float : Type 0} (u : Unicode) (contents : ℕ → Option Text) (documents : ℕ → Option ℕ)
    (limit cap : ℕ) (hits : List (FusedHit Float)) (distinct : IsDistinct (hit_ids hits)) where
  pub not_chosen :
      (respect : Bool) (chosen : List ℕ) (h : FusedHit Float) (s : Selection Float)
      → skips u contents documents limit cap respect chosen h s ≡ false
      → contains h.chunk_id chosen ≡ false
  unfolding skips
  not_chosen respect chosen h s e = ground arith

  not_capped :
      (chosen : List ℕ) (h : FusedHit Float) (s : Selection Float)
      → skips u contents documents limit cap true chosen h s ≡ false
      → is_capped u contents documents limit cap h s ≡ false
  unfolding skips
  not_capped chosen h s e = ground arith

  -- The cap is kept by the pass that honours it.
  abbrev pub CapIf : Bool → Selection Float → Type 0
  CapIf true s = IsWithinCap u contents documents limit cap hits distinct s
  CapIf false s = Unit

  add_hit-CapIf :
      (respect : Bool) (chosen : List ℕ) (h : FusedHit Float) (s : Selection Float)
      → IsSelection u contents documents limit cap hits distinct s
      → CapIf respect s
      → skips u contents documents limit cap respect chosen h s ≡ false
      → CapIf respect (add_hit u contents documents limit cap h s)
  add_hit-CapIf true chosen h s v w e =
      add_hit-IsWithinCap u contents documents limit cap hits distinct h s v w
        (not_capped chosen h s e)
  add_hit-CapIf false chosen h s v w e = tt

  pub backfill_from-IsSelection :
      (respect : Bool) (rest : List (FusedHit Float)) (chosen : List ℕ) (s : Selection Float)
      → All (λ h. find_hit h.chunk_id hits ≡ some h) rest
      → SameMembers chosen (hit_ids s.selected)
      → IsSelection u contents documents limit cap hits distinct s
      → CapIf respect s
      → let t = backfill_from u contents documents limit cap respect rest chosen s in
        IsSelection u contents documents limit cap hits distinct t × CapIf respect t
  unfolding backfill_from
  backfill_from-IsSelection respect [] chosen s a m v w = (v, w)
  backfill_from-IsSelection respect (h ∷ rest) chosen s a m v w =
      elim (Bool-cases (is_full u contents documents limit cap s)) [
        | inl full ↦ rw full (v, w)
        | inr room ↦
            rw room (elim (Bool-cases (skips u contents documents limit cap respect chosen h s)) [
              | inl skip ↦ rw skip (backfill_from-IsSelection respect rest chosen s a.1 m v w)
              | inr new ↦ rw new (
                  backfill_from-IsSelection respect rest (h.chunk_id ∷ chosen)
                    (add_hit u contents documents limit cap h s) a.1
                    (add_hit-SameMembers u contents documents limit cap h s chosen m)
                    (add_hit-IsSelection u contents documents limit cap hits distinct h s v a.0
                      (sym (m h.chunk_id) ∙ not_chosen respect chosen h s new) room)
                    (add_hit-CapIf respect chosen h s v w new))
            ])
      ]

  length-add_hit :
      (h : FusedHit Float) (s : Selection Float)
      → length (add_hit u contents documents limit cap h s).selected ≡ length s.selected + 1
  unfolding add_hit
  length-add_hit h s = omega (arith, length-append s.selected (h ∷ []))

  full_length :
      (s : Selection Float) (b : Bool)
      → is_full u contents documents limit cap s ≡ b
      → leb limit (length s.selected) ≡ b
  unfolding is_full
  full_length s b e = e

  skips_chosen :
      (chosen : List ℕ) (h : FusedHit Float) (s : Selection Float)
      → skips u contents documents limit cap false chosen h s ≡ contains h.chunk_id chosen
  unfolding skips
  skips_chosen chosen h s = ground arith

  -- The last resort takes every hit that is left, as far as there is room.
  pub length-backfill_from :
      (rest : List (FusedHit Float)) (chosen : List ℕ) (s : Selection Float)
      → IsDistinct (hit_ids rest)
      → length s.selected ≤ limit
      → length (backfill_from u contents documents limit cap false rest chosen s).selected
        ≡ min limit (length s.selected + left_out chosen rest)
  unfolding backfill_from
  length-backfill_from [] chosen s d b = omega arith
  length-backfill_from (h ∷ rest) chosen s d b =
      elim (Bool-cases (is_full u contents documents limit cap s)) [
        | inl full ↦ rw full (ground (arith, full_length s true full))
        | inr room ↦
            rw (room, skips_chosen chosen h s)
              (elim (Bool-cases (contains h.chunk_id chosen)) [
                | inl old ↦ rw old (length-backfill_from rest chosen s d.1 b)
                | inr new ↦ rw new (
                    ground (
                      arith,
                      full_length s false room,
                      length-add_hit h s,
                      left_out_other h.chunk_id chosen rest d.0,
                      length-backfill_from rest (h.chunk_id ∷ chosen)
                          (add_hit u contents documents limit cap h s) d.1,
                    ))
              ])
      ]
