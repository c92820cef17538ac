-- ===== src/Citation/Numbers.antt =====
-- Sets of marker numbers: added to, and sorted.
use knowledgeos.Prelude.{
  ℕ, ◌<◌, ◌≡◌, refl, true, false, ◌&&◌, ◌||◌, not, List, [], ◌∷◌, ◌++◌, leb, ◌==◌, arith, contains,
  IsDistinct, IsDistinct-snoc, contains-snoc, Bool-cases, inl, inr, All, ◌∙◌, sym,
}
use knowledgeos.Citation.Marker.{Segment, char, cited}
use knowledgeos.Citation.{
  insert_number, sort_numbers, add_once, in_range, Tally, note_number, note_numbers,
  replace_markers,
}

pub contains-add_once :
    (j n : ℕ) (ns : List ℕ) → contains j (add_once n ns) ≡ (j == n || contains j ns)
contains-add_once j n ns = elim (Bool-cases (contains n ns)) [
  | inl old ↦ rw old (same j n ns old)
  | inr new ↦ rw new (contains-snoc j n ns)
]
  where
    same :
        (j n : ℕ) (ns : List ℕ) → contains n ns ≡ true → contains j ns ≡ (j == n || contains j ns)
    same j n [] e = cc
    same j n (m ∷ ms) e = ground (arith, same j n ms)

pub add_once-IsDistinct : (n : ℕ) (ns : List ℕ) → IsDistinct ns → IsDistinct (add_once n ns)
add_once-IsDistinct n ns d = elim (Bool-cases (contains n ns)) [
  | inl old ↦ rw old d
  | inr new ↦ rw new (IsDistinct-snoc ns n d new)
]

-- Every number is below the ones that follow.
abbrev pub IsIncreasing : List ℕ → Type 0
IsIncreasing [] = Unit
IsIncreasing (n ∷ ns) = All (λ m. n < m) ns × IsIncreasing ns

contains-insert_number :
    (j n : ℕ) (ns : List ℕ) → contains j (insert_number n ns) ≡ (j == n || contains j ns)
unfolding insert_number
contains-insert_number j n [] = refl
contains-insert_number j n (m ∷ ms) = ground (arith, contains-insert_number j n ms)

pub contains-sort_numbers : (j : ℕ) (ns : List ℕ) → contains j (sort_numbers ns) ≡ contains j ns
unfolding sort_numbers
contains-sort_numbers j [] = refl
contains-sort_numbers j (n ∷ ns) =
    ground (arith, contains-insert_number j n (sort_numbers ns), contains-sort_numbers j ns)

All-below : (a b : ℕ) (ns : List ℕ) → a < b → All (λ m. b < m) ns → All (λ m. a < m) ns
All-below a b [] h p = tt
All-below a b (m ∷ ms) h p = (omega (arith, p.0), All-below a b ms h p.1)

insert_number-All :
    (a n : ℕ) (ns : List ℕ) → a < n → All (λ m. a < m) ns → All (λ m. a < m) (insert_number n ns)
unfolding insert_number
insert_number-All a n [] h p = (h, tt)
insert_number-All a n (m ∷ ms) h p = ground (arith, insert_number-All a n ms)

insert_number-IsIncreasing :
    (n : ℕ) (ns : List ℕ)
    → contains n ns ≡ false
    → IsIncreasing ns
    → IsIncreasing (insert_number n ns)
unfolding insert_number
insert_number-IsIncreasing n [] c p = (tt, tt)
insert_number-IsIncreasing n (m ∷ ms) c p = elim (Bool-cases (leb n m)) [
  | inl first ↦ rw first (let h : n < m = ground arith in ((h, All-below n m ms h p.0), p))
  | inr later ↦ rw later (
    insert_number-All m n ms (ground arith) p.0,
    insert_number-IsIncreasing n ms (ground arith) p.1,
  )
]

pub sort_numbers-IsIncreasing : (ns : List ℕ) → IsDistinct ns → IsIncreasing (sort_numbers ns)
unfolding sort_numbers
sort_numbers-IsIncreasing [] d = tt
sort_numbers-IsIncreasing (n ∷ ns) d =
    insert_number-IsIncreasing n (sort_numbers ns) (contains-sort_numbers n ns ∙ d.0)
      (sort_numbers-IsIncreasing ns d.1)

-- The numbers of all markers, in the order of the text.
abbrev pub cited_numbers : List Segment → List ℕ
cited_numbers [] = []
cited_numbers (char _ ∷ segs) = cited_numbers segs
cited_numbers (cited ns ∷ segs) = ns ++ cited_numbers segs

-- What a tally holds after some numbers, given what it held before.
pub record Holds (count : ℕ) (ns : List ℕ) (before after : Tally) : Type 0 where
  pub seen :
      (j : ℕ)
      → contains j after.seen ≡ (contains j before.seen || (in_range count j && contains j ns))
  pub stripped :
      (j : ℕ)
      → contains j after.stripped
        ≡ (contains j before.stripped || (not (in_range count j) && contains j ns))
  pub seen_once : IsDistinct before.seen → IsDistinct after.seen
  pub stripped_once : IsDistinct before.stripped → IsDistinct after.stripped

note_number-Holds : (count n : ℕ) (t : Tally) → Holds count (n ∷ []) t (note_number count n t)
unfolding note_number
note_number-Holds count n t = elim (Bool-cases (in_range count n)) [
  | inl valid ↦ rw valid (record {
    seen = λ j. rw (contains-add_once j n t.seen) (ground (arith, valid));
    stripped = λ j. ground (arith, valid);
    seen_once = add_once-IsDistinct n t.seen;
    stripped_once = λ d. d;
  })
  | inr invalid ↦ rw invalid (record {
    seen = λ j. ground (arith, invalid);
    stripped = λ j. rw (contains-add_once j n t.stripped) (ground (arith, invalid));
    seen_once = λ d. d;
    stripped_once = add_once-IsDistinct n t.stripped;
  })
]

pub note_numbers-Holds :
    (count : ℕ) (ns : List ℕ) (t : Tally) → Holds count ns t (note_numbers count ns t)
unfolding note_numbers
note_numbers-Holds count [] t = record {
  seen = λ j. ground arith;
  stripped = λ j. ground arith;
  seen_once = λ d. d;
  stripped_once = λ d. d;
}
note_numbers-Holds count (n ∷ ns) t =
    let first = note_number-Holds count n t in
    let rest = note_numbers-Holds count ns (note_number count n t) in
    record {
      seen = λ j. ground (arith, first.seen j, rest.seen j);
      stripped = λ j. ground (arith, first.stripped j, rest.stripped j);
      seen_once = λ d. rest.seen_once (first.seen_once d);
      stripped_once = λ d. rest.stripped_once (first.stripped_once d);
    }

note_numbers-append :
    (count : ℕ) (ns ms : List ℕ) (t : Tally)
    → note_numbers count (ns ++ ms) t ≡ note_numbers count ms (note_numbers count ns t)
unfolding note_numbers
note_numbers-append count [] ms t = refl
note_numbers-append count (n ∷ ns) ms t = note_numbers-append count ns ms (note_number count n t)

-- The closure sees every number of every marker, in order.
pub tally-replace_markers :
    (count : ℕ) (segs : List Segment) (t : Tally)
    → (replace_markers count segs t).1 ≡ note_numbers count (cited_numbers segs) t
unfolding replace_markers
tally-replace_markers count [] t = unfold note_numbers in refl
tally-replace_markers count (char c ∷ segs) t = tally-replace_markers count segs t
tally-replace_markers count (cited ns ∷ segs) t =
    tally-replace_markers count segs (note_numbers count ns t)
    ∙ sym (note_numbers-append count ns (cited_numbers segs) t)
