-- ===== src/Citation/Marker.antt =====
-- The regular expression `\[(\d+(?:\s*,\s*\d+)*)\]` of services/citation_service.py as a scanner.
-- No match has a second reading: a digit, a blank, a comma and a bracket exclude one another.
use knowledgeos.Prelude.{
  ℕ, zero, suc, ◌+◌, ◌*◌, Option, none, some, List, [], ◌∷◌, ◌++◌, ◌==◌, if◌then◌else◌,
}
use knowledgeos.Text.{Text, Unicode}

-- Where the scanner stands: behind the opening bracket, in a number (with its value so far), in
-- white space behind a number, behind a comma.
pub data Mode : Type 0 where
  opened : Mode
  in_number : ℕ → Mode
  behind_number : Mode
  behind_comma : Mode

pub data Next : Type 0 where
  fail : Next
  done : List ℕ → Next
  go : Mode → List ℕ → Next

pub data Segment : Type 0 where
  char : ℕ → Segment
  cited : List ℕ → Segment

module _ (u : Unicode) where
  -- One character, with the numbers that are read so far.
  unfoldable pub scan_step : Mode → List ℕ → ℕ → Next
  scan_step opened ns c = elim (u.digit c) [ none ↦ fail | some d ↦ go (in_number d) ns ]
  scan_step (in_number n) ns c = elim (u.digit c) [
    | none ↦
        (if c == b']'
          then done (ns ++ n ∷ [])
          else if c == b','
          then go behind_comma (ns ++ n ∷ [])
          else if u.is_space c
          then go behind_number (ns ++ n ∷ [])
          else fail)
    | some d ↦ go (in_number (n * 10 + d)) ns
  ]
  scan_step behind_number ns c =
      if c == b',' then go behind_comma ns else if u.is_space c then go behind_number ns else fail
  scan_step behind_comma ns c = elim (u.digit c) [
    | none ↦ (if u.is_space c then go behind_comma ns else fail)
    | some d ↦ go (in_number d) ns
  ]

  -- The numbers of a marker, and how many characters of the text belong to it.
  unfoldable pub scan : Mode → List ℕ → ℕ → Text → Option (List ℕ × ℕ)
  unfolding scan_step
  scan mode ns used [] = none
  scan mode ns used (c ∷ s) = elim (scan_step mode ns c) [
    | fail ↦ none
    | done ms ↦ some (ms, used + 1)
    | go mode' ms ↦ scan mode' ms (used + 1) s
  ]

  -- `skip` characters belong to the marker that was found last.
  unfoldable pub segments_from : ℕ → Text → List Segment
  unfolding scan
  segments_from skip [] = []
  segments_from (suc skip) (c ∷ s) = segments_from skip s
  segments_from zero (c ∷ s) = elim (if c == b'[' then scan opened [] 0 s else none) [
    | none ↦ char c ∷ segments_from zero s
    | some (ns, used) ↦ cited ns ∷ segments_from used s
  ]

  unfoldable pub segments : Text → List Segment
  unfolding segments_from
  segments text = segments_from zero text
