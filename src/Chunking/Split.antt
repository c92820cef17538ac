-- ===== src/Chunking/Split.antt =====
-- services/chunking.py: a page is cut into paragraphs and sentences. The two regular expressions are
-- written out as functions that count what a match takes.
use knowledgeos.Prelude.{
  ℕ, zero, suc, ◌-◌, Bool, false, ◌&&◌, ◌||◌, List, [], ◌∷◌, ◌++◌, ltb, leb, ◌==◌, if◌then◌else◌,
  length, take, drop,
}
use knowledgeos.Text.{Text, is_empty, strip, Unicode}

abbrev pub newline : ℕ
newline = 10

-- `"\n\n"`
abbrev pub blank_line : Text
blank_line = newline ∷ newline ∷ []

module _ (u : Unicode) where
  open u use {is_space}

  -- How many characters behind a newline a match of `_PARAGRAPH` takes, 0 if there is none: it ends
  -- at the last newline of the white space.
  unfoldable pub after_break : Text → ℕ
  after_break [] = 0
  after_break (c ∷ s) =
      let more = after_break s in
      if is_space c then (if more == 0 then (if c == newline then 1 else 0) else suc more) else 0

  -- The first unit and the later ones, after the characters of a match are passed over.
  unfoldable pub split_paragraphs : ℕ → Text → Text × List Text
  unfolding after_break
  split_paragraphs skip [] = ([], [])
  split_paragraphs (suc skip) (c ∷ s) = split_paragraphs skip s
  split_paragraphs zero (c ∷ s) =
      let taken = if c == newline then after_break s else 0 in
      let (unit, units) = split_paragraphs taken s in
      if taken == 0 then (c ∷ unit, units) else ([], unit ∷ units)

  -- `[.!?]` and `[A-Z"'(\[0-9]`
  abbrev pub ends_sentence : ℕ → Bool
  ends_sentence c = c == b'.' || c == b'!' || c == b'?'

  abbrev starts_sentence : ℕ → Bool
  starts_sentence c =
      (leb b'A' c && leb c b'Z')
      || (c == 34 || (c == 39 || (c == b'(' || (c == b'[' || (leb b'0' c && leb c b'9')))))

  -- The length of the white space at the start, and whether a sentence starts behind it.
  unfoldable pub gap : Text → ℕ × Bool
  gap [] = (0, false)
  gap (c ∷ s) =
      let (n, starts) = gap s in if is_space c then (suc n, starts) else (0, starts_sentence c)

  -- What a match of `_SENTENCE` takes here, where the last character ends a sentence or does not.
  unfoldable pub sentence_gap : Bool → Text → ℕ
  unfolding gap
  sentence_gap ended s = let (n, starts) = gap s in if ended && starts then n else 0

  unfoldable pub split_sentences : ℕ → Bool → Text → Text × List Text
  unfolding sentence_gap
  split_sentences skip ended [] = ([], [])
  split_sentences (suc skip) ended (c ∷ s) = split_sentences skip false s
  split_sentences zero ended (c ∷ s) =
      let taken = sentence_gap ended (c ∷ s) in
      let (sentence, sentences) =
        split_sentences (taken - 1) (if taken == 0 then ends_sentence c else false) s in
      if taken == 0 then (c ∷ sentence, sentences) else ([], sentence ∷ sentences)

  abbrev pub is_blank : Text → Bool
  is_blank s = is_empty (strip u s)

  unfoldable pub not_blank : List Text → List Text
  unfolding strip
  not_blank [] = []
  not_blank (s ∷ ss) = if is_blank s then not_blank ss else s ∷ not_blank ss

-- `[text[i : i + size] for i in range(0, len(text), size)]`, on fuel
unfoldable pub slices : ℕ → ℕ → Text → List Text
slices zero size s = []
slices (suc fuel) size [] = []
slices (suc fuel) size (c ∷ s) = take size (c ∷ s) ∷ slices fuel size (drop size (c ∷ s))

unfoldable pub cut_sentences : ℕ → List Text → List Text
unfolding slices
cut_sentences target [] = []
cut_sentences target (s ∷ ss) =
    (if leb (length s) target then s ∷ [] else slices (length s) target s)
    ++ cut_sentences target ss

module _ (u : Unicode) where
  -- `_subdivide`
  unfoldable pub subdivide : ℕ → Text → List Text
  unfolding cut_sentences split_sentences
  subdivide target unit =
      let (sentence, sentences) = split_sentences u 0 false unit in
      cut_sentences target (sentence ∷ sentences)

  unfoldable pub pieces_of : ℕ → List Text → List Text
  unfolding subdivide
  pieces_of target [] = []
  pieces_of target (unit ∷ units) =
      (if ltb target (length unit) then subdivide target unit else unit ∷ [])
      ++ pieces_of target units

  unfoldable pub paragraphs : Text → List Text
  unfolding split_paragraphs not_blank
  paragraphs s = let (unit, units) = split_paragraphs u 0 s in not_blank u (unit ∷ units)
