-- ===== src/Fusion/Similar.antt =====
-- `_too_similar` of services/fusion.py: the overlap of two sets of words. The quotient of the two
-- sizes is a correctly rounded float and 0.75 is a float, so `intersection / union >= 0.75` holds
-- exactly when `3 * union <= 4 * intersection`.
use knowledgeos.Prelude.{
  ℕ, ◌+◌, ◌*◌, Bool, false, ◌&&◌, ◌||◌, List, [], ◌∷◌, leb, ltb, if◌then◌else◌, length,
}
use knowledgeos.Text.{Text, Unicode, text_eq, is_empty, split}

unfoldable pub has_word : Text → List Text → Bool
has_word w [] = false
has_word w (v ∷ vs) = text_eq w v || has_word w vs

-- `set(words)`
unfoldable pub word_set : List Text → List Text
unfolding has_word
word_set [] = []
word_set (w ∷ ws) = let rest = word_set ws in if has_word w rest then rest else w ∷ rest

-- `len(a & b)`
unfoldable pub common : List Text → List Text → ℕ
unfolding has_word
common [] b = 0
common (w ∷ a) b = if has_word w b then common a b + 1 else common a b

-- The number of words of `a` that are not in `b`.
unfoldable pub missing_words : List Text → List Text → ℕ
unfolding has_word
missing_words [] b = 0
missing_words (w ∷ a) b = if has_word w b then missing_words a b else missing_words a b + 1

module _ (u : Unicode) where
  unfoldable pub too_similar : Text → Text → Bool
  unfolding split word_set common missing_words
  too_similar a b =
      if is_empty a || is_empty b
      then false
      else (let wa = word_set (split u (u.lower a)) in
          let wb = word_set (split u (u.lower b)) in
          if is_empty wa || is_empty wb
          then false
          else (let intersection = common wa wb in
              let union = length wa + missing_words wb wa in
              ltb 0 union && leb (3 * union) (4 * intersection)))
