-- ===== src/Chunking/Absorb.antt =====
-- `_absorb_fragments` of services/chunking.py. `target * 1.3` is a test in tenths, which is exact for
-- the sizes of the settings. The two passes keep their lists with the last item first.
use knowledgeos.Prelude.{ℕ, ◌+◌, ◌*◌, ◌&&◌, List, [], ◌∷◌, ◌++◌, ltb, leb, if◌then◌else◌, length}
use knowledgeos.Text.{Text, is_empty, strip, Unicode}
use knowledgeos.Chunking.Split.{blank_line}

abbrev pub min_chunk_chars : ℕ
min_chunk_chars = 60

abbrev pub joined : Text → Text → Text
joined a b = a ++ (blank_line ++ b)

-- The first pass of `_absorb_fragments`: a fragment joins the window before it, where there is room.
unfoldable pub absorb : ℕ → List Text → List Text → List Text
absorb target out [] = out
absorb target [] (w ∷ ws) = absorb target (w ∷ []) ws
absorb target (last ∷ out) (w ∷ ws) =
    absorb target
      (if ltb (length w) min_chunk_chars && leb (10 * (length last + length w + 2)) (13 * target)
        then joined last w ∷ out
        else w ∷ last ∷ out)
      ws

-- The end of the second pass: a fragment that is left joins the last window.
abbrev pub attach_carry : Text → List Text → List Text
attach_carry carry [] = if leb min_chunk_chars (length carry) then carry ∷ [] else []
attach_carry carry (last ∷ fixed) =
    if is_empty carry
    then last ∷ fixed
    else if leb min_chunk_chars (length carry)
    then carry ∷ last ∷ fixed
    else joined last carry ∷ fixed

unfoldable pub reversed : List Text → List Text → List Text
reversed done [] = done
reversed done (w ∷ ws) = reversed (w ∷ done) ws

unfoldable pub not_empty : List Text → List Text
not_empty [] = []
not_empty (w ∷ ws) = if is_empty w then not_empty ws else w ∷ not_empty ws

module _ (u : Unicode) where
  -- The second pass: a fragment goes to the window behind it.
  unfoldable pub carry_forward : Text → List Text → List Text → List Text
  unfolding strip
  carry_forward carry fixed [] = attach_carry carry fixed
  carry_forward carry fixed (w ∷ ws) =
      let fragment = ltb (length w) min_chunk_chars in
      let whole = if is_empty carry then w else joined carry w in
      carry_forward (if fragment then (if is_empty carry then w else strip u whole) else [])
        (if fragment then fixed else whole ∷ fixed) ws

  abbrev pub merge_fragments : ℕ → List Text → List Text
  merge_fragments target [] = []
  merge_fragments target (w ∷ []) = w ∷ []
  merge_fragments target (w ∷ v ∷ ws) =
      reversed [] (carry_forward [] [] (reversed [] (absorb target [] (w ∷ v ∷ ws))))

  -- `_absorb_fragments`
  unfoldable pub absorb_fragments : ℕ → List Text → List Text
  unfolding not_empty absorb carry_forward reversed
  absorb_fragments target windows = merge_fragments target (not_empty windows)
