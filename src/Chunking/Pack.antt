-- ===== src/Chunking/Pack.antt =====
-- `_pack` and `_split_page` of services/chunking.py: pieces fill windows, which then overlap.
use knowledgeos.Prelude.{
  ℕ, ◌+◌, ◌&&◌, not, none, some, List, [], ◌∷◌, ◌++◌, ltb, leb, ◌==◌, if◌then◌else◌, length, drop,
  Option,
}
use knowledgeos.Text.{Text, is_empty, join, last_chars, find_char, strip, Unicode}
use knowledgeos.Chunking.Split.{blank_line, is_blank, pieces_of, paragraphs}

-- The windows of `_pack`, before the overlap, from the pieces of the current one and its count.
unfoldable pub pack_windows : ℕ → List Text → List Text → ℕ → List Text
unfolding join
pack_windows target current [] size = if is_empty current then [] else join blank_line current ∷ []
pack_windows target current (piece ∷ pieces) size =
    let addition = length piece + (if is_empty current then 0 else 2) in
    let full = not (is_empty current) && ltb target (size + addition) in
    let rest =
      pack_windows target (if full then piece ∷ [] else current ++ piece ∷ []) pieces
        (if full then addition else size + addition) in
    if full then join blank_line current ∷ rest else rest

-- A text from behind a space on, where the space is not its start.
abbrev pub from_space : Option ℕ → Text → Text
from_space none tail = tail
from_space (some space) tail = if space == 0 then tail else drop (space + 1) tail

-- The tail of the previous window, from a word on.
unfoldable pub tail_of : ℕ → Text → Text
unfolding last_chars find_char
tail_of overlap previous =
    let tail = last_chars overlap previous in from_space (find_char b' ' tail) tail

module _ (u : Unicode) where
  abbrev pub with_tail : Text → Text → Text
  with_tail tail window = if is_empty (strip u tail) then window else tail ++ (blank_line ++ window)

  unfoldable pub overlapped : ℕ → Text → List Text → List Text
  unfolding tail_of strip
  overlapped overlap previous [] = []
  overlapped overlap previous (w ∷ ws) =
      with_tail (tail_of overlap previous) w ∷ overlapped overlap w ws

  -- The end of `_pack`
  unfoldable pub overlap_windows : ℕ → List Text → List Text
  unfolding overlapped
  overlap_windows overlap [] = []
  overlap_windows overlap (w ∷ ws) = if overlap == 0 then w ∷ ws else w ∷ overlapped overlap w ws

  unfoldable pub pack : ℕ → ℕ → List Text → List Text
  unfolding overlap_windows pack_windows
  pack target overlap pieces = overlap_windows overlap (pack_windows target [] pieces 0)

  -- `_split_page`
  unfoldable pub split_page : ℕ → ℕ → Text → List Text
  unfolding pack pieces_of paragraphs strip
  split_page target overlap s =
      if is_blank u s
      then []
      else if leb (length s) target
      then s ∷ []
      else pack target overlap (pieces_of u target (paragraphs u s))
