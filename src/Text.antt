-- ===== src/Text.antt =====
-- Python text as lists of code points, with the string operations that the services use. What
-- depends on the Unicode character database is a parameter: which characters are white space
-- (`str.isspace`, `\s`), which are word characters (`\w`), the value of a decimal digit (`\d`, as
-- `int` reads it), and `str.lower`.
use knowledgeos.Prelude.{
  ℕ, zero, suc, ◌+◌, ◌-◌, ◌/◌, ◌%◌, Bool, true, false, ◌&&◌, Option, none, some, List, [], ◌∷◌,
  ◌++◌, ltb, ◌==◌, if◌then◌else◌, length, drop,
}

abbrev pub Text : Type 0
Text = List ℕ

pub record Unicode : Type 0 where
  pub is_space : ℕ → Bool
  pub is_word : ℕ → Bool
  pub digit : ℕ → Option ℕ
  pub lower : Text → Text

abbrev pub text_eq : Text → Text → Bool
text_eq [] [] = true
text_eq (c ∷ s) (d ∷ t) = c == d && text_eq s t
text_eq _ _ = false

-- `text.startswith(prefix)`
abbrev pub starts_with : Text → Text → Bool
starts_with [] s = true
starts_with (c ∷ p) [] = false
starts_with (c ∷ p) (d ∷ s) = c == d && starts_with p s

-- `not text`
abbrev pub is_empty {ℓ} : {A : Type ℓ} → List A → Bool
is_empty [] = true
is_empty (_ ∷ _) = false

abbrev pub cons_word : Text → List Text → List Text
cons_word [] ws = ws
cons_word (c ∷ w) ws = (c ∷ w) ∷ ws

-- `sep.join(parts)`
unfoldable pub join : Text → List Text → Text
join sep [] = []
join sep (p ∷ []) = p
join sep (p ∷ q ∷ ps) = p ++ (sep ++ join sep (q ∷ ps))

-- `text[-n:]` for a positive `n`
unfoldable pub last_chars : ℕ → Text → Text
last_chars n s = drop (length s - n) s

-- `text.find(c)` for one character
unfoldable pub find_char : ℕ → Text → Option ℕ
find_char c [] = none
find_char c (d ∷ s) =
    if d == c then some 0 else elim (find_char c s) [ none ↦ none | some i ↦ some (suc i) ]

-- The decimal digits of a number, in front of `rest`; a number has fewer digits than its successor.
unfoldable pub show_from : ℕ → ℕ → Text → Text
show_from zero n rest = rest
show_from (suc fuel) n rest =
    let shown = (48 + n % 10) ∷ rest in
    let more = show_from fuel (n / 10) shown in if ltb n 10 then shown else more

-- `str(n)`
unfoldable pub show_number : ℕ → Text
unfolding show_from
show_number n = show_from (suc n) n []

module _ (u : Unicode) where
  open u use {is_space}

  -- The first word of the text if it starts at once, and the words after it.
  unfoldable pub split_from : Text → Text × List Text
  split_from [] = ([], [])
  split_from (c ∷ s) =
      let (w, ws) = split_from s in if is_space c then ([], cons_word w ws) else (c ∷ w, ws)

  -- `text.split()`
  unfoldable pub split : Text → List Text
  unfolding split_from
  split s = let (w, ws) = split_from s in cons_word w ws

  unfoldable pub lstrip : Text → Text
  lstrip [] = []
  lstrip (c ∷ s) = let rest = lstrip s in if is_space c then rest else c ∷ s

  unfoldable pub rstrip : Text → Text
  rstrip [] = []
  rstrip (c ∷ s) = let rest = rstrip s in if is_space c && is_empty rest then [] else c ∷ rest

  -- `text.strip()`
  unfoldable pub strip : Text → Text
  unfolding lstrip rstrip
  strip s = rstrip (lstrip s)
