-- ===== src/Chat/Escape.antt =====
-- The escaping in `build_chat_prompt` of services/prompt_builder.py: what the documents say cannot
-- close a block of the prompt or open one.
use knowledgeos.Prelude.{
  ℕ, suc, zero, ◌+◌, ◌*◌, ◌/◌, ◌%◌, ◌≡◌, refl, ap, sym, subst, ◌∙◌, Option, none, some, List, [],
  ◌∷◌, ◌++◌, length, All, Bool-cases, inl, inr, if◌then◌else◌, arith, ◌==◌, ltb, false, not, ◌&&◌,
  Bool, true,
}
use mathlib.Core.List.{append_assoc}
use knowledgeos.Chat.Budget.{select-fit_budget}
use knowledgeos.Chat.Events.{All-fit_budget}
use Prim.Native.String.{String}
use knowledgeos.Text.{Text, is_empty, join, show_from, show_number}
use knowledgeos.Retrieval.{RetrievedChunk}
use knowledgeos.Retrieval.Query.{codes}
use knowledgeos.Content.{Chunk, page_label}
use knowledgeos.Chat.Prompt.{
  ChatTurn, TurnRole, last_items, newline, escape_char, escape, escape_option, attribute,
  source_block, source_blocks, select, build_chat_prompt, BuiltPrompt,
}

-- How many angle brackets open in the text.
unfoldable pub angles_in : Text → ℕ
angles_in [] = 0
angles_in (c ∷ s) = (if c == b'<' then 1 else 0) + angles_in s

angles_in-append : (s t : Text) → angles_in (s ++ t) ≡ angles_in s + angles_in t
unfolding angles_in
angles_in-append [] t = omega arith
angles_in-append (c ∷ s) t = omega (arith, angles_in-append s t)

-- The sum over two parts.
both : (s t : Text) (m n : ℕ) → angles_in s ≡ m → angles_in t ≡ n → angles_in (s ++ t) ≡ m + n
both s t m n hs ht = omega (arith, angles_in-append s t, hs, ht)

angles_in-quoted : (s : Text) → angles_in s ≡ 0 → angles_in (34 ∷ (s ++ 34 ∷ [])) ≡ 0
unfolding angles_in
angles_in-quoted s h = omega (arith, both s (34 ∷ []) 0 0 h refl)

angles_in-escape_char : (c : ℕ) → angles_in (escape_char c) ≡ 0
unfolding angles_in escape_char
angles_in-escape_char c = ground arith

angles_in-escape : (s : Text) → angles_in (escape s) ≡ 0
unfolding escape angles_in
angles_in-escape [] = refl
angles_in-escape (c ∷ s) =
    angles_in-append (escape_char c) (escape s)
    ∙ omega (arith, angles_in-escape_char c, angles_in-escape s)

digit_is_none : (n : ℕ) → ((48 + n % 10) == b'<') ≡ false
digit_is_none n = ground arith

angles_in-show_from :
    (fuel n : ℕ) (rest : Text) → angles_in (show_from fuel n rest) ≡ angles_in rest
unfolding show_from angles_in
angles_in-show_from zero n rest = refl
angles_in-show_from (suc fuel) n rest =
    let shown : angles_in ((48 + n % 10) ∷ rest) ≡ angles_in rest =
      rw (digit_is_none n) (omega arith) in
    elim (Bool-cases (ltb n 10)) [
      | inl last ↦ rw last shown
      | inr more ↦ rw more (angles_in-show_from fuel (n / 10) ((48 + n % 10) ∷ rest) ∙ shown)
    ]

angles_in-quoted_number : (n : ℕ) → angles_in (show_number n) ≡ 0
unfolding show_number angles_in
angles_in-quoted_number n = angles_in-show_from (suc n) n []

-- The label of the pages has no angle bracket.
abbrev pub IsPlain : Option Text → Type 0
IsPlain none = Unit
IsPlain (some s) = angles_in s ≡ 0

-- The labels that the rows of chunks have are such.
pages_plain :
    (first last : ℕ) (two : Bool)
    → angles_in (if two then show_number first ++ (b'-' ∷ show_number last) else show_number first)
      ≡ 0
unfolding angles_in
pages_plain first last true =
    both (show_number first) (b'-' ∷ show_number last) 0 0 (angles_in-quoted_number first)
      (omega (arith, angles_in-quoted_number last))
pages_plain first last false = angles_in-quoted_number first

IsPlain-label :
    (from to : Option ℕ)
    → IsPlain (elim from [
      | none ↦ none
      | some first ↦ some (elim to [
        | none ↦ show_number first
        | some last ↦
            (if not (last == 0) && not (last == first)
              then show_number first ++ (b'-' ∷ show_number last)
              else show_number first)
      ])
    ])
IsPlain-label none to = tt
IsPlain-label (some first) none = angles_in-quoted_number first
IsPlain-label (some first) (some last) =
    pages_plain first last (not (last == 0) && not (last == first))

IsPlain-page_label : (c : Chunk) → IsPlain (page_label c)
unfolding page_label
IsPlain-page_label c = IsPlain-label c.page_from c.page_to

IsPlain-escape_option : (o : Option Text) → IsPlain (escape_option o)
unfolding escape_option
IsPlain-escape_option none = tt
IsPlain-escape_option (some s) = angles_in-escape s

angles_in-attribute :
    (name : String) (o : Option Text)
    → angles_in (codes name) ≡ 0
    → IsPlain o
    → angles_in (attribute name o) ≡ 0
unfolding attribute angles_in
angles_in-attribute name none named plain = refl
angles_in-attribute name (some []) named plain = refl
angles_in-attribute name (some (c ∷ s)) named plain =
    let value : angles_in (b'=' ∷ 34 ∷ ((c ∷ s) ++ 34 ∷ [])) ≡ 0 =
      omega (arith, angles_in-quoted (c ∷ s) plain) in
    omega (arith, both (codes name) (b'=' ∷ 34 ∷ ((c ∷ s) ++ 34 ∷ [])) 0 0 named value)

angles_in-join :
    (n : ℕ) (sep : Text) (ts : List Text)
    → angles_in sep ≡ 0
    → All (λ t. angles_in t ≡ n) ts
    → angles_in (join sep ts) ≡ n * length ts
unfolding join angles_in
angles_in-join n sep [] hs all = omega arith
angles_in-join n sep (t ∷ []) hs all = omega (arith, all.0)
angles_in-join n sep (t ∷ v ∷ ts) hs all =
    let rest = angles_in-join n sep (v ∷ ts) hs all.1 in
    omega (
      arith,
      both t (sep ++ join sep (v ∷ ts)) n (n * length (v ∷ ts)) all.0
          (omega (arith, both sep (join sep (v ∷ ts)) 0 (n * length (v ∷ ts)) hs rest)),
    )

blocks_text :
    (blocks : List Text) (n : ℕ)
    → All (λ t. angles_in t ≡ 2) blocks
    → length blocks ≡ n
    → angles_in (
        if is_empty blocks
        then codes "(no sources retrieved)"
        else join (newline ++ newline) blocks)
      ≡ 2 * n
unfolding angles_in
blocks_text [] n all same = omega (arith, same)
blocks_text (b ∷ blocks) n all same =
    omega (arith, same, angles_in-join 2 (newline ++ newline) (b ∷ blocks) refl all)

module _ {Float : Type 0} where
  angles_in-source_block :
      (marker : ℕ) (chunk : RetrievedChunk Float)
      → IsPlain chunk.page_label
      → angles_in (source_block marker chunk) ≡ 2
  unfolding source_block angles_in
  angles_in-source_block marker chunk plain =
      let closing = newline ++ codes "</source>" in
      let body = escape chunk.content ++ closing in
      let rest = b'>' ∷ newline ++ body in
      let section = attribute "section" (escape_option chunk.section) in
      let pages = attribute "pages" chunk.page_label in
      let title = 34 ∷ (escape chunk.document_title ++ 34 ∷ []) in
      let number = 34 ∷ (show_number marker ++ 34 ∷ []) in
      let body_one =
        both (escape chunk.content) closing 0 1 (angles_in-escape chunk.content) refl in
      let rest_one = both (b'>' ∷ newline) body 0 1 refl body_one in
      let section_one =
        both section rest 0 1
          (angles_in-attribute "section" (escape_option chunk.section) refl
            (IsPlain-escape_option chunk.section))
          rest_one in
      let pages_one =
        both pages (section ++ rest) 0 1 (angles_in-attribute "pages" chunk.page_label refl plain)
          section_one in
      let title_one =
        both title (pages ++ (section ++ rest)) 0 1
          (angles_in-quoted (escape chunk.document_title) (angles_in-escape chunk.document_title))
          pages_one in
      let after_number = codes " document=" ++ (title ++ (pages ++ (section ++ rest))) in
      both (codes "<source id=") (number ++ after_number) 1 1 refl (
        both number after_number 0 1
          (angles_in-quoted (show_number marker) (angles_in-quoted_number marker))
          (both (codes " document=") (title ++ (pages ++ (section ++ rest))) 0 1 refl title_one))

  angles_in-source_blocks :
      (marker : ℕ) (cs : List (RetrievedChunk Float))
      → All (λ (c : RetrievedChunk Float). IsPlain c.page_label) cs
      → All (λ t. angles_in t ≡ 2) (source_blocks marker cs)
        × (length (source_blocks marker cs) ≡ length cs)
  unfolding source_blocks
  angles_in-source_blocks marker [] all = (tt, refl)
  angles_in-source_blocks marker (c ∷ cs) all =
      let (rest, same) = angles_in-source_blocks (suc marker) cs all.1 in
      ((angles_in-source_block marker c all.0, rest), ap suc same)

  -- What `build_chat_prompt` sends last: the sources, in which an angle bracket opens only where the
  -- template opens one, and the question.
  abbrev pub IsSealed : Text → List ChatTurn → BuiltPrompt Float → Type 0
  IsSealed question history built =
      (sources : Text) × (angles_in sources ≡ 2 * length built.sources_used + 2)
      × (built.turns
          ≡ last_items 8 history
            ++ record { role = TurnRole.user; content = sources ++ question } ∷ [])

  -- In the last turn of a prompt, an angle bracket opens twice for each source and twice for all of
  -- them, whatever the documents say, where no label of the pages has one; the question stands behind.
  pub build_chat_prompt-IsSealed :
      (question : Text) (chunks : List (RetrievedChunk Float)) (history : List ChatTurn)
      (budget : ℕ)
      → All (λ (c : RetrievedChunk Float). IsPlain c.page_label) chunks
      → IsSealed question history (build_chat_prompt question chunks history budget)
  unfolding build_chat_prompt angles_in
  build_chat_prompt-IsSealed question chunks history budget plain =
      let selected = (select budget 0 false chunks).0 in
      let kept : All (λ (c : RetrievedChunk Float). IsPlain c.page_label) selected =
        subst (All (λ (c : RetrievedChunk Float). IsPlain c.page_label))
          (sym (select-fit_budget budget 0 false chunks).0)
          (All-fit_budget _ budget 0 false chunks plain) in
      let (each, same) = angles_in-source_blocks 1 selected kept in
      let blocks = source_blocks 1 selected in
      let text =
        if is_empty blocks
        then codes "(no sources retrieved)"
        else join (newline ++ newline) blocks in
      let last = newline ++ (codes "</sources>" ++ (newline ++ (newline ++ codes "Question: "))) in
      let first = codes "<sources>" ++ newline in
      (
        first ++ (text ++ last),
        omega (
          arith,
          both first (text ++ last) 1 (2 * length selected + 1) refl (
              both text last (2 * length selected) 1
                (blocks_text blocks (length selected) each same) refl),
        ),
        ap
            (λ (t : Text).
              last_items 8 history ++ record { role = TurnRole.user; content = first ++ t } ∷ [])
            (sym (append_assoc text last question)),
      )
