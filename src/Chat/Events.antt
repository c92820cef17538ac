-- ===== src/Chat/Events.antt =====
-- The events of a turn of services/chat_service.py: what is streamed, the outcomes, the sources.
use knowledgeos.Prelude.{
  ℕ, suc, ◌+◌, ◌≡◌, refl, sym, ap, ◌∙◌, subst, Bool, true, some, List, [], ◌∷◌, ◌++◌, All,
  get_elem?, Bool-cases, inl, inr, arith, ltb, ◌&&◌, zero, ◌==◌,
}
use mathlib.Core.List.{append_assoc, append-nil}
use mathlib.Core.Option.{some-injective}
use knowledgeos.Text.{Text}
use knowledgeos.Retrieval.{RetrievedChunk, fit_budget, token_estimate}
use knowledgeos.Chat.{
  StreamEvent, text_delta, stream_usage, stream_done, ChatOutcome, SourceCard, ChatEvent, meta,
  token, outcome, split_blank, with_blanks,
}
use knowledgeos.Chat.Turn.{StreamState, run_stream, stream_step, deltas, tokens}

-- The text of the `token` events.
abbrev pub concat : List Text → Text
concat [] = []
concat (t ∷ ts) = t ++ concat ts

abbrev pub streamed : {Float : Type 0} → List (ChatEvent Float) → Text
streamed [] = []
streamed (token t ∷ es) = t ++ streamed es
streamed (_ ∷ es) = streamed es

abbrev pub outcomes : {Float : Type 0} → List (ChatEvent Float) → List (ChatOutcome Float)
outcomes [] = []
outcomes (outcome o ∷ es) = o ∷ outcomes es
outcomes (_ ∷ es) = outcomes es

-- The chunks of the sources that `meta` announces.
abbrev pub card_chunks : {Float : Type 0} → List (SourceCard Float) → List (RetrievedChunk Float)
card_chunks [] = []
card_chunks (c ∷ cs) = c.chunk ∷ card_chunks cs

abbrev pub announced : {Float : Type 0} → List (ChatEvent Float) → List (RetrievedChunk Float)
announced [] = []
announced (meta m ∷ es) = card_chunks m.sources ++ announced es
announced (_ ∷ es) = announced es

pub streamed-tokens :
    {Float : Type 0} (ts : List Text) (es : List (ChatEvent Float))
    → streamed (tokens ts ++ es) ≡ concat ts ++ streamed es
streamed-tokens [] es = refl
streamed-tokens (t ∷ ts) es =
    ap (◌++◌ t) (streamed-tokens ts es) ∙ sym (append_assoc t (concat ts) (streamed es))

pub outcomes-tokens :
    {Float : Type 0} (ts : List Text) (es : List (ChatEvent Float))
    → outcomes (tokens ts ++ es) ≡ outcomes es
outcomes-tokens [] es = refl
outcomes-tokens (t ∷ ts) es = outcomes-tokens ts es

pub announced-tokens :
    {Float : Type 0} (ts : List Text) (es : List (ChatEvent Float))
    → announced (tokens ts ++ es) ≡ announced es
announced-tokens [] es = refl
announced-tokens (t ∷ ts) es = announced-tokens ts es

pub concat-split_blank :
    (s : Text) → let (w, ws) = split_blank s in concat (with_blanks (w ∷ ws)) ≡ s ++ b' ' ∷ []
unfolding split_blank with_blanks
concat-split_blank [] = refl
concat-split_blank (c ∷ s) = elim (Bool-cases (c == b' ')) [
  | inl blank ↦
      let same : 32 ≡ c = ground (arith, blank) in
      rw blank (ap (◌∷◌ 32) (concat-split_blank s) ∙ ap (λ (d : ℕ). d ∷ (s ++ b' ' ∷ [])) same)
  | inr letter ↦ rw letter (ap (◌∷◌ c) (concat-split_blank s))
]

pub buffer-run_stream :
    (first : ℕ) (es : List StreamEvent) (s : StreamState)
    → (run_stream first es s).buffer ≡ s.buffer ++ concat (deltas es)
unfolding run_stream deltas stream_step
buffer-run_stream first [] s = sym (append-nil s.buffer)
buffer-run_stream first (text_delta t ∷ es) s =
    buffer-run_stream first es _ ∙ append_assoc s.buffer t (concat (deltas es))
buffer-run_stream first (stream_usage i o ∷ es) s = buffer-run_stream first es _
buffer-run_stream first (stream_done l ∷ es) s = buffer-run_stream first es _

pub All-fit_budget :
    {Float : Type 0} (P : RetrievedChunk Float → Type 0) (budget used : ℕ) (kept : Bool)
    (cs : List (RetrievedChunk Float))
    → All P cs
    → All P (fit_budget budget used kept cs)
unfolding fit_budget
All-fit_budget P budget used kept [] a = tt
All-fit_budget P budget used kept (c ∷ cs) a =
    elim (Bool-cases (ltb budget (used + token_estimate c) && kept)) [
      | inl over ↦ rw over tt
      | inr fits ↦ rw fits (a.0, All-fit_budget P budget (used + token_estimate c) true cs a.1)
    ]

pub All-get_elem? :
    {A : Type 0} (P : A → Type 0) (xs : List A) (i : ℕ) (x : A)
    → All P xs
    → get_elem? xs i ≡ some x
    → P x
All-get_elem? P [] i x a e = cc
All-get_elem? P (y ∷ xs) zero x a e = subst P (some-injective y x e) a.0
All-get_elem? P (y ∷ xs) (suc i) x a e = All-get_elem? P xs i x a.1 e

pub All_nil : {A : Type 0} (P : A → Type 0) {xs : List A} → xs ≡ [] → All P xs
All_nil P e = rw e tt
