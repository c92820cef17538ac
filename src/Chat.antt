-- ===== src/Chat.antt =====
-- services/chat_service.py: one turn of a conversation, as the list of the events that `answer`
-- yields. The provider is third-party code: what its stream yields, and the message of the exception
-- that ends it, if one does. A table is the list of its rows in the order of creation.
pub mod Prompt
pub mod Escape
pub mod Budget
pub mod Turn
pub mod Events
pub mod Laws
use knowledgeos.Prelude.{
  ℕ, suc, ◌+◌, ◌-◌, ◌≤◌, ◌≡◌, refl, Bool, true, false, ◌&&◌, ◌||◌, not, Option, none, some, List,
  [], ◌∷◌, ◌++◌, length, take, ltb, leb, ◌==◌, if◌then◌else◌,
}
use knowledgeos.Text.{Text, Unicode, is_empty, join, split, strip, text_eq}
use knowledgeos.Float.{FloatOps}
use knowledgeos.Fusion.Similar.{has_word}
use knowledgeos.Retrieval.{RetrievedChunk}
use knowledgeos.Retrieval.Query.{codes, find_words}
use knowledgeos.Retrieval.Search.{RetrievalResult}
use knowledgeos.Citation.{ValidatedCitation, validate}
use knowledgeos.Chat.Prompt.{
  ChatTurn, TurnRole, BuiltPrompt, build_chat_prompt, last_items, lines_of, newline,
}

pub data FinishReason : Type 0 where
  stop length_limit client_abort refused_by_gate failed : FinishReason

pub data MessageRole : Type 0 where
  user assistant system : MessageRole

pub record Message : Type 0 where
  pub conversation_id : ℕ
  pub role : MessageRole
  pub content : Text

-- `REFUSAL_TEXT`
unfoldable pub refusal_text : Text
unfolding join
refusal_text = join newline (
    lines_of (
      "I could not find anything in this workspace that answers that question." ∷ ""
      ∷ "Either the documents covering it have not been uploaded yet, or the question needs to be phrased closer to the language used in them."
      ∷ []))

-- `text.split(" ")`
unfoldable pub split_blank : Text → Text × List Text
split_blank [] = ([], [])
split_blank (c ∷ s) = let (w, ws) = split_blank s in if c == b' ' then ([], w ∷ ws) else (c ∷ w, ws)

-- `piece + " "` for each of the pieces
unfoldable pub with_blanks : List Text → List Text
with_blanks [] = []
with_blanks (p ∷ ps) = (p ++ b' ' ∷ []) ∷ with_blanks ps

unfoldable pub refusal_pieces : List Text
unfolding split_blank with_blanks refusal_text
refusal_pieces = let (w, ws) = split_blank refusal_text in with_blanks (w ∷ ws)

module _ (u : Unicode) where
  unfoldable pub turns_of : ℕ → List Message → List Message
  turns_of conversation [] = []
  turns_of conversation (m ∷ ms) =
      let rest = turns_of conversation ms in
      if m.conversation_id == conversation
      then (elim m.role [ MessageRole.system ↦ rest | _ ↦ m ∷ rest ])
      else rest

  unfoldable pub chat_turn : Message → ChatTurn
  chat_turn m = record {
    role = elim m.role [ MessageRole.user ↦ TurnRole.user | _ ↦ TurnRole.assistant ];
    content = m.content;
  }

  unfoldable pub spoken : List Message → List ChatTurn
  unfolding chat_turn strip
  spoken [] = []
  spoken (m ∷ ms) = if is_empty (strip u m.content) then spoken ms else chat_turn m ∷ spoken ms

  unfoldable pub load_history : ℕ → ℕ → List Message → List ChatTurn
  unfolding turns_of spoken
  load_history conversation limit messages =
      spoken (last_items (limit + limit) (turns_of conversation messages))

abbrev is_user : TurnRole → Bool
is_user TurnRole.user = true
is_user TurnRole.assistant = false

-- `history[:-1]` if the last turn is the question
unfoldable pub drop_question : Text → List ChatTurn → List ChatTurn
drop_question question [] = []
drop_question question (t ∷ []) =
    if is_user t.role && text_eq t.content question then [] else t ∷ []
drop_question question (t ∷ t' ∷ ts) = t ∷ drop_question question (t' ∷ ts)

pub data StreamEvent : Type 0 where
  text_delta : Text → StreamEvent
  stream_usage : ℕ → ℕ → StreamEvent
  -- whether the finish reason is `"length"`
  stream_done : Bool → StreamEvent

-- What a provider's stream yields for a prompt, and the exception that ends it.
pub record Provider (Float : Type 0) : Type 0 where
  pub name : Text
  pub model : Text
  pub stream_chat : BuiltPrompt Float → List StreamEvent × Option Text

pub record ChatSettings (Float : Type 0) : Type 0 where
  pub relevance_floor : Float

-- What the clock shows: the milliseconds to the first token and to the end.
pub record Clock : Type 0 where
  pub first_token : ℕ
  pub finished : ℕ

pub record ChatOutcome (Float : Type 0) : Type 0 where
  pub message_id : ℕ
  pub text : Text
  pub sources : List (RetrievedChunk Float)
  pub citations : List (ValidatedCitation Float)
  pub validated_markers : List ℕ
  pub stripped_markers : List ℕ
  pub input_tokens : ℕ
  pub output_tokens : ℕ
  pub ttft_ms : Option ℕ
  pub latency_ms : ℕ
  pub finish_reason : FinishReason
  pub groundedness : Option Float
  pub refused : Bool
  pub provider : Text
  pub model : Text

-- The dict of a source in `meta`.
pub record SourceCard (Float : Type 0) : Type 0 where
  pub marker : ℕ
  pub chunk : RetrievedChunk Float
  pub snippet : Text

pub record Meta (Float : Type 0) : Type 0 where
  pub message_id : ℕ
  pub provider : Text
  pub model : Text
  pub retrieval_ms : ℕ
  pub context_tokens : Option ℕ
  pub refused : Bool
  pub relevance : Float
  pub floor : Float
  pub sources : List (SourceCard Float)

pub data ChatEvent (Float : Type 0) : Type 0 where
  meta : Meta Float → ChatEvent Float
  token : Text → ChatEvent Float
  error : Text → ChatEvent Float
  citations : List ℕ → List ℕ → Float → ChatEvent Float
  usage : ℕ → ℕ → Option ℕ → ℕ → Text → ChatEvent Float
  done : FinishReason → ChatEvent Float
  outcome : ChatOutcome Float → ChatEvent Float
