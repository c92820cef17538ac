-- ===== src/Chat/Turn.antt =====
-- `answer` of services/chat_service.py, and `heuristic_groundedness` of services/citation_service.py.
use knowledgeos.Prelude.{
  ℕ, suc, ◌+◌, Bool, true, false, ◌||◌, not, Option, none, some, List, [], ◌∷◌, ◌++◌, length, take,
  ltb, if◌then◌else◌,
}
use knowledgeos.Text.{Text, Unicode, is_empty, join, split}
use knowledgeos.Float.{FloatOps}
use knowledgeos.Fusion.Similar.{has_word}
use knowledgeos.Retrieval.{RetrievedChunk}
use knowledgeos.Retrieval.Query.{find_words}
use knowledgeos.Retrieval.Search.{RetrievalResult}
use knowledgeos.Citation.{validate}
use knowledgeos.Chat.Prompt.{build_chat_prompt}
use knowledgeos.Chat.{
  FinishReason, Message, StreamEvent, text_delta, stream_usage, stream_done, Provider, ChatSettings,
  Clock, ChatOutcome, SourceCard, Meta, ChatEvent, refusal_text, refusal_pieces, load_history,
  drop_question,
}

-- What the loop over the stream has gathered.
pub record StreamState : Type 0 where
  pub buffer : Text
  pub input_tokens : ℕ
  pub output_tokens : ℕ
  pub ttft_ms : Option ℕ
  pub finish_reason : FinishReason

abbrev or_first : Option ℕ → ℕ → Option ℕ
or_first none ms = some ms
or_first (some n) ms = some n

unfoldable pub stream_step : ℕ → StreamEvent → StreamState → StreamState
stream_step first (text_delta text) s = record s {
  buffer = s.buffer ++ text;
  ttft_ms = or_first s.ttft_ms first;
}
stream_step first (stream_usage input output) s = record s {
  input_tokens = input;
  output_tokens = output;
}
stream_step first (stream_done at_length) s = record s {
  finish_reason = if at_length then FinishReason.length_limit else FinishReason.stop;
}

unfoldable pub run_stream : ℕ → List StreamEvent → StreamState → StreamState
unfolding stream_step
run_stream first [] s = s
run_stream first (e ∷ es) s = run_stream first es (stream_step first e s)

-- The texts that the loop yields as `token`.
unfoldable pub deltas : List StreamEvent → List Text
deltas [] = []
deltas (text_delta text ∷ es) = text ∷ deltas es
deltas (stream_usage _ _ ∷ es) = deltas es
deltas (stream_done _ ∷ es) = deltas es

abbrev pub tokens : {Float : Type 0} → List Text → List (ChatEvent Float)
tokens [] = []
tokens (t ∷ ts) = ChatEvent.token t ∷ tokens ts

unfoldable pub all_contents : {Float : Type 0} → List (RetrievedChunk Float) → List Text
all_contents [] = []
all_contents (c ∷ cs) = c.content ∷ all_contents cs

-- `[w for w in words if len(w) > 3]`
unfoldable pub long_words : List Text → List Text
long_words [] = []
long_words (w ∷ ws) = if ltb 3 (length w) then w ∷ long_words ws else long_words ws

unfoldable pub count_supported : List Text → List Text → ℕ
unfolding has_word
count_supported corpus [] = 0
count_supported corpus (w ∷ ws) =
    let rest = count_supported corpus ws in if has_word w corpus then rest + 1 else rest

module _ (F : FloatOps) (u : Unicode) where
  open F use {Float, of_nat, div, le, round}

  unfoldable pub heuristic_groundedness : Text → List (RetrievedChunk Float) → Float
  unfolding all_contents long_words count_supported find_words join
  heuristic_groundedness text sources =
      if is_empty text || is_empty sources
      then of_nat 0
      else (let corpus = find_words u (u.lower (join (b' ' ∷ []) (all_contents sources))) in
          let answer_words = long_words (find_words u (u.lower text)) in
          if is_empty answer_words
          then of_nat 0
          else round
              (div (of_nat (count_supported corpus answer_words)) (of_nat (length answer_words))))

  -- `enumerate(built.sources_used, start=marker)`
  unfoldable pub source_cards : ℕ → List (RetrievedChunk Float) → List (SourceCard Float)
  unfolding split join
  source_cards marker [] = []
  source_cards marker (c ∷ cs) =
      record {
        marker = marker;
        chunk = c;
        snippet = take 280 (join (b' ' ∷ []) (split u c.content));
      }
      ∷ source_cards (suc marker) cs

  -- The refusal gate fires.
  unfoldable pub gate_fires : ChatSettings Float → RetrievalResult Float → Bool
  gate_fires settings retrieval =
      is_empty retrieval.chunks || not (le settings.relevance_floor retrieval.max_dense_score)

  module _ (settings : ChatSettings Float) (clock : Clock) (message_id : ℕ)
      (provider : Provider Float) where
    abbrev fresh_outcome : List (RetrievedChunk Float) → ChatOutcome Float
    fresh_outcome sources = record {
      message_id = message_id;
      text = [];
      sources = sources;
      citations = [];
      validated_markers = [];
      stripped_markers = [];
      input_tokens = 0;
      output_tokens = 0;
      ttft_ms = none;
      latency_ms = clock.finished;
      finish_reason = FinishReason.stop;
      groundedness = none;
      refused = false;
      provider = provider.name;
      model = provider.model;
    }

    abbrev pub meta_of :
        RetrievalResult Float → Option ℕ → Bool → List (SourceCard Float) → Meta Float
    meta_of retrieval context_tokens refused sources = record {
      message_id = message_id;
      provider = provider.name;
      model = provider.model;
      retrieval_ms = retrieval.took_ms;
      context_tokens = context_tokens;
      refused = refused;
      relevance = round retrieval.max_dense_score;
      floor = settings.relevance_floor;
      sources = sources;
    }

    abbrev pub refused_outcome : ChatOutcome Float
    refused_outcome = record (fresh_outcome []) {
      refused = true;
      finish_reason = FinishReason.refused_by_gate;
      text = refusal_text;
    }

    unfoldable pub refuse : RetrievalResult Float → List (ChatEvent Float)
    unfolding refusal_pieces refusal_text
    refuse retrieval =
        ChatEvent.meta (meta_of retrieval none true [])
        ∷ (tokens refusal_pieces
            ++ (ChatEvent.done FinishReason.refused_by_gate
                ∷ ChatEvent.outcome refused_outcome
                ∷ []))

    -- What follows `meta`, from what the stream yields.
    unfoldable pub finish :
        List (RetrievedChunk Float) → List StreamEvent × Option Text → List (ChatEvent Float)
    unfolding run_stream deltas validate heuristic_groundedness
    finish sources (events, raised) =
        let start : StreamState = record {
          buffer = [];
          input_tokens = 0;
          output_tokens = 0;
          ttft_ms = none;
          finish_reason = FinishReason.stop;
        } in
        let s = run_stream clock.first_token events start in
        let streamed = record (fresh_outcome sources) {
          input_tokens = s.input_tokens;
          output_tokens = s.output_tokens;
          ttft_ms = s.ttft_ms;
          finish_reason = s.finish_reason;
        } in
        tokens (deltas events) ++ (elim raised [
          | some message ↦
              ChatEvent.error (take 300 message)
              ∷ ChatEvent.outcome
                  (record streamed { finish_reason = FinishReason.failed; text = s.buffer })
              ∷ []
          | none ↦
              (let validated = validate u s.buffer sources in
                let grounded = heuristic_groundedness validated.text sources in
                ChatEvent.citations validated.validated_markers validated.stripped_markers grounded
                ∷ ChatEvent.usage s.input_tokens s.output_tokens s.ttft_ms clock.finished
                    provider.model
                ∷ ChatEvent.done s.finish_reason
                ∷ ChatEvent.outcome (record streamed {
                  text = validated.text;
                  citations = validated.citations;
                  validated_markers = validated.validated_markers;
                  stripped_markers = validated.stripped_markers;
                  groundedness = some grounded;
                })
                ∷ [])
        ])

    -- The events of a turn, for what `retrieve` returned and the messages of the database.
    unfoldable pub answer : RetrievalResult Float → List Message → ℕ → Text → List (ChatEvent Float)
    unfolding gate_fires refuse finish build_chat_prompt load_history drop_question source_cards
    answer retrieval messages conversation question =
        if gate_fires settings retrieval
        then refuse retrieval
        else (let history = drop_question question (load_history u conversation 8 messages) in
            let built = build_chat_prompt question retrieval.chunks history 6000 in
            ChatEvent.meta (
              meta_of retrieval (some built.context_tokens) false
                (source_cards 1 built.sources_used))
            ∷ finish built.sources_used (provider.stream_chat built))
