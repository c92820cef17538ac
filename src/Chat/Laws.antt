-- ===== src/Chat/Laws.antt =====
-- What a turn of services/chat_service.py promises: one outcome, whose text is what was streamed with
-- its markers checked, and citations that quote the workspace only.
use knowledgeos.Prelude.{
  ◌⊎◌, inl, inr, arith, ℕ, suc, ◌-◌, ◌≡◌, refl, sym, ap, ◌∙◌, subst, Bool, true, false, Option,
  none, some, List, [], ◌∷◌, ◌++◌, All, All-append, All-imp, if◌then◌else◌,
}
use mathlib.Core.List.{append-nil}
use knowledgeos.Text.{Text, Unicode}
use knowledgeos.Float.{FloatOps}
use knowledgeos.Retrieval.{RetrievedChunk}
use knowledgeos.Retrieval.Search.{RetrievalResult, Database, Settings, Answers, retrieve}
use knowledgeos.Retrieval.Isolation.{IsIsolated, retrieve-IsSound}
use knowledgeos.Citation.{ValidatedCitation, validate}
use knowledgeos.Citation.Laws.{Resolves, citations-Resolves}
use knowledgeos.Chat.Budget.{select-fit_budget}
use knowledgeos.Chat.Prompt.{BuiltPrompt, build_chat_prompt}
use knowledgeos.Chat.{
  load_history, drop_question, FinishReason, Message, StreamEvent, Provider, ChatSettings, Clock,
  ChatOutcome, Meta, ChatEvent, meta, done, outcome, refusal_text, refusal_pieces,
}
use knowledgeos.Chat.Turn.{
  meta_of, run_stream, deltas, source_cards, gate_fires, refuse, refused_outcome, finish, answer,
}
use knowledgeos.Chat.Events.{
  concat, streamed, outcomes, card_chunks, announced, streamed-tokens, outcomes-tokens,
  announced-tokens, concat-split_blank, buffer-run_stream, All-fit_budget, All-get_elem?, All_nil,
}

module _ (F : FloatOps) (u : Unicode) where
  open F use {Float, le}

  validate-chunks :
      (P : RetrievedChunk Float → Type 0) (text : Text) (sources : List (RetrievedChunk Float))
      → All P sources
      → All (λ (c : ValidatedCitation Float). P c.chunk) (validate u text sources).citations
  validate-chunks P text sources a =
      All-imp (Resolves u text sources) (λ c. P c.chunk) (validate u text sources).citations
        (λ c r. All-get_elem? P sources (c.marker - 1) c.chunk a r.2)
        (citations-Resolves u text sources).0

  card_chunks-source_cards :
      (n : ℕ) (cs : List (RetrievedChunk Float)) → card_chunks (source_cards F u n cs) ≡ cs
  unfolding source_cards
  card_chunks-source_cards n [] = refl
  card_chunks-source_cards n (c ∷ cs) = ap (◌∷◌ c) (card_chunks-source_cards (suc n) cs)

  -- What an outcome quotes.
  abbrev pub Quotes : (RetrievedChunk Float → Type 0) → ChatOutcome Float → Type 0
  Quotes P o = All P o.sources × All (λ (c : ValidatedCitation Float). P c.chunk) o.citations

  -- How a turn ended, by the text that was streamed and its outcome.
  pub data Ending (said : Text) (o : ChatOutcome Float) : Type 0 where
    refused :
        o.refused ≡ true
        → o.text ≡ refusal_text
        → said ≡ refusal_text ++ b' ' ∷ []
        → o.citations ≡ []
        → Ending said o
    interrupted :
        o.finish_reason ≡ FinishReason.failed → o.text ≡ said → o.citations ≡ [] → Ending said o
    completed :
        o.refused ≡ false
        → o.text ≡ (validate u said o.sources).text
        → o.citations ≡ (validate u said o.sources).citations
        → o.stripped_markers ≡ (validate u said o.sources).stripped_markers
        → Ending said o

  module _ (settings : ChatSettings Float) (clock : Clock) (message_id : ℕ)
      (provider : Provider Float) where
    abbrev finished :
        List (RetrievedChunk Float) → List StreamEvent × Option Text → List (ChatEvent Float)
    finished = finish F u settings clock message_id provider

    streamed-finish :
        (sources : List (RetrievedChunk Float)) (out : List StreamEvent × Option Text)
        → streamed (finished sources out) ≡ concat (deltas out.0)
    unfolding finish
    streamed-finish sources (es, none) =
        streamed-tokens (deltas es) _ ∙ append-nil (concat (deltas es))
    streamed-finish sources (es, some m) =
        streamed-tokens (deltas es) _ ∙ append-nil (concat (deltas es))

    -- The one outcome of a list of events, how it ended, and what it quotes.
    abbrev pub Ends : List (ChatEvent Float) → List (RetrievedChunk Float) → Type 1
    Ends es chunks =
        (o : ChatOutcome Float) × (outcomes es ≡ o ∷ [])
        × Ending (streamed es) o
        × ((P : RetrievedChunk Float → Type 0) → All P chunks → Quotes P o × All P (announced es))

    finish-Ends :
        (sources : List (RetrievedChunk Float)) (out : List StreamEvent × Option Text)
        → Ends (finished sources out) sources
    unfolding finish
    finish-Ends sources (es, none) =
        let said = streamed-finish sources (es, none) in
        let s = run_stream clock.first_token es (record {
          buffer = [];
          input_tokens = 0;
          output_tokens = 0;
          ttft_ms = none;
          finish_reason = FinishReason.stop;
        }) in
        let same : s.buffer ≡ streamed (finished sources (es, none)) =
          buffer-run_stream clock.first_token es _ ∙ sym said in
        (
          _,
          outcomes-tokens (deltas es) _,
          completed refl (ap (λ (x : Text). (validate u x sources).text) same)
              (ap (λ (x : Text). (validate u x sources).citations) same)
              (ap (λ (x : Text). (validate u x sources).stripped_markers) same),
          λ P a. (
            (a, validate-chunks P s.buffer sources a),
            All_nil P (announced-tokens (deltas es) _),
          ),
        )
    finish-Ends sources (es, some m) =
        let said = streamed-finish sources (es, some m) in
        (
          _,
          outcomes-tokens (deltas es) _,
          interrupted refl (buffer-run_stream clock.first_token es _ ∙ sym said) refl,
          λ P a. ((a, tt), All_nil P (announced-tokens (deltas es) _)),
        )

    refuse-Ends :
        (retrieval : RetrievalResult Float)
        → Ends (refuse F u settings clock message_id provider retrieval) retrieval.chunks
    unfolding refuse refusal_pieces
    refuse-Ends retrieval =
        let last = refused_outcome F u settings clock message_id provider in
        let closing : List (ChatEvent Float) =
          done FinishReason.refused_by_gate ∷ outcome last ∷ [] in
        (
          last,
          outcomes-tokens refusal_pieces closing,
          refused refl refl
              (streamed-tokens refusal_pieces closing
                ∙ append-nil (concat refusal_pieces)
                ∙ concat-split_blank refusal_text)
              refl,
          λ P a. ((tt, tt), All_nil P (announced-tokens refusal_pieces closing)),
        )

    either_Ends :
        (b : Bool) (es es' : List (ChatEvent Float)) (chunks : List (RetrievedChunk Float))
        → Ends es chunks
        → Ends es' chunks
        → Ends (if b then es else es') chunks
    either_Ends true es es' chunks h h' = h
    either_Ends false es es' chunks h h' = h'

    -- What is streamed with a `meta` before it, over a part of the chunks.
    with_meta :
        (m : Meta Float) (es : List (ChatEvent Float)) (part chunks : List (RetrievedChunk Float))
        → ((P : RetrievedChunk Float → Type 0) → All P chunks → All P part)
        → card_chunks m.sources ≡ part
        → Ends es part
        → Ends (meta m ∷ es) chunks
    with_meta m es part chunks within shown (o, once, ending, quotes) = (
      o,
      once,
      ending,
      λ P a. (
        (quotes P (within P a)).0,
        All-append P (card_chunks m.sources) (announced es) (subst (All P) (sym shown) (within P a))
            (quotes P (within P a)).1,
      ),
    )

    -- A turn has one outcome. A refused turn streams the refusal text and cites nothing; one whose
    -- stream raised keeps what was streamed and cites nothing; a completed one keeps what `validate`
    -- makes of the streamed text over its sources, and its citations. What it quotes and cites is
    -- among the chunks that were retrieved.
    pub answer-Ends :
        (retrieval : RetrievalResult Float) (messages : List Message) (conversation : ℕ)
        (question : Text)
        → Ends
            (answer F u settings clock message_id provider retrieval messages conversation question)
            retrieval.chunks
    unfolding answer build_chat_prompt
    answer-Ends retrieval messages conversation question =
        let built =
          build_chat_prompt question retrieval.chunks
            (drop_question question (load_history u conversation 8 messages)) 6000 in
        either_Ends (gate_fires F u settings retrieval) _ _ retrieval.chunks (refuse-Ends retrieval)
          (with_meta
            (meta_of F u settings clock message_id provider retrieval (some built.context_tokens)
              false (source_cards F u 1 built.sources_used))
            (finished built.sources_used (provider.stream_chat built)) built.sources_used
            retrieval.chunks
            (λ P a.
              subst (All P) (sym (select-fit_budget 6000 0 false retrieval.chunks).0)
                (All-fit_budget P 6000 0 false retrieval.chunks a))
            (card_chunks-source_cards 1 built.sources_used)
            (finish-Ends built.sources_used (provider.stream_chat built)))

    -- An answer about a workspace quotes that workspace: every source that `meta` announces, and every
    -- source and citation of the one outcome, is of a stored chunk of the workspace whose document is
    -- ready, by that row's own text and title.
    pub answer-IsIsolated :
        (limits : Settings) (answers : Answers F) (db : Database) (workspace : ℕ)
        (messages : List Message) (conversation : ℕ) (question : Text)
        → let retrieval = retrieve F u limits answers db workspace question none none [] in
          let es =
            answer F u settings clock message_id provider retrieval messages conversation
              question in
          (o : ChatOutcome Float) × (outcomes es ≡ o ∷ [])
          × Quotes (IsIsolated db workspace) o
          × All (IsIsolated db workspace) (announced es)
    answer-IsIsolated limits answers db workspace messages conversation question =
        let retrieval = retrieve F u limits answers db workspace question none none [] in
        let (o, once, ending, quotes) = answer-Ends retrieval messages conversation question in
        let sound = (retrieve-IsSound F u limits answers db workspace question none none []).0 in
        let quoted = quotes (IsIsolated db workspace) sound in (o, once, quoted.0, quoted.1)

    if_true : (b : Bool) (es es' : List (ChatEvent Float)) → b ≡ true → (if b then es else es') ≡ es
    if_true true es es' h = refl
    if_true false es es' h = cc

    answer-refuse :
        (p : Provider Float) (retrieval : RetrievalResult Float) (messages : List Message)
        (conversation : ℕ) (question : Text)
        → gate_fires F u settings retrieval ≡ true
        → answer F u settings clock message_id p retrieval messages conversation question
          ≡ refuse F u settings clock message_id p retrieval
    unfolding answer
    answer-refuse p retrieval messages conversation question fires =
        if_true (gate_fires F u settings retrieval) _ _ fires

    same_refusal :
        (stream : BuiltPrompt Float → List StreamEvent × Option Text)
        (retrieval : RetrievalResult Float)
        → refuse F u settings clock message_id (record provider { stream_chat = stream }) retrieval
          ≡ refuse F u settings clock message_id provider retrieval
    unfolding refuse
    same_refusal stream retrieval = refl

    announced-refuse :
        (retrieval : RetrievalResult Float)
        → (outcomes (refuse F u settings clock message_id provider retrieval)
            ≡ refused_outcome F u settings clock message_id provider ∷ [])
          × (announced (refuse F u settings clock message_id provider retrieval) ≡ [])
    unfolding refuse
    announced-refuse retrieval =
        let last = refused_outcome F u settings clock message_id provider in
        let closing : List (ChatEvent Float) =
          done FinishReason.refused_by_gate ∷ outcome last ∷ [] in
        (outcomes-tokens refusal_pieces closing, announced-tokens refusal_pieces closing)

    gate_fires_below :
        (retrieval : RetrievalResult Float)
        → (retrieval.chunks ≡ []) ⊎ (le settings.relevance_floor retrieval.max_dense_score ≡ false)
        → gate_fires F u settings retrieval ≡ true
    unfolding gate_fires
    gate_fires_below retrieval (inl nothing) = rw nothing refl
    gate_fires_below retrieval (inr low) = ground (arith, low)

    -- When nothing was retrieved, or the best similarity is below the floor, what the model would say
    -- has no effect: with any other stream the events are the same, the one outcome is the refusal,
    -- and no source is announced.
    pub gate_stops_provider :
        (retrieval : RetrievalResult Float) (messages : List Message) (conversation : ℕ)
        (question : Text) (stream : BuiltPrompt Float → List StreamEvent × Option Text)
        → (retrieval.chunks ≡ []) ⊎ (le settings.relevance_floor retrieval.max_dense_score ≡ false)
        → let es =
            answer F u settings clock message_id provider retrieval messages conversation
              question in
          (answer F u settings clock message_id
              (record provider { stream_chat = stream })
              retrieval
              messages
              conversation
              question
            ≡ es)
          × (outcomes es ≡ refused_outcome F u settings clock message_id provider ∷ [])
          × (announced es ≡ [])
    gate_stops_provider retrieval messages conversation question stream below =
        let fires = gate_fires_below retrieval below in
        let other = record provider { stream_chat = stream } in
        let same = answer-refuse provider retrieval messages conversation question fires in
        let facts = announced-refuse retrieval in
        (
          answer-refuse other retrieval messages conversation question fires
              ∙ same_refusal stream retrieval
              ∙ sym same,
          ap outcomes same ∙ facts.0,
          ap announced same ∙ facts.1,
        )
