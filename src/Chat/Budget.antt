-- ===== src/Chat/Budget.antt =====
-- The token budget of `build_chat_prompt` in services/prompt_builder.py.
use knowledgeos.Prelude.{
  ℕ, suc, ◌+◌, ◌≤◌, ◌<◌, ◌≡◌, refl, ap, sym, subst, Bool, true, false, ◌&&◌, ◌⊎◌, inl, inr, List,
  [], ◌∷◌, ltb, Bool-cases, length, take, arith,
}
use knowledgeos.Text.{Text}
use knowledgeos.Retrieval.{RetrievedChunk, token_estimate, fit_budget}
use knowledgeos.Chat.Prompt.{ChatTurn, select, build_chat_prompt}

module _ {Float : Type 0} where
  -- The sum of the token estimates.
  unfoldable pub total_tokens : List (RetrievedChunk Float) → ℕ
  unfolding token_estimate
  total_tokens [] = 0
  total_tokens (c ∷ cs) = token_estimate c + total_tokens cs

  -- The loop selects what `apply_token_budget` does, and adds up its tokens.
  pub select-fit_budget :
      (budget used : ℕ) (kept : Bool) (cs : List (RetrievedChunk Float))
      → ((select budget used kept cs).0 ≡ fit_budget budget used kept cs)
        × ((select budget used kept cs).1 ≡ used + total_tokens (select budget used kept cs).0)
  unfolding select fit_budget total_tokens
  select-fit_budget budget used kept [] = (refl, omega arith)
  select-fit_budget budget used kept (c ∷ cs) =
      let (same, sum) = select-fit_budget budget (used + token_estimate c) true cs in
      elim (Bool-cases (ltb budget (used + token_estimate c) && kept)) [
        | inl over ↦ rw over (refl, omega arith)
        | inr fits ↦ rw fits (ap (◌∷◌ c) same, omega (arith, sum))
      ]

  fit_budget-take :
      (budget used : ℕ) (kept : Bool) (cs : List (RetrievedChunk Float))
      → let chosen = fit_budget budget used kept cs in chosen ≡ take (length chosen) cs
  unfolding fit_budget
  fit_budget-take budget used kept [] = refl
  fit_budget-take budget used kept (c ∷ cs) =
      elim (Bool-cases (ltb budget (used + token_estimate c) && kept)) [
        | inl over ↦ rw over refl
        | inr fits ↦ rw fits (ap (◌∷◌ c) (fit_budget-take budget (used + token_estimate c) true cs))
      ]

  within_budget :
      (budget used : ℕ) (cs : List (RetrievedChunk Float))
      → used ≤ budget
      → used + total_tokens (fit_budget budget used true cs) ≤ budget
  unfolding fit_budget total_tokens
  within_budget budget used [] h = omega arith
  within_budget budget used (c ∷ cs) h =
      elim (Bool-cases (ltb budget (used + token_estimate c) && true)) [
        | inl over ↦ rw over (omega arith)
        | inr fits ↦ rw fits (
            omega (arith, within_budget budget (used + token_estimate c) cs (ground (arith, fits))))
      ]

  over_budget :
      (budget used : ℕ) (cs : List (RetrievedChunk Float))
      → budget < used
      → fit_budget budget used true cs ≡ []
  unfolding fit_budget
  over_budget budget used [] h = refl
  over_budget budget used (c ∷ cs) h = rw (over (token_estimate c)) refl
    where
      over : (n : ℕ) → (ltb budget (used + n) && true) ≡ true
      over n = ground arith

  -- The first chunk is taken, whatever the budget.
  fit_budget-first :
      (budget : ℕ) (c : RetrievedChunk Float) (cs : List (RetrievedChunk Float))
      → fit_budget budget 0 false (c ∷ cs) ≡ c ∷ fit_budget budget (token_estimate c) true cs
  unfolding fit_budget
  fit_budget-first budget c cs =
      let none_yet : 0 + token_estimate c ≡ token_estimate c = omega arith in
      let taken = ap (λ (n : ℕ). c ∷ fit_budget budget n true cs) none_yet in
      elim (Bool-cases (ltb budget (0 + token_estimate c))) [
        | inl h ↦ rw h taken
        | inr h ↦ rw h taken
      ]

  fit_budget-within :
      (budget : ℕ) (cs : List (RetrievedChunk Float))
      → let chosen = fit_budget budget 0 false cs in
        (total_tokens chosen ≤ budget) ⊎ (length chosen ≡ 1)
  unfolding total_tokens
  fit_budget-within budget [] = inl (unfold fit_budget in omega arith)
  fit_budget-within budget (c ∷ cs) =
      rw (fit_budget-first budget c cs) (elim (Bool-cases (ltb budget (token_estimate c))) [
        | inl over ↦ inr (
            ap (λ (l : List (RetrievedChunk Float)). suc (length l))
              (over_budget budget (token_estimate c) cs (ground (arith, over))))
        | inr fits ↦ inl (within_budget budget (token_estimate c) cs (ground (arith, fits)))
      ])

  -- The sources of a prompt are the best-ranked ones, as a front part of the chunks; the reported
  -- count is that of their tokens; and it is within the budget, or there is one source only.
  pub build_chat_prompt-within :
      (question : Text) (chunks : List (RetrievedChunk Float)) (history : List ChatTurn)
      (budget : ℕ)
      → let built = build_chat_prompt question chunks history budget in
        (built.sources_used ≡ take (length built.sources_used) chunks)
        × (built.context_tokens ≡ total_tokens built.sources_used)
        × ((built.context_tokens ≤ budget) ⊎ (length built.sources_used ≡ 1))
  unfolding build_chat_prompt total_tokens
  build_chat_prompt-within question chunks history budget =
      let (same, sum) = select-fit_budget budget 0 false chunks in
      let used : (select budget 0 false chunks).1 ≡ total_tokens (select budget 0 false chunks).0 =
        omega (arith, sum) in
      (
        subst (λ (l : List (RetrievedChunk Float)). l ≡ take (length l) chunks) (sym same)
            (fit_budget-take budget 0 false chunks),
        used,
        subst (λ (n : ℕ). (n ≤ budget) ⊎ (length (select budget 0 false chunks).0 ≡ 1)) (sym used)
            (subst (λ (l : List (RetrievedChunk Float)). (total_tokens l ≤ budget) ⊎ (length l ≡ 1))
              (sym same) (fit_budget-within budget chunks)),
      )
