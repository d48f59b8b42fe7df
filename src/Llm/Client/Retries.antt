-- ===== src/Llm/Client/Retries.antt =====
-- What the retries of `generate` can and cannot do.
use enterprise_data_copilot.Prelude.{
  leb-eq-false, ltb→lt, not, ◌||◌, ◌&&◌, leb, if◌then◌else◌, ℕ, zero, suc, ◌+◌, ◌≤◌, ◌<◌, ◌≡◌, refl,
  sym, subst, ◌⊎◌, inl, inr, Text, Bool, true, false, [], All, length, Option, none, some, arith,
  ltb,
}
use native.Mathlib.Decide.{dec_lt}
use enterprise_data_copilot.Prelude.Result.{Result, ok, err}
use enterprise_data_copilot.Llm.Errors.{LlmError, timed_out, invalid_response, is_retryable}
use enterprise_data_copilot.Llm.Client.Generate.{
  StructuredLlmResult, LlmCompletion, Answer, completed, timeout, failed, broken, unclassified,
  GenerateError, classified, Settings, Waited, delay, wait, may_retry, result_of, after_answer,
  attempt_from, generate,
}

module _ {A : Type 0} (s : Settings) (provider : ℕ → Answer) (validate : Text → Option A) where
  -- An answer after which it makes sense to ask again.
  abbrev pub IsTransient : Answer → Type 0
  IsTransient timeout = Unit
  IsTransient broken = ⊥
  IsTransient (failed error) = is_retryable error ≡ true
  IsTransient (completed c) = validate c.content ≡ none

  -- The answer stands for this result, or for this error.
  abbrev pub Yields : ℕ → Answer → Result GenerateError (StructuredLlmResult A) → Type 0
  Yields n timeout r = r ≡ err (classified timed_out)
  Yields n broken r = r ≡ err unclassified
  Yields n (failed error) r = r ≡ err (classified error)
  Yields n (completed c) r =
      ((output : A) × (validate c.content ≡ some output)
        × (r ≡ ok (result_of s provider validate c output n)))
      ⊎ ((validate c.content ≡ none) × (r ≡ err (classified invalid_response)))

  -- A call that began at the given attempt: it ended at `last`, by the answer of that attempt, within
  -- the allowed number; every answer before it was transient; one wait lies before each repetition,
  -- and no wait is longer than the longest.
  pub record IsBounded (first : ℕ) (w : Waited A) : Type 0 where
    pub last : ℕ
    pub after_first : first ≤ last
    pub allowed : last ≤ s.max_attempts
    pub transient : (n : ℕ) → first ≤ n → n < last → IsTransient (provider n)
    pub by_last : Yields last (provider last) w.0
    pub waits : length w.1 + first ≡ last
    pub short : All (λ d. d ≤ s.max_backoff) w.1

  delay-le : (n : ℕ) → delay s provider validate n ≤ s.max_backoff
  unfolding delay
  delay-le n = omega arith

  IsTransient-from :
      (first : ℕ) (w : Waited A)
      → IsTransient (provider first)
      → (b : IsBounded (first + 1) w) → (n : ℕ) → first ≤ n
      → n < b.last
      → IsTransient (provider n)
  IsTransient-from first (r, waits) t b n low high = elim (dec_lt first n) [
    | yes later ↦ b.transient n (omega arith) high
    | no h ↦ subst (λ m. IsTransient (provider m)) (omega arith) t
  ]

  -- A repetition after a transient answer.
  wait-IsBounded :
      (first : ℕ) (w : Waited A)
      → IsTransient (provider first)
      → IsBounded (first + 1) w
      → IsBounded first (wait s provider validate first w)
  wait-IsBounded first (r, waits) t b = record {
    last = b.last;
    after_first = omega arith;
    allowed = b.allowed;
    transient = λ n low high. IsTransient-from first (r, waits) t b n low high;
    by_last = b.by_last;
    waits = omega arith;
    short = (delay-le first, b.short);
  }

  stop-IsBounded :
      (first : ℕ) (r : Result GenerateError (StructuredLlmResult A))
      → first ≤ s.max_attempts
      → Yields first (provider first) r
      → IsBounded first (r, [])
  stop-IsBounded first r h y = record {
    last = first;
    after_first = omega arith;
    allowed = h;
    transient = λ n low high. absurd (omega arith);
    by_last = y;
    waits = omega arith;
    short = tt;
  }

  Yields-at :
      (n : ℕ) (a : Answer) (r : Result GenerateError (StructuredLlmResult A))
      → provider n ≡ a
      → Yields n a r
      → Yields n (provider n) r
  Yields-at n a r e y = subst (λ a. Yields n a r) (sym e) y

  -- What one test leads to: the repetition, or the end.
  branch-IsBounded :
      (first : ℕ) (b : Bool) (w : Waited A) (r : Result GenerateError (StructuredLlmResult A))
      → first ≤ s.max_attempts
      → (b ≡ true → IsTransient (provider first))
      → Yields first (provider first) r
      → (b ≡ true → IsBounded (first + 1) w)
      → IsBounded first (if b then wait s provider validate first w else (r, []))
  branch-IsBounded first true w r h t y ih = wait-IsBounded first w (t refl) (ih refl)
  branch-IsBounded first false w r h t y ih = stop-IsBounded first r h y

  nor-eq-true : (a b : Bool) → not (not a || b) ≡ true → (a ≡ true) × (b ≡ false)
  nor-eq-true true false h = (refl, refl)
  nor-eq-true true true h = cc
  nor-eq-true false b h = cc

  and-eq-true : (a b : Bool) → (a && b) ≡ true → b ≡ true
  and-eq-true true b h = h
  and-eq-true false b h = cc

  may_retry-eq-true :
      (e : LlmError) (n : ℕ)
      → may_retry s provider validate e n ≡ true
      → (is_retryable e ≡ true) × (n < s.max_attempts)
  may_retry-eq-true e n h =
      let both = nor-eq-true (is_retryable e) (leb s.max_attempts n) h in
      (both.0, leb-eq-false s.max_attempts n both.1)

  content-IsBounded :
      (first used : ℕ) (again : ℕ → Waited A) (c : LlmCompletion) (v : Option A)
      → provider first ≡ completed c
      → validate c.content ≡ v
      → first ≤ s.max_attempts
      → (first < s.max_attempts → (n : ℕ) → IsBounded (first + 1) (again n))
      → IsBounded first (elim v [
        | some output ↦ (ok (result_of s provider validate c output first), [])
        | none ↦
            if ltb used s.invalid_response_retries && ltb first s.max_attempts
            then wait s provider validate first (again (used + 1))
            else (err (classified invalid_response), [])
      ])
  content-IsBounded first used again c (some output) e v h ih =
      stop-IsBounded first (ok (result_of s provider validate c output first)) h (
        Yields-at first (completed c) (ok (result_of s provider validate c output first)) e
          (inl (output, v, refl)))
  content-IsBounded first used again c none e v h ih =
      branch-IsBounded first _ (again (used + 1)) (err (classified invalid_response)) h
        (λ more. subst IsTransient (sym e) v)
        (Yields-at first (completed c) (err (classified invalid_response)) e (inr (v, refl)))
        (λ more. ih (ltb→lt first s.max_attempts (and-eq-true _ _ more)) (used + 1))

  after_answer-IsBounded :
      (first used : ℕ) (again : ℕ → Waited A) (a : Answer)
      → provider first ≡ a
      → first ≤ s.max_attempts
      → (first < s.max_attempts → (n : ℕ) → IsBounded (first + 1) (again n))
      → IsBounded first (after_answer s provider validate first used again a)
  after_answer-IsBounded first used again timeout e h ih =
      branch-IsBounded first (may_retry s provider validate timed_out first) (again used)
        (err (classified timed_out)) h (λ more. subst IsTransient (sym e) tt)
        (Yields-at first timeout (err (classified timed_out)) e refl)
        (λ more. ih (may_retry-eq-true timed_out first more).1 used)
  after_answer-IsBounded first used again (failed error) e h ih =
      branch-IsBounded first (may_retry s provider validate error first) (again used)
        (err (classified error)) h
        (λ more. subst IsTransient (sym e) (may_retry-eq-true error first more).0)
        (Yields-at first (failed error) (err (classified error)) e refl)
        (λ more. ih (may_retry-eq-true error first more).1 used)
  after_answer-IsBounded first used again broken e h ih =
      stop-IsBounded first (err unclassified) h (Yields-at first broken (err unclassified) e refl)
  after_answer-IsBounded first used again (completed c) e h ih =
      content-IsBounded first used again c (validate c.content) e refl h ih

  attempt_from-IsBounded :
      (left first used : ℕ)
      → left + first ≡ s.max_attempts + 1
      → first ≤ s.max_attempts
      → IsBounded first (attempt_from s provider validate left first used)
  unfolding attempt_from
  attempt_from-IsBounded zero first used e h = absurd (omega arith)
  attempt_from-IsBounded (suc left) first used e h =
      after_answer-IsBounded first used _ (provider first) refl h
        (λ more n. attempt_from-IsBounded left (first + 1) n (omega arith) (omega arith))

  -- With at least one attempt allowed, `generate` ends with the result or the classified error of
  -- one answer, and never with the assertion behind its loop.
  pub generate-IsBounded : 1 ≤ s.max_attempts → IsBounded 1 (generate s provider validate)
  unfolding generate
  generate-IsBounded h = attempt_from-IsBounded s.max_attempts 1 0 (omega arith) h
