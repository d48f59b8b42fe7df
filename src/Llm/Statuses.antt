-- ===== src/Llm/Statuses.antt =====
-- Which exchanges the client may try again.
use enterprise_data_copilot.Prelude.{
  List, [], ◌∷◌, ℕ, ◌≤◌, ◌<◌, ◌≡◌, ◌↔◌, ◌⊎◌, inl, inr, refl, Text, true, false, Option, none, some,
  arith,
}
use enterprise_data_copilot.Prelude.Strings.{is_empty}
use enterprise_data_copilot.Llm.Errors.{
  LlmError, is_retryable, timed_out, unavailable, invalid_response,
}
use enterprise_data_copilot.Llm.Client.Generate.{LlmCompletion, Answer, completed, failed, broken}
use enterprise_data_copilot.Llm.Provider.{
  Settings, LlmRequest, Post, post_of, Response, WireCompletion, Exchange, response,
  timeout_exception, network_error, other_exception, status_error, first_choice, completion_of,
  read_body, after_status, answer_of, complete,
}

-- The statuses that may pass: a timeout, too many requests, and the errors of the server.
abbrev pub IsPassing : ℕ → Type 0
IsPassing code = (code ≡ 408) ⊎ ((code ≡ 429) ⊎ (500 ≤ code))

-- A success, an error that is retried exactly if it may pass, or another exception.
abbrev pub IsMapped : Exchange → Answer → Type 0
IsMapped timeout_exception a = a ≡ failed timed_out
IsMapped network_error a = a ≡ failed unavailable
IsMapped other_exception a = a ≡ broken
IsMapped (response r) a =
    (((200 ≤ r.status_code) × (r.status_code < 300))
      × ((a ≡ failed invalid_response)
          ⊎ ((c : LlmCompletion) × (a ≡ completed c) × (is_empty c.content ≡ false))))
    ⊎ ((e : LlmError) × (a ≡ failed e) × ((is_retryable e ≡ true) ↔ IsPassing r.status_code))

module _ (s : Settings) where
  status_error-IsPassing :
      (code : ℕ) (e : LlmError)
      → status_error code ≡ some e
      → (is_retryable e ≡ true) ↔ IsPassing code
  unfolding status_error
  status_error-IsPassing code e h = (λ r. ground arith, λ p. ground arith)

  first_choice-some :
      (contents : List Text) (content : Text)
      → first_choice contents ≡ some content
      → is_empty content ≡ false
  first_choice-some [] content h = cc
  first_choice-some (c ∷ cs) content h = ground arith

  completion_of-IsMapped :
      (r : Response) (wire : WireCompletion) (choice : Option Text)
      → first_choice wire.contents ≡ choice
      → (completion_of s r wire choice ≡ failed invalid_response)
        ⊎ ((c : LlmCompletion) × (completion_of s r wire choice ≡ completed c)
            × (is_empty c.content ≡ false))
  completion_of-IsMapped r wire none h = inl refl
  completion_of-IsMapped r wire (some content) h =
      inr (_, refl, first_choice-some wire.contents content h)

  read_body-IsMapped :
      (r : Response) (body : Option WireCompletion)
      → (read_body s r body ≡ failed invalid_response)
        ⊎ ((c : LlmCompletion) × (read_body s r body ≡ completed c) × (is_empty c.content ≡ false))
  read_body-IsMapped r none = inl refl
  read_body-IsMapped r (some wire) = completion_of-IsMapped r wire (first_choice wire.contents) refl

  status_error-success : (code : ℕ) → status_error code ≡ none → (200 ≤ code) × (code < 300)
  unfolding status_error
  status_error-success code h = (ground arith, ground arith)

  after_status-IsMapped :
      (r : Response) (e : Option LlmError)
      → status_error r.status_code ≡ e
      → IsMapped (response r) (after_status s r e)
  after_status-IsMapped r none h =
      inl (status_error-success r.status_code h, read_body-IsMapped r r.body)
  after_status-IsMapped r (some e) h = inr (e, refl, status_error-IsPassing r.status_code e h)

  answer_of-IsMapped : (x : Exchange) → IsMapped x (answer_of s x)
  answer_of-IsMapped (response r) = after_status-IsMapped r (status_error r.status_code) refl
  answer_of-IsMapped timeout_exception = refl
  answer_of-IsMapped network_error = refl
  answer_of-IsMapped other_exception = refl

  -- A completion that is returned has a text and comes from a status of success; an error status
  -- raises an error that is retried exactly for a timeout, too many requests or a failure of the
  -- server, and the exceptions of the client raise the errors that stand for them.
  pub complete-IsMapped :
      (post : Post → Exchange) (request : LlmRequest)
      → IsMapped (post (post_of s request)) (complete s post request)
  unfolding complete
  complete-IsMapped post request = answer_of-IsMapped (post (post_of s request))
