-- ===== src/Llm/Provider.antt =====
-- agent-service/app/llm/openai_compatible.py. How the HTTP client ends is a parameter.
use enterprise_data_copilot.Prelude.{
  ℕ, min, Text, not, ◌&&◌, ◌||◌, List, [], ◌∷◌, ◌++◌, Option, none, some, codes, all, leb, ltb,
  ◌==◌, nat_eq, if◌then◌else◌,
}
use enterprise_data_copilot.Prelude.Strings.{is_empty, strip, text_eq}
use enterprise_data_copilot.Prelude.Dict.{Dict, insert}
use enterprise_data_copilot.Llm.Errors.{
  LlmError, authentication, request_rejected, rate_limit, timed_out, unavailable, invalid_response,
}
use enterprise_data_copilot.Llm.Client.Generate.{LlmTokenUsage, Answer, completed, failed, broken}

-- `LLMMessage` and `LLMRequest` of models.py; the schema stays the text of its JSON.
pub data Role : Type 0 where
  system user assistant : Role

pub data StructuredOutputMode : Type 0 where
  json_schema json_object : StructuredOutputMode

pub record LlmMessage : Type 0 where
  pub role : Role
  pub content : Text

pub record LlmRequest : Type 0 where
  pub messages : List LlmMessage
  pub response_schema : Text
  pub schema_name : Text
  pub structured_output_mode : StructuredOutputMode
  pub max_output_tokens : ℕ
  pub timeout_seconds : ℕ

-- The attributes of the provider; an attribute that is `None` is the empty text.
pub record Settings : Type 0 where
  pub model : Text
  pub api_key : Text
  pub app_name : Text
  pub site_url : Text
  pub connect_timeout_seconds : ℕ

-- What is posted to `/chat/completions`.
pub data ResponseFormat : Type 0 where
  any_object : ResponseFormat
  strict_schema : Text → Text → ResponseFormat

pub record Post : Type 0 where
  pub headers : Dict Text Text
  pub model : Text
  pub messages : List LlmMessage
  pub max_tokens : ℕ
  pub response_format : ResponseFormat
  pub timeout : ℕ
  pub connect_timeout : ℕ

-- `if value: headers[name] = text`
abbrev pub header_if : Text → Text → Text → Dict Text Text → Dict Text Text
header_if value name text headers = if is_empty value then headers else insert name text headers

unfoldable pub headers_of : Settings → Dict Text Text
headers_of s =
    let api_key = strip s.api_key in
    header_if s.site_url (codes "HTTP-Referer") s.site_url (
      header_if s.app_name (codes "X-Title") s.app_name (
        header_if api_key (codes "Authorization") (codes "Bearer " ++ api_key)
          ((codes "Content-Type", codes "application/json") ∷ [])))

-- `_response_format`
abbrev pub response_format : LlmRequest → StructuredOutputMode → ResponseFormat
response_format request json_object = any_object
response_format request json_schema = strict_schema request.schema_name request.response_schema

unfoldable pub post_of : Settings → LlmRequest → Post
unfolding headers_of
post_of s request = record {
  headers = headers_of s;
  model = s.model;
  messages = request.messages;
  max_tokens = request.max_output_tokens;
  response_format = response_format request request.structured_output_mode;
  timeout = request.timeout_seconds;
  connect_timeout = min s.connect_timeout_seconds request.timeout_seconds;
}

-- `_WireCompletion`, with the contents of its choices; a text that is missing is empty.
pub record WireCompletion : Type 0 where
  pub id : Text
  pub model : Text
  pub contents : List Text
  pub usage : LlmTokenUsage

-- A response: its status, the header `x-request-id`, and its body, where this is a JSON of the right
-- types.
pub record Response : Type 0 where
  pub status_code : ℕ
  pub request_id : Option Text
  pub body : Option WireCompletion

pub data Exchange : Type 0 where
  response : Response → Exchange
  timeout_exception network_error other_exception : Exchange

-- `_raise_for_status`
unfoldable pub status_error : ℕ → Option LlmError
status_error code =
    if leb 200 code && ltb code 300
    then none
    else if code == 401
    then some authentication
    else if code == 403
    then some request_rejected
    else if code == 408 || code == 504
    then some timed_out
    else if code == 429
    then some rate_limit
    else if leb 500 code
    then some unavailable
    else some request_rejected

-- The first choice of a body that passes the validation: some choices, none of them empty.
abbrev pub first_choice : List Text → Option Text
first_choice [] = none
first_choice (content ∷ contents) =
    if all (λ c. not (is_empty c)) (content ∷ contents) then some content else none

-- `first or second`
abbrev pub text_or : Text → Text → Text
text_or first second = if is_empty first then second else first

abbrev pub request_id_of : Response → WireCompletion → Option Text
request_id_of r wire = if is_empty wire.id then r.request_id else some wire.id

module _ (s : Settings) where
  abbrev pub completion_of : Response → WireCompletion → Option Text → Answer
  completion_of r wire none = failed invalid_response
  completion_of r wire (some content) = completed (record {
    content = content;
    model = text_or wire.model s.model;
    request_id = request_id_of r wire;
    usage = wire.usage;
  })

  abbrev pub read_body : Response → Option WireCompletion → Answer
  read_body r none = failed invalid_response
  read_body r (some wire) = completion_of r wire (first_choice wire.contents)

  abbrev pub after_status : Response → Option LlmError → Answer
  after_status r (some e) = failed e
  after_status r none = read_body r r.body

  abbrev pub answer_of : Exchange → Answer
  answer_of (response r) = after_status r (status_error r.status_code)
  answer_of timeout_exception = failed timed_out
  answer_of network_error = failed unavailable
  answer_of other_exception = broken

  -- `complete`; the argument is how the client ends for what is posted.
  unfoldable pub complete : (Post → Exchange) → LlmRequest → Answer
  unfolding post_of status_error
  complete post request = answer_of (post (post_of s request))
