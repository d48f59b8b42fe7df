-- ===== src/Examples/Provider.antt =====
-- One exchange with the provider.
use enterprise_data_copilot.Prelude.{[], ◌∷◌, none, codes}
use enterprise_data_copilot.Llm.Provider.{
  Role, StructuredOutputMode, LlmRequest, Settings, Post, post_of, Exchange, response, complete,
}
use enterprise_data_copilot.Llm.Statuses.{IsMapped, complete-IsMapped}

abbrev settings : Settings
settings = record {
  model = codes "model";
  api_key = codes "key";
  app_name = [];
  site_url = [];
  connect_timeout_seconds = 5;
}

abbrev request : LlmRequest
request = record {
  messages = record { role = Role.user; content = codes "How many orders?" } ∷ [];
  response_schema = codes "{}";
  schema_name = codes "Draft";
  structured_output_mode = StructuredOutputMode.json_schema;
  max_output_tokens = 100;
  timeout_seconds = 30;
}

abbrev busy : Post → Exchange
busy post = response (record { status_code = 429; request_id = none; body = none })

complete-IsMapped_example :
    IsMapped (busy (post_of settings request)) (complete settings busy request)
complete-IsMapped_example = complete-IsMapped settings busy request
