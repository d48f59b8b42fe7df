-- ===== src/Lib.antt =====
-- The agent service of the enterprise data copilot (agent-service/app): a question in words is
-- turned into SQL by a language model, and the SQL is run read-only under a policy.
--
-- The parts and their files, paths from agent-service/app:
-- query_safety: `QuerySafety.Guard` is `SQLGuard` (guard.py), from the single checks to `inspect`;
--   `QuerySafety.Policy` is `QueryPolicy` (models.py) with its validators, `from_snapshot` and
--   `restrict_to_tables`; `QuerySafety.Executor` is `PostgresReadOnlyExecutor` and `_bounded_result`
--   (executor.py); `QuerySafety.Cost` is the estimator of cost.py; `QuerySafety.Service` is
--   `SafeQueryService` (service.py), which calls the guard, the estimator, the executor and the audit
--   sink; `QuerySafety.Errors` and `QuerySafety.Result` are errors.py and the other models.
-- nl2sql: `Nl2sql.Question` is question_guard.py, `Nl2sql.Tables` table_references.py, and
--   `Nl2sql.Answer` the loop of drafts and repairs of service.py over the query service.
-- llm: `Llm.Client` is the retry loop of structured.py, `Llm.Errors` its error classes, and
--   `Llm.Provider` the call of a provider (openai_compatible.py).
-- agent: `Agent.Graph` is the workflow of graph.py (nodes, conditional edges, interrupt and resume),
--   `Agent.State` the state it passes on (state.py), `Agent.Steps` the records of its nodes (steps.py)
--   and `Agent.Failures` the classification of errors (error_policy.py); `Agent.Workflow` is the start,
--   resume and inspection of runs (service.py, models.py), `Agent.Actions` is what the nodes do
--   (actions.py), `Agent.Answering` answering.py, and `Agent.Charting` charting.py.
-- metadata: `Metadata.Snapshot` is models.py, and `Metadata.Cache` cache.py.
-- retrieval: `Retrieval.Service` is `retrieve` of service.py, `Retrieval.Rank` its ranking,
--   `Retrieval.Cache` cache.py, `Retrieval.Models` models.py, `Retrieval.Chunks` the chunks of
--   parsing.py, and `Retrieval.Memory` the repository in memory (repository.py).
-- knowledge_graph: `Knowledge.Models` is models.py, `Knowledge.Persist` and `Knowledge.Answer` are the
--   two operations of service.py, and `Knowledge.Store` is the in-memory store of repository.py.
-- data_sources: `Sources` is models.py and service.py.
-- `Prelude` has what they share, `Codes` the codes that errors carry, and `Examples` applies the
-- theorems at concrete inputs.
--
-- A call that raises is a `Result`. A call with effects returns the calls that it made, in order,
-- beside its result, or takes and returns the records that were sent so far. A text is a list of code
-- points; a set or a dict is a list; a number that is a float in the program is a whole number of units
-- of 2 ^ -1074, in which every finite float that is not negative is whole; a UUID is a number.
--
-- Parameters, because their code is not in the repository: what the SQL library answers about a
-- statement (`SqlGlot`), the tables of Unicode (`Unicode`), SHA-256, the JSON encoder and decoder
-- (`Codec`), a session of the database, the HTTP exchange with the language model, the sinks and the
-- clock, decimal arithmetic (`Values`), the arithmetic on the scores of chunks (`Scores`), the values
-- of a plan (`PlanReader`), and what the regular-expression engine matches (`Patterns`). The workflow
-- runs on its interface `AgentActions`, with the laws `Counts` and `Inspects` for what a theorem asks
-- of it; the real actions fill both, over what their collaborators answer (`Backend`).
-- `Agent.Graph.Machine` runs the compiled graph as the workflow library does: a node at a time, its
-- update merged into the state, an interrupt keeping the state and a resume running the node again.
--
-- Fuel: `invoke` runs nodes on fuel, and 5 * max_repairs + 9 rounds are enough, 19 for the largest
-- max_repairs, 2. The loop of `answer` runs on max_repairs + 1 rounds, one for each draft. The loop of
-- `generate` is structural on the attempts that are left. Decimal digits are printed on fuel of the
-- number plus one. The queue of `path` is emptied on fuel of the number of walks that edges can make
-- within the depth, which is never used up. The windows of a section are found on fuel of its length
-- plus one.
--
-- Not modelled: the parsing of documents and their embeddings, the repository of chunks in the
-- database, the graph database behind the knowledge graph, the introspection of databases, the choice
-- of a provider, the texts of prompts, evaluation, configuration, and the HTTP surface. Logging, metrics and spans are left out. Beside agent-service there are a Java service
-- (platform-api) and a web client (web), in other languages.
pub mod Prelude
pub mod Codes
pub mod Metadata
pub mod QuerySafety
pub mod Llm
pub mod Nl2sql
pub mod Retrieval
pub mod Agent
pub mod Knowledge
pub mod Sources
pub mod Examples
