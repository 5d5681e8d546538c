-- ===== src/Lib.antt =====
-- moreofchat: a verification of the core of the conversation platform in src/moc.
--
-- The program answers customers of several tenants over messaging channels. A message is taken off
-- a stream by a worker; the agent extracts an intent and slots; the script engine, which is
-- deterministic, decides whether to answer, to clarify or to hand off to a person; an answer is
-- composed by a model provider behind a router, grounded in retrieved chunks or in a calculator,
-- and checked by gates; the reply goes to the outbound stream, which the sender drains.
--
-- The parts and their files:
--
--   Prelude, Dict, Result   shared names, tests on numbers, lists, integers; insertion-ordered
--       mappings (`dict`); computations that may raise.
--   Str                     what the code uses of `str`, on lists of code points.
--   Arabic/Numerals         src/moc/arabic/numerals.py. `normalize_digits`; Numerals/Parse is `_shave`
--       and `_parse_number`, Numerals/Scan `_tokenize`, the rules on a token and
--       `extract_quantities`. The configured lexicon is the record `Lexicon` and Python's character
--       tables are `Unicode`; a value is a fraction. Arabic/Normalize and Arabic/Script are
--       normalize.py and script.py.
--   Agent/State             src/moc/agent/state.py. `ConversationState`, `TurnInput`, `Decision`;
--       State/Json is `to_json` and `from_json`.
--   Agent/Engine            src/moc/agent/script_engine.py. A script is the record of what the
--       engine reads of its YAML document. Engine/Advance is `ScriptEngine.advance`, split into the
--       choice of the node (`choose`), the merge of slots (`merged`), and the order of its returns
--       (`advance_at`, `decide`); `converse` runs a list of turns. Scores are an abstract type with
--       the code's comparison as a parameter.
--   Agent/Guards            src/moc/agent/guards.py. `check_numeric_grounding`,
--       `check_type_substitution`, `check_named_entities`. The numeral extractor is
--       the interface `Numerals`, which Guards/Reading fills with Arabic/Numerals.
--   Agent/Provenance        src/moc/agent/provenance.py. `trace_figures`, over the same interface.
--   Agent/Redaction         `redact` of the same file: the spans taken, sorted and cut out. The
--       regular expression engine and the digit normalizer are parameters.
--   Agent/Handoff           src/moc/agent/handoff.py. `HandoffStore.open`, `claim`,
--       `return_to_bot` and `live_for_conversation` as functions on the rows, with the unique index
--       of migrations/versions/0008_handoffs.py written out in `insert`. Handoff/Live has the step
--       relation of the store.
--   Agent/Conversations     src/moc/agent/conversations.py. `load`, `find`, `touch` and `save` on rows;
--       Agent/Messages is `ContactStore` and `MessageLog` of handoff.py.
--   Agent/FigureAudit       src/moc/agent/figure_audit.py. `audit_figures`; the model and the JSON reader
--       are the record `Auditor`.
--   Agent/Replies           src/moc/agent/replies.py. The wording of a scripted reply; a missing key
--       is the error value `KeyError`.
--   Agent/Orchestrator      src/moc/agent/orchestrator.py. `_resolve` and what it calls; Orchestrator/Turn
--       is `handle`. The models, the retriever and the wording are the record `Services`; the rows of
--       the ledger are a list.
--   Tenancy/Pricing         src/moc/tenancy/pricing.py; Tenancy/Settings is settings.py.
--   Realestate/Calculator   src/moc/verticals/realestate/calculator.py. `payment_schedule`, with
--       Python's floor division and round-half-up written out over the integers.
--   Realestate/Leads        src/moc/verticals/realestate/leads.py. `qualify`, `route`, `open_lead`.
--   Llm/Base, Llm/Router    src/moc/llm/base.py and router.py. The circuit breaker of a provider
--       and `Router.complete`: the candidates in turn, with what each provider answers and what the
--       clock reads at each position as an `Attempt`. The providers are those answers.
--   Llm/Http                src/moc/llm/http.py. `raise_for_status` and `request_with_retries`; the
--       server is what it answers at each attempt, and the retries are the structure of the recursion.
--   Retrieval/Chunker       src/moc/retrieval/chunker.py. `split_sentences`, `_overlap_tail`,
--       `chunk_text`, `embedding_text`, on lists of code points. The ratios of the configuration are
--       decimal fractions, where the code has binary floats.
--   Retrieval/Fusion        src/moc/retrieval/fusion.py. `reciprocal_rank_fusion` and `fuse`. A score is
--       a fraction; a relevance is of an abstract type with the code's comparison as a parameter.
--   Workers/Streams         src/moc/workers/streams.py. The stream server is the interface `Server`;
--       Streams/Laws states what the code relies on in it (`IsStream`).
--   Workers/Outbound        src/moc/workers/outbound.py. The handler, run by the consumer of
--       Workers/Streams, and the token bucket. Amounts and clock readings are integers, `unit` parts
--       to the token, where the code has floats; the key-value server is `KeyServer` with the laws
--       `IsKeyServer`, and the registry of senders, the codec and the vendors are `Channels`.
--   Workers/Inbound         src/moc/workers/inbound.py. `_handle`: Inbound/Session has what it reads and
--       writes of the tenant's rows, Inbound/Handle the order of its steps (`turn`, in one
--       transaction, then `enqueue_reply`). An exception before the commit leaves the rows as they
--       were. The job is the one that Workers/Outbound sends.
--
-- State is passed explicitly. Loops are structural recursion on the list that they run over, so no
-- fuel is used; `converse` recurses on the turns. Exceptions are values: `Result` in the engine, the
-- calculator and the router, `Outcome` in the workers. Each component has its theorems in child
-- modules and its runs on concrete values in a child module Tests.
--
-- Not modelled: the other SQL stores, the HTTP API, the channel adapters, the evaluation harness and the
-- prompts, which are input and output or text; the typing indicator, which only tells the
-- customer that a turn runs. Failures of the stream
-- server itself, the capping of a stream by length and the concurrency of two consumers on one entry
-- are outside the model: an entry is processed by one consumer at a time.
pub mod Prelude
pub mod Dict
pub mod Result
pub mod Str
pub mod Arabic
pub mod Tenancy
pub mod Agent
pub mod Realestate
pub mod Llm
pub mod Retrieval
pub mod Workers
