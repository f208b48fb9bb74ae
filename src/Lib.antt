-- ===== src/Lib.antt =====
-- Bitmod, an answer cache and router in front of language models (core/bitmod).
--
-- A request is normalised and turned into an answer key; the cache engine looks the key up in the
-- database and serves the stored answer if it has not expired and the sections that it cites are as
-- they were, and if the query does not need its conversation. Else the pipeline gathers evidence from
-- similar answers, sub-queries, links and facts, and serves the best of it where the total is high
-- enough. Otherwise the router asks the primary model, guarded by a circuit breaker, and then the
-- fallback, and the answer is stored. The session tracker adds the last exchange of a conversation,
-- and the vector index finds near answers.
--
-- - Prelude: tests on numbers, options and lists that the other files share.
-- - Strings: Python's `str` on lists of code points, for ASCII.
-- - Breaker (core/bitmod/router.py, class CircuitBreaker): the breaker is a record of its fields; each
--   method is a function of the clock's reading and the breaker, with the same name, but that the
--   property `state` is `read_state`, `_transition` is `transition`, and the branches of
--   `can_execute` on the state are `can_execute_in`.
-- - Router (core/bitmod/router.py, class LLMRouter): `generate`, and in Router/Stream `stream`. The
--   record counts the calls of each provider and the readings of the clock, and the providers are
--   functions of the number of the call. A loop over the attempts is recursion on their number. The
--   tokens that `stream` yields accumulate over its calls.
-- - Levenshtein (core/bitmod/cache_engine.py, `_levenshtein_distance`, `_levenshtein_similarity`): the
--   rows of the table are lists; the similarity is a fraction, since there are no floats.
-- - AnswerKey (core/bitmod/cache_engine.py, `compute_answer_key`).
-- - Cache: the tables (core/bitmod/interfaces/database.py), in Cache/Backend the statements on them
--   (core/bitmod/adapters/db_sqlite.py) and in Cache/Engine `try_cache`, `double_verify` and
--   `_is_expired` (core/bitmod/cache_engine.py). A table is the list of its rows, and a statement of
--   SQL a function on the list.
-- - Cache/Change (core/bitmod/invalidation.py): `detect_section_change`, `process_change_event`,
--   and in Cache/Bulk `bulk_verify_sources`.
-- - Session (core/bitmod/session.py): the states of the sessions stand in a heap, since the tracker
--   and its callers share them; the OrderedDict is the list of its items.
-- - VectorIndex (core/bitmod/vector_index.py): the list of ids, the dict of positions and the vectors,
--   stored with numpy or without; an IndexError is `none`.
-- - RateLimiter (core/bitmod/security.py, class InMemoryRateLimiter): the sliding window and
--   its cleanup, over whole units of time.
-- - Cache/Evict (core/bitmod/adapters/db_sqlite.py, core/bitmod/cache_engine.py): the eviction of
--   expired and of cheap answers, `_maybe_evict` and `store_answer`.
-- - Cache/Semantic (core/bitmod/cache_engine.py, core/bitmod/adapters/db_sqlite.py): the lookup by
--   embeddings and by sub-queries.
-- - Cache/Cost (core/bitmod/cache_engine.py, `estimate_generation_cost`).
-- - Namespaces (core/bitmod/namespaces.py, and the statements `namespace_*` of
--   core/bitmod/adapters/db_sqlite.py): each method by its name, on the list of the table's rows.
-- - Migrations (core/bitmod/migrations.py): class MigrationRunner, and in Migrations/Script the splitting
--   of a script; the database is a parameter, and an exception a value.
-- - Chunker (core/bitmod/ingestion/chunker.py): the three strategies, without the leading underscore of
--   the source's names; `split_parts` and `add_sentences` are the loops of `_recursive_split` and
--   `_chunk_semantic`; `_split_sentences` is in Chunker/Sentences.
-- - Roles (core/bitmod/roles.py): the class RoleRegistry, its parser in Roles/Yaml; `resolved_role`
--   is what `resolve` makes of the action and the tags, `read_items` the loop of `load` over the file.
-- - Qualify (core/bitmod/cache_qualify.py): the gate, with its regular expressions as lists of phrases.
-- - Evidence (core/bitmod/cache_engine.py): `CacheEvidence`, `PipelineEvidence` (`add`,
--   `_recompute_confidence` as `recompute_confidence`, `best_single_answer`, `context_for_llm`) and
--   `_similarity_to_confidence`.
-- - Queries (core/bitmod/cache_engine.py, `normalize_query`).
-- - Links (core/bitmod/adapters/db_sqlite.py, core/bitmod/proxy/base.py): the table of similarity links
--   and its traversal, `walk_links`; in Links/Learning `_learn_from_near_misses` and `_reinforce_links`.
--   Links/NearMiss, Links/Kept and Links/Learnt are about what is learnt.
-- - Facts (core/bitmod/adapters/db_sqlite.py, core/bitmod/proxy/base.py): the tables of atomic facts and
--   `_store_atomic_facts`.
-- - Pipeline (core/bitmod/proxy/base.py): `_run_cache_pipeline` is `run_cache_pipeline`; its layers are
--   functions on the state of its local variables in Pipeline/Layers and Pipeline/Context, its end
--   `decide` in Pipeline/Decision, and `_store_response` in Pipeline/Storing; `_resolve_router` is in
--   Pipeline/Routing, and `_build_llm_messages` in Pipeline/Messages.
-- - Cache/Answers: the map from keys to valid answers that the table of answers stands for.
-- - Tests: runs on concrete inputs.
--
-- Loops run on the structure of a list or on the number of attempts, but the loop of `_chunk_fixed`,
-- which has fuel: more than the length of the text is enough where its window moves forward.
-- Parameters: the model providers, the clock, SHA-256 and the digest of a session, the encryption and
-- decryption of a text, the `LIKE` prefilter of SQLite, the execution of SQL in a migration, the
-- predicted value of an answer, the similarity of embeddings and the embedder, the content of
-- roles.yaml, the normalisation, dimension and clustering of vectors, and for the pipeline what the fuzzy
-- match, the search of the facts and the splitting of a query find and what the language model says of
-- an answer. A similarity in the pipeline is a number of parts of a unit, a confidence a fraction.
-- Numbers that Python computes as floats are left out, are fractions, or are ranks in their order.
-- Locks are left out: each method is one step. Not modelled: the HTTP services, the message formats,
-- the network adapters, intent detection, the fuzzy match, configuration and the command line.
pub mod Prelude
pub mod Strings
pub mod Breaker
pub mod Router
pub mod Levenshtein
pub mod AnswerKey
pub mod Cache
pub mod Session
pub mod VectorIndex
pub mod RateLimiter
pub mod Chunker
pub mod Evidence
pub mod Facts
pub mod Links
pub mod Migrations
pub mod Namespaces
pub mod Pipeline
pub mod Qualify
pub mod Queries
pub mod Roles
pub mod Tests
