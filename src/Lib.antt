-- ===== src/Lib.antt =====
-- bigRAG's API server (api/bigrag): who may call it, how documents are ingested through a queue in
-- Redis, how webhooks are delivered, how requests with an idempotency key are replayed, how lists are
-- paginated by cursors, how upload sessions and connectors bring documents in, how progress is
-- published, and how ranked lists of results are fused.
--
-- The parts and the files that model them:
--   * Base: results (Base/Result), methods that change a state and may raise, whose state survives an
--     exception (Base/Exec, with invariants in Base/Exec/Keeps and conditions before and after in
--     Base/Exec/Triple), JSON values (Base/Json), Redis counters (Base/Counters), Python's text
--     operations (Base/Text).
--   * Access: api/bigrag/services/scopes.py (Access/Routes, Access/Scopes), collection_scope.py
--     (Access/Collection), tenant_enforcement.py (Access/Tenant), and api/bigrag/middleware/auth.py
--     with auth_cache.py (Access/Session for the rows and the cache, Access/Principal, Access/Current
--     for get_current_user). A dictionary of Python is a list of fields. The tables of the database
--     and Redis are one record, Store; Redis may answer, fail or take too long at each call, and may
--     run a SET late, also one that the code no longer waits for.
--   * Ingest: api/bigrag/services/queue_state.py (Ingest/State), queue.py and the actor of
--     jobs/actors.py (Ingest/Queue), queue_finalize.py (Ingest/Finalize), queue_processing.py and
--     queue_recovery.py (Ingest/Process), ingestion_job.py (Ingest/Types, and its JSON in
--     Ingest/Payload). One record holds the counter, the lists and epochs of
--     Redis, the broker's messages and the documents. A handler is a step of this state; the INCR and
--     the DECR of an admission are one step of it and two steps of Ingest/Admission, where the
--     commands of many clients interleave. Services and the UPDATEs of a run may raise; the commands
--     of a Redis that is there do not.
--   * Webhook: api/bigrag/services/webhook/payload.py and dispatcher.py (Webhook/Dispatch), and
--     delivery.py (Webhook/Delivery). The rows stand in the order of their creation, and the attempts
--     of a round run one after the other, since each writes its own row only.
--   * Idempotency: api/bigrag/middleware/idempotency.py over services/redis_cache.py
--     (RedisCache). What other requests write before a SET that is to find no key, and before the GET
--     that follows it, is a parameter; they write nothing else in between.
--   * Filters: api/bigrag/services/_retrieval_filters.py. A filter is a dictionary of JSON values, and
--     the pattern of field names is a recursion on the text.
--   * Pagination: api/bigrag/services/pagination/cursor.py and paginate.py. A statement is the list of
--     rows that it selects, in its order; running it raises if the driver cannot send the position
--     of the cursor, and does not otherwise. A client that follows cursors reads at most a given
--     number of pages; Pagination/Walk shows how many are enough.
--   * Uploads: api/bigrag/services/upload_sessions.py, upload_session_items.py and
--     upload_session_files/responses.py, and the endpoints of api/bigrag/routers/upload_sessions.py
--     that end a session. A state is one session with its items and the documents; ORDER BY is a
--     stable insertion sort.
--   * Connectors: api/bigrag/services/connectors: manifest.py and types.py (Connectors), documents.py
--     (Connectors/Files), batches.py and sync/scan_pages.py (Connectors/Pages), sync/prune_stale.py
--     (Connectors/Prune), sync/run.py, lifecycle.py, finalize.py, status.py and time.py
--     (Connectors/Run). A state is one job with its source, manifests and documents; the services,
--     and the commits that start and end a sync, answer or raise at each call. The commits between,
--     of a page and of a round of pruning, go through.
--   * Events: api/bigrag/services/event_bus/bus.py (Events) and document_progress.py
--     (Events/Progress). What Redis answers is a parameter, and a float is a value of any type with
--     an order.
--   * Fusion: reciprocal_rank_fusion of api/bigrag/services/retrieval/fusion.py. Its two dictionaries
--     are one list of entries, and sorting is a stable insertion sort.
--
-- Parameters stand for code outside the repository and for services that a part only calls: hashes,
-- clocks and random numbers, the HTTP client, parsers, embeddings, the vector store. What a theorem
-- relies on of them is among its hypotheses. Loops are recursions on lists, so no fuel is needed; the
-- rounds of the outbox are counted, and Webhook/Delivery/Rounds shows how many are enough.
-- The rounds of a pruning are counted too, and Connectors/Prune/Ends shows that one more than the
-- missing manifests is enough.
--
-- Not modelled: retrieval but for its filters and the fusion of results, the S3 client and the
-- schedule of connectors, the staging and storing of uploaded files, the bus's connection to Redis,
-- chat, conversion, the other routers, the database's own schema, log lines, and the texts of
-- progress messages.
pub mod Base
pub mod Access
pub mod Ingest
pub mod Webhook
pub mod RedisCache
pub mod Idempotency
pub mod Filters
pub mod Pagination
pub mod Uploads
pub mod Connectors
pub mod Events
pub mod Fusion
