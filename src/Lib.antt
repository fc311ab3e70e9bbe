-- ===== src/Lib.antt =====
-- A verification library for the backend of Sync-AI, a workplace search service: documents from
-- connectors are normalised, their permissions compiled into ACL rows, and searches filtered by
-- them. Modelled are the parts that decide who may see what.
--
-- Models: the data models, backend/app/core/models.py.
-- Store: `CanonicalRepo` in memory mode, backend/app/storage/canonical_repo.py. `Store.Documents`
--   is about deletion, `Store.Entries` has the ACL rows and the queue of pending shares,
--   `Store.Containers` the folders. A method takes the repository and gives it back changed.
-- Identity: `IdentityResolver` and its matchers, backend/app/identity. It reads and writes the
--   repository.
-- Acl.Filter, Acl.Terms: the search-time filter and the terms of callers, backend/app/acl/filter.py
--   and backend/app/acl/term_generator.py.
-- Acl.Service, Acl.Inheritance, Acl.Compiler: `ContainerService`, `compute_inherited_entries` and
--   `ACLCompiler`, backend/app/acl. The compiler resolves hints by the resolver, asks the service
--   for the folders above a document, expands groups and applies the deny overrides.
-- Graph: `MockGraphStore`, backend/app/services/graph/mock_store.py, with `Graph.Walk` for the
--   traversal and the search for people.
-- Search.Lexical, Search.Vector: the in-memory stores, backend/app/services/lexical/mock_store.py and
--   backend/app/services/vector/mock_store.py. Both filter by `Acl.Filter`.
-- Search.Federated: `_merge_and_rank` and the endpoint of backend/app/api/v1/search/federated.py. The
--   backends are functions; a float is an element of a type with an addition and a total order.
-- Session: `McpSessionCache`, backend/app/services/mcp_gateway/revocation.py.
-- Gateway: the MCP gateway, backend/app/services/mcp_gateway: the identity of a caller, with
--   `Gateway.Policies` for the table of allowed tools, `Gateway.Dispatch` for the calls of the federated
--   search and of the reader, and `Gateway.Router` for the route and its audit rows. It asks the session
--   cache about each token. The route takes its tools as a function that changes a state of any type,
--   so that a tool that is called shows; the tools of `Gateway.Dispatch` change none.
-- Signals: `MockActivityStore`, backend/app/services/signals/mock_store.py, with `Signals.Documents` for
--   the answers about documents and the purge.
-- Connectors: the runtime status of a connector, backend/app/connectors/google/status_store.py.
-- Cursors: `CursorStore`, backend/app/services/cursor_store.py, the table of resume cursors and watches.
-- Sync: `run_two_pass_sync`, backend/app/services/sync.py, with `_persist_checkpoint` of
--   backend/app/workers/tasks.py. The connector, the pipeline and the indexer are functions.
-- Scim: `SCIMSyncService`, backend/app/services/scim_sync.py, with the unique and the foreign keys of
--   backend/app/models/user.py and backend/app/models/group.py: a sync that breaks one raises and is
--   rolled back. The syncs of groups run over one table of users.
-- Chunking: `CodeChunker`, backend/app/services/chunking/code.py, and in `Chunking.Prose` the
--   `ProseChunker` of backend/app/services/chunking/prose.py.
-- Reader: the in-memory store, the redaction and `read_document` of
--   backend/app/services/document_reader. The ACL checker is a function;
--   `Reader.Checkers` has the one in memory and the one over a repository.
-- Base: what the parts share. A `str` is the list of its code points; a dict is an association list
--   in insertion order; a set is a list that is asked for membership.
--
-- UUIDs and times are numbers; in Signals a time counts microseconds. `str.lower` (a table of Unicode),
-- the email check of the package `email_validator`, `uuid4` and the clock are parameters; one
-- reading of the clock serves one call. Logging is left out, and coroutines run one at a time.
-- The climb to the ancestors recurs on the rounds that `max_depth` leaves. The expansion of groups
-- recurs on fuel, one more than the stored groups: each nested call is on a stored group that was
-- not visited. The walk of a graph recurs on the rounds that `depth` gives. The passes of a
-- sync recur on fuel, one for each page, and a pass without fuel is stopped where it is; as many rounds
-- as there are pages are enough, and a connector that never ends its pages has no end in the code either.
-- Not modelled are the SQL branches, the signals of users, `run_sync`, the callback on progress, the
-- workers but for their checkpoint, the ranker boost, OAuth, the calls of the connectors, the language
-- models, the other HTTP routes and the frontend.
pub mod Base
pub mod Models
pub mod Store
pub mod Identity
pub mod Acl
pub mod Gateway
pub mod Graph
pub mod Reader
pub mod Session
pub mod Signals
pub mod Chunking
pub mod Connectors
pub mod Cursors
pub mod Sync
pub mod Scim
pub mod Search
pub mod Tests
