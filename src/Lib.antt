-- ===== src/Lib.antt =====
-- A verification library for go_es, a search server in Go that speaks the REST dialect of
-- Elasticsearch, and its client packages.
--
-- The parts and how they interact
--   A write goes through `applyWrite` (internal/server/optimistic.go): it checks the version numbers
--   of the document, writes source and metadata to the key-value store, indexes the document in the
--   in-memory engine (internal/search/engine.go), invalidates the cached responses of the index
--   (pkg/cache/lru.go) and counts the write towards a segment (internal/server/segment.go). A query
--   (internal/search/query.go) is evaluated on the engine's inverted index, on the sorted index for
--   ranges (internal/search/sorted_index.go), or on the stored documents. Clients reach the server
--   through a retrying transport with a circuit breaker (pkg/client).
--
-- The files
--   Prelude and below: shared names, Boolean tests, Go strings as lists of bytes with their order, Go
--     maps as association lists (a write replaces the entry of its key) and sets as lists read by
--     membership, `sort.Search`, signed and 64-bit integers.
--   Cache: pkg/cache/lru.go. `Cache.get`, `set`, `evict`, `invalidate_index`, ... are the methods
--     `Get`, `Set`, `evict`, `InvalidateIndex`; `Cache.Key` is `MakeKey` and `sortStrings`.
--   Client.Breaker: pkg/client/breaker.go; `allow` is `Allow`, `on_result_bool` is `onResultBool`,
--     `tick_state` is `tickStateNoLock`. Client.Retry: pkg/client/retry.go. Client.Transport:
--     pkg/client/transport.go; `round_trip` is `RoundTrip`. Client.Outcome: what a request returns.
--   Pool: pkg/pool/pool.go; `get` is `Get`, `rebalance` and `chosen` are the loop of
--     `selectWeightedRoundRobin`, `move_first_to_end` is `moveFirstToEndLocked`. Pool.Balance, Choice,
--     Deduction and Fairness follow the weighted selection, Rotation the plain one.
--   Search.Value: `valueOf`, `stringify`, `tokenize`. Search.SortedIndex:
--     internal/search/sorted_index.go. Search.Scorer: internal/search/scorer.go. Search.Engine:
--     internal/search/engine.go; `index_doc` is `indexDocInMemory`, `delete_doc` is
--     `deleteDocInMemory`. Search.Json: the JSON trees of queries. Search.Leaves: the queries of
--     internal/search/query.go that hold no others, and `match_phrase` of suggest.go. Search.Query:
--     `evalQueryMap`, `evalBool`, `Match`. Search.Suggest: internal/search/suggest.go; `levenshtein`,
--     `prefix_suggest`, `completion_suggest`, and `term_suggest` in Search.Suggest.Terms.
--   Server.Keys: the store's keys. Server.Optimistic: internal/server/optimistic.go. Server.Segment:
--     the Bloom filter, flushed fields and `SearchTerm` of internal/server/segment.go.
--   Server.Coordinator: internal/server/writecoordinator.go; `submit_bulk` is `SubmitBulk`. Server.Pattern:
--     internal/server/index_pattern.go; `get_indices_by_pattern`, `expand_glob`. Server.Alias:
--     internal/server/alias.go. Server.Router:
--     internal/server/router.go; `look_up` is `lookup`, `serve_http` is `ServeHTTP`. Server.Guards: the
--     middleware of internal/server/guards.go; `serve` is a request through `chainMiddleware`.
--     Server.Access: internal/server/rbac.go; `check_permission`, `middleware_rbac`, and the handlers in Server.Access.Handlers.
--     Server.Access.Permissions: the handlers of internal/server/rbac_extended.go that change roles.
--   Sql: pkg/sqldsl/sqldsl.go. Sql.Token is `tokenize`, Sql.Syntax the syntax tree, Sql.Parser
--     `parseExpr` and `parsePrimary`, Sql.Grammar what they read, Sql.Select `parseSelect` and `SQLToDSL`, Sql.Translate `stmtToDSL`
--     and `exprToQuery`, Sql.Printing `DSLToSQL`. Sql.Meaning evaluates the translations by Search.Query.
--   The modules below a component's hold its proofs, named for what they prove; the Tests modules
--   hold runs at concrete inputs.
--
-- How the code is modelled
--   State is passed explicitly, and a method is one step: most of them run under a mutex. Some do not:
--   `applyWrite` takes no lock between its read and its writes, and Server.Optimistic.Race splits it
--   there for two requests that overlap; `SubmitBulk` updates the engine after its transaction, and
--   `Get` of the pool has a read lock only, and both are modelled for one caller at a time. Times,
--   random draws, failing store calls, the context and the inner transport are inputs. The numbers of
--   document versions are int64 with their wrap-around, the cache's counters and the hash are uint64. Go ranges over
--   maps in an arbitrary order; the model takes the order of the list.
--   Loops are structural. Where a loop is on fuel the fuel is the bound of the source: `sort.Search`
--   on n elements takes at most n rounds, the digits of a number are at most as many as its value,
--   the retry loop has as many rounds as attempts. Queries are evaluated by recursion on their tree.
--   The lexer has as many turns as the text has bytes, the SQL parser four for each token and four
--   more, the lists of fields and of sort terms one for each token and one more.
--
-- What is not modelled
--   Floating point (BM25 scores, the rounding of back-offs; the scores of suggestions are exact
--   fractions), persistence of tokens,
--   the value of a number with a point in SQL and its range (the text stands for it), the texts of
--   parse errors,
--   `multi_match`, `query_string` and `simple_query_string` (an argument of the evaluator), the
--   background flush of segments with its keys and counters, the other HTTP handlers, sessions,
--   lifecycle policies, observability, and the packages that wrap the REST API.
pub mod Prelude
pub mod Cache
pub mod Client
pub mod Pool
pub mod Search
pub mod Server
pub mod Sql
