-- ===== src/Lib.antt =====
-- Verification library of the API tester: a proxy captures HTTP flows into a bounded buffer, a writer
-- stores them in batches, a scanner sends mutated requests within a scope and a budget, a workflow
-- engine validates and runs graphs of HTTP requests, checks and loops, a query language selects flows,
-- plans of security tests are validated and run, the analysis prepares captured flows and pages, and a
-- manager logs in and keeps tokens. The files here model those parts; of the proxy they model the
-- intercept controller, the rewriting rules, the reading of HTTP messages, the flows that it captures,
-- the way of a request to its upstream, and the answer and its relay.
--
-- Parts, by file (each source path from the repository's root):
-- Common: lists, texts (bytes), maps and sets that the parts share; Common/Strings has the methods of
-- `str` that they call.
-- Domain/Flow, Domain/Scope: crates/domain/src/http_flow.rs and scope.rs. A flow has the fields that
-- its size and its fingerprint read. The regex engine is a parameter. Domain/Rules: the rewriting
-- rules of crates/domain/src/config.rs.
-- Capture/Ring, Capture/Buffer: crates/capture/src/ring.rs and buffer.rs. `push` is two sections under
-- two locks, `admit` (deduplication) and `enqueue` (the queue); other tasks may come between them, so
-- runs are lists of sections in Capture/Buffer/Steps, and `attempt` is both in a row. `usize` and
-- `u64`
-- wrap at 2 ^ 64 where the code's atomic counters do, and saturate where the code says so.
-- Capture/Writer: crates/capture/src/writer.rs, over a repository and a publisher that are parameters.
-- Scanner/Budget, Scanner/Dedup, Scanner/Scheduler, Scanner/Request: crates/scanner/src/budget.rs,
-- dedup.rs, scheduler.rs, and the request and the error of crates/ports/src/lib.rs. Scanner/Executor:
-- crates/scanner/src/request_executor.rs, the tries of one request. A scan is a list of turns; a turn
-- advances one worker of `worker_loop` to its next access of shared state.
-- Scanner/Payloads, Scanner/Mutation, Scanner/Mutation/Path: crates/scanner/src/payload_source.rs and
-- mutation_engine.rs. Scanner/Plan plans and orders the mutations of a scan. The early return of the
-- three nested loops is a Boolean beside the list; an
-- in-place change of a JSON document at a path is a function to the changed document.
-- Scanner/Verifier: crates/scanner/src/response_verifier.rs, the finding that an answer gives.
-- Workflow/Contract, Json, Jsonpath, Graph, Exec: crates/workflow/src/contract.rs, jsonpath.rs,
-- validation.rs (Graph: what the engine calls) and exec.rs. Exec/State has the run state and the
-- parameters: the client, the token, serde_json, floats and the template's regular expression;
-- Exec/Values the
-- references and comparisons; Exec/Nodes one node's run; Exec/Engine the queue, the loops and the
-- statuses.
-- Workflow/Order, Workflow/Validation: the rest of validation.rs. Order has Kahn's sort, whose
-- invariant
-- (Order/Laws) is that a degree counts the edges from ids that were not ordered yet; Validation/Checks
-- the checks of one node, and Validation the whole of `validate`, which collects its messages as
-- values.
-- Query: crates/query/src. Query/Condition has conditions and their evaluation over flows, Query/Field
-- one line `field:value`, Query/Parser the lines, alternatives and parentheses.
-- Proxy/Intercept: crates/proxy/src/intercept.rs, with a number for each one-shot channel.
-- A call is one step there; `register` and `show` are the two halves of `enqueue`.
-- Proxy/Rules: crates/proxy/src/match_replace.rs. Header maps and regular expressions are parameters.
-- Proxy/Http: crates/proxy/src/http, with Http/Utf8 for the well-formed bytes of a `str`, Http/Chunks
-- for chunk framing, Http/Decode for decompression up to a cap (the decoders are parameters) and
-- Http/Cookies. A buffer is a list of bytes, and an index into it is the list behind it.
-- Proxy/Connect, Proxy/Flow: crates/proxy/src/connect.rs and flow.rs, the flow of a request and
-- response.
-- Proxy/Relay: crates/proxy/src/server.rs. A relayed body is a state that takes the upstream's polls
-- one
-- by one and keeps the list of `spawn_capture` calls; Relay/Collect has `collect_body`, Relay/Errors
-- the
-- throttle of tunnel errors.
-- Proxy/Exchange: `proxy_request_inner` of crates/proxy/src/server.rs, from the request of a client to
-- the
-- request that goes upstream, over the rules, the decision of the user and a model of the crate http
-- that
-- is a parameter; the collected body is given. Exchange/Answer goes on from the response of the
-- upstream
-- to the answer for the client and the captures that it starts.
-- Analysis/Chunks, Analysis/Noise: crates/analysis/src/rsc_chunks.rs and noise.rs.
-- Security, Security/Validator: crates/security/src/types.rs and validator.rs.
-- Security/Mutate, Security/Judge, Security/Executor: crates/security/src/executor.rs: the request of
-- a
-- test, what is made of its response, and the run of a plan, test by test, over the answers that each
-- test meets: cancellation, the reply to a confirmation, the clock and what the client does with each
-- try of the
-- request. A panic is an outcome of its own, which keeps the log of the run.
-- Auth: crates/auth/src. The HTTP client is a function of a world that each request changes.
--
-- How the parts meet: the buffer counts bytes with `size_bytes` and recognises flows by `fingerprint`
-- of Domain/Flow; the writer reads what the buffer's `recv` gives; the scheduler asks Domain/Scope
-- whether a request may be sent and shares one budget and one deduplication set among its workers; the
-- engine and the scanner send the same kind of request. The validation runs the sort of
-- Workflow/Order;
-- the query parser makes conditions that Query/Condition evaluates on flows.
--
-- Fuel: the engine's queue loop visits each id once, so the number of in-degrees is enough
-- (Exec/Fuel); the search for a loop's body starts with one more than the number of edges, since
-- only the first id and targets of edges are seen (Exec/Slice). The search of a path token for indices
-- has its length as fuel, and the digits of a number 20. The query parser's fuel is the length of a
-- line, since what stands in parentheses is shorter
-- (Query/Parser/Fuel). Kahn's loop counts the nodes down as the code does. The loop over chunks, and
-- the
-- search of a page for chunks, have the length of their text as fuel, of which each round takes off a
-- byte at least (Proxy/Http/Chunks/Laws, Analysis/Chunks/Laws).
--
-- The request of a proxied client is read by hyper; Proxy/Http reads what the code itself parses. The
-- relay hands a captured body on to Proxy/Flow, whose flow goes into the buffer; the executor asks
-- Domain/Scope and takes slots of Scanner/Budget as the scheduler does.
--
-- Not modelled: the detectors and graphs of the analysis crate, which are mostly regular expressions
-- and tables; the display
-- texts of the executor; the listener of the proxy and its tunnels;
-- and what is mostly I/O: sockets and certificates, the database, the AI client, reports, the server.
-- MD5, regular expressions, URL parsing
-- and JSON texts are parameters. The call stack has no bound. The flow counter of an active
-- session (crates/proxy/src/session.rs) is left out, since nothing advances it. Tasks that wait for a
-- lock, a channel or a timer are steps that the
-- schedule does not take yet.
pub mod Common
pub mod Domain
pub mod Capture
pub mod Scanner
pub mod Workflow
pub mod Analysis
pub mod Proxy
pub mod Query
pub mod Security
pub mod Auth
