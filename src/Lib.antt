-- ===== src/Lib.antt =====
-- A modular monolith in Rust: modules for identity, orders, the catalog, administration and
-- reporting in one process, over one PostgreSQL database with a schema per module. The modules
-- share crates/shared-kernel: a cache, a rate limiter, authorization, validation, and integration
-- events that a module writes to its outbox in the transaction of its own change, and that a
-- dispatcher hands to the other modules' handlers, each guarded by its module's inbox.
--
-- What is modelled where (paths from the repository's root):
-- Base: tests on numbers, lists, maps and texts that the others share. A `HashMap`, a `DashMap`
--   and a `BTreeMap` are association lists (Base/Map); no property depends on their order.
-- Traffic: crates/shared-kernel/src/traffic_control.rs. `admit` is one step, as the map's lock
--   makes it; `acquire` is the schedule of its calls, so a list of calls with any interleaving
--   and any clock that does not go back stands for the requests. The counters are `u32`, with
--   their wrap-around (`add_u32`). Traffic/Partition is `partition_key`.
-- Events: crates/shared-kernel/src/events. Inbox is `inbox::run` (inbox.rs), Outbox the table, its
--   query and `EventPublisher::publish` (publisher.rs), Dispatcher `process_batch`, `deliver` and
--   `record_failure` (dispatcher.rs), DeadLetters the service of that name in
--   crates/module-orders/src/services.rs. Lifecycle has the steps by which an outbox changes, Outcomes what
--   a batch makes of a row. The
--   readings of the clock, the rows that another dispatcher has locked, the faults of every
--   database and the failure of the batch's own transaction, after any number of deliveries, are
--   arguments of a step. The handlers are functions of their tables. Times are in nanoseconds.
-- Caching: crates/shared-kernel/src/caching. The state is the map that moka keeps, the tag index,
--   the generation counter and the removals that the eviction listener has not been told of;
--   moka may drop an entry at any time and tell of a removal at any later time. A write is one
--   step where writes do not overlap, and `register` and `store` are its halves; Overlap is about an
--   invalidation that falls between them. Caching/Key is key.rs. The jitter of a lifetime is an argument, since it is random.
-- Identity: crates/module-identity/src, with crates/shared-kernel/src/auth.rs and
--   crates/identity-contracts/src/lib.rs. Sessions is `InMemoryRefreshTokenStore`, Users the user
--   stores (stores.rs), Claims claims.rs, Service `TokenService` and the handlers `login`,
--   `refresh` and `logout` (tokens.rs, endpoints.rs), Policies the policy registry, `Principal`,
--   `authorize` and `deduplicate`. Signing is a parameter; the random tokens are arguments.
-- Orders: `finalize_invoice` of crates/module-orders/src/services.rs over its tables, its outbox
--   (Events/Outbox) and its cache (Caching). `i32` and `Decimal` are type parameters, with the
--   equality, the order and the zeros that the code uses. Telling is about the event, Refusing and
--   Answering are about one call, Once is about many.
-- Validation: crates/validation-rules/src/lib.rs, `required` of
--   crates/shared-kernel/src/validation.rs and the genre rules of
--   crates/module-admin/src/validation.rs.
-- Problems: crates/shared-kernel/src/errors.rs, with `MalformedRequest` (json.rs) and `DataError`
--   (data.rs) beside it. Filing is `validation_errors_from`, Trace the identifiers of requests. The
--   http crate's `canonical_reason` and `from_u16` are parameters.
-- Concurrency: the work queue of crates/shared-kernel/src/concurrency.rs. A schedule is a list of the
--   producers' and the consumer's moves, each as long as one atomic step; a move that cannot be made
--   yet leaves the state as it is. The consumer is not cancelled.
-- Configuration: crates/shared-kernel/src/config.rs, with environment.rs in Environments. Json is
--   serde_json's value, an object a list of members whose first of a name counts. Merging, Steps and
--   Layers are about `merge_layer`, Arrays about `numeric_maps_to_arrays`; Loading has `load_layers`,
--   `environment_layer` and the lookups, Variables is about them. The files that are read and the variables of the process
--   are arguments; figment keeps the merged value as it is given. serde_json's parser, `to_lowercase`
--   and the `parse` of `get_or` are parameters.
-- Administration: the genre service of crates/module-admin/src/services.rs over its table and its
--   cache (Caching), with the module's `Store`. A call is one step, so calls do not overlap; what the
--   database answers with is an argument. An `i32` is its bit pattern.
-- Sales: what the handlers of `InvoiceFinalized` keep, crates/module-catalog/src/events.rs and
--   crates/module-admin/src/events.rs, behind the inbox (Events/Inbox), and `get_customer_purchases`
--   of crates/module-admin/src/services.rs. Ledger is what any handler behind its inbox counts, Tracks
--   and Lines are catalog's table and the grouping of lines, Summaries administration's table. The
--   statements' `ON CONFLICT` is written out; what a `numeric(12,2)` keeps is a parameter.
-- Reporting: the integrity checks of crates/module-reporting/src/job.rs and sql.rs. `detect` and
--   `resolve` are the two statements of a check over the tables as each sees them, Job is a run of
--   the checks, with a failure of any statement as an argument; statements commit one by one. Findings and
--   Checks are about one check, Runs and Repeats about runs; Schedule is `until_next`. The columns
--   that the statements leave alone are kept; ids and printed numbers are parameters.
-- Endpoints: crates/shared-kernel/src/endpoints.rs. `route_of` is what `drop` of a `RouteGroup` puts
--   about a handler, a service is a function of the request and the server's state; `authorize`
--   (Identity/Policies) and the limiter (Traffic) are parameters there. Layers is about that order,
--   Routes about `parse_route`.
--
-- Nothing runs on fuel: every loop is over a list. Lengths of windows, queues and batches are those
-- of the source. Texts are lists of characters; Unicode's tables (`to_lowercase`, `is_uppercase`)
-- are parameters.
--
-- Not modelled: axum, tokio, sqlx, moka, jsonwebtoken and the PostgreSQL server themselves, whose
-- documented behaviour the definitions above write out where they rely on it; the route tables,
-- metrics, logging, OpenAPI documents, key files and the host's composition, which call them; the
-- catalog's services, reporting's views and the rest of administration's services, which are queries;
-- the loops that poll.
pub mod Base
pub mod Traffic
pub mod Events
pub mod Caching
pub mod Identity
pub mod Orders
pub mod Validation
pub mod Problems
pub mod Concurrency
pub mod Configuration
pub mod Administration
pub mod Sales
pub mod Reporting
pub mod Endpoints
