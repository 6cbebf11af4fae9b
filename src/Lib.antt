-- ===== src/Lib.antt =====
-- A model of process-path-management, the service that owns the catalogue of process paths and the
-- CPT schedules of a network of warehouses, with the theorems that make it correct.
--
-- How the program is put together. The aggregates (internal/domain) validate and change a path or a
-- schedule. The use cases (internal/application/usecases) find an aggregate through a repository,
-- change it, and in one unit of work save it and publish an event about it. The HTTP handlers
-- (internal/adapters/inbound/http) decode a request, call a use case and answer with JSON or an
-- RFC 7807 problem; an idempotency middleware guards the POST. Repositories, publisher and unit of
-- work are either in memory or in PostgreSQL, where the publisher is a transactional outbox that a
-- relay drains to Kafka. A projector reads those topics and counts the events in an analytical
-- database of its own, which the reports API answers from. An MCP server offers the reads and the
-- report as tools.
--
-- Where each part is:
--   Shared, Events         internal/domain/shared: ids, destination roles, eligibility rules and
--                          events. Shared/Platform holds what Go's library and the host decide: the
--                          case table, time zones, and the texts of durations and times.
--   Errors                 the sentinel errors of every package, and results
--   ProcessPath            internal/domain/processpath/process_path.go: Define, Revise, Deactivate;
--                          Validity, Equality, Lifecycle and History hold the laws, the last with
--                          the step relation of a path's life
--   CptSchedule            internal/domain/cptschedule; Cutoffs and LocalTime model the cutoffs,
--                          Validity, CutoffLaws, Equality and Eligible hold the laws
--   Ports                  internal/application/ports/ports.go, as records over a state
--   UseCases               internal/application/usecases; Schedules has those of the CPT schedule
--   Memory                 internal/adapters/outbound/memory and events, with the wiring of
--                          cmd/pathmgmt without a database; Memory/Listing follows whole runs of
--                          requests, and Memory/Orders requests in either order
--   Catalogue              the abstract catalogue that a service promises: a partial map and its
--                          changes; Memory/Laws relates the in-memory service to it
--   Http                   internal/adapters/inbound/http: server.go, dto.go (Dto), errors.go
--                          (Problems), reports_handler.go and readiness.go (Reports), and NewRouter
--                          (Router; Router/Answers has the answers of the handlers, Router/Guarded
--                          those of the idempotency middleware, Router/Replies those of the router)
--   Mcp                    internal/adapters/inbound/mcp: mapping.go, tools.go; report_tool.go in
--                          Mcp/ReportTool; Mcp/Agrees sets the tools beside the HTTP handlers
--   Idempotency            internal/adapters/inbound/http/idempotency.go; Post mounts the handler
--   Kafka                  internal/adapters/outbound/kafka: publisher.go, analytics_publisher.go;
--                          and internal/adapters/kafka/cloudevents. Contract says what consumers
--                          get, Direct has fanout_publisher.go and publishing without an outbox
--   Transaction            internal/pgtx, and a database session with its statements and failures
--   Postgres               internal/adapters/outbound/postgres: Rows (process_path_repo.go's row
--                          mapping), Repo (its statements, and outbox_publisher.go), CptRows and
--                          Schedules (cpt_schedule_repo.go), Session (unit_of_work.go), Wired (the
--                          use cases over them), Overflow (the int64 arithmetic of reading an
--                          INTERVAL); the other modules hold the laws
--   Relay                  internal/adapters/outbound/postgres/outbox_relay.go: RelayOnce here, Run
--                          in Relay/Run; Delivers says what it sends, and Arrives and EndToEnd
--                          follow an event from its use case to the sink
--   Analytics              internal/adapters/outbound/analyticsstore: memory_store.go here, and in
--                          Analytics/Tables consumed_events_repo.go, postgres_projection.go and
--                          postgres_report.go; and internal/analytics/report
--   Projector              internal/adapters/inbound/kafka/analytics_consumer.go; Broker has what the
--                          Kafka client and the retries are set to and the errors of a write,
--                          Wired its loop and what cmd/pathmgmt-projector wires it to; Once,
--                          Counting and Counts hold the laws over the analytical tables, DeadLetter
--                          those of the dead letters, Published follows an event of this
--                          service from its encoding to its count, and EndToEnd one from the use
--                          case that defines a path to the report
--   BootRetry              internal/adapters/outbound/bootretry
--   Command                cmd/pathmgmt/main.go: which adapters the environment selects; Starts has
--                          the starts of cmd/mcp, cmd/pathmgmt-projector and cmd/pathmgmt-reports;
--                          Serving and Projecting have the goroutines and the shutdowns of
--                          cmd/pathmgmt and of cmd/pathmgmt-projector
--   Prelude                shared names, tests on numbers, lists, texts, integers and maps
--   Tests                  sample data, and the theorems applied at concrete inputs
--
-- How it is modelled. A store is a value that the operations pass on; an error is a value of
-- Result. A pointer that a repository hands out is the object in its map, so the port's `assigned`
-- says what a use case's assignment to it does. A database session carries the tables, the tables
-- as they were at BEGIN, for each statement to come whether it fails, and for each query, by itself,
-- whether it does; a failure inside of a transaction aborts it, as PostgreSQL documents. Strings are texts; where Go indexes bytes the
-- text is taken to its UTF-8. Durations are integers of nanoseconds, times are numbers of them.
--
-- Bounds and fuel. Most loops are over a list: rows, cutoffs, rules, batches, and the messages that
-- the projector fetches. Three are not: writeDLQ and bootretry have the source's own bounds, of 40
-- and of 5 attempts, as fuel, and the relay's Run, which stops only when its context is cancelled,
-- has fuel for its passes; one pass more than there are unpublished rows brings it to its first
-- wait. The retry of the backoff library is a parameter. Integers are unbounded, but for
-- Postgres/Overflow, which wraps at 64 bits as Go does; the durations that the database returns
-- stay within int64 for the rows that this service writes, since they are those it stored,
-- truncated.
--
-- Processes that run side by side are step relations, whose steps are those of their goroutines
-- and of the host (a signal, a request): any interleaving of them is a run. What net/http,
-- os/signal and context document is in the steps: a signal cancels the context that
-- signal.NotifyContext returned and those derived from it, and Shutdown first stops the listener
-- and returns once no request is in flight, or at its deadline; the publisher is closed once no
-- write is pending, and the pool once no connection is in use.
--
-- What is not modelled: CORS, logging and telemetry, which call libraries, and the matching of
-- paths, which is chi's; JSON and SQL text; the mutexes of the in-memory stores and the row locks
-- of the database (each request is one step); what connection pools and migrations do
-- inside; the shutdowns of cmd/mcp and of cmd/pathmgmt-reports; a commit that took effect though its
-- client lost the connection before the answer; and panics of the handlers.
pub mod Prelude
pub mod Errors
pub mod Shared
pub mod ProcessPath
pub mod CptSchedule
pub mod Events
pub mod Ports
pub mod UseCases
pub mod Memory
pub mod Catalogue
pub mod Http
pub mod Analytics
pub mod Kafka
pub mod Transaction
pub mod Postgres
pub mod Idempotency
pub mod Relay
pub mod Projector
pub mod BootRetry
pub mod Mcp
pub mod Command
pub mod Tests
