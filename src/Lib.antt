-- ===== src/Lib.antt =====
-- AutoOps: governed operations and incidents.
--
-- The API (apps/api) stores requests for operations on providers, lets administrators approve or
-- reject them, and hands jobs to a queue; the worker (apps/worker) claims the jobs, runs an executor
-- and stores the outcome. A failed operation opens an incident, and so do signals that are correlated.
-- Deployments have a queue of their own.
--
-- Which file is about which part:
-- - Prelude, with Prelude/Tests, Lists, Tables and Text: the library's names, Boolean tests, lists as
--   tables with queries and updates, and texts. Prelude/Search, Units and Decimal: words in texts, lengths
--   in UTF-16 units, and numbers as texts. Prelude/Int: durations, which can be negative. Json: values of
--   type `unknown` and their readers. Paging: pages by cursor.
-- - Errors: packages/utils/src/errors.ts. Exec: asynchronous handlers, as functions from a world to a
--   result and a world; a write before a throw stays. Exec/Triple: what holds after a return and after
--   a throw.
-- - Organization: roles, projects and environments. Signal, Incident: the enumerations of
--   packages/types/src/enums.ts and the rows of packages/database/prisma/schema.prisma.
-- - Operation: packages/types/src/operation.ts. Operation/Policy, Authorization, Scope, Records,
--   Service and Decision: apps/api/src/modules/operations (evaluateOperationPolicy, canTriggerWithRole
--   and its like, _validateOperationScope, _auditAction and _inputWithPolicy, createQueuedOperation,
--   approveOperation and rejectOperation). Operation/World: the tables, the queue and what is handed to
--   the signal service and the resource graph.
-- - Opa and Opa/Request: apps/api/src/modules/policy. The answer of the policy engine is an argument.
-- - Worker/Process: processOperation and executeOperation of apps/worker/src/queues/operations.queue.ts.
--   The executors are an argument. Worker/Releases: recordNewAwsRelease, which three of them call.
--   Worker/Incidents: apps/worker/src/runtime/operation-incidents.ts.
-- - Incident/Desk, Lifecycle, Correlation, Sweep and Listing:
--   apps/api/src/modules/incidents/incident.service.ts (acknowledgeIncident, resolveIncident,
--   archiveIncident, addIncidentNote, correlateSignal, correlateSignalsForOrg, listIncidents).
--   Remediation: buildRemediationPreparationPlan of remediation-rules.service.ts beside it.
-- - Signals, with Signals/Table, Ingestion, Resolution, Reconciliation and Listing:
--   apps/api/src/modules/signals/signal.service.ts (ingestSignals, buildSignalFingerprint, the
--   resolutions, reconcileHistoricalSignals, archiveSignal, listSignals).
-- - Deployment: triggerDeployment of apps/api/src/modules/deployments/deployment.service.ts, its checks
--   and its writes apart. Deployment/Active: the active deployments of an environment.
--   Deployment/Process: processDeployment of apps/worker/src/queues/deployments.queue.ts, with
--   Deployment/Simulation, apps/worker/src/executors/simulation.executor.ts.
-- - packages/utils/src: Metadata is metadata.ts, Urn and Urn/Names are resource-urn.ts, Retry is the retry
--   of async.ts, Redact is redact.ts, CommandOutput is summarizeCommandOutput of
--   infrastructure-catalog.ts, PlanSummary is terraform-plan-summary.ts, and Guardrails, with
--   Guardrails/Reading and Evaluation, is aws-guardrails.ts. The worker reads a plan's counts with
--   PlanSummary and hands them to Guardrails.
-- - Lifecycle: all parts that write the table of operations as one step relation. Approvals and
--   rejections check and write in two steps, and a worker looks up, claims and stores in three, with
--   steps of all others between them. Operation/Governed and the files named Governed hold the
--   invariant, Lifecycle/Sound, Requests and Jobs its preservation, Lifecycle/Safety what follows.
-- - Samples and the files named Tests: concrete runs.
--
-- How the code is read: a table is a list of rows, `findFirst` takes the first row that passes, an
-- `update` throws when no row has the key, and an insert throws when a unique constraint would
-- break. The queue ignores a job whose identifier, which is its operation's, it still keeps. A
-- `$transaction` is one step. Times, fresh identifiers, the answer of the policy engine and the
-- outcome of an executor are arguments, so that the theorems hold for all of them. Numbers are
-- natural numbers; a duration, the one difference of two times, is an integer, and money is counted in
-- cents without the errors of floating point, so that a half cent may be rounded otherwise.
--
-- Recursion is structural, with three exceptions. `decimal` has one more than the number as fuel, and
-- each round divides by ten. `redact_secrets` follows references with one more step than there are
-- objects; no object is followed twice, so that this is enough, which is proved. `retry` counts its
-- rounds, one more than `retries`.
--
-- Not modelled: reads that only rename rows for JSON or count them, the resource graph's own tables, the
-- metadata of events, incident timelines, the rules that find
-- recommendations, the executors, timers, HTTP routes and
-- middleware, logging and metrics, and the web application.
pub mod Prelude
pub mod Errors
pub mod Exec
pub mod Json
pub mod Metadata
pub mod Paging
pub mod Urn
pub mod Retry
pub mod Redact
pub mod CommandOutput
pub mod Guardrails
pub mod PlanSummary
pub mod Organization
pub mod Signal
pub mod Signals
pub mod Incident
pub mod Operation
pub mod Opa
pub mod Worker
pub mod Remediation
pub mod Deployment
pub mod Samples
pub mod Lifecycle
