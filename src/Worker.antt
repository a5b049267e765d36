-- ===== src/Worker.antt =====
-- apps/worker/src: the worker that executes queued operations (queues/operations.queue.ts) and opens
-- an incident for each that fails (runtime/operation-incidents.ts). The calls to Kubernetes, Jenkins,
-- Docker, Terraform, Ansible and AWS are one argument, `run`, which returns a result or throws.
pub mod Incidents
pub mod Process
pub mod Releases
