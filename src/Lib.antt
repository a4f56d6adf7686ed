-- ===== src/Lib.antt =====
-- Verification library of LUMENOS Sandbox, the malware sandbox of lumenos_sandbox/.
--
-- A bunker is a virtual machine with five security layers, a monitor and an integrity verifier. A
-- manager keeps two bunkers and rotates them; a decontamination runner cleans up after a session
-- and signs a report. The library models this core as functions that pass the state on.
--
-- - Prelude (with Prelude/): shared names, Boolean tests, lists over native numbers, Python's `dict`
--   as an association list, and methods that may raise: `Exec S A` is S → Outcome A × S, where what
--   was written before a raise stays written. `Ensures Q E r` says that a result is a value with Q
--   or an exception with E; its rules follow `>>=` and `try`.
-- - Types: lumenos_sandbox/types.py, the enums, VALID_STATE_TRANSITIONS and the records.
--   Types/Transitions: paths through the table.
-- - Hypervisor: lumenos_sandbox/hypervisor/base.py, the backend as a record of methods that change
--   the outside world and may raise; Hypervisor/Mock: hypervisor/mock_backend.py. Hypervisor/Kvm and
--   Hypervisor/Kvm/Guest: hypervisor/kvm_backend.py, an implementation of the interface;
--   Hypervisor/Factory: `get_backend` of hypervisor/__init__.py and lumenos_sandbox/platform.py.
-- - Host: clocks, paths, digests, the credential store and the state store as parameters, and the
--   environment of a bunker: its own backend, and the one of `get_backend()` that its layers and
--   its decontamination call.
-- - Observability: `MetricsCollector` of lumenos_sandbox/observability.py.
-- - Monitoring: `IntegrityVerifier` (Monitoring/Integrity), `SecurityMonitor` (Monitoring/Monitor) and
--   its pattern scans (Monitoring/Patterns) of lumenos_sandbox/monitoring.py.
-- - Layers: lumenos_sandbox/layers.py, one record for the five subclasses.
-- - Decontamination: `DecontaminationRunner` of lumenos_sandbox/decontamination.py.
-- - Bunker: lumenos_sandbox/bunker.py. Bunker has the state and `transition_to`, Bunker/Init
--   `initialize` and its clean-up, Bunker/Session `activate`, `terminate`, `force_quarantine` and
--   `verify_report_signature`. Bunker/Restore has `Bunker(config)` with
--   its write to the credential store and `load_from_store`, and Bunker/Recovered is about what comes
--   back of a bunker; the other proofs are in Bunker/CleanUp, Lifecycle, Activation, Closing, Holding,
--   Inactive, Moves and Signatures.
-- - Manager: lumenos_sandbox/manager.py, `DualBunkerManager`; its proofs are in Manager/Seen,
--   Rotation, OneActive and Serving.
-- - Inspect: lumenos_sandbox/inspect.py, indicators and verdict. Inspect/Sample has the size cap, the
--   deadline and the streaming hash, Inspect/Disposal the decontamination of a cycle's bunker; the
--   report is in Inspect/Report and `analyze_sync` in Inspect/Cycle; the proofs are in
--   Inspect/Verdicts, Escapes, Hashing, Disposed and Cleanup. What the monitor's thread does while a
--   cycle waits is an argument of the cycle, so the theorems hold whatever it logs. What
--   Python's `int`, a digest and the state store's `delete` do is an argument of the functions that
--   call them.
-- - State: `BunkerStateStore` of lumenos_sandbox/state.py, the table by its primary key, as its own
--   connection sees it, over SQLite, JSON and a cipher that are arguments. State/Refinement sees the table as a map from ids to rows,
--   State/Recovery is about what comes back.
-- - Reaper: lumenos_sandbox/reaper.py. Reaper has the selection, the age test and the teardown,
--   Reaper/Pass the loop over the state store; the proofs are in Reaper/Judging, Reaper/Pass/Reaped and
--   Reaper/Pass/DryRun.
-- - Resources: `ResourceManager` of lumenos_sandbox/resource_manager.py; its proofs are in
--   Resources/Memory and Resources/Gpus.
-- - Cluster: `MultiHostManager` of lumenos_sandbox/multi_host.py. Cluster has the hosts and the
--   registration, Cluster/Choice the choice of a host and the rebalancing, Cluster/Failover what takes
--   machines off; the proofs are in Cluster/Best, Registry, Upkeep and Counts.
-- - Gpu: `GPUPassthrough` of lumenos_sandbox/gpu.py; its proofs are in Gpu/Exclusive.
-- - Packages: `PackageEngine` of lumenos_sandbox/package_engine.py on the bytes of a package; its proofs
--   are in Packages/Container.
-- - Forensics: lumenos_sandbox/forensics.py, the evidence of a bunker; its proofs are in Forensics/Custody.
-- - Compliance: lumenos_sandbox/compliance.py, the security controls and the audit log; its proofs are
--   in Compliance/Counts.
-- - Agent: `AnalysisAgent` of lumenos_sandbox/analysis_agent.py. Agent/Events has the indicators and the
--   summary, Agent/Guest PowerShell Direct, `deploy` and `collect`; the proofs are in Agent/Runs
--   and beside the indicators.
-- - Secrets: `SecretManager` of lumenos_sandbox/secrets.py, the credential store with its fallback file;
--   its proofs are in Secrets/Recall.
-- - Phone: lumenos_sandbox/phone_support.py, what a device is found to be and the configs of its machines;
--   Phone/Machines starts and stops them, the proofs are in Phone/Bounds.
-- - Images: `ImageBuilder` of lumenos_sandbox/image_builder.py; its proofs are in Images/Builds.
-- - Api: lumenos_sandbox/api.py. Api/Access has the bearer token, the audit line and the confinement of
--   paths, Api/Ids the pattern of a bunker id, Api/Slots the semaphore of the analyses as a step
--   relation over any interleaving of handlers and workers, Api/Analyze `analyze_sync_endpoint`, Api/Routes
--   the registry `_bunkers` and its routes over the methods of Bunker and a state store that is an
--   argument. The proofs are in Api/Replies, Bearer, Confinement, Answers, Audit, Managed and Lives.
-- - Tests: a host over the mock backend, runs of whole lives, and the theorems at concrete bunkers.
--
-- A method of a Python object is a function of the same name on its state and the world; the
-- exceptions of the source are values of `Exc`. Theorems hold for every backend and every host: each
-- call may return anything, raise, or change the world.
--
-- Bounds: the only loop that waits, `while old_active.state == DECONTAMINATING` of the manager's
-- rotation, is given one round of fuel. A call runs alone here, so the state does not change while
-- it waits, and a bunker whose `terminate` returned True is DESTROYED: the loop ends at its first
-- test.
--
-- Not modelled: threads and locks, but for the semaphore of Api/Slots (a method runs alone), logging,
-- floats (probabilities are kept as texts; CPU figures, percentages), the text of the reports on screen, the backend that
-- drives Hyper-V and the other calls of PowerShell, FastAPI and the checks of its request models, and
-- the command line.
pub mod Prelude
pub mod Types
pub mod Hypervisor
pub mod Observability
pub mod Monitoring
pub mod Layers
pub mod Host
pub mod Decontamination
pub mod Bunker
pub mod Manager
pub mod Inspect
pub mod State
pub mod Reaper
pub mod Resources
pub mod Cluster
pub mod Gpu
pub mod Packages
pub mod Forensics
pub mod Agent
pub mod Compliance
pub mod Secrets
pub mod Phone
pub mod Images
pub mod Api
mod Tests
