-- ===== src/Lib.antt =====
-- A verification of the core of Nautilus Builder: the execution lane, the promotion of strategy
-- versions, backtest jobs, the workflow of strategy tests, evidence and artifacts, and the guards of
-- the API.
--
-- Parts and files (paths from the repository's root):
-- ExecutionLane: packages/execution_lane. Profile, Command and Report are the models of models.py with
--   every validator, in the order in which pydantic runs them (`model_validate` is `validate_profile`,
--   `validate_command` and `validate_report`). Service is `ExecutionLaneService` of service.py: its
--   dictionaries are association lists in insertion order, and each method returns its result with
--   the new state or raises. Views are the methods that only read. Slots has the records of a
--   credential slot (credentials.py) and of a session (sessions.py); EnvFile and Credentials are the
--   environment file and the store of credentials.py, with the service's methods for slots. RuntimePlan and PlanBuild are
--   nautilus_runtime.py and config_contract.py, Runner is the native runner of sessions.py with the
--   calls that it makes of its nodes. Authority, Invariant, Run, Queue, Claims, Enqueue, Resend, Eviction,
--   Readiness, PlanAuthority, NodeOrder, NodeCalls, EnvLines, EnvRound and SlotValues are the proofs. A command is checked against its profile
--   when it is queued, and again when a plan is made to run it; a worker claims it and reports it;
--   sessions are recorded beside it.
-- Lifecycle: packages/lifecycle, with the stages as a state machine in Stages.
-- Promotions: packages/promotions. Gate is gate.py, Policy is evidence_policy.py, Modes is the modes
--   and the ledger entry of models.py, Service is service.py; GateLaws and Evidence are the proofs.
--   The service reads artifacts through an interface, `ArtifactStore`.
-- Auth: packages/auth, and the startup policy of services/api/_app_env.py in Startup. Tokens is
--   service.py, RateLimit is rate_limit.py, Policy and Capabilities the files of their names; Window,
--   Sliding, Verify, Deployment and Roles are the proofs.
-- BacktestJobs: packages/backtest_jobs. Job is models.py and the payloads of service.py, Service the
--   service in memory; Canonical, Links, Calls, Once and Scope are the proofs. Its scope guard is
--   `assert_same_project` of Auth.
-- RuntimeEvents: packages/runtime_events. Stream is the event, the stream in memory and the service;
--   Replay is the proof. A backtest job names its stream by its id.
-- Workflow: packages/workflow_spine. Models, Repository (repository.py and event_stream.py), Service and
--   Projection are the files of their names; Calls, Records, Links, Progress and Follows are the proofs. The
--   service writes records and publishes events, which the read model follows.
-- Evidence: packages/evidence_ledger, with the handlers of services/api/routes/evidence.py in
--   Repository. Verified and Calls are the proofs. The verifier may ask an artifact store for a
--   checksum.
-- Artifacts: packages/artifact_store. Store is service.py and models.py; Paths, RoundTrip and Others are
--   the proofs, and Codec is an instance of the store's parameter.
-- Strategy: Spec is packages/strategy_spec/models.py. Policy and Validator are policy.py and
--   validators.py of packages/strategy_validation, Indicators and Evaluator are evaluator.py of
--   packages/nautilus_rule_graph. Forbidden, Occurs, Accepted, Sound, Window and Average are the
--   proofs. The validator reads a
--   payload into a specification, which the evaluator runs over prices. A lookup that would raise in the
--   evaluator, and a comparison or a call that would raise in the validator, is `none`.
-- Registry: packages/strategy_registry, with the proof in Allowed. Its modules are the ones that evaluate
--   specifications.
-- Json is the payload that clients send; Prelude has Python's tests, lists, dictionaries, texts and
--   exceptions. The modules named Examples, PlanExamples, RunnerExamples, CredentialExamples and Fixtures are
--   tests.
--
-- Conventions. A Python exception is a value of an error type of its component; an operation that
-- raises leaves the state as it was, except where the code has written before, which the model then
-- returns (`issue_token`, `verify_token`). Times are natural numbers in one unit, or texts where the
-- code only stores them; the code's clock is an argument. All loops are structural; the one use of
-- fuel is the decimal text of a number, which takes one round more than the number.
--
-- Parameters: pydantic's reading of a payload into fields (`Readers`), the digests that the code
-- makes with hashlib, the installed version of NautilusTrader, the artifact store and Python's text of
-- a value that is no text, Python's floats (`Floats`) and the reading of a specification and its dates (`Reading`). The artifact store's `Codec` is JSON, SHA-256 and the reading of an
-- envelope, with the law that what was written is read back. A JSON text with sorted keys is the list of its entries.
--
-- Not modelled: the build of sessions and their configuration, which
-- call NautilusTrader; the Redis limiter and the middleware; Postgres; the API's routes; the strategy
-- compiler, the artifact store on S3, the durable streams of events and the
-- web application.
pub mod Prelude
pub mod Json
pub mod ExecutionLane
pub mod Lifecycle
pub mod Promotions
pub mod Auth
pub mod BacktestJobs
pub mod RuntimeEvents
pub mod Workflow
pub mod Evidence
pub mod Artifacts
pub mod Registry
pub mod Strategy
