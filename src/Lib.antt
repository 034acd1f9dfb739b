-- ===== src/Lib.antt =====
-- A verification library of AvityOS, an orchestrator of coding agents: a control plane keeps
-- projects, missions and runs and starts missions on workers, and a relay passes encrypted messages
-- between a desktop and its remote devices.
--
-- The parts modelled, and the files that model them:
--   * packages/contracts/src/enums.ts, entities.ts: Contracts, with Contracts/Enums (the closed
--     enumerations as data types) and Contracts/Entities (missions and their dependencies).
--   * packages/orchestration/src/machines.ts: Orchestration/Machines. MISSION_TRANSITIONS,
--     RUN_TRANSITIONS and PROJECT_TRANSITIONS are mission_transitions, run_transitions and
--     project_transitions, by clauses; canTransition... and assert...Transition keep their names.
--     Machines/Traces has the sequences of transitions, and Missions, Runs and Projects the proofs.
--   * packages/orchestration/src/dag.ts: Orchestration/Dag. assertAcyclic is assert_acyclic, with
--     the Sets and the stack of its search as the record Search; unblockedMissions is
--     unblocked_missions. The proofs are in the child modules Adjacency to Unblocked.
--   * packages/orchestration/src/scheduler.ts: Orchestration/Scheduler. selectMissionsToStart is
--     select_missions_to_start, its loop select_loop.
--   * packages/orchestration/src/fallback.ts, correction.ts: Orchestration/Fallback (decideFallback
--     is decide_fallback) and Orchestration/Correction (decideCorrection is decide_correction).
--   * services/remote-relay/src/store.ts: Relay. Limits has the constructor's checks, State the
--     Maps of InMemoryRelayStore and its cleanup, Waiters the long polls, Publish, Inbox and Devices
--     the operations, and History the sequences of calls on a new store. A timer or a signal that
--     ends a poll is a call of its own, end_poll.
--   * packages/policy/src/engine.ts: Policy. evaluate and isCommandAllowed are evaluate and
--     is_command_allowed, and Policy/Globs has globMatch as glob_match; Policy/Rules and
--     Policy/Checks are the proofs.
--   * services/control-plane/src/provider-policy.ts: ProviderPolicy. resolveExecutionMode,
--     fakeProviderAllowed and assertProviderChainAllowed keep their names.
--   * services/control-plane/src/provider-routing.ts: Routing, the chains of providers that authors
--     and reviewers are tried in.
--   * services/control-plane/src/store.ts, db.ts: ControlPlane. Store has the tables' rows and
--     Store/Actions the methods as actions, with DB.transaction as transaction; Journal has
--     appendEvent, appendAudit, verifyAuditChain, findIdempotent and recordIdempotent; Fence
--     has getPauseGeneration, isProjectPaused, assertProjectAcceptingWork and
--     assertRunAcceptable; Lifecycle has transitionMission, updateMissionMeta, createRun,
--     transitionRun and setProjectStatus; Pause has beginProjectPause and
--     completePausedRunCancellation, Pause/State getProjectPauseState, and Resume has
--     resumeProject and resumeMissionTarget, each by its name in snake case. Changes is the
--     relation of what a method may do to the tables, Changes/Methods has the rules by which a
--     method keeps to it, the Keeping modules prove that each method does so, Changes/Rows,
--     Traces and Audit prove what follows for the rows and the audit chain, Changes/Log and
--     Reports for what the events report of a mission, and Calls is about any sequence of calls. It
--     uses Machines for the transitions.
--     Leases has the terminals: reconcileExpiredTerminalLeases, revokeWorkerLeases,
--     revokeProjectWorkerLeases, heartbeatWorker and setTerminalState, and Leases/Offers
--     commandCapabilities, hasAvailableWorker, leaseTerminal, validateTerminalLease and
--     createTerminal; the other children of Leases are proofs.
--     A method's time is one argument at, identifiers come from the record Host, a table lists
--     its rows in the order of created_at (two rows of one millisecond keep the order of
--     insertion), and a nested transaction joins the outer one.
--
-- How they interact: the control plane asks unblocked_missions which missions may start, gives the
-- ready ones to select_missions_to_start, moves missions and runs by the tables of the machines, and
-- on a failure asks decide_fallback and decide_correction what to do next. The relay is a service of
-- its own. Contracts is shared by all.
--
-- How state and errors are modelled: a method that changes its object takes the state and returns
-- the next one, beside its result; a thrown error is a value of the result. A JavaScript Map or Set is
-- a list in insertion order (Base/Maps, Base/Lists). Numbers are natural numbers: a number that is
-- negative, fractional or not finite is not represented, and the limits that the source puts on safe
-- integers are kept as tests.
--
-- Bounds and fuel: the search of assert_acyclic takes fuel, one more than the number of missions that
-- have dependencies. A search that goes deeper would meet a mission twice on its stack, so the fuel
-- does not run out: the first result below says so, since it excludes the outcome `exhausted`. All
-- other loops are structural.
--
-- What the definitions take as arguments: of code that is not in this repository, the collation of
-- String.prototype.localeCompare in the scheduler; JSON.stringify, byte lengths, SHA-256 and Date in
-- the relay (the record Platform, and sha256, to_iso and get_time of the devices, where get_time gives
-- none for a text that is no date); the sort of the roles in Routing; SHA-256, random identifiers and
-- the cutting of texts in ControlPlane; trim and toLowerCase in ProviderPolicy; the constructor RegExp
-- in Policy, which gives none where it throws. The redaction of secrets, which packages/policy has, is
-- an argument of ControlPlane; one result needs that it leaves a mission's states in an event alone. A
-- stored certificate is the certificate itself in place of its JSON text.
--
-- What is not modelled: the parsing of inputs by zod, SQLite, HTTP, TLS, child processes, git, the
-- user interfaces and the command line; the engine and the server of the control plane, and what its
-- store keeps besides the lifecycle: objectives, clarifications, plans, budgets, approvals, checkpoints,
-- the terminals' logs, pull requests, foreign keys and the listeners of events;
-- the providers, the sandbox, isPathAllowed with its paths of the file system, budgets in
-- floating-point amounts, the credential vault and the cryptography of the remote bridge.
mod Base
pub mod Contracts
pub mod Orchestration
pub mod Relay
pub mod Policy
pub mod ProviderPolicy
pub mod Routing
pub mod ControlPlane
mod Examples
