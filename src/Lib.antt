-- ===== src/Lib.antt =====
-- OpenAgentHub: a model of the TypeScript core that decides how agents are installed, allowed, run,
-- supervised and accounted for, with the theorems about it.
--
-- The parts, and the files of the repository that they model:
--   * Manifest: the types of sdk/src/manifest.ts.
--   * Sandbox.Policy: effectiveSandbox of runtime/src/sandbox/policy.ts, which chooses between a
--     container and a plain process. Sandbox.Process: splitCommand, the constructor, prepare and
--     the start of run of runtime/src/sandbox/process.ts. Sandbox.Container: the arguments of docker
--     and the file of secrets of runtime/src/sandbox/container.ts.
--   * Permissions: runtime/src/permissions.ts, a configuration in memory beside its file; View is
--     what it says of each agent.
--   * Vault: has, get, set and delete of runtime/src/secrets.ts, with the cipher as a parameter.
--   * Revocation: cli/src/lib/revocation.ts, which refreshes a review status before a run.
--   * Models: pickModel and buildAgentEnv of runtime/src/models.ts.
--   * Runtime: runAgent of runtime/src/runtime.ts, which composes the parts above: grants, policy,
--     model, environment, sandbox. Errors are values (Prelude.Result).
--   * Usage.Tables: the tables of runtime/src/usage.ts as lists of rows. Usage.Store: one function for
--     each method that writes them. Usage.Collect: the readers of the session files of Codex and
--     Claude, runtime/src/usage/codex.ts and claude.ts, which take what Json names; Usage.Consent and
--     Usage.Collection: runtime/src/usage/consent.ts and collect.ts, with the readers as an interface.
--   * Cli: the libraries of cli/src/lib that compose the others. Version and Resolve: version.ts and
--     resolve.ts, the order of versions and the one that a request means; Spec, Source and Install:
--     installer.ts, from a request to a package and to the saved configuration; Prepare:
--     run-agent.ts, which resolves, checks revocation, grants secrets and calls the runtime.
--   * Requirements: sdk/src/runtime.ts, what an agent needs of the machine, which an installation
--     asks; Versions: the bounds on a version.
--   * Client: sdk/src/registry.ts, each method as the request that it makes and what it reads from the
--     answer. Encoding: encodeURIComponent; Endpoints: the methods; Download: an archive, a login.
--   * Supervisor: cli/src/lib/supervisor.ts and cli/src/commands/supervisor-run.ts. The directory of
--     runs and the usage database are a World; Record reads and writes it, Reconcile compares it
--     with what is alive, Start, Stop and Worker are the command's and the worker's steps, Logs is
--     the rotation, which cli/src/lib/control-plane.ts repeats for the daemon's log.
--   * Control: acquireLock, releaseLock, selectPort, ensureDaemon, stopDaemon and restartDaemon of
--     cli/src/lib/control-plane.ts; a start is a course of what is seen and a list of effects. Tail: the end
--     of its log and what is added to it.
--   * Package: sdk/src/package.ts. Paths: assertSafeArchivePath; Ignored: listProjectFiles;
--     Extract: the handlers of extractArchive, driven by a list of events; Signature: the signature
--     file and its two checks.
--   * Prelude: shared helpers. Examples: the theorems at concrete inputs.
--
-- A JavaScript object used as a dictionary is a list of pairs in insertion order (Prelude.Objects).
-- An absent value is none; a test such as `if (x)` on a text is `truthy`. Times are texts that the
-- caller passes. What other processes do while a function waits is a list of rounds or an argument
-- that changes the World, and a list that ends is the deadline; so no fuel is needed: each loop is a
-- recursion on its list or its number of attempts. Numbers are natural, or whole where a log or
-- a difference may hold a negative one; a percentage or a cost is a number of units with a scale.
--
-- Parameters: docker and other programs, node:crypto, whether a process lives and whether a port is
-- free, fetch, JSON.parse, the order of texts in a locale and the answers of the user. Not modelled:
-- streams and timers, SQL that only reads, the reader of OpenCode and the live limits of providers, the
-- commands' printing, the web pages and the Python registry.
pub mod Prelude
pub mod Manifest
pub mod Sandbox
pub mod Permissions
pub mod Models
pub mod Vault
pub mod Revocation
pub mod Runtime
pub mod Usage
pub mod Supervisor
pub mod Control
pub mod Package
pub mod Examples
pub mod Cli
pub mod Json
pub mod Client
pub mod Requirements
