-- ===== src/Lib.antt =====
-- vibe-local-go, a coding agent for local language models: its core logic, modelled from the Go code.
--
-- The parts and the files that model them:
-- - internal/session/session.go: Session (the record `Session`, one function for each method, the
--   cache of GetMessagesForLLM), with proofs in Session/Cache and Session/Recent. Session/Ops has
--   the calls as data and sequences of them.
-- - internal/session/compaction.go: Session/Compaction and Session/Summary, with proofs below
--   Session/Compaction.
-- - internal/session/token.go: Token, with proofs in Token/Estimate and Token/Stats.
-- - internal/llm/fallback_condition.go: Fallback. internal/llm/chain.go: Chain; Chain/Rotation and
--   Chain/Attempts follow the rounds of a call, Chain/Explained says how it ends.
--   Chain/Stream has ChatStream, Chain/Streaming its proofs. The chain takes
--   the classification, the decision and the delays from Fallback.
-- - internal/security/permission.go: Permission. internal/security/validator.go and sanitize.go:
--   PathValidator, with proofs in PathValidator/Components, PathValidator/Resolution and
--   PathValidator/Environment.
-- - internal/agent/loop_detector.go: LoopDetector.
-- - internal/tool/tool.go and registry.go: Tool, with proofs in Tool/Registered.
-- - internal/agent/dispatch.go: Dispatch and Dispatch/Execution, on the registry of Tool and the
--   tool calls of Session. Dispatch/Attempts has the attempts of one call, Dispatch/Order the
--   sequential execution, Dispatch/Parallel the parallel one, Dispatch/Batches the groups.
-- - internal/agent/agent.go, the execution of tools: Agent, on the parts above. Agent/Guard says when
--   a tool runs, Agent/Rules and Agent/Denial what an answer "deny" does, Agent/Calls has the results.
-- - internal/agent/agent.go, the loop of Run: Agent/Run, with proofs in Agent/Frame, Agent/Ends and
--   Agent/Repeats. A turn takes the messages from Session, asks DetectLoop, calls the model, executes
--   the calls by Agent and validates the scripts by CodeValidator.
-- - internal/agent/code_validator.go: CodeValidator, with proofs in CodeValidator/Passing.
-- - internal/ui/lineeditor.go: LineEditor and LineEditor/Keys, a function for each key, and
--   LineEditor/Paste. LineEditor/Cursor, LineEditor/Position and LineEditor/Zipper have the proofs.
-- - internal/llm/sync.go: Brackets; Brackets/Step follows the loop, Brackets/Balance has the
--   results.
-- - internal/sandbox/manager.go: Sandbox and Sandbox/Diff, with proofs in Sandbox/Staging and
--   Sandbox/Committing. internal/watcher/watcher.go: Watcher, with proofs in Watcher/Polling and
--   Watcher/Lifecycle. internal/llm/routing.go: Router, with proofs in Router/Loading.
-- - internal/agent/subagent.go: SubAgent, on the model of Agent/Run, with proofs in SubAgent/ReadOnly
--   and SubAgent/Turns. internal/tool/file_edit.go: EditFile, with proofs in EditFile/Replacing.
-- - internal/session/persistence.go: Persistence, a monad over the manager, its lock and the files, and
--   the methods in Persistence/Manager. Persistence/Locks has the calls behind the lock,
--   Persistence/Returning and Persistence/Deadlock say which calls return, Persistence/Saving what
--   stands in the files, Persistence/Restart what another process reads.
-- - internal/tool/notebook_edit.go: Notebook, with the edits and Execute in Notebook/Execute and proofs
--   in Notebook/Source, Notebook/Editing, Notebook/Saving and Notebook/Undo.
-- - cmd/vibe/main.go, resumeSession: Resume, on Session and Persistence, with proofs in
--   Resume/Restoring.
-- - internal/config/file.go: Config, with proofs in Config/Reload and Config/Profiles.
-- - internal/tool/bash.go: Bash, how commands for Python are rewritten, outputs are shortened and the
--   environment is filtered, with proofs in Bash/Truncating.
-- Base holds what all share: tests, lists, Go's strings and maps over the native numbers.
-- The Tests module of each part runs its code and applies its theorems at concrete inputs.
--
-- Conventions. A method that mutates its receiver returns the new record. Locks make a call one step.
-- A Go map is an association list; the order in which `range` visits it is that of the list, or an
-- argument. int is a natural number where the code never goes below 0; time.Duration wraps at 2^64.
-- An index that may go below 0 wraps at 2^64. The loops over attempts recur on the rounds left.
-- Arguments stand for what is outside of the modelled code: the answers of providers and of the
-- user, the clock, the outcome of file writes, what tools and test programs do, what json.Unmarshal
-- decodes, Go's case tables outside of ASCII.
--
-- The loop of Run takes 31 as fuel, one more than the turns that its counter allows. Paths are those
-- of Unix, and a clean absolute path is the list of its names.
--
-- Not modelled: terminal, network, processes and files, and so the tools themselves but for the
-- replacement of edit_file, notebook_edit and the texts of bash, the providers over HTTP and the MCP
-- client; goroutines that change a chain during a call; what the line editor draws; the globs of the
-- file watcher and its timer; directories of the sandbox.
pub mod Agent
pub mod Base
pub mod Bash
pub mod Brackets
pub mod Chain
pub mod CodeValidator
pub mod Config
pub mod Dispatch
pub mod EditFile
pub mod Fallback
pub mod LineEditor
pub mod LoopDetector
pub mod Notebook
pub mod PathValidator
pub mod Permission
pub mod Persistence
pub mod Resume
pub mod Router
pub mod Sandbox
pub mod Session
pub mod SubAgent
pub mod Token
pub mod Tool
pub mod Watcher
