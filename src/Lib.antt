-- ===== src/Lib.antt =====
-- Verification of the core of parrot-coder, a terminal coding agent written in Go.
--
-- The program runs an agent that talks to a model provider, calls tools and edits files. Around
-- the agent stand the services that keep its work in order: named queues on disk that hold
-- prompts for later, the semaphore that bounds the child agents that run at once, the goal of a
-- session with its token budget, the stream from the provider that reconnects, the index of its
-- tasks, the live events of sessions and of their descendants, the cut of a history that is
-- compacted, the diff that shows it a change, the brokers through which a blocked agent asks the
-- user for permission or an answer, the patches by which the agent edits files and their commit
-- to the disk, and the line editor of the terminal. They meet in the agent and the application:
-- the agent acquires a permit per child turn, reads the provider through the retried stream,
-- charges the goal after each call, blocks in a broker, and is fed by the queues and the editor.
--
-- Queue.antt and the files under Queue model internal/queue/queue.go: names and the escaping of
-- file names (Queue/Names.antt), files and directories (Queue/File.antt, Queue/Disk.antt), the
-- methods Push, Take, TryTake, Get, List, Monitor (Queue/Ops.antt) and DeliverMonitored
-- (Queue/Delivery.antt). A method is a computation on the directory tree that may fail at each
-- call of the system; locks are directories. The JSON of a line is not modelled, only what it
-- decodes to, for texts that are valid UTF-8. Queue/Contract.antt, Queue/Notify.antt and
-- Queue/Failures.antt hold the contract against plain lists of items.
--
-- Semaphore.antt models childTurnSemaphore of internal/agent/concurrency.go as a machine: each
-- critical section and each wake-up of a blocked caller is a step, and a history is any sequence
-- of steps.
--
-- Goal.antt and the files under Goal model GoalService of internal/session/goal.go: the row of
-- session_goal and its events as a store, a method as one transaction (Goal/Service.antt),
-- histories of requests (Goal/History.antt).
--
-- Question.antt and the files under Question model internal/question/broker.go: the checks of
-- requests and responses (Question/Types.antt), the broker with its blocked callers as a machine
-- (Question/Broker.antt); the IDs are random bytes, so that a history has no two requests of one
-- ID.
--
-- Permission.antt and the files under Permission model internal/permission/permission.go: the
-- broker with the races of a reply against the timer and the context (Permission/Broker.antt),
-- the stages of a request (Permission/Stages.antt).
--
-- Task.antt and the files under Task model the index of shell and agent tasks of
-- internal/task/task.go: registration and resolution (Task/Manager.antt).
--
-- Diff.antt and the files under Diff model fallbackEditScript of internal/change/diff.go, which
-- shows a change that is too large for the shortest script (Diff/Script.antt).
--
-- Patch.antt and the files under Patch model internal/change/patch.go and unified.go: a file as
-- lines with their own terminators (Patch/Lines.antt), the search for the place of a hunk
-- (Patch/Spaces.antt, Patch/Seek.antt), the lines it puts in (Patch/Replace.antt,
-- Patch/Apply.antt), ParsePatch (Patch/Blocks.antt, Patch/Operations.antt) and ParseUnifiedDiff
-- (Patch/Unified.antt), where the parser of git diffs is a function that the model takes.
--
-- Change.antt and the files under Change model internal/change/change.go: states of files and
-- the calls on a disk, each of which may fail (Change/Disk.antt), Commit with revalidation,
-- directories, staging, application and rollback (Change/Commit.antt), and PlanPatch of
-- internal/change/patch.go, which makes the plans from the operations of a patch
-- (Change/Planner.antt); the search for missing parents is an argument and the text of the diff
-- is left out. The paths of temporary files are not on the modelled disk, the digest is any
-- function, and what Commit relies on is named by IsPlanned in Change/Atomic.antt; for a plan of
-- PlanPatch it comes down to LinksNamed in Change/Planned.antt, that no symbolic link has an
-- empty target.
--
-- Compaction.antt and the files under Compaction model SafeCut of
-- internal/compaction/service.go, where the order of the loop over a map of tool calls is an
-- argument (Compaction/Cut.antt).
--
-- Event.antt and the files under Event model the live half of internal/event: subscriptions with
-- bounded queues, with what the receiver takes while a send to a full one is under way as a list
-- of races (Event/Transient.antt, from transient_repository.go), the ancestors of a session and
-- the projection of its events (Event/Broker.antt, from broker.go). The climb runs on a number
-- of rounds, for which one more than the sessions with children is enough.
--
-- Retry.antt and the files under Retry model retryStream of internal/provider/stream_retry.go:
-- the passes of the loop of Next over what the streams give (Retry/Stream.antt).
--
-- Editor.antt and the files under Editor model internal/terminal/editor.go: limits, history and
-- completion (Editor/Setup.antt), each key (Editor/Keys.antt), and the read loop
-- (Editor/Session.antt). An index out of range is the value none.
--
-- How Go is read: strings are lists of bytes, and of runes in the editor (Base/Texts.antt), maps
-- with string keys are association lists (Base/Maps.antt), int is a natural number where the
-- code keeps it non-negative and a signed one elsewhere (Base/Int.antt), sort.Slice is insertion
-- sort (Base/Sorting.antt), errors are constructors of a type of each component, and a method
-- returns its result with the new state. Concurrency is a sequence of critical sections. Bounds
-- are those of the code: the queue's file size, the goal's int64, the editor's limits. Loops
-- follow a list, the keys of a reading or the events of a history; those that do not, the climb
-- to the ancestors of a session, the splitting of a file into lines and the reading of a patch,
-- run on a number of rounds that their input bounds, and each round takes a part of it.
--
-- Not modelled: the provider protocols, the HTTP interface and its clients, the SQL of the
-- stores, the tools, processes and the sandbox, the drawing of the terminal, and the
-- configuration. They are input and output around the parts above, or wait for later work. What
-- they give to a modelled part (the clock, new IDs, what the disk and the user do) is an
-- argument of the definitions.
pub mod Base
pub mod Queue
pub mod Semaphore
pub mod Goal
pub mod Editor
pub mod Question
pub mod Permission
pub mod Task
pub mod Diff
pub mod Retry
pub mod Patch
pub mod Change
pub mod Compaction
pub mod Event
