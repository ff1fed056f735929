-- ===== src/Lib.antt =====
-- gor: virtual actors (grains) in Go. A grain's calls run one at a time in one activation; a cluster of
-- nodes agrees on which node owns a grain by a hash ring over the membership table, and reminders call
-- grains at set times.
--
-- The parts, and the files that model them:
--   store/       The stores. Store.antt has the data types; Store/Records, Store/Members and
--                Store/Reminders have the methods of Memory (store.go, member.go, schedule.go), each
--                method one step under the lock. Store/Keyed has the lemmas on keyed rows. Store/Sqlite:
--                the statements of SQLite's Read, Write, Claim, Put, Delete and ListDue (sqlite.go,
--                schedule_sqlite.go) over rows; Store/Sqlite/Members: those of the members
--                (member_sqlite.go) with their votes; Store/Sqlite/Migration: migrateOldLayout.
--   cluster/     Cluster/Hash and Cluster/Ring: hashParts, NewView and Owner (cluster.go).
--                Cluster/Members, Cluster/Probe: the probe ring and the bookkeeping of probes
--                (probe.go). Cluster/Vote: suspicion votes (vote.go). Cluster/Node, with Check and Loop:
--                join, selfCheck, heartbeat, pollView, leave and the loop of run (node.go); Start: New's
--                checks, notify and Probe.
--                Cluster/Table: the membership table as the node sees it, shared with other writers.
--   transport/   Transport/Frame: ReadFrame and WriteFrame (frame.go). Transport/Connection: the owner loop
--                of a connection (connection.go), one event of its select after the other.
--   timer/       Timer: nextDueAt and one poll (timer.go).
--   runtime/     Runtime/Occupied: the occupied chain of nested calls (occupied.go). Runtime/Engine: the
--                engine (runtime.go) as operations on a heap of activations; Runtime/Engine/Steps makes
--                them a step relation.
--   mail/        Mail: a mailbox and its consumer (mail.go). The engine's model keeps only whether a
--                mailbox is closed.
--   clock/       Clock: the fake clock's tickers (fake.go).
--   state.go     State: the persistent states of a grain, written as one record of a store.
--   errors.go    Root/Errors: the tree of errors, its codes and their envelope.
--   gor.go       Root/Config: Config, the options and the branches of New. Root/Types: InstallType,
--                Register and Ref. Root/Lifecycle: admission, the stops and the drain. Root/Shutdown: the
--                commands of the stops. Root/Routing: who runs a call.
--   forward.go   Root/Forward: a call on its way to its owner and back; Root/Forward/Probes has the
--                probes, with prober.go.
--   request_context.go  Root/Context: the request context, its entries and its payload;
--                Root/Context/Laws: what encoding/json documents for them.
--   schedule.go  Root/Reminders: Handle, and Set and Cancel of a Reminder.
--   Tests        The theorems at concrete inputs. Prelude has the shared types and lemmas.
--
-- How they interact: a node's loop reads and writes the membership table (Store/Members through
-- Cluster/Table), builds the view that Owner reads, and probes its ring neighbours, whose votes mark a
-- silent member dead. The timer lists and claims reminders of a store (Store/Reminders) and calls the
-- engine for the grains that its node owns. A root Runtime admits a call (Root/Lifecycle), asks the view
-- for the owner (Root/Routing), and runs the call in its engine or forwards it (Root/Forward) with its
-- request context. Frames carry the calls between nodes on the connections of Transport/Connection.
--
-- Conventions. A Go string is a list of bytes. Times and durations are unbounded integers of
-- nanoseconds, except where the code tests for a duration's overflow (nextDueAt) and where the SQLite
-- store takes a time's UnixNano, which keeps 64 bits. ETags, hashes, probe
-- tokens and frame ids keep their 64 bits. A map is an association list; where Go ranges over a map,
-- the model takes the list's order. A context's error, the outcome of a race with a timer, and the
-- event that a select takes are arguments; a theorem that fixes one of them says so.
-- Fuel: the binary search runs on n + 1, more than its interval; updateSuspectVote runs on rounds, and
-- the theorem on its end says how many are enough; a poll's budget is the number of reminders after
-- which its context is canceled; the fake clock's Advance runs on fuel that covers the way to its new time.
--
-- Code outside the repository is an argument: a codec for encoding/json, utf8 and bytes, a table that
-- SQLite keeps as it documents, a sender for the network. What a theorem takes of it is a record of laws.
--
-- Not modelled: the opening of SQLite's files and their schemas (store/sqlite.go); dialing, accepting and
-- the goroutines at a socket (transport/transport.go, transport/connection.go), which are I/O; the
-- simulation (sim/), a test harness over the other packages; the code generator (cmd/, internal/) and the
-- examples. Goroutine scheduling is the order of the steps; user methods and hooks are outside, but for
-- their effect on the store that a poll reads. Of the engine's channels, done and evictionDone of the
-- Runtime and ready of a pending activation are not modelled.
pub mod Prelude
pub mod Store
pub mod Cluster
pub mod Transport
pub mod Timer
pub mod Mail
pub mod Clock
pub mod State
pub mod Root
pub mod Runtime
pub mod Tests
