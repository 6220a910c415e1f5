-- ===== src/Lib.antt =====
-- The agent runtime harness: a daemon that lets coding agents share the tools, devices, ports and
-- licences of one machine. The daemon's service (internal/daemon) composes managers, each of which
-- keeps its tables in memory under one mutex and writes a snapshot of them through a store. A
-- session owns leases, ports, runs and processes; when it ends, the lease manager and the port
-- manager release what it has, the supervisor kills its processes and the run history closes its
-- runs. Clients reach the service by JSON-RPC over a socket (internal/rpc), and agents by an MCP
-- server over standard input (internal/mcp), which is a client of the same socket with the owner
-- "mcp".
--
-- A section under a manager's mutex is one function from a state to a state, so that an
-- interleaving of callers is a list of calls. The service's state is the record of the managers'
-- states; a call of the service is the sequence of its sections, and what an adapter does during a
-- run is a call of its own, so that calls of other sessions may come between. A method of RPC
-- decodes its parameters and makes one call of the service; a tool of MCP makes one method call. A
-- call's inputs that the code does not fix are arguments: the clock, the answers of the operating
-- system, the result of Store.Save, what the JSON and YAML libraries decode, and the order in
-- which Go ranges over a map; for the searches by name that order is the order of the list, about
-- which nothing is assumed. A Go string is a list of bytes (functions on letters are those of
-- ASCII), a map an association list, a time a number of nanoseconds with 0 for the zero time, a
-- pointer that may be nil an Option.
--
-- The files and what they model:
--
--   Model           internal/model/model.go: the records and the states of sessions, leases, tools
--   Ids             the ids "lease-%08x" and "sess-%06d" and their scans in nextLeaseID, parseLeaseSeq,
--                   createLocked and parseSeq; numbers do not overflow
--   Leases          internal/lease/manager.go: grant, trySatisfy, Acquire. A waiter's channel is a
--                   ticket; closing one twice, or reading a nil resource, sets the flag panicked
--   Leases/Endings  Release, ExpireNow, ReleaseAll, Sweep, ReapOrphans, Renew
--   Leases/Startup  New, EnsureResource, Restore, RestoreFromStore and the reading operations
--   Leases/...      Invariant and Served hold what every call keeps, Operations and History the calls
--                   and their sequences, Granting, Handover, Sessions, Departure, Restart and Hazards
--                   single results, Examples the runs that they are applied to
--   Policy          internal/policy/policy.go: Evaluate
--   Sessions        internal/session/manager.go: Create, Mutate, MarkRunning, MarkStopping, Finish,
--                   Remove, Prune, Restore; Sessions/Lookups is about Get and GetByName
--   Ports           internal/ports/ports.go: Acquire with its 64 attempts, the releases, ReapOrphans.
--                   The sockets that stand open are part of the state
--   Versions        internal/registry/registry.go: splitVer, parseNum on 64-bit ints, compareVersions
--                   and scoreVersion
--   Registry        internal/registry/registry.go: List, Register, Detect and Resolve
--   Env             internal/env/env.go: matchesAllow, isDenied, Build and Redact; Env/Entries is about
--                   what a child reads, Env/Isolation about what reaches it
--   Runs            internal/runs/runs.go: NewRun, Update, Finish, RestoreFromDisk, ReadLog;
--                   Runs/Invariant is about the table of records
--   Workspaces      internal/workspace/manager.go: the table of Create, CreatePlain, MarkSession, Remove
--                   and Restore, with the mutex as part of the state
--   Config          internal/config/config.go: the defaults and Normalize; Config/Loading Validate and
--                   Load. Config/Normal and Config/Limits are about their results
--   Supervisor      internal/supervisor/supervisor.go and the process sets of internal/proc/proc.go:
--                   the starts and exits of processes; Supervisor/Reach the kills, ReconcileOrphans.
--                   Supervisor/Keys is about the keys "session/pid", Pairing about the two tables,
--                   Kills about whom a kill reaches
--   Service         internal/daemon/service.go: the state and the calls on sessions; Service/Startup
--                   is New, Work the calls on leases, ports, workspaces, tools and logs, Execution
--                   Execute, Running the runtime of an adapter and the end of a run, Recovery the
--                   restart and Shutdown, Calls the union of the calls and their sequences
--   Service/...     Composition, Clients and Adapters are about the managers' invariants, Killing and
--                   Departure about TerminateSession, Reloading and Restart about Recover, Gates about
--                   the policy, Ownership and Names about whose lease a call reaches
--   Rpc             internal/rpc/rpc.go: the loop of ServeConn and dispatch; Rpc/Views, Rpc/Methods and
--                   Rpc/Register internal/rpc/methods.go: the wire types, the parameters and results,
--                   and the methods of Register. Serving is about the answers, Daemon, Gates and Nameless
--                   about the service behind them
--   Mcp             internal/mcp/server.go: the arguments and time limits of a tool call; Mcp/Table
--                   the calls of the tools, Mcp/Requests the loop of ServeIO, Mcp/Gates about both
--   Prelude         tests on numbers, lists, strings, maps with string keys and with int keys
--
-- Every loop is structural recursion on the list it ranges over, on the number of attempts, or on
-- a number that is above the count of digits, so that no fuel can run out. A wait for a lease is
-- not a loop: it is a ticket in the queue, which a later call closes.
--
-- Not modelled: the command line and the sockets' connections; the adapters' Prepare and Launch,
-- whose results are arguments of Execute; the store's files; the system calls of internal/proc;
-- tool.doctor and tool.describe, Describe and the other renderings for people; the descriptions
-- and schemas of MCP; and in the registry the parser of requirements, Doctor and the search for
-- Unity editors; in the workspace manager the commands of git and the choice of a free directory.
-- They mostly call the operating system or a library.
pub mod Prelude
pub mod Model
pub mod Ids
pub mod Leases
pub mod Policy
pub mod Sessions
pub mod Ports
pub mod Versions
pub mod Registry
pub mod Env
pub mod Runs
pub mod Workspaces
pub mod Supervisor
pub mod Config
pub mod Service
pub mod Rpc
pub mod Mcp
