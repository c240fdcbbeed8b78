-- ===== src/Lib.antt =====
-- A verification library for seta, a monitor of the posture of domains: a registry of checks, an
-- engine that runs them on targets, and what becomes of their findings.
--
-- How the parts interact. The command line reads a configuration, selects checks from the registry
-- and hands them with the targets to the engine. The engine's result passes through Config.Apply,
-- which overrides severities and moves suppressed findings aside, and then either through a
-- baseline or through Store.Record, which compares it with the findings of earlier runs; the
-- changes of a run go to the channels of notifications. The model follows this: `RunResult` of
-- Engine.antt is what Config, Baseline and State take, and `Diff` of State.antt is what Notify
-- takes.
--
-- Which file models which part:
--   Core.antt      internal/core: Core/Severity (severity.go), Core/Finding (finding.go),
--                  Core/Target (target.go), Core/Check (check.go), Core/Memo (memo.go)
--   Registry.antt  internal/registry/registry.go: Register, Lookup, All, Select; Registry/Glob has
--                  Match
--   Engine.antt    internal/engine/engine.go: normalize and the orders; Engine/Run has runOne and Run
--   Config.antt    internal/config/apply.go, with Matches and Expired of internal/config/config.go
--   Baseline.antt  internal/baseline/baseline.go: New, Read, Apply
--   State.antt     internal/state: the types and the tables; State/Record has Record, loadRows and
--                  saveRows of diff.go, State/Store has Get, Set, Delete and Prune of store.go
--   Notify.antt    internal/notify/notify.go: Filter and merge; Notify/Deliver has deliver and
--                  heartbeatDue over the key-value table of State/Store
--   Dns.antt       internal/dnsx/dnsx.go: a response and what is read of it
--   Email.antt     checks/email/internal: Email/Tags has tags/tags.go; Email/Spf has the types of
--                  spf/parse.go, Email/Spf/Parse its Parse and Email/Spf/Macro the macros;
--                  Email/Spf/Eval has the state of spf/eval.go and Email/Spf/Eval/Walk its walk;
--                  Email/Mtasts has mtasts/mtasts.go, Email/Dmarc has dmarc/dmarc.go
--   Prelude.antt   what the parts share: bytes and the functions of package strings that the code
--                  calls, maps, sorting, results, integers
--   Tests.antt     the theorems at concrete inputs
-- The child modules that are not named here hold the proofs and are named for what they prove.
--
-- How the code is read. Strings are lists of bytes. A Go map is an association list, and a loop
-- over a map takes the order of that list; the map of Core/Memo, on which nothing loops, is a
-- function. A nil slice is told apart from an empty one where the code does so. `int` is the
-- integers of Prelude/Int, without a bound: the code adds ones and compares. Times are whole
-- milliseconds. slices.SortFunc is an insertion sort; what the theorems use of it is that the
-- result is a sorted rearrangement. An error is a value of `Result`; messages are reduced to what
-- they report, save for the problems of an SPF evaluation, which compares them.
--
-- Fuel. Match runs on (|id| + 1) * (|pattern| + 1) rounds, and is proved never to run out of them;
-- the digits of a number are written in as many rounds as the number and one more, one too many for
-- any number. Everything else is structural recursion;
-- the evaluation of SPF recurs on the levels that are left of its maxDepth.
--
-- Parameters. SHA-256 is the function `digest`; where a theorem needs that it has no collisions it
-- says so. The IDNA conversion of golang.org/x/net/idna and the case table of package unicode are
-- the record `Unicode`. The scheduler, the deadlines and the bodies of checks are the value
-- `Attempt` of a task and the order of the list of tasks that Engine/Run takes. SQLite is the
-- effect of each statement on the tables; a statement that violates a primary key fails. The
-- conversion of the evidence of a finding to the text of its column and back, by encoding/json, is
-- the record `EvidenceText`, of which nothing is assumed: bytes that are not UTF-8 are replaced
-- when they are written, so that what is read back need not be what the finding had.
--
-- The callers of Core/Memo take their steps in any order, and what the shared function returns,
-- with or without a context that has ended, is any value.
--
-- A resolver is a function from a name and a type to a response or an error; the records, `Fqdn`
-- and the numbers of the types are those of miekg/dns. The addresses of net/netip are the record
-- `Addresses`, and the text of a parse error is a function. `ParseAddress` of net/mail is a
-- function as well.
--
-- What comes of a sending is the field `send` of a channel, and the texts of pending changes and of
-- times are the record `Texts`.
--
-- Not modelled: the text and the sending of notifications, the daemon's loop, the DNS and HTTP
-- clients, the prefetching of SPF, which only fills a cache, the keys of DKIM, the plugins'
-- processes, the reports, the command line and the checks themselves; of internal/engine the worker
-- slots and the timeouts, of internal/config the loading, of internal/state the migrations.
mod Prelude
pub mod Core
pub mod Registry
pub mod Engine
pub mod State
pub mod Config
pub mod Baseline
pub mod Notify
pub mod Dns
pub mod Email
mod Tests
