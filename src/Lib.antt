-- ===== src/Lib.antt =====
-- Verification of frontier-os: the decisions of its control plane, as executable functions with
-- theorems about them. All paths are from the repository's root.
--
--   - Work (src/work/graph.ts): the work graph. `Work` has its types and effectiveApprovalClass,
--     `Work.Kahn` the function topologicalSort (Kahn's algorithm on maps of degrees and successors,
--     with a sorted queue), `Work.Prepare` the function prepare, which checks ids and dependencies
--     and sorts.
--   - Policy (src/policy/evaluator.ts): `Policy` has the classes of verbs and the action envelopes,
--     `Policy.Ledger` what is used of src/ledger/index.ts, `Policy.Tokens` the functions approveTrace,
--     consumeApprovalToken and evaluatePolicyAction, on a list of events that is passed along. The
--     ledger's query is a parameter with a named hypothesis: rows of the kind that is asked for, as
--     many as the limit of 1000 lets through, in an order that is left open. The
--     reading and printing of dates and the fresh ids are parameters too.
--   - Ghost (src/ghost/safety.ts): assessGraph, the checks on a work graph before the overnight run.
--     It reads the types of Work.
--   - Inference (src/inference/rate-limit.ts): the token buckets of the model broker. A token is 60000
--     units, which makes the refill a whole number of units; the rounding of the tokens is left out. The wait
--     that a refused call is told is exact for an empty bucket, and a parameter where a fraction of a token is left.
--   - Swarm (src/swarm/search-replace.ts): the edits of a builder's answer. `Swarm.Search` has indexOf,
--     countOccurrences and replace on UTF-16 code units, `Swarm.Apply` the two phases of
--     applySearchReplaceBlocks over a worktree,
--     which is a map from resolved paths to texts. isAbsolute and resolve of node:path are parameters,
--     and so is which write throws, and what it leaves then.
--     `Swarm.Parse` is the parser of the blocks, parseSearchReplaceBlocks, on code units.
--     `Swarm.Scope` (src/swarm/diff-scope-checker.ts) is the check of paths that comes first.
--   - Arbiter (src/arbiter/): `Arbiter.Verifier` the phases of verifyCandidate, `Arbiter.Rubric` the
--     scorer, `Arbiter.AntiExample` the function matchAntiExample, `Arbiter.Inputs` what decide
--     learns of each candidate, `Arbiter.Gates` a candidate's eligibility, `Arbiter.Decision` the
--     decision. Running commands, reading files and toLowerCase are parameters; weights, scores and thresholds
--     are exact fractions with a sign.
--
--   - Commands (src/commands/store.ts, envelope.ts, execution.ts): what operators ask for, until a worker ends it.
--     `Commands.Payload`, `Commands.Words`, `Commands.Verbs`, `Commands.AdapterRoute` and
--     `Commands.Route` are classifyCommand and what it reads, `Commands.Plan` is planCommand,
--     `Commands.Explain` buildCommandEnvelope and explainEnvelope, which asks Policy. `Commands.Rows`
--     has the tables, `Commands.Claimable` and `Commands.Store` the prepared statements as functions on
--     them, `Commands.Events` the events of the ledger. `Commands.Operations` (claimNext, extendLease,
--     finishActivity, finishCommand, cancel), `Commands.Submissions` (submit, retry, requeue) and
--     `Commands.Resumption` (resume) are the methods of CommandStore on a world of both tables and the
--     ledger. `Commands.Execution` has the attempts and the time that a command is
--     allowed, when it is new and when it is submitted again.
--     Times are milliseconds. The schema's check, the projects, toLowerCase, JSON.stringify, the clock
--     and the fresh ids are parameters. The JSON columns that nothing reads back, the retry
--     policy's column of the tables, the files of work graphs and the ledger's sessions are left out.
--
--   - Approvals (src/approvals/queue.ts): the grants that the queue of approvals shows for a trace, on
--     the same events and parameters as Policy.
--
-- State that the code mutates (maps, arrays, the ledger, the worktree) is passed along and returned;
-- errors are values. Children of a module hold its proofs, named for what they prove; `Tests` hold runs
-- at concrete inputs. `Prelude` has the shared maps, lists and texts.
--
-- Three loops run on fuel. The rounds of topologicalSort are one more than there are nodes: a node enters
-- the queue when its degree reaches 0, which happens once. The search of countOccurrences gets one round more than the text
-- has units; each round takes at least one unit off. So does each round
-- of parseSearchReplaceBlocks, which takes two markers off, and has as many rounds as there are units.
--
-- Not modelled: files and schemas, SQL, child processes, model providers, servers, printed texts of
-- evidence and logs, ids and clocks, and the other subsystems of the repository.
mod Prelude
pub mod Work
pub mod Policy
pub mod Ghost
pub mod Inference
pub mod Swarm
pub mod Arbiter
pub mod Commands
pub mod Approvals
