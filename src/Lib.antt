-- ===== src/Lib.antt =====
-- Verification of gojob, a library of composable stages for concurrent jobs in Go.
--
-- A pipeline is a chain of goroutines joined by channels. A source (source.go) sends items, Shard
-- (shard.go) keeps one part of them, Process (process.go) runs a function on each in a pool of
-- workers with retries and timeouts (options.go) and sends one Result (task.go) for each,
-- WithStats (stats.go) counts the results on their way, Tee and WriteJSONL (sink.go) copy and
-- write them. The package queue puts a queue with acknowledgements in place of the source: Fill
-- (queue/fill.go) publishes a channel into it, Consume (queue/consume.go) runs Process over its
-- messages and acknowledges, returns or dead-letters each one. queue/memq is the backend in
-- memory, queue/fileq keeps each message in a file whose name says how it stands, and queue/redisq
-- keeps its messages under the keys of a Redis server. web and prom watch the counters of
-- WithStats.
--
-- Which module models what:
--   Prelude   lists, integers over the native numbers, permutations as bags, shared lemmas
--   Options   options.go: config is Config, With* are with_*, ExpBackoff is exp_backoff
--   Task      task.go: Result, and to_json for the struct that MarshalJSON encodes
--   Process   process.go: run_one is runOne, run_with_timeout is runWithTimeout, result is result
--   Process.Pool  process.go: Process, its worker goroutines as the relation Step
--   Process.Execute  process.go: Execute on tasks; task.go: Task, and task_func for TaskFunc
--   Stream    the history of a channel, and the turns of a select with ctx.Done
--   Source    source.go: from is From, read_lines is Lines
--   Shard     shard.go: shard_stream is Shard, shard_loop its goroutine
--   Sink      sink.go: write_jsonl is WriteJSONL, drain is Drain, tee is Tee
--   Stats     stats.go: with_stats is WithStats, counts_of its two additions, snapshot is Snapshot;
--             report_every is ReportEvery
--   Queue     queue/queue.go: Message with ack, nack and dead_letter
--   Queue.Fill     queue/fill.go: fill is Fill
--   Queue.Consume  queue/consume.go: work and consume_loop are the two closures of Consume
--   Memq      queue/memq/memq.go: one function for each critical section
--   Memq.System    queue/memq/memq.go: the goroutines around one queue as the relation Step
--   Fileq     queue/fileq/fileq.go: entry_name, parse_name and new_seq, over bytes
--   Fileq.Disk     queue/fileq/fileq.go: Publish, claim, reclaimExpired, divert and the callbacks
--   Fileq.Disk.System   the processes that share one directory, a file operation for each Step
--   Fileq.Disk.Round    queue/fileq/fileq.go: receive_round is one round of the loop of Receive
--   Queue.Lifecycle     the stages of one message, the specification of queue/fileq
--                  and queue/redisq, which Fileq.Disk.Lives and Redisq.Lives compare with it
--   Redisq.Redis   the Redis server as a parameter: its commands, and the laws IsRedis
--   Redisq.Script  queue/redisq/redisq.go: the Lua scripts and the transactions, *_script and *_tx
--   Redisq.System  queue/redisq/redisq.go: the clients of one queue as the relation Step
--   Redisq.Client  queue/redisq/redisq.go: publish, claim, receive_round for one round of Receive
--   Redisq.Options queue/redisq/redisq.go: the options of New and its keys
--   Web       web/web.go: events is the handler of /events, serve its loop
--   Prom      prom/prom.go: push is Push, push_loop its loop
--   Memq.Limit     queue/consume.go with queue/memq/memq.go: runs in which Consume is the consumer
--   Service   queue/consume.go, process.go and queue/memq/memq.go together: Consume on a memq queue,
--             with the goroutine of Receive, the workers of Process and the loop in one relation Step
--   Crawler   examples/crawler/main.go: urls_of, the pool, written_of are the stages of main
--   Ping      examples/tasks/main.go: ping is PingTask.Execute, Pings the tasks of main
--   Prometheus  examples/prometheus/main.go: observed_of is its WithStats, pushed_at_exit is what Push
--               has sent when main returns
--   Tests     evaluations of the definitions, and the theorems at concrete inputs
--
-- How time, the scheduler and outside code come in. A select with ctx.Done is a choice that the
-- theorems quantify over: a list of turns for a single goroutine, a constructor of Step where
-- several interleave. What fn returns, whether a timer or ctx is first, and the clock are the
-- record Env. An in-flight call of fn that a timeout abandons has no effect on the result and is
-- left out. What json.Marshal and the writer do are arguments of the sinks. An item of a pool is a
-- value; a message is a record of callbacks on the state of its backend, as in Go.
--
-- The Redis server is not part of the repository. It is the record Redis of the commands that the
-- queue uses, with a view of its state as the values of the keys; IsRedis says what each command
-- does to that view, as the documentation of Redis has it. A script and a transaction are one step
-- each. A command that fails is a step that is not made; a callback whose transaction fails is a
-- step of its own. The ids are the numbers of INCR. A late callback, one that comes after its
-- lease was reclaimed, is a step like any other; PromptReach are the runs without late callbacks,
-- and the test late_nack is a run with one. The base64 of a payload and the codec are arguments.
--
-- Service joins three components at the channels between them: what Receive sends a worker takes
-- in the same step, and what a worker sends the loop takes in the same step. The calls of the
-- queue's own callers, the cancellation of ctx and the consumer of the output are steps too; the
-- results that the consumer has are kept beside their messages. The termination of Consume is
-- counted by weight, ten steps and some for each delivery that a message has left. The stages of
-- Crawler each have their own turns, so that its runs include every run in which ctx is one.
--
-- In the file backend a step is one rename or removal that succeeds, by any process at any time,
-- for any name that was ever listed. FreshReach are the runs in which no sequence is drawn twice:
-- newSeq draws the time at which the queue was opened and a counter, so that two processes that
-- open the directory within the same nanosecond may draw the same one. The three reads of drained are
-- of three disks, with steps of others in between.
--
-- Bounds. A Duration and an int64 are integers, and exp_backoff wraps its shift at 64 bits. The
-- counters of items, of results, of attempts and of deliveries are unbounded numbers. The loop of
-- runOne runs on the rounds that cfg.retries leaves, so that it needs no other fuel. The digits of
-- n are printed with n + 1 rounds, more than there are digits. All other loops are recursion on a
-- list. A list of turns that ends leaves the goroutine blocked, and the theorems cover every list.
--
-- Not modelled: the directories that Open creates, the temporary file that Publish renames and
-- errors of file operations other than a missing file (queue/fileq), Serve, the headers and the
-- page itself (web), the registry and the pusher (prom), the JSON codec (queue/queue.go), the
-- examples queue, dashboard and stdio, and pkg/version. The error with which Receive may refuse to
-- start is only passed on by Consume; no backend returns one.
pub mod Prelude
pub mod Options
pub mod Task
pub mod Process
pub mod Stream
pub mod Source
pub mod Shard
pub mod Sink
pub mod Stats
pub mod Queue
pub mod Memq
pub mod Fileq
pub mod Redisq
pub mod Web
pub mod Prom
pub mod Service
pub mod Crawler
pub mod Ping
pub mod Prometheus
pub mod Tests
