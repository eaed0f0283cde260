-- ===== src/Lib.antt =====
-- OpenMurmur: a recorder that listens, cuts speech into sessions, transcribes and summarises them
-- and delivers the result by Telegram. This library models the parts that decide what is recorded
-- and that no work is lost or done twice, and proves what they promise.
--
-- Parts and files
--   Prelude (with Tests, Lists, Int, Outcome): Boolean tests, lists, signed milliseconds, results.
--   Table (with Laws, Order, Keys, Pairs, Existence): SELECT, UPDATE and INSERT … ON CONFLICT DO
--     NOTHING on a list of rows in rowid order, and their laws.
--   Sessionizer: src/sessionizer/machine.ts, with the types of src/sessionizer/types.ts in
--     Sessionizer/Types. `push` is `dispatch` on the state, one function per case of the switch;
--     `#openSession`, `#maybeRotate`, `#finalize`, `#bufferPreRoll` are open_session, maybe_rotate,
--     finalize, buffer_pre_roll. Ring, Invariant, Trace, Protocol, Accounting, Timing and WallClock
--     hold what is proved.
--   Jobs: src/jobs/queue.ts over the table `jobs` of src/database/migrations/001_initial.sql and
--     the triggers of 019_telegram_maintenance_job_guard.sql. Each method of JobQueue is the
--     function of its name. Lives is the life of a job that the table refines (Refinement);
--     Choice and Claiming are about the claim, Fencing and Inert about a lease that was lost, Holding
--     about one that is held; the other children hold what else is proved.
--   Notification: escapeHtml and formatNotification of src/telegram/format.ts.
--   Splitting: splitForTelegram, splitOnBoundaries, splitEscapedHtmlOnBoundaries and what they
--     call, of src/telegram/format.ts. The grapheme segmenter is a parameter of which it is only
--     used that the graphemes spell the text. Chunks, Lines, Plain, Escaped and Messages hold what
--     is proved.
--   Transcript: renderTranscriptMessages of src/telegram/format.ts with the labels of
--     src/asr/preferences.ts; toLowerCase is a parameter. It uses Splitting.
--   SummaryPlan: planSummaryChunks of src/llm/summary-plan.ts; SummaryPlan/Source has sourcePieces,
--     boundedEnd and promptUnits. The loop over a piece runs on fuel, the length of the piece, which
--     is enough since each round takes a character off. Points and Halves are about surrogate pairs
--     and UTF-8, Bounds about boundedEnd, Pieces, Labels, Units, Joining and Chunks about the
--     stages, Coverage about the plan.
--   Outbox: class Outbox of src/telegram/outbox.ts over telegram_outbox, with the trigger of
--     src/database/migrations/018_telegram_maintenance_outbox_guard.sql; Message has its event keys,
--     Delay retryDelayMs, Send sendPayload and Drain drainOutbox. The client, the files and the
--     clock of one pass of the loop are a `Turn`; the budget is the number of turns. The triggers of
--     009_incoming_delivery_time.sql write other tables and are left out.
--   FrameBuffer: class CaptureFrameBuffer of src/capture/frame-buffer.ts. The loop of `write` runs
--     on fuel, the length of the carry; each round takes a whole frame off, so it is enough.
--   Alerts: class AlertEvaluator of src/health/alerts.ts, for one alert at a time, and in
--     Alerts/Message renderAlert.
--   Retention: src/retention/policy.ts. Types has the rows and plans, Like the LIKE of SQLite,
--     Columns and Eligible the WHERE clauses, Retention the queries and planRetention, Group the
--     transaction of one group, Apply applyRetention. What other code does between two groups, and
--     what BEGIN, rmSync and COMMIT throw, is a `Turn`; the order of localeCompare is a parameter.
--     Proof says of the rows when a recording may go; Rows, Reading, Proven and Lanes relate the
--     queries to it, Safety and Once the run, Deleted what is planned after a deletion.
--   Worker: class WorkerProcess of src/asr/worker-process.ts, with decodeResponse, encodeRequest
--     and LineSplitter of src/asr/protocol.ts; Worker/Generation has the end of a process, Lines the
--     lines. Every callback of a promise, a timer or the child process is an event, and the events
--     come in any order. Of the wait for a process to end only its end is modelled, `joined`. Counts,
--     Recycling, Steps and Accounting hold what is proved of the requests, Parted and Endings of the
--     end of a process, Places, Joins and Exclusive of its start, Stream of the lines.
--
-- How the code is rendered
--   A method that mutates its object takes it and returns it anew. A clock reading, a UUID and a
--   caller's choice is an argument, so the theorems hold for all of them. Instants and durations
--   are whole milliseconds. An ISO timestamp is its number of milliseconds since 1970: the text has
--   a fixed width, so SQL compares it in the same order. A probability and its threshold are
--   counted on one fixed grid. An error message is the list of its UTF-16 units. A job's payload is
--   what JSON.parse makes of the stored text. Of rows that an ORDER BY leaves equal the first by
--   rowid is taken. A transaction that throws undoes its writes, so an error result carries no
--   table. Loops are structural but for those named above.
--
-- Not modelled
--   Input and output: capture processes, speech and language models, HTTP, files, the command line
--   and the daemon's event loop. Of the job queue, retryDead, deadJobs, oldestPendingAgeMinutes and
--   the timer of withLeaseHeartbeat. A retry of dead jobs (retryDead, prepareIncomingRetry) deletes
--   notices that wait in the outbox, so after one their delivery units may be stored again: what is
--   said of the outbox is said of the methods of class Outbox.
pub mod Prelude
pub mod Sessionizer
pub mod Table
pub mod Jobs
pub mod Notification
pub mod Splitting
pub mod Transcript
pub mod Worker
pub mod SummaryPlan
pub mod Retention
pub mod Outbox
pub mod FrameBuffer
pub mod Alerts
