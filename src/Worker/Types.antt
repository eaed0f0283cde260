-- ===== src/Worker/Types.antt =====
-- The state of a Python worker process (src/asr/worker-process.ts, src/asr/protocol.ts). A generation
-- is one child process; the code's objects are rows that their number names.
use Prim.Native.String.{String}
use openmurmur.Prelude.{ℕ, Bool, Option, List}

pub data WorkerExitReason : Type 0 where
  closed idle unexpected : WorkerExitReason

-- A response as far as the owner reads it. `shutdown`: `ok` with the operation `shutdown`.
pub record WorkerResponse : Type 0 where
  pub id : String
  pub ok : Bool
  pub shutdown : Bool

-- What JSON.parse makes of a line: nothing, no object, or an object with its `id` if that is a text,
-- its `ok` if that is a Boolean, and whether its `op` is `shutdown`.
pub data Parsed : Type 0 where
  not_json not_object : Parsed
  object : Option String → Option Bool → Bool → Parsed

pub data ProtocolError : Type 0 where
  non_json no_object no_id_or_ok : ProtocolError

-- The errors that a request is rejected with.
pub data Failure : Type 0 where
  worker_closed not_running timed_out write_failed exited start_error retired : Failure
  already_pending : String → Failure

-- The ticket is the number of the request among those accepted.
pub record Pending : Type 0 where
  pub id : String
  pub generation : ℕ
  pub ticket : ℕ

-- `answered`: by a line of the process of a generation.
pub data Outcome : Type 0 where
  answered : ℕ → WorkerResponse → Outcome
  failed : Failure → Outcome

-- A request whose promise is resolved or rejected.
pub record Settled : Type 0 where
  pub request : Pending
  pub outcome : Outcome

pub record WorkerGeneration : Type 0 where
  pub number : ℕ
  pub did_exit : Bool
  pub exit_notified : Bool
  pub exit_reason : Option WorkerExitReason
  pub idle_timer : Bool

-- `idle_timeout_ms`: none if undefined or not finite. `starting`: the generation of `#startPromise`.
-- `tickets`, `settled`, `notified` and `abandoned` record what was accepted, what was settled, what
-- `onExit` was called with, and the processes that outlived the wait after SIGKILL.
pub record Worker : Type 0 where
  pub idle_timeout_ms : Option ℕ
  pub generations : List WorkerGeneration
  pub child : Option ℕ
  pub starting : Option ℕ
  pub pending : List Pending
  pub stopping : List ℕ
  pub next_generation : ℕ
  pub is_closed : Bool
  pub tickets : ℕ
  pub settled : List Settled
  pub notified : List (ℕ × WorkerExitReason)
  pub abandoned : List ℕ

pub data StartResult : Type 0 where
  refused : Failure → StartResult
  running is_starting waits started : StartResult

-- What happens to a worker, in any order. `spawns`: spawn does not throw. `line`: a line of the
-- standard output of a generation, as parsed. `joined`: the process was joined or given up.
pub data Event : Type 0 where
  ensure : Bool → Event
  start_settled fails exits idle_fires joined closing_stop : ℕ → Event
  sends : String → Event
  line : ℕ → Parsed → Event
  times_out write_fails : String → ℕ → Event
  close_begins close_ends : Event
  closing_shutdown : String → Event
