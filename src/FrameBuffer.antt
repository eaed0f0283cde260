-- ===== src/FrameBuffer.antt =====
-- The buffer between the reader of PCM and the recorder (class CaptureFrameBuffer of
-- src/capture/frame-buffer.ts, with CaptureFrame of src/capture/backend.ts). Bytes are a list of
-- numbers. An operation returns the buffer anew, with what it hands to the waiting consumer; a
-- thrown error stands beside the buffer, since what was written before it stays.
pub mod Invariant
pub mod Conservation
pub mod Writing
pub mod Lifecycle
mod Tests
use Prim.Native.String.{String}
use openmurmur.Prelude.{
  ℕ, Result, ok, err, zero, suc, ◌+◌, ◌-◌, ◌*◌, ◌/◌, max, Bool, true, false, ◌&&◌, ◌||◌, Option,
  none, some, List, [], ◌∷◌, ◌++◌, ltb, leb, ◌==◌, negate, if◌then◌else◌, length, take, drop,
}
use openmurmur.Prelude.Int.{ℤ, pos, ◌+ℤ◌, ◌-ℤ◌, ltb_ℤ}

pub record CaptureFrameBufferOptions : Type 0 where
  pub bytes_per_frame : ℕ
  pub frame_duration_ms : ℕ
  pub max_buffered_frames : ℕ

pub record CaptureFrame : Type 0 where
  pub pcm : List ℕ
  pub monotonic_ms : ℤ
  pub wall_ms : ℤ
  pub duration_ms : ℕ
  pub stream_epoch : ℕ
  pub discontinuity_before_ms : Option ℤ

-- `is_waiting`: a consumer waits for the promise of `next`.
pub record FrameBuffer : Type 0 where
  pub options : CaptureFrameBufferOptions
  pub frames : List CaptureFrame
  pub carry : List ℕ
  pub is_waiting : Bool
  pub closed : Bool
  pub terminal_error : Option String
  pub next_monotonic_ms : Option ℤ
  pub next_wall_ms : Option ℤ
  pub epoch : ℕ
  pub pending_discontinuity_ms : Option ℤ
  pub latest_frame_monotonic_ms : Option ℤ

-- How a promise of `next` is settled.
pub data Settled : Type 0 where
  value : CaptureFrame → Settled
  finished : Settled
  rejected : String → Settled

pub data Thrown : Type 0 where
  buffer_closed timestamps_missing : Thrown
  overflow : ℕ → Thrown

pub data InvalidOption : Type 0 where
  bytes_per_frame_not_positive frame_duration_not_positive max_buffered_frames_not_positive :
      InvalidOption

abbrev pub empty : CaptureFrameBufferOptions → FrameBuffer
empty o = record {
  options = o;
  frames = [];
  carry = [];
  is_waiting = false;
  closed = false;
  terminal_error = none;
  next_monotonic_ms = none;
  next_wall_ms = none;
  epoch = 0;
  pending_discontinuity_ms = none;
  latest_frame_monotonic_ms = none;
}

-- `constructor`
unfoldable pub new : CaptureFrameBufferOptions → Result InvalidOption FrameBuffer
new o =
    if o.bytes_per_frame == 0
    then err bytes_per_frame_not_positive
    else if o.frame_duration_ms == 0
    then err frame_duration_not_positive
    else if o.max_buffered_frames == 0
    then err max_buffered_frames_not_positive
    else ok (empty o)

-- What an operation that may throw leaves.
pub record Written : Type 0 where
  pub buffer : FrameBuffer
  pub settled : Option Settled
  pub thrown : Option Thrown

abbrev pub written : FrameBuffer → Written
written b = record { buffer = b; settled = none; thrown = none }

-- `#push`
unfoldable pub push : FrameBuffer → CaptureFrame → Written
push b frame =
    if b.is_waiting
    then record {
      buffer = record b { is_waiting = false };
      settled = some (value frame);
      thrown = none;
    }
    else if leb b.options.max_buffered_frames (length b.frames)
    then record {
      buffer = b;
      settled = none;
      thrown = some (overflow b.options.max_buffered_frames);
    }
    else written (record b { frames = b.frames ++ frame ∷ [] })

-- The first frame of the carry, with the times that are due.
abbrev pub cut : FrameBuffer → ℤ → ℤ → CaptureFrame
cut b monotonic_ms wall_ms = record {
  pcm = take b.options.bytes_per_frame b.carry;
  monotonic_ms = monotonic_ms;
  wall_ms = wall_ms;
  duration_ms = b.options.frame_duration_ms;
  stream_epoch = b.epoch;
  discontinuity_before_ms = b.pending_discontinuity_ms;
}

-- The buffer once that frame is cut off, before it is pushed.
abbrev pub advanced : FrameBuffer → ℤ → ℤ → FrameBuffer
advanced b monotonic_ms wall_ms = record b {
  carry = drop b.options.bytes_per_frame b.carry;
  pending_discontinuity_ms = none;
  next_monotonic_ms = some (monotonic_ms +ℤ pos b.options.frame_duration_ms);
  next_wall_ms = some (wall_ms +ℤ pos b.options.frame_duration_ms);
  latest_frame_monotonic_ms = some monotonic_ms;
}

-- One round of the loop of `write`.
unfoldable pub emit_one : Option ℤ → Option ℤ → FrameBuffer → Written
unfolding push
emit_one (some monotonic_ms) (some wall_ms) b =
    push (advanced b monotonic_ms wall_ms) (cut b monotonic_ms wall_ms)
emit_one _ _ b = record {
  buffer = record b { carry = drop b.options.bytes_per_frame b.carry };
  settled = none;
  thrown = some timestamps_missing;
}

abbrev pub or_settled : Option Settled → Option Settled → Option Settled
or_settled none s = s
or_settled (some s) t = some s

-- The loop goes on unless a round has thrown.
abbrev pub then_emit : Option Thrown → Written → Written → Written
then_emit (some e) now later = now
then_emit none now later = record later { settled = or_settled now.settled later.settled }

-- The `while` loop of `write`, for `fuel` rounds at most.
unfoldable pub emit : ℕ → FrameBuffer → Written
unfolding emit_one
emit zero b = written b
emit (suc fuel) b =
    let now = emit_one b.next_monotonic_ms b.next_wall_ms b in
    let later = emit fuel now.buffer in
    if leb b.options.bytes_per_frame (length b.carry)
    then then_emit now.thrown now later
    else written b

abbrev pub complete_frames : FrameBuffer → ℕ
complete_frames b = length b.carry / b.options.bytes_per_frame

-- How late the chunk is, where times are due: its last whole frame against the clock.
abbrev pub drift : FrameBuffer → ℤ → ℤ → ℤ
drift b monotonic_ms observed_monotonic_ms =
    observed_monotonic_ms
    -ℤ (monotonic_ms +ℤ pos ((complete_frames b - 1) * b.options.frame_duration_ms))

abbrev pub discontinuity_threshold_ms : CaptureFrameBufferOptions → ℕ
discontinuity_threshold_ms o = max 250 (o.frame_duration_ms * 4)

-- A gap in the source: what was read before it is dropped and a new epoch begins.
abbrev pub restarted : FrameBuffer → List ℕ → ℤ → FrameBuffer
restarted b chunk drift_ms = record b {
  frames = [];
  carry = chunk;
  epoch = b.epoch + 1;
  pending_discontinuity_ms = some drift_ms;
  next_monotonic_ms = none;
  next_wall_ms = none;
}

unfoldable pub check_gap : Option ℤ → Option ℤ → FrameBuffer → List ℕ → ℤ → FrameBuffer
check_gap (some monotonic_ms) (some wall_ms) b chunk observed_monotonic_ms =
    let drift_ms = drift b monotonic_ms observed_monotonic_ms in
    if ltb_ℤ (pos (discontinuity_threshold_ms b.options)) drift_ms
    then restarted b chunk drift_ms
    else b
check_gap _ _ b chunk observed_monotonic_ms = b

abbrev pub starts : FrameBuffer → ℤ → ℤ → FrameBuffer
starts b observed_monotonic_ms observed_wall_ms =
    let buffered_duration_ms = (complete_frames b - 1) * b.options.frame_duration_ms in
    if leb b.options.bytes_per_frame (length b.carry)
    then record b {
      next_monotonic_ms = some (observed_monotonic_ms -ℤ pos buffered_duration_ms);
      next_wall_ms = some (observed_wall_ms -ℤ pos buffered_duration_ms);
    }
    else b

-- The times of the first frame of an epoch.
unfoldable pub start_clock : Option ℤ → Option ℤ → FrameBuffer → ℤ → ℤ → FrameBuffer
start_clock none none b observed_monotonic_ms observed_wall_ms =
    starts b observed_monotonic_ms observed_wall_ms
start_clock _ _ b observed_monotonic_ms observed_wall_ms = b

-- The buffer from which the loop of `write` starts, once the chunk makes up a whole frame.
abbrev pub prepared : FrameBuffer → List ℕ → ℤ → ℤ → FrameBuffer
prepared b chunk observed_monotonic_ms observed_wall_ms =
    let checked = check_gap b.next_monotonic_ms b.next_wall_ms b chunk observed_monotonic_ms in
    start_clock checked.next_monotonic_ms checked.next_wall_ms checked observed_monotonic_ms
      observed_wall_ms

abbrev pub with_chunk : FrameBuffer → List ℕ → FrameBuffer
with_chunk b chunk = record b { carry = b.carry ++ chunk }

-- `write`. The loop runs once per frame of the carry, so its length is fuel enough.
unfoldable pub write : FrameBuffer → List ℕ → ℤ → ℤ → Written
unfolding emit check_gap start_clock
write b chunk observed_monotonic_ms observed_wall_ms =
    let joined = with_chunk b chunk in
    let ready = prepared joined chunk observed_monotonic_ms observed_wall_ms in
    if b.closed
    then record { buffer = b; settled = none; thrown = some buffer_closed }
    else if complete_frames joined == 0
    then written joined
    else emit (length ready.carry) ready

unfoldable pub discard_buffered_frames : FrameBuffer → FrameBuffer × ℕ
discard_buffered_frames b = if b.closed then (b, 0) else (
  record b {
    frames = [];
    carry = [];
    next_monotonic_ms = none;
    next_wall_ms = none;
    pending_discontinuity_ms = none;
    latest_frame_monotonic_ms = none;
    epoch = b.epoch + 1;
  },
  length b.frames,
)

-- What settles the promise of a waiting consumer.
abbrev pub wake : Bool → Settled → Option Settled
wake is_waiting s = if is_waiting then some s else none

unfoldable pub abort : FrameBuffer → String → FrameBuffer × Option Settled
abort b error = if b.closed then (b, none) else (
  record b {
    frames = [];
    carry = [];
    closed = true;
    terminal_error = some error;
    is_waiting = false;
  },
  wake b.is_waiting (rejected error),
)

unfoldable pub stop : FrameBuffer → FrameBuffer × Option Settled × ℕ
stop b = if b.closed then (b, none, 0) else (
  record b { frames = []; carry = []; epoch = b.epoch + 1; closed = true; is_waiting = false },
  wake b.is_waiting finished,
  length b.frames,
)

abbrev pub ending : Option String → Settled
ending none = finished
ending (some e) = rejected e

unfoldable pub close : FrameBuffer → Option String → FrameBuffer × Option Settled
close b error = if b.closed then (b, none) else (
  record b { closed = true; terminal_error = error; is_waiting = false },
  wake b.is_waiting (ending error),
)

-- The promise of `next`: settled at once, left to the waiting consumer, or rejected for a second
-- consumer.
pub data Promised : Type 0 where
  at_once : Settled → Promised
  waits : Promised
  one_consumer_only : Promised

-- `next`, from the queue of frames.
unfoldable pub next_of : List CaptureFrame → FrameBuffer → FrameBuffer × Promised
next_of (frame ∷ frames) b = (record b { frames = frames }, at_once (value frame))
next_of [] b =
    if b.closed
    then (b, at_once (ending b.terminal_error))
    else if b.is_waiting
    then (b, one_consumer_only)
    else (record b { is_waiting = true }, waits)

abbrev pub next : FrameBuffer → FrameBuffer × Promised
next b = next_of b.frames b
