-- ===== src/FrameBuffer/Tests.antt =====
-- Runs of the capture buffer (src/capture/frame-buffer.ts) with frames of two bytes.
use openmurmur.Prelude.{
  ℕ, ◌≡◌, ◌<◌, refl, none, some, List, [], ◌∷◌, ◌++◌, map, ok, length, if◌then◌else◌,
}
use openmurmur.Prelude.Int.{pos}
use openmurmur.FrameBuffer.{
  CaptureFrameBufferOptions, FrameBuffer, new, empty, close, write, value, at_once, ending, next,
  emit, emit_one, push, check_gap, start_clock,
}
use openmurmur.FrameBuffer.Invariant.{IsValid, handed, held}
use openmurmur.FrameBuffer.Writing.{has_gap, write_conserves_bytes}
use openmurmur.FrameBuffer.Lifecycle.{
  writes, nexts, closes, call, calls, new-calls-IsValid, next_times, closed_buffer_drains,
}

abbrev options : CaptureFrameBufferOptions
options = record { bytes_per_frame = 2; frame_duration_ms = 32; max_buffered_frames = 2 }

abbrev five_bytes : List ℕ
five_bytes = 1 ∷ 2 ∷ 3 ∷ 4 ∷ 5 ∷ []

made : new options ≡ ok (empty options)
unfolding new
made = refl

empty-IsValid : IsValid (empty options)
unfolding calls
empty-IsValid = new-calls-IsValid options (empty options) [] made

new-calls-IsValid_example :
    IsValid
      (calls (empty options) (nexts ∷ writes five_bytes (pos 100) (pos 200) ∷ closes none ∷ []))
new-calls-IsValid_example =
    new-calls-IsValid options (empty options)
      (nexts ∷ writes five_bytes (pos 100) (pos 200) ∷ closes none ∷ []) made

write_conserves_bytes_example :
    let r = write (empty options) five_bytes (pos 100) (pos 200) in
    IsValid r.buffer
    × (handed r.settled ++ held r.buffer ≡ (
        if has_gap (empty options) five_bytes (pos 100)
        then five_bytes
        else held (empty options) ++ five_bytes))
    × (length r.buffer.carry < 2)
unfolding write emit emit_one push check_gap start_clock
write_conserves_bytes_example =
    write_conserves_bytes (empty options) five_bytes (pos 100) (pos 200) empty-IsValid refl refl

abbrev seven_bytes : List ℕ
seven_bytes = 1 ∷ 2 ∷ 3 ∷ 4 ∷ 5 ∷ 6 ∷ 7 ∷ []

abbrev closed_buffer : FrameBuffer
closed_buffer =
    calls (empty options) (writes five_bytes (pos 100) (pos 200) ∷ closes (some "gone") ∷ [])

closed_buffer_drains_example :
    let (b', ps) = next_times (length closed_buffer.frames) closed_buffer in
    (ps ≡ map (λ f. at_once (value f)) closed_buffer.frames)
    × ((next b').1 ≡ at_once (ending closed_buffer.terminal_error))
unfolding calls call close write emit emit_one push check_gap start_clock
closed_buffer_drains_example = closed_buffer_drains closed_buffer refl
