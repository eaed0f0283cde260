-- ===== src/FrameBuffer/Lifecycle.antt =====
-- Histories of the capture buffer (src/capture/frame-buffer.ts), and what is read after its end.
use Prim.Native.String.{String}
use openmurmur.Prelude.{
  ℕ, zero, suc, ◌<◌, ◌≡◌, refl, sym, ap, subst, ◌∙◌, true, Option, List, [], ◌∷◌, map, All, ok, inl,
  inr, Bool-cases, arith, length, ◌==◌, if-elim,
}
use openmurmur.Prelude.Int.{ℤ}
use openmurmur.FrameBuffer.{
  CaptureFrameBufferOptions, CaptureFrame, FrameBuffer, Settled, value, Promised, at_once, new,
  empty, write, Written, discard_buffered_frames, abort, stop, close, next, next_of, ending,
}
use openmurmur.FrameBuffer.Invariant.{IsValid}
use openmurmur.FrameBuffer.Writing.{write-Writes}

pub data Call : Type 0 where
  writes : List ℕ → ℤ → ℤ → Call
  discards : Call
  aborts : String → Call
  stops : Call
  closes : Option String → Call
  nexts : Call

-- The buffer after a call, thrown errors included.
unfoldable pub call : FrameBuffer → Call → FrameBuffer
call b (writes chunk observed_ms wall_ms) = (write b chunk observed_ms wall_ms).buffer
call b discards = (discard_buffered_frames b).0
call b (aborts e) = (abort b e).0
call b stops = (stop b).0
call b (closes e) = (close b e).0
call b nexts = (next b).0

unfoldable pub calls : FrameBuffer → List Call → FrameBuffer
calls b [] = b
calls b (c ∷ cs) = calls (call b c) cs

write-IsValid :
    (b : FrameBuffer) (chunk : List ℕ) (observed_ms wall_ms : ℤ)
    → IsValid b
    → IsValid (write b chunk observed_ms wall_ms).buffer
unfolding write
write-IsValid b chunk observed_ms wall_ms v = elim (Bool-cases b.closed) [
  | inr e ↦ (write-Writes b chunk observed_ms wall_ms v e).valid
  | inl e ↦ subst IsValid (sym (closed_write e)) v
]
  where
    closed_write : b.closed ≡ true → (write b chunk observed_ms wall_ms).buffer ≡ b
    closed_write e =
        if-elim (λ (r : Written). r.buffer ≡ b) b.closed _ _ (λ c. refl) (λ c. absurd (cc (c, e)))

next_of-IsValid :
    (fs : List CaptureFrame) (b : FrameBuffer)
    → b.frames ≡ fs
    → IsValid b
    → IsValid (next_of fs b).0
unfolding next_of
next_of-IsValid (f ∷ fs) b e v =
    let cut_off : length b.frames ≡ suc (length fs) = ap length e in
    record {
      frames_have_bytes = v.frames_have_bytes;
      bounded = omega (arith, cut_off, v.bounded);
      whole = (subst (All _) e v.whole).1;
      no_frame_waits = λ q. absurd (ground (arith, v.no_frame_waits q));
      wakes = v.wakes;
      clocks = v.clocks;
    }
next_of-IsValid [] b e v =
    if-elim (λ (r : FrameBuffer × Promised). IsValid r.0) b.closed _ _ (λ c. v)
      (λ c.
        if-elim (λ (r : FrameBuffer × Promised). IsValid r.0) b.is_waiting _ _ (λ w. v)
          (λ w. record {
            frames_have_bytes = v.frames_have_bytes;
            bounded = v.bounded;
            whole = v.whole;
            no_frame_waits = λ q. e;
            wakes = λ q. absurd (cc (q, c));
            clocks = v.clocks;
          }))

call-IsValid : (b : FrameBuffer) (c : Call) → IsValid b → IsValid (call b c)
unfolding call discard_buffered_frames abort stop close
call-IsValid b (writes chunk observed_ms wall_ms) v = write-IsValid b chunk observed_ms wall_ms v
call-IsValid b discards v =
    if-elim (λ (r : FrameBuffer × ℕ). IsValid r.0) b.closed _ _ (λ c. v)
      (λ c. record {
        frames_have_bytes = v.frames_have_bytes;
        bounded = omega arith;
        whole = tt;
        no_frame_waits = λ q. refl;
        wakes = v.wakes;
        clocks = refl;
      })
call-IsValid b (aborts e) v =
    if-elim (λ (r : FrameBuffer × Option Settled). IsValid r.0) b.closed _ _ (λ c. v)
      (λ c. record {
        frames_have_bytes = v.frames_have_bytes;
        bounded = omega arith;
        whole = tt;
        no_frame_waits = λ q. refl;
        wakes = λ q. refl;
        clocks = v.clocks;
      })
call-IsValid b stops v =
    if-elim (λ (r : FrameBuffer × Option Settled × ℕ). IsValid r.0) b.closed _ _ (λ c. v)
      (λ c. record {
        frames_have_bytes = v.frames_have_bytes;
        bounded = omega arith;
        whole = tt;
        no_frame_waits = λ q. refl;
        wakes = λ q. refl;
        clocks = v.clocks;
      })
call-IsValid b (closes e) v =
    if-elim (λ (r : FrameBuffer × Option Settled). IsValid r.0) b.closed _ _ (λ c. v)
      (λ c. record {
        frames_have_bytes = v.frames_have_bytes;
        bounded = v.bounded;
        whole = v.whole;
        no_frame_waits = λ q. absurd (ground arith);
        wakes = λ q. refl;
        clocks = v.clocks;
      })
call-IsValid b nexts v = next_of-IsValid b.frames b refl v

empty-IsValid : (o : CaptureFrameBufferOptions) → 0 < o.bytes_per_frame → IsValid (empty o)
empty-IsValid o h = record {
  frames_have_bytes = h;
  bounded = omega arith;
  whole = tt;
  no_frame_waits = λ q. refl;
  wakes = λ q. refl;
  clocks = refl;
}

new-IsValid : (o : CaptureFrameBufferOptions) (b : FrameBuffer) → new o ≡ ok b → IsValid b
unfolding new
new-IsValid o b e = elim (Bool-cases (o.bytes_per_frame == 0)) [
  | inl z ↦ absurd (ground arith)
  | inr z ↦
      let same : empty o ≡ b = ground arith in subst IsValid same (empty-IsValid o (ground arith))
]

calls-IsValid : (b : FrameBuffer) (cs : List Call) → IsValid b → IsValid (calls b cs)
unfolding calls
calls-IsValid b [] v = v
calls-IsValid b (c ∷ cs) v = calls-IsValid (call b c) cs (call-IsValid b c v)

-- A buffer that the constructor accepts is valid after every history of calls, those that throw
-- included: it never holds more frames than its limit, each frame has the fixed number of bytes, and
-- while a consumer waits no frame is queued and the buffer is not closed.
pub new-calls-IsValid :
    (o : CaptureFrameBufferOptions) (b : FrameBuffer) (cs : List Call)
    → new o ≡ ok b
    → IsValid (calls b cs)
new-calls-IsValid o b cs e = calls-IsValid b cs (new-IsValid o b e)

-- The results of so many calls of `next`, one after the other.
unfoldable pub next_times : ℕ → FrameBuffer → FrameBuffer × List Promised
next_times zero b = (b, [])
next_times (suc n) b = let (b', p) = next b in let (b'', ps) = next_times n b' in (b'', p ∷ ps)

drains :
    (fs : List CaptureFrame) (b : FrameBuffer)
    → b.frames ≡ fs
    → b.closed ≡ true
    → let (b', ps) = next_times (length fs) b in
      (ps ≡ map (λ f. at_once (value f)) fs) × ((next b').1 ≡ at_once (ending b.terminal_error))
unfolding next_times next_of
drains [] b e c = (
  refl,
  ap (λ gs. (next_of gs b).1) e
      ∙ if-elim (λ (r : FrameBuffer × Promised). r.1 ≡ at_once (ending b.terminal_error)) b.closed _
          _ (λ q. refl) (λ q. absurd (cc (q, c))),
)
drains (f ∷ fs) b e c =
    let (here, later) = drains fs (record b { frames = fs }) refl c in
    subst
      (λ (r : FrameBuffer × Promised).
        (r.1 ∷ (next_times (length fs) r.0).1 ≡ at_once (value f) ∷ map (λ f. at_once (value f)) fs)
        × ((next (next_times (length fs) r.0).0).1 ≡ at_once (ending b.terminal_error)))
      (sym (ap (λ gs. next_of gs b) e)) (ap (λ ps. at_once (value f) ∷ ps) here, later)

-- The consumer of a closed buffer is given at once each frame that was queued, in order, and then the
-- end, which is the error if the capture ended with one. It never waits.
pub closed_buffer_drains :
    (b : FrameBuffer)
    → b.closed ≡ true
    → let (b', ps) = next_times (length b.frames) b in
      (ps ≡ map (λ f. at_once (value f)) b.frames)
      × ((next b').1 ≡ at_once (ending b.terminal_error))
closed_buffer_drains b c = drains b.frames b refl c
