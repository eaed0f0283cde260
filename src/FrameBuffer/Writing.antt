-- ===== src/FrameBuffer/Writing.antt =====
-- What one call of `write` of src/capture/frame-buffer.ts does with the bytes of its chunk.
use native.Mathlib.Nat.{div-add-mod, mod-lt}
use mathlib.Core.List.{append_assoc}
use openmurmur.Prelude.{
  ℕ, zero, suc, ◌+◌, ◌*◌, ◌/◌, ◌%◌, ◌<◌, ◌≡◌, refl, sym, ap, subst, ◌∙◌, Bool, true, false, ◌&&◌,
  Option, none, some, List, ◌++◌, inl, inr, Bool-cases, arith, length, leb, is_some, if◌then◌else◌,
  ◌==◌, if-elim, negate,
}
use openmurmur.Prelude.Int.{ℤ, ltb_ℤ, pos}
use openmurmur.FrameBuffer.{
  FrameBuffer, Thrown, overflow, Written, written, emit, write, with_chunk, prepared,
  complete_frames, check_gap, start_clock, drift, discontinuity_threshold_ms,
}
use openmurmur.FrameBuffer.Invariant.{IsValid, handed, held, queued}
use openmurmur.FrameBuffer.Conservation.{IsTimed, emit-Emitted}

-- The chunk comes too late for the times that are due.
abbrev pub is_late : Option ℤ → Option ℤ → FrameBuffer → ℤ → Bool
is_late (some m) (some w) b observed_ms =
    ltb_ℤ (pos (discontinuity_threshold_ms b.options)) (drift b m observed_ms)
is_late _ _ b observed_ms = false

-- The chunk completes a frame and is late.
abbrev pub has_gap : FrameBuffer → List ℕ → ℤ → Bool
has_gap b chunk observed_ms =
    let joined = with_chunk b chunk in
    negate (complete_frames joined == 0)
    && is_late b.next_monotonic_ms b.next_wall_ms joined observed_ms

-- A step before the loop keeps the invariant and the options, and holds these bytes.
record Keeps (b : FrameBuffer) (bytes : List ℕ) (c : FrameBuffer) : Type 0 where
  valid : IsValid c
  same_options : c.options ≡ b.options
  holds : held c ≡ bytes

check_gap-Keeps :
    (m w : Option ℤ) (b : FrameBuffer) (chunk : List ℕ) (observed_ms : ℤ)
    → IsValid b
    → Keeps b
        (if is_late m w b observed_ms then chunk else held b)
        (check_gap m w b chunk observed_ms)
unfolding check_gap queued
check_gap-Keeps (some m) (some w) b chunk observed_ms v =
    elim (Bool-cases (is_late (some m) (some w) b observed_ms)) [
      | inl e ↦ rw e (record {
        valid = record {
          frames_have_bytes = v.frames_have_bytes;
          bounded = omega arith;
          whole = tt;
          no_frame_waits = λ q. refl;
          wakes = v.wakes;
          clocks = refl;
        };
        same_options = refl;
        holds = refl;
      })
      | inr e ↦ rw e (record { valid = v; same_options = refl; holds = refl })
    ]
check_gap-Keeps (some m) none b chunk observed_ms v = record {
  valid = v;
  same_options = refl;
  holds = refl;
}
check_gap-Keeps none w b chunk observed_ms v = record {
  valid = v;
  same_options = refl;
  holds = refl;
}

-- Setting the times for the first frame of an epoch; what it gives is timed if it has a whole frame.
start_clock-Keeps :
    (m w : Option ℤ) (b : FrameBuffer) (observed_ms wall_ms : ℤ)
    → b.next_monotonic_ms ≡ m
    → b.next_wall_ms ≡ w
    → IsValid b
    → let c = start_clock m w b observed_ms wall_ms in
      Keeps b (held b) c × (leb c.options.bytes_per_frame (length c.carry) ≡ true → IsTimed c)
unfolding start_clock
start_clock-Keeps none none b observed_ms wall_ms hm hw v =
    if-elim
      (λ (c : FrameBuffer).
        Keeps b (held b) c × (leb c.options.bytes_per_frame (length c.carry) ≡ true → IsTimed c))
      (leb b.options.bytes_per_frame (length b.carry)) _ _
      (λ e. (
        record {
          valid = record {
            frames_have_bytes = v.frames_have_bytes;
            bounded = v.bounded;
            whole = v.whole;
            no_frame_waits = v.no_frame_waits;
            wakes = v.wakes;
            clocks = refl;
          };
          same_options = refl;
          holds = refl;
        },
        λ f. (refl, refl),
      ))
      (λ e. (record { valid = v; same_options = refl; holds = refl }, λ f. absurd (ground arith)))
start_clock-Keeps (some m) (some w) b observed_ms wall_ms hm hw v =
    (record { valid = v; same_options = refl; holds = refl }, λ f. (ap is_some hm, ap is_some hw))
start_clock-Keeps (some m) none b observed_ms wall_ms hm hw v = absurd (ground (arith, v.clocks))
start_clock-Keeps none (some w) b observed_ms wall_ms hm hw v = absurd (ground (arith, v.clocks))

emit_short :
    (fuel : ℕ) (b : FrameBuffer)
    → leb b.options.bytes_per_frame (length b.carry) ≡ false
    → emit fuel b ≡ written b
unfolding emit
emit_short zero b e = refl
emit_short (suc fuel) b e =
    if-elim (λ r. r ≡ written b) (leb b.options.bytes_per_frame (length b.carry)) _ _
      (λ c. absurd (ground arith)) (λ c. refl)

-- What a call of `write` on an open buffer leaves: a valid buffer, which holds with what it handed
-- over these bytes and no whole frame, unless the queue was full.
pub record Writes (b : FrameBuffer) (bytes : List ℕ) (r : Written) : Type 0 where
  pub valid : IsValid r.buffer
  pub same_options : r.buffer.options ≡ b.options
  pub conserves : r.thrown ≡ none → handed r.settled ++ held r.buffer ≡ bytes
  pub short : r.thrown ≡ none → length r.buffer.carry < b.options.bytes_per_frame
  pub overflows : (e : Thrown) → r.thrown ≡ some e → e ≡ overflow b.options.max_buffered_frames

loop-Writes :
    (b c : FrameBuffer) (bytes : List ℕ)
    → Keeps b bytes c
    → (leb c.options.bytes_per_frame (length c.carry) ≡ true → IsTimed c)
    → Writes b bytes (emit (length c.carry) c)
loop-Writes b c bytes k timed = elim (Bool-cases (leb c.options.bytes_per_frame (length c.carry))) [
  | inr e ↦ subst (Writes b bytes) (sym (emit_short (length c.carry) c e)) (record {
    valid = k.valid;
    same_options = k.same_options;
    conserves = λ t. k.holds;
    short = λ t. subst (λ o. length c.carry < o.bytes_per_frame) k.same_options (ground arith);
    overflows = λ x t. absurd (ground arith);
  })
  | inl e ↦
      let (p, s) = emit-Emitted (length c.carry) c k.valid (timed e) (omega arith) in
      record {
        valid = p.valid;
        same_options = p.same_options ∙ k.same_options;
        conserves = λ t. p.kept t ∙ k.holds;
        short = λ t.
            subst (λ o. length (emit (length c.carry) c).buffer.carry < o.bytes_per_frame)
              k.same_options (s t);
        overflows =
            λ x t. p.overflows x t ∙ ap (λ o. overflow o.max_buffered_frames) k.same_options;
      }
]

with_chunk-IsValid : (b : FrameBuffer) (chunk : List ℕ) → IsValid b → IsValid (with_chunk b chunk)
with_chunk-IsValid b chunk v = record {
  frames_have_bytes = v.frames_have_bytes;
  bounded = v.bounded;
  whole = v.whole;
  no_frame_waits = v.no_frame_waits;
  wakes = v.wakes;
  clocks = v.clocks;
}

no_frame_short : (n m : ℕ) → 0 < m → (n / m == 0) ≡ true → n < m
no_frame_short n m h e =
    let whole : n / m ≡ 0 = ground arith in
    let parts : m * (n / m) + n % m ≡ n = div-add-mod n m in
    let small : n % m < m = mod-lt n h in omega (arith, rw whole at parts, small)

-- `write` on an open buffer.
pub write-Writes :
    (b : FrameBuffer) (chunk : List ℕ) (observed_ms wall_ms : ℤ)
    → IsValid b
    → b.closed ≡ false
    → Writes b
        (if has_gap b chunk observed_ms then chunk else held b ++ chunk)
        (write b chunk observed_ms wall_ms)
unfolding write
write-Writes b chunk observed_ms wall_ms v open_now =
    let joined = with_chunk b chunk in
    let late = is_late b.next_monotonic_ms b.next_wall_ms joined observed_ms in
    let none_whole = complete_frames joined == 0 in
    let bytes_if = λ (z : Bool). if negate z && late then chunk else held b ++ chunk in
    let joined_bytes : held joined ≡ held b ++ chunk =
      sym (append_assoc (queued b.frames) b.carry chunk) in
    let valid = with_chunk-IsValid b chunk v in
    if-elim (Writes b (bytes_if none_whole)) b.closed _ _ (λ c. absurd (cc (c, open_now)))
      (λ c.
        if-elim (Writes b (bytes_if none_whole)) none_whole _ _
          (λ z. record {
            valid = valid;
            same_options = refl;
            conserves = λ t. joined_bytes ∙ sym (ap bytes_if z);
            short = λ t.
                no_frame_short (length joined.carry) b.options.bytes_per_frame v.frames_have_bytes
                  z;
            overflows = λ x t. absurd (ground arith);
          })
          (λ z.
            let k₁ =
              check_gap-Keeps b.next_monotonic_ms b.next_wall_ms joined chunk observed_ms valid in
            let checked = check_gap b.next_monotonic_ms b.next_wall_ms joined chunk observed_ms in
            let (k₂, timed) =
              start_clock-Keeps checked.next_monotonic_ms checked.next_wall_ms checked observed_ms
                wall_ms refl refl k₁.valid in
            loop-Writes b (prepared joined chunk observed_ms wall_ms) (bytes_if none_whole)
              (record {
                valid = k₂.valid;
                same_options = k₂.same_options ∙ k₁.same_options;
                holds =
                    k₂.holds
                    ∙ k₁.holds
                    ∙ ap (λ h. if late then chunk else h) joined_bytes
                    ∙ sym (ap bytes_if z);
              })
              timed))

-- A chunk written to an open buffer without an error keeps the buffer valid. Where the chunk does not
-- complete a frame or comes in time, what is handed to the consumer, what is queued and what is
-- carried over are together, byte for byte, what the buffer held before and then the chunk; after a
-- gap in the source they are the chunk alone. Less than a frame is carried over.
pub write_conserves_bytes :
    (b : FrameBuffer) (chunk : List ℕ) (observed_ms wall_ms : ℤ)
    → IsValid b
    → b.closed ≡ false
    → (write b chunk observed_ms wall_ms).thrown ≡ none
    → let r = write b chunk observed_ms wall_ms in
      IsValid r.buffer
      × (handed r.settled ++ held r.buffer
          ≡ (if has_gap b chunk observed_ms then chunk else held b ++ chunk))
      × (length r.buffer.carry < b.options.bytes_per_frame)
write_conserves_bytes b chunk observed_ms wall_ms v open_now t =
    let w = write-Writes b chunk observed_ms wall_ms v open_now in
    (w.valid, w.conserves t, w.short t)

-- The only error that `write` throws on an open buffer is that its queue is full; the times of a
-- frame are never missing. The buffer is valid after the error too.
pub write_throws_overflow :
    (b : FrameBuffer) (chunk : List ℕ) (observed_ms wall_ms : ℤ) (e : Thrown)
    → IsValid b
    → b.closed ≡ false
    → (write b chunk observed_ms wall_ms).thrown ≡ some e
    → (e ≡ overflow b.options.max_buffered_frames)
      × IsValid (write b chunk observed_ms wall_ms).buffer
write_throws_overflow b chunk observed_ms wall_ms e v open_now t =
    let w = write-Writes b chunk observed_ms wall_ms v open_now in (w.overflows e t, w.valid)
