-- ===== src/FrameBuffer/Invariant.antt =====
-- What holds of the capture buffer (src/capture/frame-buffer.ts) between two calls, and what one
-- round of the loop of `write` does.
use mathlib.Core.List.{append_assoc, append-nil}
use openmurmur.Prelude.{
  ℕ, zero, suc, ◌+◌, ◌≤◌, ◌<◌, ◌≡◌, refl, sym, ap, subst, ◌∙◌, true, false, Option, none, some,
  List, [], ◌∷◌, ◌++◌, All, arith, length, length-append, take, drop, leb, is_some, if-elim,
}
use openmurmur.Prelude.Int.{ℤ}
use openmurmur.Table.Laws.{append-All}
use openmurmur.FrameBuffer.{
  CaptureFrame, FrameBuffer, Settled, value, finished, rejected, Thrown, overflow, Written, written,
  push, cut, advanced,
}

pub record IsValid (b : FrameBuffer) : Type 0 where
  pub frames_have_bytes : 0 < b.options.bytes_per_frame
  pub bounded : length b.frames ≤ b.options.max_buffered_frames
  pub whole : All (λ f. length f.pcm ≡ b.options.bytes_per_frame) b.frames
  pub no_frame_waits : b.is_waiting ≡ true → b.frames ≡ []
  pub wakes : b.closed ≡ true → b.is_waiting ≡ false
  pub clocks : is_some b.next_monotonic_ms ≡ is_some b.next_wall_ms

-- The bytes of a list of frames.
unfoldable pub queued : List CaptureFrame → List ℕ
queued [] = []
queued (f ∷ fs) = f.pcm ++ queued fs

queued-append :
    (fs : List CaptureFrame) (f : CaptureFrame) → queued (fs ++ f ∷ []) ≡ queued fs ++ f.pcm
unfolding queued
queued-append [] f = append-nil f.pcm
queued-append (g ∷ fs) f =
    ap (λ q. g.pcm ++ q) (queued-append fs f) ∙ sym (append_assoc g.pcm (queued fs) f.pcm)

take-append_drop : (n : ℕ) (xs : List ℕ) → take n xs ++ drop n xs ≡ xs
take-append_drop zero xs = refl
take-append_drop (suc n) [] = refl
take-append_drop (suc n) (x ∷ xs) = ap (λ ys. x ∷ ys) (take-append_drop n xs)

pub length-take-drop :
    (n : ℕ) (xs : List ℕ)
    → n ≤ length xs
    → (length (take n xs) ≡ n) × (length (drop n xs) + n ≡ length xs)
length-take-drop zero xs h = (refl, omega arith)
length-take-drop (suc n) [] h = absurd (omega (arith, h))
length-take-drop (suc n) (x ∷ xs) h =
    let (t, d) = length-take-drop n xs (omega (arith, h)) in (ap suc t, omega (arith, d))

-- The bytes handed to the consumer.
abbrev pub handed : Option Settled → List ℕ
handed none = []
handed (some (value f)) = f.pcm
handed (some finished) = []
handed (some (rejected e)) = []

-- The bytes that the buffer still holds.
abbrev pub held : FrameBuffer → List ℕ
held b = queued b.frames ++ b.carry

-- What a round, and the whole loop, leaves of a buffer.
pub record Emitted (b : FrameBuffer) (r : Written) : Type 0 where
  pub valid : IsValid r.buffer
  pub same_options : r.buffer.options ≡ b.options
  pub quiet : b.is_waiting ≡ false → r.settled ≡ none
  pub stays : b.is_waiting ≡ false → r.buffer.is_waiting ≡ false
  pub woken : (s : Settled) → r.settled ≡ some s → r.buffer.is_waiting ≡ false
  pub kept : r.thrown ≡ none → handed r.settled ++ held r.buffer ≡ held b
  pub overflows : (e : Thrown) → r.thrown ≡ some e → e ≡ overflow b.options.max_buffered_frames
  pub timed : is_some r.buffer.next_monotonic_ms ≡ is_some b.next_monotonic_ms
  pub timed_wall : is_some r.buffer.next_wall_ms ≡ is_some b.next_wall_ms

pub written-Emitted : (b : FrameBuffer) → IsValid b → Emitted b (written b)
written-Emitted b v = record {
  valid = v;
  same_options = refl;
  quiet = λ w. refl;
  stays = λ w. w;
  woken = λ s e. absurd (ground arith);
  kept = λ t. refl;
  overflows = λ e t. absurd (ground arith);
  timed = refl;
  timed_wall = refl;
}

module _ (b : FrameBuffer) (m w : ℤ) (v : IsValid b)
    (full : b.options.bytes_per_frame ≤ length b.carry) where
  cut_whole : length (cut b m w).pcm ≡ b.options.bytes_per_frame
  cut_whole = (length-take-drop b.options.bytes_per_frame b.carry full).0

  round_held :
      (fs : List CaptureFrame)
      → queued (fs ++ cut b m w ∷ []) ++ (advanced b m w).carry ≡ queued fs ++ b.carry
  round_held fs =
      ap (λ q. q ++ (advanced b m w).carry) (queued-append fs (cut b m w))
      ∙ append_assoc (queued fs) (cut b m w).pcm (advanced b m w).carry
      ∙ ap (λ q. queued fs ++ q) (take-append_drop b.options.bytes_per_frame b.carry)

  -- The round of a consumer that waits: the frame is handed to it.
  hands-Emitted :
      b.next_monotonic_ms ≡ some m
      → b.next_wall_ms ≡ some w
      → b.is_waiting ≡ true
      → Emitted b (record {
        buffer = record (advanced b m w) { is_waiting = false };
        settled = some (value (cut b m w));
        thrown = none;
      })
  unfolding queued
  hands-Emitted hm hw t =
      let e = v.no_frame_waits t in
      record {
        valid = record {
          frames_have_bytes = v.frames_have_bytes;
          bounded = v.bounded;
          whole = v.whole;
          no_frame_waits = λ q. absurd (ground arith);
          wakes = λ c. refl;
          clocks = refl;
        };
        same_options = refl;
        quiet = λ q. absurd (ground arith);
        stays = λ q. refl;
        woken = λ s q. refl;
        kept = λ q.
            subst
              (λ fs.
                (cut b m w).pcm ++ (queued fs ++ (advanced b m w).carry) ≡ queued fs ++ b.carry)
              (sym e) (take-append_drop b.options.bytes_per_frame b.carry);
        overflows = λ x q. absurd (ground arith);
        timed = ap is_some (sym hm);
        timed_wall = ap is_some (sym hw);
      }

  -- The round that finds the queue full.
  full-Emitted :
      b.next_monotonic_ms ≡ some m
      → b.next_wall_ms ≡ some w
      → Emitted b (record {
        buffer = advanced b m w;
        settled = none;
        thrown = some (overflow b.options.max_buffered_frames);
      })
  full-Emitted hm hw = record {
    valid = record {
      frames_have_bytes = v.frames_have_bytes;
      bounded = v.bounded;
      whole = v.whole;
      no_frame_waits = v.no_frame_waits;
      wakes = v.wakes;
      clocks = refl;
    };
    same_options = refl;
    quiet = λ q. refl;
    stays = λ q. q;
    woken = λ s q. absurd (ground arith);
    kept = λ q. absurd (ground arith);
    overflows = λ x q. ground arith;
    timed = ap is_some (sym hm);
    timed_wall = ap is_some (sym hw);
  }

  -- The round that queues the frame.
  queues-Emitted :
      b.next_monotonic_ms ≡ some m
      → b.next_wall_ms ≡ some w
      → b.is_waiting ≡ false
      → leb b.options.max_buffered_frames (length b.frames) ≡ false
      → Emitted b (written (record (advanced b m w) { frames = b.frames ++ cut b m w ∷ [] }))
  queues-Emitted hm hw f room = record {
    valid = record {
      frames_have_bytes = v.frames_have_bytes;
      bounded = ground (arith, length-append b.frames (cut b m w ∷ []));
      whole = append-All _ b.frames (cut b m w ∷ []) v.whole (cut_whole, tt);
      no_frame_waits = λ q. absurd (ground arith);
      wakes = v.wakes;
      clocks = refl;
    };
    same_options = refl;
    quiet = λ q. refl;
    stays = λ q. q;
    woken = λ s q. absurd (ground arith);
    kept = λ q. round_held b.frames;
    overflows = λ x q. absurd (ground arith);
    timed = ap is_some (sym hm);
    timed_wall = ap is_some (sym hw);
  }

  pub round-Emitted :
      b.next_monotonic_ms ≡ some m
      → b.next_wall_ms ≡ some w
      → Emitted b (push (advanced b m w) (cut b m w))
  unfolding push
  round-Emitted hm hw =
      if-elim (Emitted b) b.is_waiting _ _ (λ t. hands-Emitted hm hw t)
        (λ f.
          if-elim (Emitted b) (leb b.options.max_buffered_frames (length b.frames)) _ _
            (λ o. full-Emitted hm hw) (λ o. queues-Emitted hm hw f o))

  pub round_carry :
      (push (advanced b m w) (cut b m w)).buffer.carry ≡ drop b.options.bytes_per_frame b.carry
  unfolding push
  round_carry =
      if-elim (λ (r : Written). r.buffer.carry ≡ drop b.options.bytes_per_frame b.carry)
        b.is_waiting _ _ (λ t. refl)
        (λ f.
          if-elim (λ (r : Written). r.buffer.carry ≡ drop b.options.bytes_per_frame b.carry)
            (leb b.options.max_buffered_frames (length b.frames)) _ _ (λ o. refl) (λ o. refl))
