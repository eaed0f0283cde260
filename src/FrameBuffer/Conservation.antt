-- ===== src/FrameBuffer/Conservation.antt =====
-- The loop of `write` in src/capture/frame-buffer.ts: it ends, cuts every whole frame off, and
-- neither drops nor invents a byte.
use openmurmur.Prelude.{
  ℕ, zero, suc, ◌+◌, ◌≤◌, ◌<◌, ◌≡◌, refl, sym, ap, subst, ◌∙◌, true, Option, none, some, List, ◌++◌,
  inl, inr, Option-cases, arith, length, leb, is_some, leb→le, if-elim, ◌⊎◌,
}
use openmurmur.Prelude.Int.{ℤ}
use openmurmur.FrameBuffer.{
  FrameBuffer, Settled, Thrown, overflow, Written, push, emit_one, emit, then_emit, or_settled, cut,
  advanced,
}
use openmurmur.FrameBuffer.Invariant.{
  IsValid, Emitted, written-Emitted, round-Emitted, round_carry, handed, held, length-take-drop,
}

no_frame_yet : (a b : Option Settled) → a ≡ none → or_settled a b ≡ b
no_frame_yet none b e = refl
no_frame_yet (some s) b e = absurd (ground arith)

handed_once :
    (a b : Option Settled) (xs ys zs : List ℕ)
    → ((s : Settled) → a ≡ some s → b ≡ none)
    → handed b ++ xs ≡ ys
    → handed a ++ ys ≡ zs
    → handed (or_settled a b) ++ xs ≡ zs
handed_once none b xs ys zs once h k = h ∙ k
handed_once (some s) b xs ys zs once h k =
    let e : xs ≡ ys = subst (λ c. handed c ++ xs ≡ ys) (once s refl) h in
    ap (λ q. handed (some s) ++ q) e ∙ k

settled_by :
    (a b : Option Settled) (s : Settled) → or_settled a b ≡ some s → (a ≡ some s) ⊎ (b ≡ some s)
settled_by none b s e = inr e
settled_by (some t) b s e = inl e

module _ (b : FrameBuffer) (now later : Written) (p : Emitted b now)
    (q : Emitted now.buffer later) where
  then-Emitted_from : (e : Option Thrown) → now.thrown ≡ e → Emitted b (then_emit e now later)
  then-Emitted_from (some x) h = p
  then-Emitted_from none h = record {
    valid = q.valid;
    same_options = q.same_options ∙ p.same_options;
    quiet = λ w. no_frame_yet now.settled later.settled (p.quiet w) ∙ q.quiet (p.stays w);
    stays = λ w. q.stays (p.stays w);
    woken = λ s e. elim (settled_by now.settled later.settled s e) [
      | inl a ↦ q.stays (p.woken s a)
      | inr c ↦ q.woken s c
    ];
    kept = λ t.
        handed_once now.settled later.settled (held later.buffer) (held now.buffer) (held b)
          (λ s a. q.quiet (p.woken s a)) (q.kept t) (p.kept h);
    overflows = λ x t. q.overflows x t ∙ ap (λ o. overflow o.max_buffered_frames) p.same_options;
    timed = q.timed ∙ p.timed;
    timed_wall = q.timed_wall ∙ p.timed_wall;
  }

-- Times are due.
abbrev pub IsTimed : FrameBuffer → Type 0
IsTimed b = (is_some b.next_monotonic_ms ≡ true) × (is_some b.next_wall_ms ≡ true)

-- Every whole frame is cut off, unless a round has thrown.
abbrev pub IsShort : FrameBuffer → Written → Type 0
IsShort b r = r.thrown ≡ none → length r.buffer.carry < b.options.bytes_per_frame

emit_one_times :
    (b : FrameBuffer) (m w : ℤ)
    → b.next_monotonic_ms ≡ some m
    → b.next_wall_ms ≡ some w
    → emit_one b.next_monotonic_ms b.next_wall_ms b ≡ push (advanced b m w) (cut b m w)
unfolding emit_one
emit_one_times b m w hm hw =
    ap (λ x. emit_one x b.next_wall_ms b) hm ∙ ap (λ y. emit_one (some m) y b) hw

emit_one-Emitted :
    (b : FrameBuffer)
    → IsValid b
    → IsTimed b
    → b.options.bytes_per_frame ≤ length b.carry
    → let now = emit_one b.next_monotonic_ms b.next_wall_ms b in
      Emitted b now × (length now.buffer.carry + b.options.bytes_per_frame ≡ length b.carry)
emit_one-Emitted b v (tm, tw) full = elim (Option-cases b.next_monotonic_ms) [
  | inl n ↦ absurd (cc (tm, ap is_some n))
  | inr (m, hm) ↦ elim (Option-cases b.next_wall_ms) [
    | inl n ↦ absurd (cc (tw, ap is_some n))
    | inr (w, hw) ↦
        subst
          (λ r. Emitted b r × (length r.buffer.carry + b.options.bytes_per_frame ≡ length b.carry))
          (sym (emit_one_times b m w hm hw))
          (
            round-Emitted b m w v full hm hw,
            ap (λ c. length c + b.options.bytes_per_frame) (round_carry b m w v full)
                ∙ (length-take-drop b.options.bytes_per_frame b.carry full).1,
          )
  ]
]

then-IsShort :
    (b : FrameBuffer) (now later : Written) (e : Option Thrown)
    → now.thrown ≡ e
    → IsShort b later
    → IsShort b (then_emit e now later)
then-IsShort b now later none h s = s
then-IsShort b now later (some x) h s = λ t. absurd (ground arith)

-- The loop on a valid buffer with its times set.
pub emit-Emitted :
    (fuel : ℕ) (b : FrameBuffer)
    → IsValid b
    → IsTimed b
    → length b.carry ≤ fuel
    → Emitted b (emit fuel b) × IsShort b (emit fuel b)
unfolding emit
emit-Emitted zero b v t h = (written-Emitted b v, λ e. omega (arith, h, v.frames_have_bytes))
emit-Emitted (suc fuel) b v (tm, tw) h =
    if-elim (λ r. Emitted b r × IsShort b r) (leb b.options.bytes_per_frame (length b.carry)) _ _
      (λ c.
        let now = emit_one b.next_monotonic_ms b.next_wall_ms b in
        let (p, shorter) = emit_one-Emitted b v (tm, tw) (leb→le b.options.bytes_per_frame _ c) in
        let (q, s) =
          emit-Emitted fuel now.buffer p.valid (p.timed ∙ tm, p.timed_wall ∙ tw)
            (omega (arith, shorter, h, v.frames_have_bytes)) in
        (
          then-Emitted_from b now (emit fuel now.buffer) p q now.thrown refl,
          then-IsShort b now (emit fuel now.buffer) now.thrown refl (λ t.
              subst (λ o. length (emit fuel now.buffer).buffer.carry < o.bytes_per_frame)
                p.same_options (s t)),
        ))
      (λ c. (written-Emitted b v, λ e. ground arith))
