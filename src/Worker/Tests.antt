-- ===== src/Worker/Tests.antt =====
-- Runs of a worker process, and the theorem at a concrete input.
use openmurmur.Prelude.{◌≡◌, refl, true, false, none, some, List, [], ◌∷◌, All, length, map}
use openmurmur.Prelude.Text.{Text, concat}
use openmurmur.Table.{get, exists, update}
use openmurmur.Worker.Types.{Event, object, ensure, sends, line, times_out, exits, joined, started}
use openmurmur.Worker.{
  step, run, new_worker, ensure_started, send, send_to, dispatch, without, request_fails,
  without_number, on_close, on_joined,
}
use openmurmur.Worker.Generation.{recycle, fail_generation, failing, staying, notify_exit}
use openmurmur.Worker.Counts.{IsAccounted}
use openmurmur.Worker.Accounting.{run-IsAccounted}
use openmurmur.Worker.Endings.{has_ended}
use openmurmur.Worker.Exclusive.{IsOver, starts_alone}
use openmurmur.Worker.Lines.{new_splitter, push, push_all, without_blank}
use openmurmur.Worker.Stream.{push_all-concat, encode_request-push_all}

-- Two requests, of which the second times out; the late answer comes after the process was replaced.
abbrev stalled : List Event
stalled =
    ensure true
    ∷ sends "a"
    ∷ sends "b"
    ∷ line 1 (object (some "a") (some true) false)
    ∷ times_out "b" 1
    ∷ exits 1
    ∷ joined 1
    ∷ ensure true
    ∷ sends "b"
    ∷ line 1 (object (some "b") (some true) false)
    ∷ []

late_answer_is_dropped : length (run (new_worker (some 60000)) stalled).pending ≡ 1
unfolding run step ensure_started send send_to dispatch without recycle fail_generation failing
    staying notify_exit request_fails without_number on_close on_joined get exists update
late_answer_is_dropped = refl

two_were_settled : length (run (new_worker (some 60000)) stalled).settled ≡ 2
unfolding run step ensure_started send send_to dispatch without recycle fail_generation failing
    staying notify_exit request_fails without_number on_close on_joined get exists update
two_were_settled = refl

run-IsAccounted_example :
    let worker = new_worker (some 60000) in
    IsAccounted (run worker stalled)
    × All (λ p. has_ended worker stalled p.generation ≡ false) (run worker stalled).pending
run-IsAccounted_example = run-IsAccounted (some 60000) stalled

-- The first process timed out and exited, so a second may start.
abbrev replaced : List Event
replaced = ensure true ∷ sends "a" ∷ times_out "a" 1 ∷ exits 1 ∷ joined 1 ∷ []

may_start : (ensure_started true (run (new_worker none) replaced)).1 ≡ started
unfolding run step ensure_started send send_to dispatch without recycle fail_generation failing
    staying notify_exit request_fails without_number on_close on_joined get exists update
may_start = refl

starts_alone_example : IsOver (run (new_worker none) replaced) 1
unfolding run step ensure_started send send_to dispatch without recycle fail_generation failing
    staying notify_exit request_fails without_number on_close on_joined get exists update
starts_alone_example = starts_alone none replaced 1 refl refl

-- The stream `{}`, line end, `[]`, line end, cut inside the lines.
abbrev cut_stream : List Text
cut_stream = (123 ∷ []) ∷ (125 ∷ 10 ∷ 91 ∷ []) ∷ [] ∷ (93 ∷ 10 ∷ []) ∷ []

two_lines :
    push_all new_splitter cut_stream ≡ (new_splitter, (123 ∷ 125 ∷ []) ∷ (91 ∷ 93 ∷ []) ∷ [])
unfolding push_all push without_blank
two_lines = refl

push_all-concat_example : push_all new_splitter cut_stream ≡ push new_splitter (concat cut_stream)
push_all-concat_example = push_all-concat cut_stream

encode_request-push_all_example :
    push_all new_splitter cut_stream
    ≡ (new_splitter, map (λ t. t) ((123 ∷ 125 ∷ []) ∷ (91 ∷ 93 ∷ []) ∷ []))
encode_request-push_all_example =
    encode_request-push_all (λ t. t) ((123 ∷ 125 ∷ []) ∷ (91 ∷ 93 ∷ []) ∷ []) cut_stream
      (((refl, (refl, tt)), refl), (((refl, (refl, tt)), refl), tt)) refl
