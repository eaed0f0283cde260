-- ===== src/Worker/Steps.antt =====
-- The accounts of the requests, for each operation of class WorkerProcess (src/asr/worker-process.ts).
use Prim.Native.String.{String}
use text.Mathlib.Text.{◌==◌ as str_eq}
use text.Mathlib.TextEquality.{eq_iff}
use openmurmur.Prelude.{
  ℕ, suc, ◌+◌, ◌≡◌, ◌⊎◌, inl, inr, refl, sym, ap, ◌∙◌, Bool, true, false, ◌&&◌, ◌||◌, negate, ◌==◌,
  ltb, Option, none, some, List, [], ◌∷◌, All, Bool-cases, arith, if◌then◌else◌,
}
use openmurmur.Table.{get, exists}
use openmurmur.Table.Laws.{append-All}
use openmurmur.Worker.Types.{
  WorkerExitReason, WorkerResponse, Parsed, ProtocolError, Failure, Pending, Worker, answered,
  worker_closed, retired, refused,
}
use openmurmur.Worker.{
  spawn, start_anew, start_child, ensure_started, accepted, exited_in, send_to, send_child, send,
  is_of, request_fails, without, schedule_idle_retirement, idle_timer_fires, is_positive, answer,
  respond, dispatch_decoded, dispatch, shut_down,
}
use openmurmur.Worker.Generation.{
  decode_response, is_at, fail_generation, rejected, fail_all, cancel_idle_retirement,
}
use openmurmur.Worker.Counts.{
  one, waiting_times, IsOwnAnswer, IsAccounted, settled_times-append, waiting_times-append,
  rejected_times, rejected-All, fail-Accounts,
}
use openmurmur.Worker.Recycling.{branch, recycle-IsAccounted}

-- A request that is accepted waits on the child.
accepted-IsAccounted :
    (g : ℕ) (id : String) (w : Worker)
    → w.child ≡ some g
    → IsAccounted w
    → IsAccounted (accepted g id w)
accepted-IsAccounted g id w at a = record {
  waits =
      append-All (λ p. w.child ≡ some p.generation) w.pending
        (record { id = id; generation = g; ticket = w.tickets } ∷ []) a.waits (at, tt);
  once = λ t. omega (
    arith,
    waiting_times-append t w.pending (record { id = id; generation = g; ticket = w.tickets } ∷ []),
    next w.tickets t,
    a.once t,
  );
  answers = a.answers;
}
  where
    next : (n t : ℕ) → one (ltb t n) + one (n == t) ≡ one (ltb t (suc n))
    next n t = ground arith

at_child : (g : ℕ) (o : Option ℕ) → is_at g o ≡ true → o ≡ some g
at_child g none h = absurd (cc)
at_child g (some c) h = ap some (ground (arith, h))

send_to-IsAccounted :
    (g : ℕ) (id : String) (allow_closed : Bool) (w : Worker)
    → IsAccounted w
    → IsAccounted (send_to g id allow_closed w).0
unfolding send_to
send_to-IsAccounted g id allow_closed w a = elim (Bool-cases (negate allow_closed && w.is_closed)) [
  | inl closed ↦ rw closed a
  | inr open_ ↦ elim (Bool-cases (exited_in g w || negate (is_at g w.child))) [
    | inl gone ↦ rw (open_, gone) a
    | inr here ↦ elim (Bool-cases (exists (λ p. str_eq p.id id) w.pending)) [
      | inl twice ↦ rw (open_, here, twice) a
      | inr fresh ↦
          rw (open_, here, fresh)
            (accepted-IsAccounted g id (cancel_idle_retirement g w)
              (at_child g w.child (second (exited_in g w) (is_at g w.child) here)) a)
    ]
  ]
]
  where
    second : (b c : Bool) → (b || negate c) ≡ false → c ≡ true
    second true c h = absurd (cc)
    second false true h = refl
    second false false h = absurd (cc)

send_child-IsAccounted :
    (id : String) (w : Worker) (o : Option ℕ) → IsAccounted w → IsAccounted (send_child id w o).0
send_child-IsAccounted id w none a = a
send_child-IsAccounted id w (some g) a = send_to-IsAccounted g id false w a

pub send-IsAccounted : (id : String) (w : Worker) → IsAccounted w → IsAccounted (send id w).0
unfolding send
send-IsAccounted id w a = either w.is_closed _ _ a (send_child-IsAccounted id w w.child a)
  where
    either :
        (b : Bool) (x y : Worker × Option Failure)
        → IsAccounted x.0
        → IsAccounted y.0
        → IsAccounted (if b then x else y).0
    either true x y p q = p
    either false x y p q = q

pub request_fails-IsAccounted :
    (why : Failure) (id : String) (g : ℕ) (w : Worker)
    → IsAccounted w
    → IsAccounted (request_fails why id g w)
unfolding request_fails
request_fails-IsAccounted why id g w a =
    elim (Bool-cases (is_of g (get (λ p. str_eq p.id id) w.pending))) [
      | inl e ↦ rw e (recycle-IsAccounted g why WorkerExitReason.unexpected w a)
      | inr e ↦ rw e a
    ]

pub idle_timer_fires-IsAccounted :
    (g : ℕ) (w : Worker) → IsAccounted w → IsAccounted (idle_timer_fires g w)
unfolding idle_timer_fires
idle_timer_fires-IsAccounted g w a = elim (Bool-cases (w.is_closed || negate (is_at g w.child))) [
  | inl e ↦ rw e a
  | inr e ↦ elim (Bool-cases (exists (λ p. p.generation == g) w.pending)) [
    | inl busy ↦ rw (e, busy) a
    | inr quiet ↦
        rw (e, quiet)
          (recycle-IsAccounted g retired WorkerExitReason.idle (cancel_idle_retirement g w) a)
  ]
]

-- The entry that is found is the one that is removed.
without_times :
    (t : ℕ) (id : String) (ps : List Pending) (p : Pending)
    → get (λ q. str_eq q.id id) ps ≡ some p
    → one (p.ticket == t) + waiting_times t (without id ps) ≡ waiting_times t ps
unfolding get without
without_times t id [] p h = absurd (cc)
without_times t id (q ∷ ps) p h = elim (Bool-cases (str_eq q.id id)) [
  | inl e ↦ rw e (ap (λ r. one (r.ticket == t) + waiting_times t ps) (sym (same e)))
  | inr e ↦ rw e (omega (arith, without_times t id ps p (later e)))
]
  where
    or_else : Option Pending → Pending
    or_else none = q
    or_else (some r) = r

    same : str_eq q.id id ≡ true → q ≡ p
    same e = let k : some q ≡ some p = rw e at h in ap or_else k

    later : str_eq q.id id ≡ false → get (λ q. str_eq q.id id) ps ≡ some p
    later e = rw e at h

get-id :
    (id : String) (ps : List Pending) (p : Pending)
    → get (λ q. str_eq q.id id) ps ≡ some p
    → id ≡ p.id
unfolding get
get-id id [] p h = absurd (cc)
get-id id (q ∷ ps) p h = elim (Bool-cases (str_eq q.id id)) [
  | inl e ↦ found e
  | inr e ↦ get-id id ps p (rw e at h)
]
  where
    or_else : Option Pending → Pending
    or_else none = q
    or_else (some r) = r

    found : str_eq q.id id ≡ true → id ≡ p.id
    found e =
        let k : some q ≡ some p = rw e at h in
        sym ((eq_iff q.id id).0 e) ∙ ap (λ o. (or_else o).id) k

without-All :
    (P : Pending → Type 0) (id : String) (ps : List Pending) → All P ps → All P (without id ps)
unfolding without
without-All P id [] h = tt
without-All P id (p ∷ ps) (q, h) = elim (Bool-cases (str_eq p.id id)) [
  | inl e ↦ rw e h
  | inr e ↦ rw e (q, without-All P id ps h)
]

answer-IsAccounted :
    (g : ℕ) (r : WorkerResponse) (w : Worker) (p : Pending)
    → get (λ q. str_eq q.id r.id) w.pending ≡ some p
    → g ≡ p.generation
    → IsAccounted w
    → IsAccounted (answer g r w p)
answer-IsAccounted g r w p hit at a = record {
  waits = without-All (λ q. w.child ≡ some q.generation) r.id w.pending a.waits;
  once = λ t. omega (
    arith,
    settled_times-append t w.settled (record { request = p; outcome = answered g r } ∷ []),
    without_times t r.id w.pending p hit,
    a.once t,
  );
  answers =
      append-All IsOwnAnswer w.settled (record { request = p; outcome = answered g r } ∷ [])
        a.answers ((at, get-id r.id w.pending p hit), tt);
}

schedule-IsAccounted :
    (g : ℕ) (w : Worker) → IsAccounted w → IsAccounted (schedule_idle_retirement g w)
schedule-IsAccounted g w a = branch (is_at g w.child && is_positive w.idle_timeout_ms) _ _ a a

respond-IsAccounted :
    (g : ℕ) (r : WorkerResponse) (w : Worker) (o : Option Pending)
    → get (λ q. str_eq q.id r.id) w.pending ≡ o
    → IsAccounted w
    → IsAccounted (respond g r w o)
respond-IsAccounted g r w none hit a = a
respond-IsAccounted g r w (some p) hit a = elim (Bool-cases (p.generation == g)) [
  | inl e ↦
      let after = answer-IsAccounted g r w p hit (ground (arith, e)) a in
      rw e (
        branch (negate w.is_closed && negate r.shutdown) _ _
          (schedule-IsAccounted g (answer g r w p) after) after)
  | inr e ↦ rw e a
]

pub dispatch-IsAccounted :
    (g : ℕ) (parsed : Parsed) (w : Worker) → IsAccounted w → IsAccounted (dispatch g parsed w)
unfolding dispatch
dispatch-IsAccounted g parsed w a = decoded (decode_response parsed)
  where
    decoded : (d : ProtocolError ⊎ WorkerResponse) → IsAccounted (dispatch_decoded g w d)
    decoded (inl e) = a
    decoded (inr r) = respond-IsAccounted g r w (get (λ q. str_eq q.id r.id) w.pending) refl a

-- Without a process nothing waits.
none_waits :
    (child : Option ℕ) (ps : List Pending)
    → child ≡ none
    → All (λ p. child ≡ some p.generation) ps
    → (left : Option ℕ) → All (λ p. left ≡ some p.generation) ps
none_waits child [] e h left = tt
none_waits child (p ∷ ps) e (q, h) left = absurd (cc)

pub ensure-IsAccounted :
    (spawns : Bool) (w : Worker) → IsAccounted w → IsAccounted (ensure_started spawns w).0
unfolding ensure_started
ensure-IsAccounted spawns w a = both_ways w.is_closed
  where
    in_queue : (b : Bool) (hs : List ℕ) → w.child ≡ none → IsAccounted (spawn b w hs).0
    in_queue b (h ∷ hs) e = a
    in_queue false [] e = a
    in_queue true [] e = record {
      waits = none_waits w.child w.pending e a.waits _;
      once = a.once;
      answers = a.answers;
    }

    anew : (o : Option ℕ) → w.child ≡ none → IsAccounted (start_anew spawns w o).0
    anew (some h) e = a
    anew none e = in_queue spawns w.stopping e

    started_as : (o : Option ℕ) → w.child ≡ o → IsAccounted (start_child spawns w o).0
    started_as (some g) e = a
    started_as none e = anew w.starting e

    both_ways :
        (b : Bool)
        → IsAccounted (if b then (w, refused worker_closed) else start_child spawns w w.child).0
    both_ways true = a
    both_ways false = started_as w.child refl

pub shut_down-IsAccounted :
    (id : String) (w : Worker) (o : Option ℕ) → IsAccounted w → IsAccounted (shut_down id w o)
unfolding fail_generation
shut_down-IsAccounted id w none a = a
shut_down-IsAccounted id w (some g) a =
    send_to-IsAccounted g id true _
      (fail-Accounts w.child w.child w.pending w.tickets w.settled g worker_closed (λ p off e. e) a)

pub fail_all-IsAccounted :
    (why : Failure) (w : Worker) → IsAccounted w → IsAccounted (fail_all why w)
unfolding fail_all
fail_all-IsAccounted why w a = record {
  waits = tt;
  once = λ t. omega (
    arith,
    settled_times-append t w.settled (rejected why w.pending),
    rejected_times t why w.pending,
    a.once t,
  );
  answers =
      append-All IsOwnAnswer w.settled (rejected why w.pending) a.answers
        (rejected-All why w.pending);
}
