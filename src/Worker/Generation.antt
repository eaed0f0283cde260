-- ===== src/Worker/Generation.antt =====
-- The end of a generation of class WorkerProcess (src/asr/worker-process.ts): its requests are
-- rejected, its exit is told once; and decodeResponse of src/asr/protocol.ts.
use openmurmur.Prelude.{
  ℕ, Bool, true, false, ◌&&◌, Option, none, some, List, [], ◌∷◌, ◌++◌, ◌==◌, ◌⊎◌, inl, inr,
  if◌then◌else◌,
}
use openmurmur.Table
use openmurmur.Worker.Types.{
  WorkerExitReason, WorkerResponse, Parsed, ProtocolError, Failure, Pending, Settled,
  WorkerGeneration, Worker, not_json, not_object, object, non_json, no_object, no_id_or_ok, failed,
}

abbrev pub decode_response : Parsed → ProtocolError ⊎ WorkerResponse
decode_response not_json = inl non_json
decode_response not_object = inl no_object
decode_response (object none ok shutdown) = inl no_id_or_ok
decode_response (object (some id) none shutdown) = inl no_id_or_ok
decode_response (object (some id) (some ok) shutdown) =
    inr (record { id = id; ok = ok; shutdown = shutdown && ok })

abbrev pub is_at : ℕ → Option ℕ → Bool
is_at g none = false
is_at g (some h) = g == h

abbrev pub update_generation : ℕ → (WorkerGeneration → WorkerGeneration) → Worker → Worker
update_generation g set w = record w {
  generations = Table.update (λ r. r.number == g) set w.generations;
}

abbrev pub cancel_idle_retirement : ℕ → Worker → Worker
cancel_idle_retirement g w = update_generation g (λ r. record r { idle_timer = false }) w

-- The requests of a generation, rejected, and the others.
unfoldable pub failing : Failure → ℕ → List Pending → List Settled
failing why g [] = []
failing why g (p ∷ ps) =
    let rest = failing why g ps in
    if p.generation == g then record { request = p; outcome = failed why } ∷ rest else rest

unfoldable pub staying : ℕ → List Pending → List Pending
staying g [] = []
staying g (p ∷ ps) = let rest = staying g ps in if p.generation == g then rest else p ∷ rest

unfoldable pub fail_generation : ℕ → Failure → Worker → Worker
fail_generation g why w = record w {
  pending = staying g w.pending;
  settled = w.settled ++ failing why g w.pending;
}

abbrev pub rejected : Failure → List Pending → List Settled
rejected why [] = []
rejected why (p ∷ ps) = record { request = p; outcome = failed why } ∷ rejected why ps

unfoldable pub fail_all : Failure → Worker → Worker
fail_all why w = record w { pending = []; settled = w.settled ++ rejected why w.pending }

abbrev pub reason_or : Option WorkerExitReason → WorkerExitReason → WorkerExitReason
reason_or none reason = reason
reason_or (some r) reason = r

-- `onExit` is called once for each generation.
abbrev pub notify : Worker → ℕ → Option WorkerGeneration → Worker
notify w g none = w
notify w g (some r) = if r.exit_notified then w else record w {
  generations =
      Table.update (λ r. r.number == g) (λ r. record r { exit_notified = true }) w.generations;
  notified =
      w.notified
      ++ (
        g,
        reason_or r.exit_reason
            (if w.is_closed then WorkerExitReason.closed else WorkerExitReason.unexpected),
      )
        ∷ [];
}

unfoldable pub notify_exit : ℕ → Worker → Worker
notify_exit g w = notify w g (Table.get (λ r. r.number == g) w.generations)

abbrev pub without_child : ℕ → Worker → Worker
without_child g w = record w { child = if is_at g w.child then none else w.child }

unfoldable pub recycle : ℕ → Failure → WorkerExitReason → Worker → Worker
recycle g why reason w =
    if Table.exists (λ h. h == g) w.stopping
    then w
    else (let leaving = fail_generation g why (
          without_child g (
            cancel_idle_retirement g (
              update_generation g
                (λ r. record r { exit_reason = some (reason_or r.exit_reason reason) }) w))) in
        notify_exit g (record leaving { stopping = leaving.stopping ++ g ∷ [] }))
