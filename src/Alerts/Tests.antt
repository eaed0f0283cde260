-- ===== src/Alerts/Tests.antt =====
-- Runs of the alert evaluator (src/health/alerts.ts) with a debounce of a minute.
use openmurmur.Prelude.{ℕ, ◌+◌, ◌≡◌, refl, Bool, true, false, none, some, List, [], ◌∷◌, All, arith}
use openmurmur.Alerts.{
  disk_low, capture_failed, raised, silent, sends, Settings, Alert, decided, enqueue_failed,
  evaluate, evaluate_row, decide, is_active,
}
use openmurmur.Alerts.Edges.{Reading, read, run, follow_all, edges_alternate, edge_is_debounced}

abbrev settings : Settings
settings = record { cooldown_minutes = 60; debounce_seconds = 60 }

abbrev unseen : Alert
unseen = record { row = none; pending = none }

abbrev reading : Bool → ℕ → Reading
reading active at = record {
  active = active;
  fingerprint = none;
  now = at + 1000000;
  monotonic_now = at;
  enqueued = true;
}

abbrev readings : List Reading
readings = reading true 0 ∷ reading true 60000 ∷ reading false 70000 ∷ reading false 130000 ∷ []

edges_alternate_example :
    let (a', os) = run settings disk_low unseen readings in
    follow_all (is_active unseen) os ≡ some (is_active a')
edges_alternate_example = edges_alternate settings disk_low unseen readings

failed_first :
    evaluate settings capture_failed unseen true none 1000000 0 false ≡ (unseen, enqueue_failed)
unfolding evaluate decide evaluate_row
failed_first = refl

edge_is_debounced_example :
    let (a', os) = run settings disk_low unseen (reading true 0 ∷ reading true 30000 ∷ []) in
    All (λ o. o ≡ decided silent) os
    × (a'.row ≡ unseen.row)
    × ((read settings disk_low a' (reading true 60000)).1 ≡ decided (sends raised))
unfolding is_active
edge_is_debounced_example =
    edge_is_debounced settings disk_low unseen (reading true 0) (reading true 60000)
      (reading true 30000 ∷ []) refl refl refl ((refl, omega arith), tt) refl (omega arith) refl
