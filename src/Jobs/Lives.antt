-- ===== src/Jobs/Lives.antt =====
-- The life of a job as its users see it, without leases and times: the states of a row of `jobs` and
-- the moves between them (src/jobs/queue.ts).
use openmurmur.Prelude.{◌≡◌, sym, subst, Bool, true, false, if◌then◌else◌, arith}
use openmurmur.Jobs.Types.{JobState}
use openmurmur.Jobs.{is_leased, is_pending}

pub data Moves : JobState → JobState → Type 0 where
  stays : (s : JobState) → Moves s s
  taken : Moves JobState.pending JobState.leased
  finished : Moves JobState.leased JobState.done
  returned : Moves JobState.leased JobState.pending
  died : Moves JobState.leased JobState.dead

-- Any number of moves.
pub data Reaches : JobState → JobState → Type 0 where
  at_once : (s : JobState) → Reaches s s
  after : (s t u : JobState) → Reaches s t → Moves t u → Reaches s u

leased_state : (s : JobState) → is_leased s ≡ true → s ≡ JobState.leased
leased_state s h = ground (arith, h)

pub from_leased : (s t : JobState) → is_leased s ≡ true → Moves JobState.leased t → Moves s t
from_leased s t h m = subst (λ x. Moves x t) (sym (leased_state s h)) m

pub from_pending : (s : JobState) → is_pending s ≡ true → Moves s JobState.leased
from_pending s h =
    let e : s ≡ JobState.pending = ground (arith, h) in
    subst (λ x. Moves x JobState.leased) (sym e) taken

pub after_failure :
    (exhausted : Bool)
    → Moves JobState.leased (if exhausted then JobState.dead else JobState.pending)
after_failure true = died
after_failure false = returned
