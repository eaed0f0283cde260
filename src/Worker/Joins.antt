-- ===== src/Worker/Joins.antt =====
-- The end of a join keeps the places of the processes (class WorkerProcess of
-- src/asr/worker-process.ts).
use openmurmur.Prelude.{
  ℕ, ◌≡◌, ◌⊎◌, inl, inr, refl, subst, Bool, true, false, ◌==◌, some, List, [], ◌∷◌, ◌++◌,
  Bool-cases, arith, if◌then◌else◌,
}
use openmurmur.Table.{exists}
use openmurmur.Table.Existence.{exists-left, exists-last}
use openmurmur.Worker.Types.{Worker}
use openmurmur.Worker.{on_joined, exited_in, without_number}
use openmurmur.Worker.Places.{Holds, IsKnown, HasExited, IsPlaced}

-- A join ends because the process has exited, or it is given up.
without_number-Holds :
    (g n : ℕ) (hs : List ℕ) → (n == g) ≡ false → Holds hs n → Holds (without_number g hs) n
unfolding without_number exists
without_number-Holds g n [] other h = absurd (cc)
without_number-Holds g n (x ∷ hs) other h = elim (Bool-cases (x == n)) [
  | inl e ↦ let off : (x == g) ≡ false = ground (arith, e, other) in rw (off, e) refl
  | inr e ↦
      let rest = without_number-Holds g n hs other (rw e at h) in
      elim (Bool-cases (x == g)) [ inl drop_ ↦ rw drop_ rest | inr stay ↦ rw (stay, e) rest ]
]

pub on_joined-IsPlaced : (g : ℕ) (w : Worker) → IsPlaced w → IsPlaced (on_joined g w)
unfolding on_joined
on_joined-IsPlaced g w a n h = (known, moved place)
  where
    known : IsKnown w.generations n
    known = (a n h).0

    place :
        HasExited w.generations n
        ⊎ ((w.child ≡ some n) ⊎ (Holds w.stopping n ⊎ Holds w.abandoned n))
    place = (a n h).1

    given_up :
        (b : Bool)
        → Holds w.abandoned n
        → Holds (if b then w.abandoned else w.abandoned ++ g ∷ []) n
    given_up true e = e
    given_up false e = exists-left (λ m. m == n) w.abandoned (g ∷ []) e

    ended :
        (n == g) ≡ true
        → (b : Bool) → exited_in g w ≡ b
        → HasExited w.generations n ⊎ Holds (if b then w.abandoned else w.abandoned ++ g ∷ []) n
    ended same true e =
        let here : g ≡ n = ground (arith, same) in
        inl (subst (λ m. HasExited w.generations m) here e)
    ended same false e = inr (exists-last (λ m. m == n) w.abandoned g (ground (arith, same)))

    moved :
        HasExited w.generations n
          ⊎ ((w.child ≡ some n) ⊎ (Holds w.stopping n ⊎ Holds w.abandoned n))
        → HasExited w.generations n
          ⊎ ((w.child ≡ some n)
              ⊎ (Holds (without_number g w.stopping) n
                  ⊎ Holds (if exited_in g w then w.abandoned else w.abandoned ++ g ∷ []) n))
    moved (inl e) = inl e
    moved (inr (inl e)) = inr (inl e)
    moved (inr (inr (inr e))) = inr (inr (inr (given_up (exited_in g w) e)))
    moved (inr (inr (inl e))) = elim (Bool-cases (n == g)) [
      | inr other ↦ inr (inr (inl (without_number-Holds g n w.stopping other e)))
      | inl same ↦ elim (ended same (exited_in g w) refl) [
        | inl gone ↦ inl gone
        | inr left ↦ inr (inr (inr left))
      ]
    ]
