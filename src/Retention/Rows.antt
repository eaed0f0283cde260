-- ===== src/Retention/Rows.antt =====
-- Lists of rows, and what the tests of columns in Retention/Eligible say.
use Prim.Native.String.{String}
use text.Mathlib.TextEquality.{eq_iff}
use openmurmur.Prelude.{
  ℕ, ◌*◌, ◌≡◌, inl, inr, refl, ap, subst, Bool, true, false, ◌&&◌, negate, Option, none, some, List,
  [], ◌∷◌, All, Bool-cases, arith,
}
use openmurmur.Prelude.Int.{pos, -ℤ_parts}
use openmurmur.Table.{exists, get}
use openmurmur.Jobs.Types.{JobState}
use openmurmur.Outbox.Types.{OutboxState}
use openmurmur.Retention.Columns.{
  hours_ago_iso, not_later, is_text, is_null, is_live, is_undelivered,
}
use openmurmur.Retention.Proof.{Has, IsPast, IsLive, IsWaiting}

module _ {ℓ} {A : Type ℓ} where
  pub Has-map : (P Q : A → Type 0) (xs : List A) → ((x : A) → P x → Q x) → Has P xs → Has Q xs
  Has-map P Q [] f h = h
  Has-map P Q (x ∷ xs) f (inl p) = inl (f x p)
  Has-map P Q (x ∷ xs) f (inr h) = inr (Has-map P Q xs f h)

  pub All-map : (P Q : A → Type 0) (xs : List A) → ((x : A) → P x → Q x) → All P xs → All Q xs
  All-map P Q [] f h = tt
  All-map P Q (x ∷ xs) f (p, h) = (f x p, All-map P Q xs f h)

  pub exists-Has :
      (test : A → Bool) (rows : List A) → exists test rows ≡ true → Has (λ r. test r ≡ true) rows
  exists-Has test [] h = unfold exists in absurd (cc)
  exists-Has test (r ∷ rows) h = elim (Bool-cases (test r)) [
    | inl e ↦ inl e
    | inr e ↦ inr (exists-Has test rows (unfold exists in ground (arith, h)))
  ]

module _ {A : Type 0} where
  -- What holds of the row that a list holds.
  pub Has-at : (P : A → Type 0) (a : A) (xs : List A) → Has (λ r. P r × (r ≡ a)) xs → P a
  Has-at P a [] h = elim h [ ]
  Has-at P a (x ∷ xs) (inl (p, e)) = subst P e p
  Has-at P a (x ∷ xs) (inr h) = Has-at P a xs h

  pub get-Has :
      (test : A → Bool) (rows : List A) (a : A)
      → get test rows ≡ some a
      → Has (λ r. (test r ≡ true) × (r ≡ a)) rows
  get-Has test [] a h = unfold get in absurd (cc)
  get-Has test (r ∷ rows) a h = elim (Bool-cases (test r)) [
    | inl e ↦ inl (e, unfold get in cc)
    | inr e ↦ inr (get-Has test rows a (unfold get in ground (arith, h)))
  ]

pub and_left : (a b : Bool) → (a && b) ≡ true → a ≡ true
and_left true b h = refl
and_left false b h = h

pub and_right : (a b : Bool) → (a && b) ≡ true → b ≡ true
and_right true b h = h
and_right false b h = absurd (cc)

pub is_text-eq : (o : Option String) (s : String) → is_text o s ≡ true → o ≡ some s
is_text-eq none s h = absurd (cc)
is_text-eq (some t) s h = ap some ((eq_iff t s).0 h)

pub text_found : (o : Option String) (s : String) → o ≡ some s → is_text o s ≡ true
text_found o s e = rw e ((eq_iff s s).1 refl)

pub not_later-IsPast :
    (at : Option ℕ) (hours now : ℕ)
    → not_later at (hours_ago_iso hours now) ≡ true
    → IsPast at hours now
unfolding not_later hours_ago_iso
not_later-IsPast none hours now h = absurd (cc)
not_later-IsPast (some t) hours now h =
    (t, refl, ground (arith, -ℤ_parts (pos now) (pos (hours * 3600000))))

pub null-none {ℓ} : {A : Type ℓ} (o : Option A) → is_null o ≡ true → o ≡ none
null-none none h = refl
null-none (some a) h = absurd (cc)

pub negated : (b : Bool) → negate b ≡ true → b ≡ false
negated true h = absurd (cc)
negated false h = refl

pub live_true : (state : JobState) → IsLive state → is_live state ≡ true
live_true state (inl e) = rw e refl
live_true state (inr e) = rw e refl

pub waiting_true : (state : OutboxState) → IsWaiting state → is_undelivered state ≡ true
waiting_true state (inl e) = rw e refl
waiting_true state (inr e) = rw e refl

pub both : (a b : Bool) → a ≡ true → b ≡ true → (a && b) ≡ true
both a b p q = rw (p, q) refl
