-- ===== src/Base/Invariants.antt =====
-- Invariants of a world: computations that keep a predicate, and what they cost by a counter.
use brickstor_csi_driver.Base.Effects.{
  Eff, ◌>>=◌, attempt, attempted, value, failed, Outcome, ok, err, panic, Error, pure, fail, >>=-ok,
  >>=-err, >>=-panic, Outcome-cases,
}
use brickstor_csi_driver.Base.Tests.{if◌then◌else◌}
use mathlib.Core.Path.{refl}
use mathlib.Core.Logic.{◌≢◌, inl, inr}
use mathlib.Core.Option.{Option, none, some}
use mathlib.Core.Bool.{Bool, true, false}
use Prim.Native.Nat.{ℕ, ◌+◌, ◌≤◌}
use native.Mathlib.Omega.{arith}

attempted-ne-panic : {A : Type 0} (o : Outcome A) → o ≢ panic → attempted o ≢ panic
attempted-ne-panic (ok a) calm q = cc q
attempted-ne-panic (err e) calm q = cc q
attempted-ne-panic panic calm q = calm refl

module _ {S : Type 0} (I : S → Type 0) where
  -- Whatever the outcome, the predicate holds afterwards if it held before.
  abbrev pub Keeps : {A : Type 0} → Eff S A → Type 0
  Keeps m = (s : S) → I s → I (m s).1

  pub >>=-Keeps :
      {A B : Type 0} (m : Eff S A) (k : A → Eff S B)
      → Keeps m
      → ((a : A) → Keeps (k a))
      → Keeps (m >>= k)
  >>=-Keeps m k first next s i = elim (Outcome-cases (m s).0) [
    | inl (a, e) ↦ rw (>>=-ok m k s e) (next a (m s).1 (first s i))
    | inr (inl (x, e)) ↦ rw (>>=-err m k s e) (first s i)
    | inr (inr e) ↦ rw (>>=-panic m k s e) (first s i)
  ]

  pub attempt-Keeps : {A : Type 0} (m : Eff S A) → Keeps m → Keeps (attempt m)
  attempt-Keeps m keeps s i = keeps s i

  pub if-Keeps :
      {A : Type 0} (b : Bool) (m n : Eff S A) → Keeps m → Keeps n → Keeps (if b then m else n)
  if-Keeps true m n first second = first
  if-Keeps false m n first second = second

  pub option-Keeps :
      {A B : Type 0} (o : Option A) (m : Eff S B) (k : A → Eff S B)
      → Keeps m
      → ((a : A) → Keeps (k a))
      → Keeps (elim o [ none ↦ m | some a ↦ k a ])
  option-Keeps none m k first next = first
  option-Keeps (some a) m k first next = next a

  pub outcome-Keeps :
      {A B : Type 0} (o : Outcome A) (k : A → Eff S B) (l : Error → Eff S B) (m : Eff S B)
      → ((a : A) → Keeps (k a))
      → ((e : Error) → Keeps (l e))
      → Keeps m
      → Keeps (elim o [ ok a ↦ k a | err e ↦ l e | panic ↦ m ])
  outcome-Keeps (ok a) k l m next other last = next a
  outcome-Keeps (err e) k l m next other last = other e
  outcome-Keeps panic k l m next other last = last

  -- What is made of both ends of an attempt.
  pub recover-Keeps :
      {A B : Type 0} (m : Eff S A) (k : A → Eff S B) (l : Error → Eff S B)
      → Keeps m
      → ((a : A) → Keeps (k a))
      → ((e : Error) → Keeps (l e))
      → Keeps (attempt m >>= λ r. elim r [ value a ↦ k a | failed e ↦ l e ])
  recover-Keeps m k l first next other =
      >>=-Keeps (attempt m) (λ r. elim r [ value a ↦ k a | failed e ↦ l e ]) (attempt-Keeps m first)
        (λ r. elim r as (λ t. Keeps (elim t [ value a ↦ k a | failed e ↦ l e ])) [
          | value a ↦ next a
          | failed e ↦ other e
        ])

  -- Where the predicate holds there is no panic, and whatever the outcome it holds afterwards.
  abbrev pub Safe : {A : Type 0} → Eff S A → Type 0
  Safe m = (s : S) → I s → ((m s).0 ≢ panic) × I (m s).1

  pub >>=-Safe :
      {A B : Type 0} (m : Eff S A) (k : A → Eff S B)
      → Safe m
      → ((a : A) → Safe (k a))
      → Safe (m >>= k)
  >>=-Safe m k first next s i = elim (Outcome-cases (m s).0) [
    | inl (a, e) ↦ rw (>>=-ok m k s e) (next a (m s).1 (first s i).1)
    | inr (inl (x, e)) ↦ rw (>>=-err m k s e) (λ q. cc q, (first s i).1)
    | inr (inr e) ↦ absurd ((first s i).0 e)
  ]

  pub attempt-Safe : {A : Type 0} (m : Eff S A) → Safe m → Safe (attempt m)
  attempt-Safe m safe s i = (attempted-ne-panic (m s).0 (safe s i).0, (safe s i).1)

  pub pure-Safe : {A : Type 0} (a : A) → Safe (pure a)
  pure-Safe a s i = (λ q. cc q, i)

  pub fail-Safe : (A : Type 0) (e : Error) → Safe (fail {A = A} e)
  fail-Safe A e s i = (λ q. cc q, i)

  pub if-Safe :
      {A : Type 0} (b : Bool) (m n : Eff S A) → Safe m → Safe n → Safe (if b then m else n)
  if-Safe true m n first second = first
  if-Safe false m n first second = second

  pub recover-Safe :
      {A B : Type 0} (m : Eff S A) (k : A → Eff S B) (l : Error → Eff S B)
      → Safe m
      → ((a : A) → Safe (k a))
      → ((e : Error) → Safe (l e))
      → Safe (attempt m >>= λ r. elim r [ value a ↦ k a | failed e ↦ l e ])
  recover-Safe m k l first next other =
      >>=-Safe (attempt m) (λ r. elim r [ value a ↦ k a | failed e ↦ l e ]) (attempt-Safe m first)
        (λ r. elim r as (λ t. Safe (elim t [ value a ↦ k a | failed e ↦ l e ])) [
          | value a ↦ next a
          | failed e ↦ other e
        ])

module _ {S : Type 0} (count : S → ℕ) where
  -- Whatever the outcome, the counter has grown by so much at most.
  abbrev pub Costs : {A : Type 0} → ℕ → Eff S A → Type 0
  Costs n m = (s : S) → count (m s).1 ≤ count s + n

  pub >>=-Costs :
      {A B : Type 0} (a b : ℕ) (m : Eff S A) (k : A → Eff S B)
      → Costs a m
      → ((v : A) → Costs b (k v))
      → Costs (a + b) (m >>= k)
  >>=-Costs a b m k first next s =
      let before = first s in
      elim (Outcome-cases (m s).0) [
        | inl (v, e) ↦
            let after = next v (m s).1 in rw (>>=-ok m k s e) (omega (arith, before, after))
        | inr (inl (x, e)) ↦ rw (>>=-err m k s e) (omega (arith, before))
        | inr (inr e) ↦ rw (>>=-panic m k s e) (omega (arith, before))
      ]

  pub attempt-Costs : {A : Type 0} (n : ℕ) (m : Eff S A) → Costs n m → Costs n (attempt m)
  attempt-Costs n m cost s = cost s
