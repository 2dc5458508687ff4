-- ===== src/Base/Effects.antt =====
-- Go's error values, results and effects. An `error` is a text of its own, a gRPC status with its
-- code, or a server's `ErrorResponse`; a nil dereference is a panic, which no caller recovers from.
use mathlib.Core.Path.{◌≡◌, refl, ap, ◌∙◌}
use mathlib.Core.Logic.{◌⊎◌, inl, inr}
use mathlib.Core.Bool.{Bool, ◌||◌}
use brickstor_csi_driver.Base.Strings.{Text, codes, contains}

-- The status codes of package codes that the driver names or tests.
pub data Code : Type 0 where
  unknown invalid_argument not_found already_exists permission_denied failed_precondition aborted
        unimplemented internal unauthenticated :
      Code

pub data Error : Type 0 where
  plain : Text → Error
  status : Code → Text → Error
  response : Text → Error

-- `status.Code(err)`
unfoldable pub status_code : Error → Code
status_code (plain t) = unknown
status_code (status c t) = c
status_code (response t) = unknown

-- What a Go function comes back with: a value, an error, or no return at all.
pub data Outcome {ℓ} (A : Type ℓ) : Type ℓ where
  ok : A → Outcome A
  err : Error → Outcome A
  panic : Outcome A

-- A computation over a world `S`.
abbrev pub Eff : Type 0 → Type 0 → Type 0
Eff S A = S → Outcome A × S

module _ {S : Type 0} where
  abbrev pub pure : {A : Type 0} → A → Eff S A
  pure a s = (ok a, s)

  abbrev pub fail : {A : Type 0} → Error → Eff S A
  fail e s = (err e, s)

  abbrev pub crash : {A : Type 0} → Eff S A
  crash s = (panic, s)

  infixl 5 ◌>>=◌ ◌>>◌
  abbrev pub ◌>>=◌ : {A B : Type 0} → Eff S A → (A → Eff S B) → Eff S B
  ◌>>=◌ m f s = elim (m s).0 [
    | ok a ↦ f a (m s).1
    | err e ↦ (err e, (m s).1)
    | panic ↦ (panic, (m s).1)
  ]

  abbrev pub ◌>>◌ : {A B : Type 0} → Eff S A → Eff S B → Eff S B
  m >> k = m >>= λ _. k

-- `v, err := m()` where the caller looks at `err` itself.
pub data Attempt (A : Type 0) : Type 0 where
  value : A → Attempt A
  failed : Error → Attempt A

abbrev pub attempted : {A : Type 0} → Outcome A → Outcome (Attempt A)
attempted (ok a) = ok (value a)
attempted (err e) = ok (failed e)
attempted panic = panic

module _ {S : Type 0} where
  abbrev pub attempt : {A : Type 0} → Eff S A → Eff S (Attempt A)
  attempt m s = (attempted (m s).0, (m s).1)

-- What the driver takes from package status of gRPC: the text of a status error.
pub record Grpc : Type 0 where
  pub status_text : Code → Text → Text

-- `err.Error()`
abbrev pub error_text : Grpc → Error → Text
error_text g (plain t) = t
error_text g (status c t) = g.status_text c t
error_text g (response t) = t

-- `ErrIsExists` and `ErrIsNotExist` of pkg/bsr/provider.go, on an error that is not nil.
unfoldable pub is_exists : Grpc → Error → Bool
is_exists g e = contains (error_text g e) (codes "already exists")

unfoldable pub is_not_exist : Grpc → Error → Bool
is_not_exist g e =
    contains (error_text g e) (codes "not found")
    || contains (error_text g e) (codes "not imported")

-- To split on a computed outcome and keep the equation.
pub Outcome-cases :
    {A : Type 0} (o : Outcome A)
    → ((a : A) × (o ≡ ok a)) ⊎ ((e : Error) × (o ≡ err e)) ⊎ (o ≡ panic)
Outcome-cases (ok a) = inl (a, refl)
Outcome-cases (err e) = inr (inl (e, refl))
Outcome-cases panic = inr (inr refl)

-- A bind whose first part is known.
module _ {S A B : Type 0} (m : Eff S A) (k : A → Eff S B) (s : S) where
  pub >>=-ok : {a : A} → (m s).0 ≡ ok a → (m >>= k) s ≡ k a (m s).1
  >>=-ok e = rw (e, ◌>>=◌)

  -- The same with the state that the first part leaves.
  pub >>=-to : {a : A} {t : S} → m s ≡ (ok a, t) → (m >>= k) s ≡ k a t
  >>=-to {a} e = >>=-ok (ap (λ r. r.0) e) ∙ ap (λ r. k a r.1) e

  pub >>=-err : {e : Error} → (m s).0 ≡ err e → (m >>= k) s ≡ (err e, (m s).1)
  >>=-err h = rw (h, ◌>>=◌)

  pub >>=-panic : (m s).0 ≡ panic → (m >>= k) s ≡ (panic, (m s).1)
  >>=-panic h = rw (h, ◌>>=◌)

-- A sequence of two steps that succeeds is two steps that succeed.
pub >>=-ok-inv :
    {S A B : Type 0} (m : Eff S A) (k : A → Eff S B) (s : S) (b : B)
    → ((m >>= k) s).0 ≡ ok b
    → (a : A) × ((m s).0 ≡ ok a) × ((k a (m s).1).0 ≡ ok b)
>>=-ok-inv m k s b h = elim (Outcome-cases (m s).0) [
  | inl (a, e) ↦ (a, e, rw (e, ◌>>=◌) at h)
  | inr (inl (x, e)) ↦ let bad = rw (e, ◌>>=◌) at h in cc bad
  | inr (inr e) ↦ let bad = rw (e, ◌>>=◌) at h in cc bad
]
