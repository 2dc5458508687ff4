-- ===== src/Driver/Controller/Resolve/Codes.antt =====
-- With which code `resolveBSR` fails.
use brickstor_csi_driver.Base.{
  ◌≡◌, ◌↔◌, ◌⊎◌, refl, inl, inr, true, false, Error, status_code, not_found, internal, err,
  Outcome-cases, Bool-cases, is_empty, is_not_exist, ◌>>=◌, Eff, if◌then◌else◌,
}
use brickstor_csi_driver.Driver.State.{Platform, State}
use brickstor_csi_driver.Driver.Controller.Resolve.{
  ResolveParams, ResolveResponse, resolve_bsr_no_zone, resolve_bsr_with_zone, resolve_error,
  resolve_bsr,
}

module _ {W : Type 0} (p : Platform W) (q : ResolveParams) where
  -- The half that the zone decides on.
  abbrev pub half : Eff (State W) (ResolveResponse W)
  half = if is_empty q.zone then resolve_bsr_no_zone p q else resolve_bsr_with_zone p q

  -- How an error of a half is reported.
  abbrev pub IsReport : Error → Error → Type 0
  IsReport x e =
      (e ≡ resolve_error p q x)
      × ((is_not_exist p.grpc x ≡ true) × (status_code e ≡ not_found)
          ⊎ (is_not_exist p.grpc x ≡ false) × (status_code e ≡ internal))

  report : (x : Error) → IsReport x (resolve_error p q x)
  unfolding resolve_error status_code
  report x = elim (Bool-cases (is_not_exist p.grpc x)) [
    | inl e ↦ rw e (refl, inl (refl, refl))
    | inr e ↦ rw e (refl, inr (refl, refl))
  ]

  -- `resolveBSR` fails exactly if the half that the zone decides on fails; its code is then not
  -- found if the text of that error says "not found" or "not imported", and internal otherwise,
  -- whatever code that error has.
  pub resolve_bsr-err :
      (s : State W) (e : Error)
      → (resolve_bsr p q s).0 ≡ err e ↔ ((x : Error) × ((half s).0 ≡ err x) × IsReport x e)
  unfolding resolve_bsr
  resolve_bsr-err s e = (forth, back)
    where
      forth : (resolve_bsr p q s).0 ≡ err e → (x : Error) × ((half s).0 ≡ err x) × IsReport x e
      forth h = elim (Outcome-cases (half s).0) [
        | inl (r, f) ↦ let bad = rw (f, ◌>>=◌) at h in cc bad
        | inr (inl (x, f)) ↦
            let same : resolve_error p q x ≡ e = cc (rw (f, ◌>>=◌) at h) in
            (x, f, rw (← same) (report x))
        | inr (inr f) ↦ let bad = rw (f, ◌>>=◌) at h in cc bad
      ]

      back : ((x : Error) × ((half s).0 ≡ err x) × IsReport x e) → (resolve_bsr p q s).0 ≡ err e
      back (x, f, (same, code)) = rw (f, ◌>>=◌, same) refl
