-- ===== src/Driver/Controller/Create/Outcomes.antt =====
-- When `createNewVol` succeeds.
use brickstor_csi_driver.Base.{
  ◌≡◌, ◌⊎◌, ◌↔◌, refl, inl, inr, true, false, Text, Error, ok, err, Outcome-cases, Bool-cases,
  ◌>>=◌, is_exists, ℤ, is_zero, ltb_int,
}
use brickstor_csi_driver.Bsr.Provider.{Dataset, ProviderInterface, ref_quota_size}
use brickstor_csi_driver.Driver.State.{Platform, State}
use brickstor_csi_driver.Driver.Controller.Create.{check_existing, create_new_vol}

module _ {W : Type 0} (p : Platform W) (b : ProviderInterface W) (path : Text) (capacity : ℤ)
    (s : State W) where
  -- The dataset is there and is not smaller than what is asked for, if a size is asked for.
  abbrev pub IsLargeEnough : W → Type 0
  IsLargeEnough w =
      (ds : Dataset) × ((b.get_dataset path w).0 ≡ ok ds)
      × ((is_zero capacity ≡ true) ⊎ (ltb_int (ref_quota_size ds) capacity ≡ false))

  -- The dataset was created, or was there already and will do.
  abbrev pub IsProvided : Type 0
  IsProvided =
      let made = b.create_dataset path capacity s.world in
      (made.0 ≡ ok tt)
      ⊎ ((e : Error) × (made.0 ≡ err e) × (is_exists p.grpc e ≡ true) × IsLargeEnough made.1)

  check_existing-ok :
      (t : State W) → (check_existing p b path capacity t).0 ≡ ok tt → IsLargeEnough t.world
  unfolding check_existing
  check_existing-ok t h = elim (Outcome-cases (b.get_dataset path t.world).0) [
    | inl (ds, e) ↦ elim (Bool-cases (is_zero capacity)) [
      | inl z ↦ (ds, e, inl z)
      | inr z ↦ elim (Bool-cases (ltb_int (ref_quota_size ds) capacity)) [
        | inl l ↦ let bad = rw (e, z, l, ◌>>=◌) at h in cc bad
        | inr l ↦ (ds, e, inr l)
      ]
    ]
    | inr (inl (x, e)) ↦ let bad = rw (e, ◌>>=◌) at h in cc bad
    | inr (inr e) ↦ let bad = rw (e, ◌>>=◌) at h in cc bad
  ]

  check_existing-large :
      (t : State W) → IsLargeEnough t.world → (check_existing p b path capacity t).0 ≡ ok tt
  unfolding check_existing
  check_existing-large t (ds, e, inl z) = rw (e, z, ◌>>=◌) refl
  check_existing-large t (ds, e, inr l) = elim (Bool-cases (is_zero capacity)) [
    | inl z ↦ rw (e, z, ◌>>=◌) refl
    | inr z ↦ rw (e, z, l, ◌>>=◌) refl
  ]

  -- `createNewVol` succeeds exactly if the BrickStor creates the dataset, or says that it exists
  -- and then gives it with a quota of at least the size that is asked for, a size of 0 being met
  -- by any.
  pub create_new_vol-ok : (create_new_vol p b path capacity s).0 ≡ ok tt ↔ IsProvided
  unfolding create_new_vol
  create_new_vol-ok = (forth, back)
    where
      forth : (create_new_vol p b path capacity s).0 ≡ ok tt → IsProvided
      forth h = elim (Outcome-cases (b.create_dataset path capacity s.world).0) [
        | inl (tt, e) ↦ inl e
        | inr (inl (x, e)) ↦ elim (Bool-cases (is_exists p.grpc x)) [
          | inl there ↦ inr (x, e, there, check_existing-ok _ (rw (e, there, ◌>>=◌) at h))
          | inr other ↦ let bad = rw (e, other, ◌>>=◌) at h in cc bad
        ]
        | inr (inr e) ↦ let bad = rw (e, ◌>>=◌) at h in cc bad
      ]

      back : IsProvided → (create_new_vol p b path capacity s).0 ≡ ok tt
      back (inl e) = rw (e, ◌>>=◌) refl
      back (inr (x, e, there, large)) = rw (e, there, ◌>>=◌) (check_existing-large _ large)
