-- ===== src/Driver/Controller/Manage/Deletion.antt =====
-- When `DeleteVolume` succeeds.
use brickstor_csi_driver.Base.{
  ◌≡◌, ◌⊎◌, ◌↔◌, refl, inl, inr, true, Text, Error, ok, err, Outcome-cases, Bool-cases, ◌>>=◌,
  is_not_exist,
}
use brickstor_csi_driver.Driver.VolumeId.{VolumeInfo}
use brickstor_csi_driver.Driver.State.{Platform, State}
use brickstor_csi_driver.Driver.Controller.Resolve.{ResolveResponse, resolve_bsr}
use brickstor_csi_driver.Driver.Controller.Manage.{
  params_of, destroy_resolved, is_gone, delete_parsed_volume,
}

module _ {W : Type 0} (p : Platform W) where
  -- The BrickStor has destroyed the dataset, or does not have it.
  abbrev IsDestroyed : ResolveResponse W → Text → W → Type 0
  IsDestroyed resp path w =
      let r = (resp.bsr_provider.destroy_dataset path w).0 in
      (r ≡ ok tt) ⊎ ((e : Error) × (r ≡ err e) × (is_not_exist p.grpc e ≡ true))

  -- The volume was resolved and destroyed, or could not be resolved for an error that says that it
  -- is gone.
  abbrev pub IsDeleted : VolumeInfo → State W → Type 0
  IsDeleted info s =
      let r = resolve_bsr p (params_of p info) s in
      ((resp : ResolveResponse W) × (r.0 ≡ ok resp) × IsDestroyed resp info.path r.1.world)
      ⊎ ((e : Error) × (r.0 ≡ err e) × (is_gone p e ≡ true))

  destroy_resolved-ok :
      (resp : ResolveResponse W) (path : Text) (s : State W)
      → (destroy_resolved p resp path s).0 ≡ ok tt
      → IsDestroyed resp path s.world
  unfolding destroy_resolved
  destroy_resolved-ok resp path s h =
      elim (Outcome-cases (resp.bsr_provider.destroy_dataset path s.world).0) [
        | inl (tt, e) ↦ inl e
        | inr (inl (x, e)) ↦ elim (Bool-cases (is_not_exist p.grpc x)) [
          | inl gone ↦ inr (x, e, gone)
          | inr there ↦ let bad = rw (e, there, ◌>>=◌) at h in cc bad
        ]
        | inr (inr e) ↦ let bad = rw (e, ◌>>=◌) at h in cc bad
      ]

  destroyed-ok :
      (resp : ResolveResponse W) (path : Text) (s : State W)
      → IsDestroyed resp path s.world
      → (destroy_resolved p resp path s).0 ≡ ok tt
  unfolding destroy_resolved
  destroyed-ok resp path s (inl e) = rw (e, ◌>>=◌) refl
  destroyed-ok resp path s (inr (x, e, gone)) = rw (e, gone, ◌>>=◌) refl

  -- `DeleteVolume` for a parsed id succeeds exactly if the volume is resolved and its dataset is
  -- destroyed or found missing, or if the resolution fails with an error that says that the volume
  -- is gone.
  pub delete_parsed_volume-ok :
      (info : VolumeInfo) (s : State W)
      → (delete_parsed_volume p info s).0 ≡ ok tt ↔ IsDeleted info s
  unfolding delete_parsed_volume
  delete_parsed_volume-ok info s = (forth, back)
    where
      forth : (delete_parsed_volume p info s).0 ≡ ok tt → IsDeleted info s
      forth h = elim (Outcome-cases (resolve_bsr p (params_of p info) s).0) [
        | inl (resp, e) ↦ inl (resp, e, destroy_resolved-ok resp info.path _ (rw (e, ◌>>=◌) at h))
        | inr (inl (x, e)) ↦ elim (Bool-cases (is_gone p x)) [
          | inl gone ↦ inr (x, e, gone)
          | inr there ↦ let bad = rw (e, there, ◌>>=◌) at h in cc bad
        ]
        | inr (inr e) ↦ let bad = rw (e, ◌>>=◌) at h in cc bad
      ]

      back : IsDeleted info s → (delete_parsed_volume p info s).0 ≡ ok tt
      back (inl (resp, e, gone)) = rw (e, ◌>>=◌) (destroyed-ok resp info.path _ gone)
      back (inr (x, e, gone)) = rw (e, gone, ◌>>=◌) refl
