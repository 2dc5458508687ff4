-- ===== src/Driver/State/Shared.antt =====
-- The servers of a process share the configuration, and each has its own resolver map.
use brickstor_csi_driver.Base.{
  ℕ, ◌≡◌, refl, ok, false, [], Text, is_empty, >>=-ok, pure, if◌then◌else◌,
}
use brickstor_csi_driver.Config.Refresh.Again.{refresh-again}
use brickstor_csi_driver.Driver.State.{
  Platform, State, refresh_shared, refresh_config, rebuild_controller,
}

module _ {W : Type 0} (p : Platform W) (t : ℕ) where
  -- When one server has refreshed the configuration, whatever came of it, and the file keeps its
  -- modification time, then `refreshConfig` of the controller succeeds and leaves its resolver map
  -- as it was before both: a change that another server has taken is not seen.
  pub refresh_config-after_shared :
      (s : State W)
      → is_empty s.config.file_path ≡ false
      → ((path : Text) (w : W) → (p.files.stat path w).0 ≡ ok t)
      → let other = refresh_shared p [] s in
        let mine = refresh_config p [] other.1 in
        (mine.0 ≡ ok tt) × (mine.1.controller ≡ s.controller) × (mine.1.config ≡ other.1.config)
  unfolding refresh_config refresh_shared
  refresh_config-after_shared s h stat =
      let (same, kept) = refresh-again p.grpc p.files t stat (s.config, s.world) h in
      let step =
        >>=-ok (refresh_shared p []) (λ b. if b then rebuild_controller p else pure tt)
          (refresh_shared p [] s).1 same in
      rw step (refl, refl, kept)
