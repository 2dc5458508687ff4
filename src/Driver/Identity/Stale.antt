-- ===== src/Driver/Identity/Stale.antt =====
-- What `Probe` does to the controller, which shares the configuration.
use brickstor_csi_driver.Base.{
  ℕ, ◌≡◌, ◌>>=◌, refl, false, ok, [], Text, is_empty, inl, inr, Outcome-cases,
}
use brickstor_csi_driver.Driver.State.{Platform, State, refresh_shared, refresh_config}
use brickstor_csi_driver.Driver.State.Shared.{refresh_config-after_shared}
use brickstor_csi_driver.Driver.Identity.{probe}

module _ {W : Type 0} (p : Platform W) where
  probe-refreshes : (s : State W) → (probe p s).1 ≡ (refresh_shared p [] s).1
  unfolding probe
  probe-refreshes s = elim (Outcome-cases (refresh_shared p [] s).0) [
    | inl (changed, e) ↦ rw (e, ◌>>=◌) refl
    | inr (inl (x, e)) ↦ rw (e, ◌>>=◌) refl
    | inr (inr e) ↦ rw (e, ◌>>=◌) refl
  ]

  -- While the file keeps its modification time, the controller's `refreshConfig` after a `Probe`
  -- succeeds, leaves the configuration as `Probe` has made it, and leaves the resolver map as it was
  -- before `Probe`, also if `Probe` has taken a change of the file.
  pub refresh_config-probe :
      (t : ℕ) (s : State W)
      → is_empty s.config.file_path ≡ false
      → ((path : Text) (w : W) → (p.files.stat path w).0 ≡ ok t)
      → let probed = (probe p s).1 in
        let mine = refresh_config p [] probed in
        (mine.0 ≡ ok tt) × (mine.1.controller ≡ s.controller) × (mine.1.config ≡ probed.config)
  refresh_config-probe t s h stat =
      rw (probe-refreshes s) (refresh_config-after_shared p t s h stat)
