-- ===== src/Driver/State/NodeRefresh.antt =====
-- Panics of `refreshConfig` of the node server.
use brickstor_csi_driver.Base.{
  ◌≡◌, ◌≢◌, refl, panic, true, false, inl, inr, Text, Eff, pure, if◌then◌else◌, Bool, >>=-ok,
  >>=-err, Outcome-cases, arith,
}
use brickstor_csi_driver.Config.Validate.Sound.{AllUsable}
use brickstor_csi_driver.Config.Refresh.Outcomes.{IsCalm}
use brickstor_csi_driver.Driver.State.{
  Platform, State, refresh_node_config, refresh_shared, rebuild_node,
}
use brickstor_csi_driver.Driver.State.NoPanic.{refresh_shared-IsSafe, new_resolver_map-ne-panic}

module _ {W : Type 0} (p : Platform W) where
  rebuild_node-ne-panic : (s : State W) → AllUsable s.config.node_map → (rebuild_node p s).0 ≢ panic
  unfolding rebuild_node
  rebuild_node-ne-panic s u h = ground (arith, new_resolver_map-ne-panic p s.config u)

  after_change : Bool → Eff (State W) (Unit {0})
  after_change changed = if changed then rebuild_node p else pure tt

  after_change-ne-panic :
      (changed : Bool) (s : State W)
      → (changed ≡ true → AllUsable s.config.node_map)
      → (after_change changed s).0 ≢ panic
  unfolding after_change
  after_change-ne-panic true s u = rebuild_node-ne-panic s (u refl)
  after_change-ne-panic false s u = λ bad. cc bad

  -- If the file system does not panic, then neither does `refreshConfig` of the node server.
  pub refresh_node_config-ne-panic :
      (secret : Text) (s : State W)
      → IsCalm p.grpc p.files
      → (refresh_node_config p secret s).0 ≢ panic
  unfolding refresh_node_config after_change
  refresh_node_config-ne-panic secret s calm =
      let r = refresh_shared p secret s in
      let (usable, no_panic) = refresh_shared-IsSafe p secret s calm in
      elim (Outcome-cases r.0) [
        | inl (changed, e) ↦
            rw (>>=-ok (refresh_shared p secret) after_change s e)
              (after_change-ne-panic changed r.1 (λ t. usable (rw t at e)))
        | inr (inl (x, e)) ↦ rw (>>=-err (refresh_shared p secret) after_change s e) (λ bad. cc bad)
        | inr (inr e) ↦ absurd (no_panic e)
      ]
