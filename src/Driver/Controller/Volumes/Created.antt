-- ===== src/Driver/Controller/Volumes/Created.antt =====
-- What a volume that `CreateVolume` answers with is.
use brickstor_csi_driver.Base.{
  ◌≡◌, ◌≢◌, refl, ap, sym, ◌∙◌, inl, inr, List, [], Text, codes, Option, none, some, ok, status,
  invalid_argument, Option-cases, is_empty, pure, >>=-ok-inv,
}
use brickstor_csi_driver.Config.Nodes.{BsrData}
use brickstor_csi_driver.Driver.Csi.{CreateVolumeRequest, VolumeCapability, Volume}
use brickstor_csi_driver.Driver.State.{Platform, State}
use brickstor_csi_driver.Driver.Controller.Capabilities.{first_unsupported}
use brickstor_csi_driver.Driver.Controller.Snapshots.{wait_for}
use brickstor_csi_driver.Driver.Controller.Volumes.{
  Placed, reject, requested, create_checked, create_refreshed, refreshed, create_named,
  create_by_source, finish_create, configured, share_if_asked, publish, configured_publish,
  created_volume, check_capabilities, create_volume,
}
use brickstor_csi_driver.Driver.Controller.Volumes.Placement.{
  AllSupported, first_unsupported-none, reject_passed, not_empty, is_empty-ne, IsIn,
  create_by_source-IsIn,
}

module _ {W : Type 0} (p : Platform W) where
  publish-created :
      (req : CreateVolumeRequest) (zone : Text) (w : Placed W) (cfg : BsrData) (s : State W)
      (v : Volume)
      → (publish p req zone w cfg s).0 ≡ ok v
      → v ≡ created_volume p req zone w cfg
  unfolding publish
  publish-created req zone w cfg s v h =
      let (u, shared, done) =
        >>=-ok-inv (share_if_asked p req w) (λ u. pure (created_volume p req zone w cfg)) s v h in
      cc done

  finish_create-created :
      (req : CreateVolumeRequest) (zone : Text) (w : Placed W) (s : State W) (v : Volume)
      → (finish_create p req zone w s).0 ≡ ok v
      → (cfg : BsrData) × (v ≡ created_volume p req zone w cfg)
  unfolding finish_create configured_publish
  finish_create-created req zone w s v h =
      let (u, seen, rest) =
        >>=-ok-inv (wait_for p 10 (w.resolved.bsr_provider.get_dataset w.volume_path))
          (λ u. configured_publish p req zone w) s v h in
      let (cfg, known, done) = >>=-ok-inv (configured p w) (publish p req zone w) _ v rest in
      (cfg, publish-created req zone w cfg _ v done)

  check_capabilities-AllSupported :
      (caps : Option (List VolumeCapability)) (s : State W)
      → (check_capabilities p caps s).0 ≡ ok tt
      → ((cs : List VolumeCapability) × (caps ≡ some cs) × AllSupported cs)
        × ((check_capabilities p caps s).1 ≡ s)
  unfolding check_capabilities
  check_capabilities-AllSupported none s h = cc
  check_capabilities-AllSupported (some cs) s h = elim (Option-cases (first_unsupported cs)) [
    | inl e ↦ rw (e, check_capabilities) ((cs, refl, first_unsupported-none cs e), refl)
    | inr (c, e) ↦ let bad = rw (e, check_capabilities) at h in cc bad
  ]

  -- What a volume that `CreateVolume` answers with is.
  abbrev pub IsCreated : CreateVolumeRequest → State W → Volume → Type 0
  IsCreated req s v =
      (w : Placed W) × (cfg : BsrData) × (v ≡ created_volume p req (requested p req).zone w cfg)
      × ((requested p req).zone ≢ [] → IsIn p (requested p req).zone s w.resolved.config_name)

  create_checked-IsCreated :
      (req : CreateVolumeRequest) (s : State W) (v : Volume)
      → (create_checked p req s).0 ≡ ok v
      → IsCreated req s v
  unfolding create_checked
  create_checked-IsCreated req s v h =
      let (w, made, rest) =
        >>=-ok-inv (create_by_source p req (requested p req) req.volume_content_source)
          (finish_create p req (requested p req).zone) s v h in
      let (cfg, same) = finish_create-created req (requested p req).zone w _ v rest in
      (
        w,
        cfg,
        same,
        λ zone.
            create_by_source-IsIn p req (requested p req) s w
              (not_empty (requested p req).zone zone) req.volume_content_source made,
      )

  -- If `CreateVolume` succeeds, then the request has a name and capabilities that are all
  -- supported, the volume is the one described by `created_volume` for some node and path, and if
  -- a zone is asked for then the configuration, as it is after the refresh, has the node in it.
  pub create_volume-IsCreated :
      (req : CreateVolumeRequest) (s : State W) (v : Volume)
      → (create_volume p req s).0 ≡ ok v
      → (req.name ≢ [])
        × ((cs : List VolumeCapability) × (req.volume_capabilities ≡ some cs) × AllSupported cs)
        × IsCreated req (refreshed p req s).1 v
  unfolding create_volume create_named create_refreshed
  create_volume-IsCreated req s v h =
      let (u, named, rest) =
        >>=-ok-inv
          (reject (is_empty req.name) (status invalid_argument (codes "req.Name must be provided")))
          (λ u. create_named p req) s v h in
      let (name, kept) = reject_passed (is_empty req.name) _ s named in
      let (u', fresh, rest') =
        >>=-ok-inv (refreshed p req) (λ u. create_refreshed p req) s v
          (ap (λ t. (create_named p req t).0) (sym kept) ∙ rest) in
      let (u'', checked, rest'') =
        >>=-ok-inv (check_capabilities p req.volume_capabilities) (λ u. create_checked p req)
          (refreshed p req s).1 v rest' in
      let (supported, still) = check_capabilities-AllSupported req.volume_capabilities _ checked in
      (
        is_empty-ne req.name name,
        supported,
        create_checked-IsCreated req _ v
            (ap (λ t. (create_checked p req t).0) (sym still) ∙ rest''),
      )
