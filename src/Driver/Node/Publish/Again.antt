-- ===== src/Driver/Node/Publish/Again.antt =====
-- Publishing a volume whose target is mounted already.
use brickstor_csi_driver.Base.{
  ◌≡◌, ◌∙◌, refl, ap, ok, err, true, false, List, [], ◌∷◌, ◌++◌, Text, codes, Code, status,
  internal, Grpc, arith, Bool, ℕ, contains, has_prefix, ◌>>=◌, >>=-to, Eff, text_eq_refl, Error,
  error_text, Bool-cases, inl, inr,
}
use brickstor_csi_driver.Bsr.Provider.{Dataset, ProviderInterface}
use brickstor_csi_driver.Config.Nodes.{BsrData}
use brickstor_csi_driver.Config.Validate.{fs_type_nfs}
use brickstor_csi_driver.Driver.Csi.{VolumeCapability}
use brickstor_csi_driver.Driver.State.{Platform, State, return}
use brickstor_csi_driver.Driver.Node.Host.{Host}
use brickstor_csi_driver.Driver.Node.Mount.{
  do_mount, ready_target, mount_free, mount_nfs, share_nfs,
}
use brickstor_csi_driver.Driver.Node.Options.{mount_options, fs_type, data_ip, nfs_options}
use brickstor_csi_driver.Driver.Node.Publish.{
  PublishRequest, finish_publish, mount_as, mount_unless_mounted, set_permissions,
  get_mount_point_permissions, publish_dataset,
}

-- The text of a status error ends in its message.
abbrev pub IsTold : Grpc → Type 0
IsTold g = (c : Code) (t : Text) → (before : Text) × (g.status_text c t ≡ before ++ t)

has_prefix-append : (s t : Text) → has_prefix (s ++ t) s ≡ true
unfolding has_prefix
has_prefix-append [] t = refl
has_prefix-append (c ∷ s) t = ground (arith, has_prefix-append s t)

contains_self : (s t : Text) → contains (s ++ t) s ≡ true
unfolding contains
contains_self [] [] = unfold has_prefix in refl
contains_self [] (c ∷ t) = unfold has_prefix in refl
contains_self (c ∷ s) t = rw (has_prefix-append (c ∷ s) t) refl

contains-behind : (a s : Text) (sub : Text) → contains s sub ≡ true → contains (a ++ s) sub ≡ true
unfolding contains
contains-behind [] s sub h = h
contains-behind (c ∷ a) s sub h = elim (Bool-cases (has_prefix (c ∷ (a ++ s)) sub)) [
  | inl e ↦ rw e refl
  | inr e ↦ rw e (contains-behind a s sub h)
]

module _ {W : Type 0} (p : Platform W) (h : Host W) where
  abbrev already : Text → Error
  already target =
      status internal (codes "Target path '" ++ (target ++ codes "' is already a mount point"))

  already-contains :
      (target : Text)
      → IsTold p.grpc
      → contains (error_text p.grpc (already target)) (codes "already a mount point") ≡ true
  already-contains target told =
      let (before, e) =
        told internal (codes "Target path '" ++ (target ++ codes "' is already a mount point")) in
      rw e (
        contains-behind before _ _ (
          contains-behind (codes "Target path '") _ _ (
            contains-behind target _ _ (
              contains-behind (codes "' is ") (codes "already a mount point") _
                (contains_self (codes "already a mount point") [])))))

  module _ (target : Text) (s : State W)
      (mounted : (h.is_likely_not_mount_point target s.world).0 ≡ ok false) where
    abbrev pub looked : State W
    looked = record s { world = (h.is_likely_not_mount_point target s.world).1 }

    target_ready : ready_target p h target s ≡ (ok false, looked)
    unfolding ready_target
    target_ready = rw (mounted, ◌>>=◌) refl

    do_mount-mounted :
        (source fs : Text) (options : List Text)
        → do_mount p h source target fs options s ≡ (err (already target), looked)
    unfolding do_mount mount_free
    do_mount-mounted source fs options =
        >>=-to (ready_target p h target) (mount_free p h source target fs options) s target_ready

    mount_nfs-mounted :
        (read_only : Bool) (b : ProviderInterface W) (ds : Dataset) (ip : Text)
        (options : List Text)
        → ds.shared_over_nfs ≡ true
        → mount_nfs p h target read_only b ds ip options s ≡ (err (already target), looked)
    unfolding mount_nfs share_nfs
    mount_nfs-mounted read_only b ds ip options shared =
        let mount =
          do_mount p h (ip ++ b':' ∷ ds.mount_point) target fs_type_nfs (nfs_options options) in
        >>=-to (share_nfs p h b ds read_only) (λ u. mount) s (rw shared refl)
        ∙ do_mount-mounted (ip ++ b':' ∷ ds.mount_point) fs_type_nfs (nfs_options options)

    tolerated :
        (m : Eff (State W) (Unit {0}))
        → IsTold p.grpc
        → m s ≡ (err (already target), looked)
        → mount_unless_mounted p h m s ≡ (ok tt, looked)
    unfolding mount_unless_mounted
    tolerated m told e =
        rw (ap (λ r. r.0) e, ap (λ r. r.1) e, already-contains target told, ◌>>=◌) refl

  mount_as-nfs :
      (fs target : Text) (read_only : Bool) (b : ProviderInterface W) (ds : Dataset) (ip : Text)
      (options : List Text) (s : State W)
      → fs ≡ fs_type_nfs
      → mount_as p h fs target read_only b ds ip options s
        ≡ mount_nfs p h target read_only b ds ip options s
  unfolding mount_as
  mount_as-nfs fs target read_only b ds ip options s e = rw (e, text_eq_refl fs_type_nfs) refl

  -- If the errors of gRPC end in their message, then the publishing of a dataset that is shared over
  -- NFS, to a target that is a mount point, comes to setting the permissions of the target: nothing
  -- is mounted, shared or made, and that the target is a mount point is no error.
  pub publish_dataset-mounted :
      (req : PublishRequest) (c : VolumeCapability) (cfg : BsrData) (b : ProviderInterface W)
      (ds : Dataset) (s : State W) (mode : ℕ)
      → IsTold p.grpc
      → fs_type req.volume_context cfg ≡ fs_type_nfs
      → ds.shared_over_nfs ≡ true
      → get_mount_point_permissions p h req.volume_context ≡ ok mode
      → (h.is_likely_not_mount_point req.target_path s.world).0 ≡ ok false
      → publish_dataset p h req c cfg b ds s
        ≡ set_permissions p h req.target_path
            (mount_options req.read_only c req.volume_context cfg)
            mode
            (record s { world = (h.is_likely_not_mount_point req.target_path s.world).1 })
  unfolding publish_dataset finish_publish
  publish_dataset-mounted req c cfg b ds s mode told nfs shared perms mounted =
      let options = mount_options req.read_only c req.volume_context cfg in
      let ip = data_ip req.volume_context cfg in
      let m =
        mount_as p h (fs_type req.volume_context cfg) req.target_path req.read_only b ds ip
          options in
      let after = looked req.target_path s mounted in
      let already_there : m s ≡ (err (already req.target_path), after) =
        mount_as-nfs _ req.target_path req.read_only b ds ip options s nfs
        ∙ mount_nfs-mounted req.target_path s mounted req.read_only b ds ip options shared in
      >>=-to (mount_unless_mounted p h m) (λ u. finish_publish p h req options) s
        (tolerated req.target_path s mounted m told already_there)
      ∙ >>=-to (return (get_mount_point_permissions p h req.volume_context))
          (set_permissions p h req.target_path options) after (rw perms refl)
