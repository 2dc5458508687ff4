-- ===== src/Driver/Node/Mount/Kept.antt =====
-- A mount changes nothing of the state but the world.
use brickstor_csi_driver.Base.{
  zero, suc, ℕ, Bool, ◌∷◌, [], List, ◌++◌, Text, codes, Eff, pure, ◌>>◌, Error, Keeps, >>=-Keeps,
  if-Keeps, recover-Keeps, if◌then◌else◌, contains, error_text,
}
use brickstor_csi_driver.Bsr.Provider.{Dataset, ProviderInterface, default_smb_share_name}
use brickstor_csi_driver.Config.Validate.{fs_type_nfs, fs_type_cifs}
use brickstor_csi_driver.Driver.State.{Platform, State, lift}
use brickstor_csi_driver.Driver.State.Kept.{IsInner, lift-Keeps}
use brickstor_csi_driver.Driver.Node.Host.{Host}
use brickstor_csi_driver.Driver.Node.Options.{
  Pattern, contains_re, option_username, option_password, nfs_options,
}
use brickstor_csi_driver.Driver.Node.Mount.{
  make_target, ready_target, pause, mount_loop, mount_free, no_error, do_mount, or_internal,
  share_nfs, mount_nfs, need_option, share_smb, mount_smb_share, mount_cifs,
}

module _ {W : Type 0} (p : Platform W) (h : Host W) (I : State W → Type 0) (inner : IsInner I) where
  make_target-Keeps : (target : Text) → Keeps I (make_target p h target)
  unfolding make_target
  make_target-Keeps target =
      recover-Keeps I (lift (h.mkdir_all target 0o750)) _ _
        (lift-Keeps I inner (h.mkdir_all target 0o750)) (λ u s i. i) (λ e s i. i)

  ready_target-Keeps : (target : Text) → Keeps I (ready_target p h target)
  unfolding ready_target
  ready_target-Keeps target =
      recover-Keeps I (lift (h.is_likely_not_mount_point target)) _ _
        (lift-Keeps I inner (h.is_likely_not_mount_point target)) (λ u s i. i)
        (λ e. if-Keeps I (h.is_not_exist e) _ _ (make_target-Keeps target) (λ s i. i))

  mount_loop-Keeps :
      (n : ℕ) (last : Error) (source target fs : Text) (options : List Text)
      → Keeps I (mount_loop p h n last source target fs options)
  unfolding mount_loop
  mount_loop-Keeps zero last source target fs options = λ s i. i
  mount_loop-Keeps (suc n) last source target fs options =
      recover-Keeps I (lift (h.mount source target fs options)) _ _
        (lift-Keeps I inner (h.mount source target fs options)) (λ u s i. i)
        (λ e.
          if-Keeps I (h.is_permission e) _ _ (λ s i. i)
            (if-Keeps I (contains (error_text p.grpc e) (codes "invalid argument")) _ _ (λ s i. i)
              (>>=-Keeps I (pause p h) (λ u. mount_loop p h n e source target fs options)
                (λ s i. inner s (p.sleep s.world) i)
                (λ u. mount_loop-Keeps n e source target fs options))))

  do_mount-Keeps :
      (source target fs : Text) (options : List Text)
      → Keeps I (do_mount p h source target fs options)
  unfolding do_mount mount_free
  do_mount-Keeps source target fs options =
      >>=-Keeps I (ready_target p h target) (mount_free p h source target fs options)
        (ready_target-Keeps target)
        (λ free.
          if-Keeps I free _ _ (mount_loop-Keeps 10 (no_error p h) source target fs options)
            (λ s i. i))

  or_internal-Keeps :
      (report : Error → Text) (m : Eff W (Unit {0})) → Keeps I (or_internal p h report m)
  unfolding or_internal
  or_internal-Keeps report m =
      recover-Keeps I (lift m) _ _ (lift-Keeps I inner m) (λ u s i. i) (λ e s i. i)

  shared_by :
      (shared : Bool) (f g : Error → Text) (m n : Eff W (Unit {0}))
      → Keeps I (if shared then pure tt else or_internal p h f m >> or_internal p h g n)
  shared_by shared f g m n =
      if-Keeps I shared (pure tt) _ (λ s i. i)
        (>>=-Keeps I (or_internal p h f m) (λ u. or_internal p h g n) (or_internal-Keeps f m)
          (λ u. or_internal-Keeps g n))

  pub mount_nfs-Keeps :
      (target : Text) (ro : Bool) (b : ProviderInterface W) (ds : Dataset) (ip : Text)
      (options : List Text)
      → Keeps I (mount_nfs p h target ro b ds ip options)
  unfolding mount_nfs share_nfs
  mount_nfs-Keeps target ro b ds ip options =
      >>=-Keeps I (share_nfs p h b ds ro)
        (λ u. do_mount p h (ip ++ b':' ∷ ds.mount_point) target fs_type_nfs (nfs_options options))
        (shared_by ds.shared_over_nfs _ _ (b.create_nfs_share ds.path [])
          (b.set_dataset_acl ds.path ro))
        (λ u. do_mount-Keeps (ip ++ b':' ∷ ds.mount_point) target fs_type_nfs (nfs_options options))

  need_option-Keeps :
      (re : Pattern) (text : Text) (options : List Text) → Keeps I (need_option p h re text options)
  unfolding need_option
  need_option-Keeps re text options = if-Keeps I (contains_re options re) _ _ (λ s i. i) (λ s i. i)

  mount_smb_share-Keeps :
      (target : Text) (b : ProviderInterface W) (ds : Dataset) (ip : Text) (options : List Text)
      → Keeps I (mount_smb_share p h target b ds ip options)
  unfolding mount_smb_share
  mount_smb_share-Keeps target b ds ip options =
      >>=-Keeps I (lift (b.get_smb_share_name ds.path))
        (λ name. do_mount p h (codes "//" ++ (ip ++ b'/' ∷ name)) target fs_type_cifs options)
        (lift-Keeps I inner (b.get_smb_share_name ds.path))
        (λ name. do_mount-Keeps (codes "//" ++ (ip ++ b'/' ∷ name)) target fs_type_cifs options)

  pub mount_cifs-Keeps :
      (target : Text) (ro : Bool) (b : ProviderInterface W) (ds : Dataset) (ip : Text)
      (options : List Text)
      → Keeps I (mount_cifs p h target ro b ds ip options)
  unfolding mount_cifs share_smb
  mount_cifs-Keeps target ro b ds ip options =
      let mounted =
        >>=-Keeps I (share_smb p h b ds ro) (λ u. mount_smb_share p h target b ds ip options)
          (shared_by ds.shared_over_smb _ _ (b.create_smb_share ds.path (default_smb_share_name ds))
            (b.set_dataset_acl ds.path ro))
          (λ u. mount_smb_share-Keeps target b ds ip options) in
      let told_password =
        >>=-Keeps I (need_option p h option_password (codes "^password=.+$") options)
          (λ u. share_smb p h b ds ro >> mount_smb_share p h target b ds ip options)
          (need_option-Keeps option_password (codes "^password=.+$") options) (λ u. mounted) in
      >>=-Keeps I (need_option p h option_username (codes "^username=.+$") options)
        (λ u.
          need_option p h option_password (codes "^password=.+$") options
          >> (share_smb p h b ds ro >> mount_smb_share p h target b ds ip options))
        (need_option-Keeps option_username (codes "^username=.+$") options) (λ u. told_password)
