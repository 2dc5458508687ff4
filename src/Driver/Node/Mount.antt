-- ===== src/Driver/Node/Mount.antt =====
-- `doMount`, `mountNFS` and `mountCIFS` of pkg/driver/nodeServer.go.
pub mod Attempts
pub mod Kept
use brickstor_csi_driver.Base.{
  ok, ℕ, zero, suc, Bool, true, false, not, ◌&&◌, List, [], ◌∷◌, ◌++◌, Text, codes, Eff, pure, fail,
  ◌>>=◌, ◌>>◌, Error, status, Code, internal, permission_denied, invalid_argument,
  failed_precondition, Attempt, value, failed, attempt, if◌then◌else◌, contains, error_text,
}
use brickstor_csi_driver.Bsr.Provider.{Dataset, ProviderInterface, default_smb_share_name}
use brickstor_csi_driver.Config.Validate.{fs_type_nfs, fs_type_cifs}
use brickstor_csi_driver.Driver.State.{Platform, State, lift}
use brickstor_csi_driver.Driver.Node.Host.{Host}
use brickstor_csi_driver.Driver.Node.Options.{
  nfs_options, contains_re, option_username, option_password, Pattern,
}

module _ {W : Type 0} (p : Platform W) (h : Host W) where
  -- "...'name'...: err"
  abbrev pub told : Text → Text → Text → Error → Text
  told before name after e = before ++ (name ++ (after ++ error_text p.grpc e))

  make_target : Text → Eff (State W) Bool
  make_target target = do
    r ← attempt (lift (h.mkdir_all target 0o750))
    elim r [
      | value u ↦ pure true
      | failed e ↦ fail (
          status internal
            (told (codes "Failed to mkdir to share target path '") target (codes "': ") e))
    ]

  -- Whether the target can be mounted on; a directory that is not there is made.
  unfoldable pub ready_target : Text → Eff (State W) Bool
  unfolding make_target
  ready_target target = do
    r ← attempt (lift (h.is_likely_not_mount_point target))
    elim r [
      | value free ↦ pure free
      | failed e ↦
          if h.is_not_exist e
          then make_target target
          else fail (
              status internal (
                told (codes "Cannot ensure that target path '") target
                  (codes "' can be used as a mount point: ") e))
    ]

  abbrev cannot_mount : Text → Text → Text → Text → Error → Text
  cannot_mount before source target after e =
      before ++ (source ++ (codes "' to '" ++ (target ++ (after ++ error_text p.grpc e))))

  -- `time.Sleep(time.Second)`
  abbrev pause : Eff (State W) (Unit {0})
  pause s = (ok tt, record s { world = p.sleep s.world })

  -- The loop of `doMount`: so many attempts more, and the error of the last one.
  unfoldable pub mount_loop : ℕ → Error → Text → Text → Text → List Text → Eff (State W) (Unit {0})
  mount_loop zero last source target fs options =
      fail (
        status internal (cannot_mount (codes "Failed to mount '") source target (codes "': ") last))
  mount_loop (suc n) last source target fs options = do
    r ← attempt (lift (h.mount source target fs options))
    elim r [
      | value u ↦ pure tt
      | failed e ↦
          let again = (do pause; mount_loop n e source target fs options) in
          if h.is_permission e
          then fail (
              status permission_denied
                (cannot_mount (codes "Permission denied to mount '") source target (codes "': ") e))
          else if contains (error_text p.grpc e) (codes "invalid argument")
          then fail (
              status invalid_argument (
                cannot_mount (codes "Cannot mount '") source target (codes "', invalid argument: ")
                  e))
          else again
    ]

  -- The error that the loop starts with is never told: the loop makes ten attempts.
  abbrev no_error : Error
  no_error = status internal []

  unfoldable pub mount_free : Text → Text → Text → List Text → Bool → Eff (State W) (Unit {0})
  unfolding mount_loop
  mount_free source target fs options free =
      if free
      then mount_loop 10 no_error source target fs options
      else fail (
          status internal (codes "Target path '" ++ (target ++ codes "' is already a mount point")))

  -- `doMount`
  unfoldable pub do_mount : Text → Text → Text → List Text → Eff (State W) (Unit {0})
  unfolding ready_target mount_free
  do_mount source target fs options = do
    free ← ready_target target
    mount_free source target fs options free

  -- A call on the BrickStor whose error is reported as internal.
  unfoldable pub or_internal : (Error → Text) → Eff W (Unit {0}) → Eff (State W) (Unit {0})
  or_internal report m = do
    r ← attempt (lift m)
    elim r [ value u ↦ pure tt | failed e ↦ fail (status internal (report e)) ]

  -- The share and the access rights, for a dataset that is not shared yet.
  unfoldable pub share_nfs : ProviderInterface W → Dataset → Bool → Eff (State W) (Unit {0})
  unfolding or_internal
  share_nfs b ds read_only = if ds.shared_over_nfs then pure tt else do
    or_internal (told (codes "Cannot share dataset '") ds.path (codes "' over NFS: "))
        (b.create_nfs_share ds.path [])
    or_internal (told (codes "Cannot set dataset ACL for '") ds.path (codes "': "))
        (b.set_dataset_acl ds.path read_only)

  -- `mountNFS`
  unfoldable pub mount_nfs :
      Text → Bool → ProviderInterface W → Dataset → Text → List Text → Eff (State W) (Unit {0})
  unfolding share_nfs nfs_options do_mount
  mount_nfs target read_only b ds ip options = do
    share_nfs b ds read_only
    do_mount (ip ++ b':' ∷ ds.mount_point) target fs_type_nfs (nfs_options options)

  need_option : Pattern → Text → List Text → Eff (State W) (Unit {0})
  need_option re text options =
      if contains_re options re
      then pure tt
      else fail (status failed_precondition (h.cifs_error text options))

  unfoldable pub share_smb : ProviderInterface W → Dataset → Bool → Eff (State W) (Unit {0})
  unfolding or_internal default_smb_share_name
  share_smb b ds read_only = if ds.shared_over_smb then pure tt else do
    or_internal (told (codes "Cannot share filesystem '") ds.path (codes "' over SMB: "))
        (b.create_smb_share ds.path (default_smb_share_name ds))
    or_internal (told (codes "cannot set dataset ACL for '") ds.path (codes "': "))
        (b.set_dataset_acl ds.path read_only)

  mount_smb_share :
      Text → ProviderInterface W → Dataset → Text → List Text → Eff (State W) (Unit {0})
  unfolding do_mount
  mount_smb_share target b ds ip options = do
    name ← lift (b.get_smb_share_name ds.path)
    do_mount (codes "//" ++ (ip ++ b'/' ∷ name)) target fs_type_cifs options

  -- `mountCIFS`
  unfoldable pub mount_cifs :
      Text → Bool → ProviderInterface W → Dataset → Text → List Text → Eff (State W) (Unit {0})
  unfolding need_option share_smb mount_smb_share
  mount_cifs target read_only b ds ip options = do
    need_option option_username (codes "^username=.+$") options
    need_option option_password (codes "^password=.+$") options
    share_smb b ds read_only
    mount_smb_share target b ds ip options
