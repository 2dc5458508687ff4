-- ===== src/Driver/Node/Resolve.antt =====
-- What the node server's handlers begin with: the refresh, the volume id, and `resolveBSR`, of
-- pkg/driver/nodeServer.go.
pub mod Unknown
pub mod Kept
use brickstor_csi_driver.Base.{
  Bool, true, false, ◌++◌, Text, codes, Option, none, some, Eff, pure, fail, crash, ◌>>=◌, ◌>>◌, ok,
  err, panic, Outcome, Error, status, Code, internal, not_found, invalid_argument,
  failed_precondition, Attempt, value, failed, attempt, if◌then◌else◌, error_text, is_not_exist,
}
use brickstor_csi_driver.Bsr.Provider.{ProviderInterface}
use brickstor_csi_driver.Bsr.Resolver.{Resolver, resolve}
use brickstor_csi_driver.Config.Nodes.{lookup}
use brickstor_csi_driver.Driver.VolumeId.{VolumeInfo, parse_volume_id}
use brickstor_csi_driver.Driver.State.{
  Platform, State, lift, return, get_state, refresh_node_config,
}

abbrev pub must_be_given : Text → Error
must_be_given what = status invalid_argument (what ++ codes " must be provided")

module _ {W : Type 0} (p : Platform W) where
  -- `s.bsrResolverMap[name].Resolve(path)`: a missing resolver is nil, and is dereferenced.
  unfoldable pub resolver_call :
      Option (Resolver W) → Text → Eff (State W) (Option (ProviderInterface W))
  resolver_call none path = crash
  resolver_call (some r) path = lift (resolve r path)

  -- `resolveBSR` of the node server; the provider of a resolver with no nodes is nil.
  unfoldable pub node_resolve_bsr : Text → Text → Eff (State W) (Option (ProviderInterface W))
  unfolding resolver_call
  node_resolve_bsr name path = do
    s ← get_state
    r ← attempt (resolver_call (lookup name s.node) path)
    elim r [
      | value found ↦ pure found
      | failed e ↦ fail (
          status (if is_not_exist p.grpc e then not_found else internal) (
            codes "Cannot resolve '"
            ++ (path ++ (codes "' on any BrickStor: " ++ error_text p.grpc e))))
    ]

  -- A provider that a method is called on.
  abbrev pub not_nil : Option (ProviderInterface W) → Eff (State W) (ProviderInterface W)
  not_nil none = crash
  not_nil (some b) = pure b

  -- The refresh at the start of a handler.
  unfoldable pub refresh_node_or_fail : Text → Eff (State W) (Unit {0})
  refresh_node_or_fail secret = do
    r ← attempt (refresh_node_config p secret)
    elim r [
      | value u ↦ pure tt
      | failed e ↦
          fail
            (status failed_precondition (codes "Cannot use config file: " ++ error_text p.grpc e))
    ]

  read_parsed : Text → Outcome VolumeInfo → Outcome VolumeInfo
  read_parsed id (ok info) = ok info
  read_parsed id (err e) = err (status not_found (codes "VolumeId is in wrong format: " ++ id))
  read_parsed id panic = panic

  -- The volume id, whose own error is replaced.
  unfoldable pub read_volume_id : Text → Eff (State W) VolumeInfo
  unfolding read_parsed
  read_volume_id id = return (read_parsed id (parse_volume_id id))

  -- A call on the BrickStor whose error is told as a missing file system.
  unfoldable pub or_no_filesystem : {A : Type 0} → Text → Eff W A → Eff (State W) A
  or_no_filesystem what m = do
    r ← attempt (lift m)
    elim r [
      | value a ↦ pure a
      | failed e ↦ fail (
          status not_found
            (codes "Cannot find filesystem '" ++ (what ++ (codes "': " ++ error_text p.grpc e))))
    ]
