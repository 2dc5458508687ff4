-- ===== src/Driver/Controller/Resolve.antt =====
-- `resolveBSR` and its two halves, of pkg/driver/controllerServer.go.
pub mod Kept
pub mod Zone
pub mod Codes
pub mod Unknown
use brickstor_csi_driver.Base.{
  ℕ, Bool, true, false, List, [], ◌∷◌, ◌++◌, Text, codes, Option, none, some, Eff, pure, fail,
  crash, ◌>>=◌, ◌>>◌, Error, status, Code, internal, not_found, failed_precondition,
  unauthenticated, Attempt, value, failed, attempt, if◌then◌else◌, is_empty, text_eq, contains,
  error_text, is_not_exist,
}
use brickstor_csi_driver.Bsr.Provider.{ProviderInterface}
use brickstor_csi_driver.Bsr.Resolver.{Resolver, resolve}
use brickstor_csi_driver.Config.Nodes.{BsrData, lookup, lookup_node}
use brickstor_csi_driver.Driver.State.{Platform, State, ResolverMap, lift, get_state}

pub record ResolveParams : Type 0 where
  pub dataset_path : Text
  pub zone : Text
  pub config_name : Text

pub record ResolveResponse (W : Type 0) : Type 0 where
  pub dataset_path : Text
  pub bsr_provider : ProviderInterface W
  pub config_name : Text

-- `fmt.Sprintf("%+v", params)`
abbrev params_text : ResolveParams → Text
params_text q =
    codes "{datasetPath:"
    ++ (q.dataset_path
        ++ (codes " zone:" ++ (q.zone ++ (codes " configName:" ++ (q.config_name ++ codes "}")))))

module _ {W : Type 0} (p : Platform W) where
  -- A node that has gone from the configuration.
  abbrev pub node_removed : Text → Error
  node_removed name = status not_found (codes "Node " ++ (name ++ codes " was removed"))

  -- What a loop over all resolvers ends with: the last error decides, and there may be none.
  unfoldable pub no_provider : ResolveParams → Option Error → Eff (State W) (ResolveResponse W)
  no_provider q none = crash
  no_provider q (some e) =
      if contains (error_text p.grpc e) (codes "unknown authority")
      then fail (
          status unauthenticated
            (p.format_alone (codes "TLS certificate check error: " ++ error_text p.grpc e)))
      else fail (
          status not_found
            (p.format_alone (codes "No bsrProvider found for params: " ++ params_text q)))

  -- The dataset to look for on a node: the one asked for, or the node's default.
  unfoldable pub dataset_on : Text → Text → Eff (State W) Text
  dataset_on dataset_path name = do
    s ← get_state
    if is_empty dataset_path
        then elim (lookup_node s.config name) [
          | none ↦ fail (node_removed name)
          | some d ↦ pure d.default_dataset
        ]
        else pure dataset_path

  -- `s.bsrResolverMap[name].Resolve(path)` for a named node; a missing resolver is nil, and so is
  -- the provider of a resolver with no nodes, whose address `resolveBSR` asks for.
  unfoldable pub resolve_named : Text → Text → Eff (State W) (ResolveResponse W)
  resolve_named path name = do
    s ← get_state
    elim (lookup name s.controller) [
      | none ↦ crash
      | some r ↦ do
        found ← lift (resolve r path)
        elim found [
          | none ↦ crash
          | some n ↦ pure (record { dataset_path = path; bsr_provider = n; config_name = name })
        ]
    ]

  -- One round of either loop: a node that has the dataset ends it, else the error is kept.
  abbrev pub ask :
      Text
      → Text
      → Resolver W
      → (Option Error → Eff (State W) (ResolveResponse W))
      → Eff (State W) (ResolveResponse W)
  ask path name r next = do
    found ← attempt (lift (resolve r path))
    elim found [
      | value none ↦ next none
      | value (some n) ↦ pure (record { dataset_path = path; bsr_provider = n; config_name = name })
      | failed e ↦ next (some e)
    ]

  -- The loop of `resolveBsrNoZone` over all resolvers.
  unfoldable pub search_all :
      ResolveParams → ResolverMap W → Option Error → Eff (State W) (ResolveResponse W)
  unfolding dataset_on no_provider
  search_all q [] last = no_provider q last
  search_all q ((name, r) ∷ m) last = do
    path ← dataset_on q.dataset_path name
    ask path name r (search_all q m)

  unfoldable pub resolve_bsr_no_zone : ResolveParams → Eff (State W) (ResolveResponse W)
  unfolding resolve_named search_all dataset_on
  resolve_bsr_no_zone q =
      if is_empty q.config_name
      then (do s ← get_state; search_all q s.controller none)
      else do path ← dataset_on q.dataset_path q.config_name; resolve_named path q.config_name

  -- The loop of `resolveBsrWithZone`: only nodes of the zone are asked.
  unfoldable pub search_zone :
      ResolveParams → ResolverMap W → Option Error → Eff (State W) (ResolveResponse W)
  unfolding no_provider
  search_zone q [] last = no_provider q last
  search_zone q ((name, r) ∷ m) last = do
    s ← get_state
    elim (lookup_node s.config name) [
      | none ↦ fail (node_removed name)
      | some d ↦
          let path = if is_empty q.dataset_path then d.default_dataset else q.dataset_path in
          let skip = search_zone q m last in
          let here = ask path name r (search_zone q m) in
          if text_eq q.zone d.zone then here else skip
    ]

  wrong_zone : ResolveParams → Error
  wrong_zone q = status failed_precondition (
      p.format_alone (
        codes "requested zone ["
        ++ (q.zone
            ++ (codes "] does not match requested BrickStor name ["
                ++ (q.config_name ++ codes "]")))))

  zone_of_named : ResolveParams → BsrData → Eff (State W) (ResolveResponse W)
  unfolding wrong_zone
  zone_of_named q d =
      if text_eq d.zone q.zone
      then (do path ← dataset_on q.dataset_path q.config_name; resolve_named path q.config_name)
      else fail (wrong_zone q)

  unfoldable pub resolve_bsr_with_zone : ResolveParams → Eff (State W) (ResolveResponse W)
  unfolding resolve_named search_zone dataset_on zone_of_named
  resolve_bsr_with_zone q = do
    s ← get_state
    if is_empty q.config_name
        then search_zone q s.controller none
        else elim (lookup_node s.config q.config_name) [
          | none ↦ fail (node_removed q.config_name)
          | some d ↦ zone_of_named q d
        ]

  -- The status with which `resolveBSR` reports an error of either half.
  unfoldable pub resolve_error : ResolveParams → Error → Error
  resolve_error q e = status (if is_not_exist p.grpc e then not_found else internal) (
      codes "Cannot resolve '"
      ++ (q.dataset_path ++ (codes "' on any BrickStor: " ++ error_text p.grpc e)))

  -- `resolveBSR`
  unfoldable pub resolve_bsr : ResolveParams → Eff (State W) (ResolveResponse W)
  unfolding resolve_bsr_no_zone resolve_bsr_with_zone resolve_error
  resolve_bsr q = do
    r ← attempt (if is_empty q.zone then resolve_bsr_no_zone q else resolve_bsr_with_zone q)
    elim r [ value resp ↦ pure resp | failed e ↦ fail (resolve_error q e) ]
