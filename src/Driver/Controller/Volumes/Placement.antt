-- ===== src/Driver/Controller/Volumes/Placement.antt =====
-- Where the three branches of `CreateVolume` put a volume.
use brickstor_csi_driver.Base.{
  ◌≡◌, ◌≢◌, refl, ap, sym, ◌∙◌, inl, inr, Bool, true, false, List, [], ◌∷◌, Text, codes, Option,
  none, some, arith, ok, Error, Bool-cases, is_empty, Eff, ◌>>=◌, >>=-ok-inv,
}
use brickstor_csi_driver.Config.Nodes.{BsrData, lookup}
use brickstor_csi_driver.Driver.Csi.{
  VolumeContentSource, from_snapshot, from_volume, from_other, CreateVolumeRequest,
  VolumeCapability,
}
use brickstor_csi_driver.Driver.VolumeId.{VolumeInfo}
use brickstor_csi_driver.Driver.State.{Platform, State}
use brickstor_csi_driver.Driver.Controller.Resolve.{
  ResolveParams, ResolveResponse, resolve_bsr_with_zone, resolve_bsr,
}
use brickstor_csi_driver.Driver.Controller.Resolve.Zone.{InZone, resolve_bsr_with_zone-InZone}
use brickstor_csi_driver.Driver.Controller.Capabilities.{
  first_unsupported, validate_volume_capability,
}
use brickstor_csi_driver.Driver.Controller.Volumes.{
  Placed, reject, wrong_format, fill_from_snapshot, place_from_snapshot, source_dataset,
  fill_from_volume, clone_from_volume, place_from_volume, fill_empty, place_empty,
  create_from_snapshot, create_from_volume, create_empty, create_by_source, default_node, parse_or,
}

abbrev pub AllSupported : List VolumeCapability → Type 0
AllSupported [] = Unit
AllSupported (c ∷ cs) = (validate_volume_capability c ≡ true) × AllSupported cs

pub first_unsupported-none :
    (cs : List VolumeCapability) → first_unsupported cs ≡ none → AllSupported cs
unfolding first_unsupported
first_unsupported-none [] h = tt
first_unsupported-none (c ∷ cs) h = elim (Bool-cases (validate_volume_capability c)) [
  | inl e ↦ (e, first_unsupported-none cs (rw e at h))
  | inr e ↦ let bad = rw e at h in cc bad
]

pub not_empty : (t : Text) → t ≢ [] → is_empty t ≡ false
not_empty [] h = absurd (h refl)
not_empty (c ∷ t) h = refl

pub is_empty-ne : (t : Text) → is_empty t ≡ false → t ≢ []
is_empty-ne t h e = ground arith

pub reject_passed :
    {S : Type 0} (b : Bool) (e : Error) (s : S)
    → (reject b e s).0 ≡ ok tt
    → (b ≡ false) × ((reject b e s).1 ≡ s)
reject_passed true e s h = cc
reject_passed false e s h = (refl, refl)

module _ {W : Type 0} (p : Platform W) where
  resolve_bsr-zone :
      (q : ResolveParams) (s : State W) (r : ResolveResponse W)
      → is_empty q.zone ≡ false
      → (resolve_bsr p q s).0 ≡ ok r
      → (resolve_bsr_with_zone p q s).0 ≡ ok r
  unfolding resolve_bsr
  resolve_bsr-zone q s r zone h = ground arith

  -- The node is in the zone, by the configuration of the state.
  abbrev pub IsIn : Text → State W → Text → Type 0
  IsIn zone s name = (d : BsrData) × (lookup name s.config.node_map ≡ some d) × (d.zone ≡ zone)

  resolve_bsr-IsIn :
      (q : ResolveParams) (s : State W) (r : ResolveResponse W)
      → is_empty q.zone ≡ false
      → (resolve_bsr p q s).0 ≡ ok r
      → IsIn q.zone s r.config_name
  resolve_bsr-IsIn q s r zone h =
      rw (resolve_bsr-zone q s r zone h, InZone) at (resolve_bsr_with_zone-InZone p q s)

  -- What is placed after a resolution is placed on the node that was resolved.
  resolved_then :
      (q : ResolveParams) (k : ResolveResponse W → Eff (State W) (Placed W)) (s : State W)
      (v : Placed W)
      → is_empty q.zone ≡ false
      → ((r : ResolveResponse W) (t : State W) → (k r t).0 ≡ ok v → r ≡ v.resolved)
      → ((resolve_bsr p q >>= k) s).0 ≡ ok v
      → IsIn q.zone s v.resolved.config_name
  resolved_then q k s v zone same h =
      let (r, found, after) = >>=-ok-inv (resolve_bsr p q) k s v h in
      rw (same r _ after) at (resolve_bsr-IsIn q s r zone found)

  pub parse_or-keeps :
      (report : Text → Error) (id : Text) (s : State W) → (parse_or p report id s).1 ≡ s
  unfolding parse_or
  parse_or-keeps report id s = ground arith

  -- A parsed id is followed by a resolution in the same state.
  parsed_then :
      {B : Type 0} (report : Text → Error) (id : Text) (k : VolumeInfo → Eff (State W) B)
      (s : State W) (v : B)
      → ((parse_or p report id >>= k) s).0 ≡ ok v
      → (info : VolumeInfo) × ((k info s).0 ≡ ok v)
  parsed_then report id k s v h =
      let (info, parsed, rest) = >>=-ok-inv (parse_or p report id) k s v h in
      (info, rw (parse_or-keeps report id s) at rest)

  -- What the last steps of each branch leave is placed on the node that they were given.
  module _ (req : CreateVolumeRequest) (r : ResolveResponse W) (t : State W) (v : Placed W) where
    fill_from_snapshot-resolved :
        (info : VolumeInfo) → (fill_from_snapshot p req info r t).0 ≡ ok v → r ≡ v.resolved
    unfolding fill_from_snapshot
    fill_from_snapshot-resolved info h = ground arith

    fill_from_volume-resolved :
        (id src : Text) → (fill_from_volume p req id r src t).0 ≡ ok v → r ≡ v.resolved
    unfolding fill_from_volume
    fill_from_volume-resolved id src h = ground arith

    fill_empty-resolved : (fill_empty p req r t).0 ≡ ok v → r ≡ v.resolved
    unfolding fill_empty
    fill_empty-resolved h = ground arith

  clone_from_volume-resolved :
      (req : CreateVolumeRequest) (r : ResolveResponse W) (t : State W) (v : Placed W) (id : Text)
      (info : VolumeInfo)
      → (clone_from_volume p req id info r t).0 ≡ ok v
      → r ≡ v.resolved
  unfolding clone_from_volume
  clone_from_volume-resolved req r t v id info h =
      let (src, sourced, after) =
        >>=-ok-inv (source_dataset p id r.dataset_path info.path) (fill_from_volume p req id r) t v
          h in
      fill_from_volume-resolved req r _ v id src after

  module _ (req : CreateVolumeRequest) (q : ResolveParams) (s : State W) (v : Placed W)
      (zone : is_empty q.zone ≡ false) where
    create_from_snapshot-IsIn :
        (id : Text)
        → (create_from_snapshot p req q id s).0 ≡ ok v
        → IsIn q.zone s v.resolved.config_name
    unfolding create_from_snapshot place_from_snapshot
    create_from_snapshot-IsIn id h =
        let (info, rest) =
          parsed_then (wrong_format p (codes "SnapshotId")) id (place_from_snapshot p req q) s v
            h in
        resolved_then (record q { config_name = info.config_name }) (fill_from_snapshot p req info)
          s v zone (λ r t e. fill_from_snapshot-resolved req r t v info e) rest

    create_from_volume-IsIn :
        (id : Text)
        → (create_from_volume p req q id s).0 ≡ ok v
        → IsIn q.zone s v.resolved.config_name
    unfolding create_from_volume place_from_volume
    create_from_volume-IsIn id h =
        let (info, rest) =
          parsed_then (wrong_format p (codes "VolumeId")) id (place_from_volume p req q id) s v h in
        resolved_then (record q { config_name = info.config_name })
          (clone_from_volume p req id info) s v zone
          (λ r t e. clone_from_volume-resolved req r t v id info e) rest

    default_node_lem :
        (q' : ResolveParams)
        → (default_node p q s).0 ≡ ok q'
        → (q'.zone ≡ q.zone) × ((default_node p q s).1 ≡ s)
    unfolding default_node
    default_node_lem q' h = ground arith

    place_empty-IsIn :
        (q' : ResolveParams)
        → q'.zone ≡ q.zone
        → (place_empty p req q' s).0 ≡ ok v
        → IsIn q.zone s v.resolved.config_name
    unfolding place_empty
    place_empty-IsIn q' same h = rw same at (
        resolved_then q' (fill_empty p req) s v (ap is_empty same ∙ zone)
          (λ r t e. fill_empty-resolved req r t v e) h)

    create_empty-IsIn : (create_empty p req q s).0 ≡ ok v → IsIn q.zone s v.resolved.config_name
    unfolding create_empty
    create_empty-IsIn h =
        let (q', chosen, rest) = >>=-ok-inv (default_node p q) (place_empty p req) s v h in
        let (same, kept) = default_node_lem q' chosen in
        place_empty-IsIn q' same (ap (λ t. (place_empty p req q' t).0) (sym kept) ∙ rest)

    pub create_by_source-IsIn :
        (source : Option VolumeContentSource)
        → (create_by_source p req q source s).0 ≡ ok v
        → IsIn q.zone s v.resolved.config_name
    unfolding create_by_source
    create_by_source-IsIn none h = create_empty-IsIn h
    create_by_source-IsIn (some (from_snapshot id)) h = elim (Bool-cases (is_empty id)) [
      | inl e ↦ create_empty-IsIn (rw e at h)
      | inr e ↦ create_from_snapshot-IsIn id (rw e at h)
    ]
    create_by_source-IsIn (some (from_volume id)) h = elim (Bool-cases (is_empty id)) [
      | inl e ↦ create_empty-IsIn (rw e at h)
      | inr e ↦ create_from_volume-IsIn id (rw e at h)
    ]
    create_by_source-IsIn (some from_other) h = cc
