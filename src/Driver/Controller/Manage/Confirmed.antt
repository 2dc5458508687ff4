-- ===== src/Driver/Controller/Manage/Confirmed.antt =====
-- What `ValidateVolumeCapabilities` confirms.
use brickstor_csi_driver.Base.{
  Error, ◌≡◌, refl, ap, sym, ◌∙◌, inl, inr, List, Text, Option, none, some, ok, Outcome-cases,
  Option-cases, pure, ◌>>=◌, >>=-ok-inv, is_empty, codes,
}
use brickstor_csi_driver.Driver.VolumeId.{VolumeInfo, parse_volume_id}
use brickstor_csi_driver.Driver.Csi.{AccessMode, VolumeCapability, ValidateRequest}
use brickstor_csi_driver.Driver.State.{Platform, State}
use brickstor_csi_driver.Driver.Controller.Resolve.{ResolveResponse, resolve_bsr}
use brickstor_csi_driver.Driver.Controller.Capabilities.{first_unsupported, supported_modes}
use brickstor_csi_driver.Driver.Controller.Volumes.{parse_or, wrong_format, reject}
use brickstor_csi_driver.Driver.Controller.Volumes.Placement.{
  AllSupported, first_unsupported-none, reject_passed, parse_or-keeps,
}
use brickstor_csi_driver.Driver.Controller.Manage.{
  confirmed, params_of, provided, check_modes, resolve_existing, answer_modes, refreshed_for,
  validate_given, validate_parsed, validate_named, validate_volume_capabilities,
}

module _ {W : Type 0} (p : Platform W) (req : ValidateRequest) (modes : List AccessMode)
    (ctx : List (Text × Text)) where
  check_modes-confirmed :
      (caps : List VolumeCapability)
      → check_modes p req caps ≡ confirmed modes ctx
      → (modes ≡ supported_modes) × (ctx ≡ req.volume_context) × AllSupported caps
  unfolding check_modes
  check_modes-confirmed caps h = elim (Option-cases (first_unsupported caps)) [
    | inl e ↦
        let same : confirmed supported_modes req.volume_context ≡ confirmed modes ctx =
          rw (e, check_modes) at h in
        (cc, cc, first_unsupported-none caps e)
    | inr (c, e) ↦ let bad = rw (e, check_modes) at h in cc bad
  ]

  resolve_existing-ok :
      (info : VolumeInfo) (s : State W) (r : ResolveResponse W)
      → (resolve_existing p info s).0 ≡ ok r
      → (resolve_bsr p (params_of p info) s).0 ≡ ok r
  unfolding resolve_existing
  resolve_existing-ok info s r h = elim (Outcome-cases (resolve_bsr p (params_of p info) s).0) [
    | inl (r', e) ↦ let same : r' ≡ r = cc (rw (e, ◌>>=◌) at h) in rw same at e
    | inr (inl (x, e)) ↦ let bad = rw (e, ◌>>=◌) at h in cc bad
    | inr (inr e) ↦ let bad = rw (e, ◌>>=◌) at h in cc bad
  ]

  -- The volume with all its capabilities, in the state after the refresh.
  abbrev pub IsConfirmed : VolumeInfo → State W → Type 0
  IsConfirmed info s =
      (modes ≡ supported_modes)
      × (ctx ≡ req.volume_context)
      × ((caps : List VolumeCapability) × (req.volume_capabilities ≡ some caps) × AllSupported caps)
      × ((r : ResolveResponse W) × ((resolve_bsr p (params_of p info) s).0 ≡ ok r))

  validate_given-IsConfirmed :
      (info : VolumeInfo) (given : Option (List VolumeCapability)) (s : State W)
      → req.volume_capabilities ≡ given
      → (validate_given p req info given s).0 ≡ ok (confirmed modes ctx)
      → IsConfirmed info (refreshed_for p req s).1
  unfolding validate_given answer_modes
  validate_given-IsConfirmed info none s known h = cc
  validate_given-IsConfirmed info (some caps) s known h =
      let (u, fresh, rest) =
        >>=-ok-inv (refreshed_for p req) (λ u. answer_modes p req info caps) s (confirmed modes ctx)
          h in
      let (r, found, done) =
        >>=-ok-inv (resolve_existing p info) (λ r. pure (check_modes p req caps))
          (refreshed_for p req s).1 (confirmed modes ctx) rest in
      let answer : check_modes p req caps ≡ confirmed modes ctx = cc done in
      let (same, context, supported) = check_modes-confirmed caps answer in
      (same, context, (caps, known, supported), (r, resolve_existing-ok info _ r found))

  parse_or-ok :
      (report : Text → Error) (id : Text) (info : VolumeInfo) (s : State W)
      → (parse_or p report id s).0 ≡ ok info
      → parse_volume_id id ≡ ok info
  unfolding parse_or
  parse_or-ok report id info s h = elim (Outcome-cases (parse_volume_id id)) [
    | inl (i, e) ↦ let same : i ≡ info = cc (rw (e, parse_or) at h) in rw same at e
    | inr (inl (x, e)) ↦ let bad = rw (e, parse_or) at h in cc bad
    | inr (inr e) ↦ let bad = rw (e, parse_or) at h in cc bad
  ]

  -- If `ValidateVolumeCapabilities` confirms, then the id is read, all capabilities of the request
  -- are supported, the volume is resolved on a BrickStor after the refresh, and the answer holds
  -- the supported modes and the context of the request.
  pub validate_volume_capabilities-IsConfirmed :
      (s : State W)
      → (validate_volume_capabilities p req s).0 ≡ ok (confirmed modes ctx)
      → (info : VolumeInfo) × (parse_volume_id req.volume_id ≡ ok info)
        × IsConfirmed info (refreshed_for p req s).1
  unfolding validate_volume_capabilities validate_named validate_parsed
  validate_volume_capabilities-IsConfirmed s h =
      let (u, named, rest) =
        >>=-ok-inv (reject (is_empty req.volume_id) (provided p)) (λ u. validate_named p req) s
          (confirmed modes ctx) h in
      let (name, kept) = reject_passed (is_empty req.volume_id) (provided p) s named in
      let report = wrong_format p (codes "VolumeId") in
      let (info, parsed, rest') =
        >>=-ok-inv (parse_or p report req.volume_id) (validate_parsed p req) s (confirmed modes ctx)
          (ap (λ t. (validate_named p req t).0) (sym kept) ∙ rest) in
      (
        info,
        parse_or-ok report req.volume_id info s parsed,
        validate_given-IsConfirmed info req.volume_capabilities s refl (
            ap (λ t. (validate_parsed p req info t).0)
              (sym (parse_or-keeps p report req.volume_id s))
            ∙ rest'),
      )
