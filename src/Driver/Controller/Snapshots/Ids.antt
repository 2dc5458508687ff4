-- ===== src/Driver/Controller/Snapshots/Ids.antt =====
-- The ids of snapshots, as `CreateSnapshot` makes and `DeleteSnapshot` reads them.
use brickstor_csi_driver.Base.{
  ℕ, arith, ◌≢◌, ◌>>=◌, ◌>>◌, ◌≡◌, refl, ap, sym, ◌∙◌, inl, inr, true, false, [], ◌∷◌, Text, codes,
  none, some, ok, Eff, pure, fail, append_assoc, Lacks, split, split-append, split-Lacks,
  Bool-cases, Option-cases, Outcome-cases, >>=-ok-inv, >>=-ok, >>=-err, >>=-panic, status,
  invalid_argument, is_empty, if◌then◌else◌, failed_precondition,
}
use brickstor_csi_driver.Bsr.Resolver.{resolve}
use brickstor_csi_driver.Config.Nodes.{lookup}
use brickstor_csi_driver.Driver.Csi.{CreateSnapshotRequest, CsiSnapshot}
use brickstor_csi_driver.Driver.VolumeId.{VolumeInfo, parse_volume_id, volume_id, snapshot_path}
use brickstor_csi_driver.Driver.VolumeId.Laws.{parse_volume_id-volume_id, parse_volume_id_sound}
use brickstor_csi_driver.Driver.State.{Platform, State}
use brickstor_csi_driver.Driver.Controller.Resolve.{
  ResolveParams, ResolveResponse, resolve_named, dataset_on, resolve_bsr_no_zone, resolve_bsr,
}
use brickstor_csi_driver.Driver.Controller.Snapshots.{
  refresh_or, cannot_use_config, create_snapshot_on_bsr, answer_snapshot, snapshot_volume,
  snapshot_parsed, snapshot_refreshed, create_snapshot, delete_known, delete_parsed, delete_parts,
  delete_snapshot,
}

Lacks-volume_id :
    (b : ℕ) (name path : Text)
    → Lacks b name
    → b':' ≢ b
    → Lacks b path
    → Lacks b (volume_id name path)
Lacks-volume_id b [] path hn colon hp = (colon, hp)
Lacks-volume_id b (c ∷ name) path (h, hn) colon hp = (h, Lacks-volume_id b name path hn colon hp)

split-snapshot_id :
    (config_name path name : Text)
    → Lacks b'@' config_name
    → Lacks b'@' path
    → Lacks b'@' name
    → split b'@' (volume_id config_name (snapshot_path path name))
      ≡ volume_id config_name path ∷ name ∷ []
split-snapshot_id config_name path name hc hp hn =
    ap (split b'@') (sym (append_assoc config_name (b':' ∷ path) (b'@' ∷ name)))
    ∙ split-append b'@' (volume_id config_name path) name
        (Lacks-volume_id b'@' config_name path hc (λ q. omega (arith, q)) hp)
    ∙ ap (λ l. volume_id config_name path ∷ l) (split-Lacks b'@' name hn)

-- A computation goes on the same if what follows is the same.
>>=-same :
    {S A B : Type 0} (m : Eff S A) (k l : A → Eff S B) (s : S)
    → ((a : A) (t : S) → k a t ≡ l a t)
    → (m >>= k) s ≡ (m >>= l) s
>>=-same m k l s same = elim (Outcome-cases (m s).0) [
  | inl (a, e) ↦ >>=-ok m k s e ∙ same a (m s).1 ∙ sym (>>=-ok m l s e)
  | inr (inl (x, e)) ↦ >>=-err m k s e ∙ sym (>>=-err m l s e)
  | inr (inr e) ↦ >>=-panic m k s e ∙ sym (>>=-panic m l s e)
]

module _ {W : Type 0} (p : Platform W) where
  delete_parsed-volume_id :
      (config_name path name : Text) (s : State W)
      → Lacks b':' config_name
      → Lacks b':' path
      → delete_parsed p (volume_id config_name path) name s
        ≡ delete_known p (record { config_name = config_name; path = path }) name s
  unfolding delete_parsed
  delete_parsed-volume_id config_name path name s hc hp =
      rw ((parse_volume_id-volume_id config_name path hc hp).0, ◌>>=◌) refl

  delete_parts-snapshot_id :
      (config_name path name : Text) (s : State W)
      → Lacks b':' config_name
      → Lacks b'@' config_name
      → Lacks b':' path
      → Lacks b'@' path
      → Lacks b'@' name
      → delete_parts p (split b'@' (volume_id config_name (snapshot_path path name))) s
        ≡ delete_known p (record { config_name = config_name; path = path }) name s
  unfolding delete_parts
  delete_parts-snapshot_id config_name path name s hc hc' hp hp' hn =
      rw (split-snapshot_id config_name path name hc' hp' hn)
        (delete_parsed-volume_id config_name path name s hc hp)

  module _ (config_name : Text) where
    -- The answer of a named BrickStor carries its name.
    resolve_named-name :
        (path : Text) (resp : ResolveResponse W) (s : State W)
        → (resolve_named p path config_name s).0 ≡ ok resp
        → resp.config_name ≡ config_name
    unfolding resolve_named
    resolve_named-name path resp s h = elim (Option-cases (lookup config_name s.controller)) [
      | inl e ↦ let bad = rw (e, ◌>>=◌) at h in cc bad
      | inr (r, e) ↦ elim (Outcome-cases (resolve r path s.world).0) [
        | inl (none, f) ↦ let bad = rw (e, ◌>>=◌, f) at h in cc bad
        | inl (some n, f) ↦ let same = rw (e, ◌>>=◌, f) at h in cc same
        | inr (inl (x, f)) ↦ let bad = rw (e, ◌>>=◌, f) at h in cc bad
        | inr (inr f) ↦ let bad = rw (e, ◌>>=◌, f) at h in cc bad
      ]
    ]

    abbrev params : Text → ResolveParams
    params path = record { dataset_path = path; zone = []; config_name = config_name }

    resolve_bsr_no_zone-name :
        (path : Text) (resp : ResolveResponse W) (s : State W)
        → is_empty config_name ≡ false
        → (resolve_bsr_no_zone p (params path) s).0 ≡ ok resp
        → resp.config_name ≡ config_name
    unfolding resolve_bsr_no_zone
    resolve_bsr_no_zone-name path resp s named h =
        let (path', found, rest) =
          >>=-ok-inv (dataset_on p path config_name) (λ d. resolve_named p d config_name) s resp
            (rw named at h) in
        resolve_named-name path' resp (dataset_on p path config_name s).1 rest

    resolve_bsr-name :
        (path : Text) (resp : ResolveResponse W) (s : State W)
        → is_empty config_name ≡ false
        → (resolve_bsr p (params path) s).0 ≡ ok resp
        → resp.config_name ≡ config_name
    unfolding resolve_bsr
    resolve_bsr-name path resp s named h =
        elim (Outcome-cases (resolve_bsr_no_zone p (params path) s).0) [
          | inl (r, e) ↦
              let same : r ≡ resp = cc (rw (◌>>=◌, e) at h) in
              rw same at (resolve_bsr_no_zone-name path r s named e)
          | inr (inl (x, e)) ↦ let bad = rw (◌>>=◌, e) at h in cc bad
          | inr (inr e) ↦ let bad = rw (◌>>=◌, e) at h in cc bad
        ]

  module _ (req : CreateSnapshotRequest) (info : VolumeInfo) (made : CsiSnapshot) where
    -- The id of a snapshot that is made for a volume of a named BrickStor.
    abbrev own_id : Text
    own_id = volume_id info.config_name (snapshot_path info.path req.name)

    answer_snapshot-id :
        (resp : ResolveResponse W) (s : State W)
        → resp.config_name ≡ info.config_name
        → (answer_snapshot p req info resp s).0 ≡ ok made
        → made.snapshot_id ≡ own_id
    unfolding answer_snapshot
    answer_snapshot-id resp s named h =
        let (snap, found, done) =
          >>=-ok-inv (create_snapshot_on_bsr p resp info.path req.name)
            (λ snap. pure (record {
              snapshot_id = volume_id resp.config_name (snapshot_path info.path req.name);
              source_volume_id = req.source_volume_id;
              creation_time = snap.creation_time;
              ready_to_use = true;
            }))
            s made h in
        let id : volume_id resp.config_name (snapshot_path info.path req.name) ≡ made.snapshot_id =
          cc done in
        sym id ∙ ap (λ c. volume_id c (snapshot_path info.path req.name)) named

    snapshot_parsed-id :
        (s : State W)
        → is_empty info.config_name ≡ false
        → (snapshot_parsed p req info s).0 ≡ ok made
        → made.snapshot_id ≡ own_id
    unfolding snapshot_parsed snapshot_volume
    snapshot_parsed-id s named h = elim (Bool-cases (is_empty req.name)) [
      | inl e ↦ let bad = rw e at h in cc bad
      | inr e ↦
          let at = params info.config_name info.path in
          let (resp, found, rest) =
            >>=-ok-inv (resolve_bsr p at) (answer_snapshot p req info) s made (rw e at h) in
          answer_snapshot-id resp (resolve_bsr p at s).1
            (resolve_bsr-name info.config_name info.path resp s named found) rest
    ]

    snapshot_refreshed-id :
        (s : State W)
        → parse_volume_id req.source_volume_id ≡ ok info
        → is_empty info.config_name ≡ false
        → (snapshot_refreshed p req s).0 ≡ ok made
        → made.snapshot_id ≡ own_id
    unfolding snapshot_refreshed
    snapshot_refreshed-id s parsed named h = elim (Bool-cases (is_empty req.source_volume_id)) [
      | inl e ↦ let bad = rw e at h in cc bad
      | inr e ↦ snapshot_parsed-id s named (rw (e, parsed, ◌>>=◌) at h)
    ]

    create_snapshot-id :
        (s : State W)
        → parse_volume_id req.source_volume_id ≡ ok info
        → is_empty info.config_name ≡ false
        → (create_snapshot p req s).0 ≡ ok made
        → made.snapshot_id ≡ own_id
    unfolding create_snapshot
    create_snapshot-id s parsed named h =
        let refresh = refresh_or p (cannot_use_config p failed_precondition) [] in
        let (u, fresh, rest) = >>=-ok-inv refresh (λ u. snapshot_refreshed p req) s made h in
        snapshot_refreshed-id (refresh s).1 parsed named rest

    volume_id-nonempty : (name path : Text) → is_empty (volume_id name path) ≡ false
    volume_id-nonempty [] path = refl
    volume_id-nonempty (c ∷ name) path = refl

    -- For a volume id that names its BrickStor, `DeleteSnapshot` reads the id that `CreateSnapshot`
    -- answers with as that BrickStor, the volume's dataset and the name asked for: in any later
    -- state it refreshes and then deletes that snapshot. None of the three texts may hold an "@".
    pub delete_snapshot-create_snapshot :
        (s later : State W)
        → parse_volume_id req.source_volume_id ≡ ok info
        → is_empty info.config_name ≡ false
        → Lacks b'@' info.config_name
        → Lacks b'@' info.path
        → Lacks b'@' req.name
        → (create_snapshot p req s).0 ≡ ok made
        → delete_snapshot p made.snapshot_id later
          ≡ (refresh_or p (cannot_use_config p failed_precondition) []
                >> delete_known p info req.name)
              later
    unfolding delete_snapshot
    delete_snapshot-create_snapshot s later parsed named hc hp hn h =
        let (read, no_colon, no_colon') = parse_volume_id_sound req.source_volume_id info parsed in
        let same = create_snapshot-id s parsed named h in
        >>=-same (refresh_or p (cannot_use_config p failed_precondition) [])
          (λ u.
            if is_empty made.snapshot_id
            then fail (status invalid_argument (codes "Snapshot ID must be provided"))
            else delete_parts p (split b'@' made.snapshot_id))
          (λ u. delete_known p info req.name) later
          (λ u t.
            rw (same, volume_id-nonempty info.config_name (snapshot_path info.path req.name))
              (delete_parts-snapshot_id info.config_name info.path req.name t no_colon hc no_colon'
                hp hn))
