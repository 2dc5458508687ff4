-- ===== src/Driver/VolumeId/Laws.antt =====
-- `ParseVolumeID` and the ids that the controller makes.
use mathlib.Core.Path.{subst}
use brickstor_csi_driver.Base.{
  ◌≡◌, refl, List, [], ◌∷◌, Text, ok, split, join, Lacks, split-Lacks, split-append, join-split,
  split-AllLack, AllLack, ◌⊎◌, inl, inr,
}
use brickstor_csi_driver.Driver.VolumeId.{VolumeInfo, volume_info_of, parse_volume_id, volume_id}

-- An id made of a configuration name and a path without colons is parsed into the two, and a path
-- alone is parsed with no name.
pub parse_volume_id-volume_id :
    (config_name path : Text)
    → Lacks b':' config_name
    → Lacks b':' path
    → (parse_volume_id (volume_id config_name path)
        ≡ ok (record { config_name = config_name; path = path }))
      × (parse_volume_id path ≡ ok (record { config_name = []; path = path }))
unfolding parse_volume_id
parse_volume_id-volume_id config_name path hn hp = (
  rw (split-append b':' config_name path hn, split-Lacks b':' path hp) refl,
  rw (split-Lacks b':' path hp) refl,
)

ok-injective : {a b : VolumeInfo} → ok a ≡ ok b → a ≡ b
ok-injective h = cc

-- How an id was read: a path alone, or a name and a path with one colon between them.
abbrev pub ReadAs : Text → VolumeInfo → Type 0
ReadAs id v = ((id ≡ v.path) × (v.config_name ≡ [])) ⊎ (id ≡ volume_id v.config_name v.path)

info-ReadAs :
    (id : Text) (parts : List Text) (v : VolumeInfo)
    → AllLack b':' parts
    → volume_info_of id parts ≡ ok v
    → ReadAs (join (b':' ∷ []) parts) v × Lacks b':' v.config_name × Lacks b':' v.path
unfolding volume_info_of join
info-ReadAs id [] v h e = cc
info-ReadAs id (path ∷ []) v (hp, _) e =
    subst (λ w. ReadAs path w × Lacks b':' w.config_name × Lacks b':' w.path) (ok-injective e)
      (inl (refl, refl), tt, hp)
info-ReadAs id (name ∷ path ∷ []) v (hn, (hp, _)) e =
    subst (λ w. ReadAs (volume_id name path) w × Lacks b':' w.config_name × Lacks b':' w.path)
      (ok-injective e) (inr refl, hn, hp)
info-ReadAs id (a ∷ b ∷ c ∷ r) v h e = cc

-- An accepted id is its own path, or the name and the path that were read with a colon between
-- them; neither of the two holds a colon.
pub parse_volume_id_sound :
    (id : Text) (v : VolumeInfo)
    → parse_volume_id id ≡ ok v
    → ReadAs id v × Lacks b':' v.config_name × Lacks b':' v.path
unfolding parse_volume_id
parse_volume_id_sound id v e =
    rw (join-split b':' id) at (info-ReadAs id (split b':' id) v (split-AllLack b':' id) e)
