-- ===== src/Tests.antt =====
-- The theorems at concrete inputs, over a world without state: a platform whose configuration file
-- always holds the same two nodes, and nodes whose answers are given.
mod Fixture
mod Controller
mod Lists
mod Pages
mod Node
mod Client
use brickstor_csi_driver.Base.{
  split, has_prefix, cut_first, text_eq, ℕ, suc, ◌≡◌, ◌≢◌, ◌<◌, refl, true, inr, List, [], ◌∷◌,
  Text, codes, none, some, ok, err, panic, plain, pos, ℤ, ◌^◌, arith, Lacks, map, drop,
}
use brickstor_csi_driver.Tests.Fixture.{platform, nodes, config, state, has, lacks, calm}
use brickstor_csi_driver.Bsr.Resolver.{Resolver, resolve}
use brickstor_csi_driver.Bsr.Resolver.Chosen.{IsFirst, resolve-IsFirst}
use brickstor_csi_driver.Config.Validate.{is_address, contains_string, validate}
use brickstor_csi_driver.Config.Validate.Sound.{AllUsable, validate_sound}
use brickstor_csi_driver.Config.Refresh.{refresh}
use brickstor_csi_driver.Config.Refresh.Outcomes.{IsSafe, refresh-IsSafe}
use brickstor_csi_driver.Driver.State.{refresh_config}
use brickstor_csi_driver.Driver.State.NoPanic.{refresh_config-ne-panic}
use brickstor_csi_driver.Driver.VolumeId.{VolumeInfo, parse_volume_id, volume_id}
use brickstor_csi_driver.Driver.VolumeId.Laws.{
  ReadAs, parse_volume_id-volume_id, parse_volume_id_sound,
}
use brickstor_csi_driver.Driver.Paging.{get_paging_values, index_of, page_entries, token}
use brickstor_csi_driver.Driver.Paging.Tokens.{get_paging_values-token}
use brickstor_csi_driver.Driver.Paging.Pages.{take, page_entries-take}
use brickstor_csi_driver.Driver.Controller.Resolve.{ResolveParams, resolve_bsr_with_zone}
use brickstor_csi_driver.Driver.Controller.Resolve.Zone.{InZone, resolve_bsr_with_zone-InZone}

found : resolve (record { nodes = lacks ∷ has ∷ [] }) (codes "p/d") tt ≡ (ok (some has), tt)
unfolding resolve
found = refl

resolve-IsFirst_example : (codes "p/d" ≢ []) × IsFirst (codes "p/d") (lacks ∷ has ∷ []) has tt tt
resolve-IsFirst_example =
    resolve-IsFirst (codes "p/d") (record { nodes = lacks ∷ has ∷ [] }) has tt tt found

valid : (validate nodes).1 ≡ none
unfolding validate split is_address has_prefix cut_first contains_string text_eq
valid = refl

validate_sound_example : AllUsable (validate nodes).0
validate_sound_example = validate_sound nodes valid

refresh-IsSafe_example :
    IsSafe platform.grpc platform.files (refresh platform.grpc platform.files [] (config, tt))
refresh-IsSafe_example = refresh-IsSafe platform.grpc platform.files [] (config, tt) calm

refresh_config-ne-panic_example : (refresh_config platform [] state).0 ≢ panic
refresh_config-ne-panic_example = refresh_config-ne-panic platform [] state calm

parse_volume_id-volume_id_example :
    (parse_volume_id (volume_id (codes "a") (codes "p/d"))
      ≡ ok (record { config_name = codes "a"; path = codes "p/d" }))
    × (parse_volume_id (codes "p/d") ≡ ok (record { config_name = []; path = codes "p/d" }))
parse_volume_id-volume_id_example =
    parse_volume_id-volume_id (codes "a") (codes "p/d") (ground arith) (ground arith)

parsed :
    parse_volume_id (codes "a:p/d") ≡ ok (record { config_name = codes "a"; path = codes "p/d" })
unfolding parse_volume_id split
parsed = refl

parse_volume_id_sound_example :
    ReadAs (codes "a:p/d") (record { config_name = codes "a"; path = codes "p/d" })
    × Lacks b':' (codes "a")
    × Lacks b':' (codes "p/d")
parse_volume_id_sound_example =
    parse_volume_id_sound (codes "a:p/d") (record { config_name = codes "a"; path = codes "p/d" })
      parsed

second : index_of (codes "b") (codes "a" ∷ codes "b" ∷ []) ≡ some 1
unfolding index_of text_eq
second = refl

get_paging_values-token_example :
    get_paging_values (token (codes "b") (pos 20)) (codes "a" ∷ codes "b" ∷ [])
    ≡ ok (record { offset = pos 20; node_index = 1 })
get_paging_values-token_example =
    get_paging_values-token (codes "a" ∷ codes "b" ∷ []) (codes "b") (pos 20) 1 (ground arith)
      (omega arith) second

page_entries-take_example :
    page_entries suc (pos 1) 2 0 (5 ∷ 6 ∷ 7 ∷ 8 ∷ []) []
    ≡ map suc (take 2 (drop 1 (5 ∷ 6 ∷ 7 ∷ 8 ∷ [])))
page_entries-take_example = page_entries-take suc 1 2 (5 ∷ 6 ∷ 7 ∷ 8 ∷ []) (omega arith)

abbrev in_zone : ResolveParams
in_zone = record { dataset_path = codes "p/d"; zone = codes "east"; config_name = [] }

resolve_bsr_with_zone-InZone_example :
    InZone platform in_zone nodes (resolve_bsr_with_zone platform in_zone state).0
resolve_bsr_with_zone-InZone_example = resolve_bsr_with_zone-InZone platform in_zone state
