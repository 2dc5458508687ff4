-- ===== src/Bsr/Read.antt =====
-- pkg/bsr/api.go: how the answers of the server are read, the loops of the provider's methods.
use brickstor_csi_driver.Base.{
  Bool, true, false, not, ◌&&◌, List, [], ◌∷◌, Text, codes, Option, none, some, Eff, Outcome, ok,
  err, panic, if◌then◌else◌, text_eq, has_prefix, split, drop, cut_last, is_empty, ℤ, pos, to_int64,
  is_positive,
}
use brickstor_csi_driver.Strconv.{parse_uint64_or_default, format_int}
use brickstor_csi_driver.Rest.Model
use brickstor_csi_driver.Rest.Model.{DatasetProperty, never_expires, FsAce}
use brickstor_csi_driver.Bsr.Provider.{Dataset, Snapshot}

-- `*p`, which panics at nil.
abbrev deref : Option Text → Outcome Text
deref none = panic
deref (some v) = ok v

abbrev and_then : {A B : Type 0} → Outcome A → (A → Outcome B) → Outcome B
and_then (ok a) f = f a
and_then (err e) f = err e
and_then panic f = panic

abbrev pub from_outcome : {S A : Type 0} → Outcome A → Eff S A
from_outcome r s = (r, s)

-- `val, _ := strconv.ParseUint(v, 10, 64); int64(val)`
abbrev read_size : Text → ℤ
read_size v = to_int64 (parse_uint64_or_default v)

-- How the two readers of `sharenfs` and `sharesmb` tell a shared dataset.
unfoldable pub is_shared : Text → Bool
is_shared v = not (text_eq v (codes "-")) && not (text_eq v (codes "off"))

unfoldable pub is_set : Text → Bool
is_set v = not (is_empty v)

-- One round of the loop over a dataset's properties, with the test for a share.
unfoldable pub read_property : (Text → Bool) → Dataset → DatasetProperty → Outcome Dataset
read_property shared ds p =
    if text_eq p.name (codes "available")
    then and_then (deref p.value) (λ v. ok (record ds { bytes_available = read_size v }))
    else if text_eq p.name (codes "used")
    then and_then (deref p.value) (λ v. ok (record ds { bytes_used = read_size v }))
    else if text_eq p.name (codes "mountpoint")
    then and_then (deref p.value) (λ v. ok (record ds { mount_point = v }))
    else if text_eq p.name (codes "sharenfs")
    then and_then (deref p.value)
        (λ v. ok (if shared v then record ds { shared_over_nfs = true } else ds))
    else if text_eq p.name (codes "sharesmb")
    then and_then (deref p.value)
        (λ v. ok (if shared v then record ds { shared_over_smb = true } else ds))
    else ok ds

unfoldable pub read_properties : (Text → Bool) → List DatasetProperty → Dataset → Outcome Dataset
unfolding read_property
read_properties shared [] ds = ok ds
read_properties shared (p ∷ ps) ds =
    and_then (read_property shared ds p) (read_properties shared ps)

abbrev pub empty_dataset : Text → Dataset
empty_dataset path = record {
  path = path;
  mount_point = [];
  shared_over_nfs = false;
  shared_over_smb = false;
  bytes_available = pos 0;
  bytes_used = pos 0;
}

-- The loop of `GetDataset` over the datasets of the answer: all write one result.
unfoldable pub read_dataset : List Model.Dataset → Dataset → Outcome Dataset
unfolding read_properties is_shared
read_dataset [] ds = ok ds
read_dataset (d ∷ rest) ds =
    and_then (read_properties is_shared d.properties ds) (read_dataset rest)

-- The loop of `GetDatasets`: each dataset of the answer is a result of its own.
unfoldable pub read_datasets : List Model.Dataset → Outcome (List Dataset)
unfolding read_properties is_set
read_datasets [] = ok []
read_datasets (d ∷ rest) =
    and_then (read_properties is_set d.properties (empty_dataset d.path))
      (λ ds. and_then (read_datasets rest) (λ more. ok (ds ∷ more)))

-- The loops of `GetDsAvailCap`.
read_available : List DatasetProperty → ℤ → Outcome ℤ
read_available [] n = ok n
read_available (p ∷ ps) n =
    and_then
      (if text_eq p.name (codes "available")
        then and_then (deref p.value) (λ v. ok (read_size v))
        else ok n)
      (read_available ps)

unfoldable pub read_all_available : List Model.Dataset → ℤ → Outcome ℤ
unfolding read_available
read_all_available [] n = ok n
read_all_available (d ∷ rest) n = and_then (read_available d.properties n) (read_all_available rest)

-- The name among the share's options.
unfoldable pub share_name_option : List Text → Option Text
share_name_option [] = none
share_name_option (o ∷ rest) =
    let more = share_name_option rest in
    if has_prefix o (codes "name=") then some (drop 5 o) else more

-- What a `sharesmb` value says of the share's name; `none` goes on with the loop.
unfoldable pub share_name : Text → Text → Option Text
unfolding share_name_option
share_name path val =
    if is_empty val
    then none
    else if text_eq val (codes "on")
    then some path
    else elim (share_name_option (split b',' val)) [ some n ↦ some n | none ↦ some path ]

read_share_name : Text → List DatasetProperty → Outcome (Option Text)
unfolding share_name
read_share_name path [] = ok none
read_share_name path (p ∷ ps) =
    let rest = read_share_name path ps in
    if text_eq p.name (codes "sharesmb")
    then and_then (deref p.value)
        (λ v. elim (share_name path v) [ some n ↦ ok (some n) | none ↦ rest ])
    else rest

unfoldable pub read_all_share_names : Text → List Model.Dataset → Outcome (Option Text)
unfolding read_share_name
read_all_share_names path [] = ok none
read_all_share_names path (d ∷ rest) =
    let later = read_all_share_names path rest in
    and_then (read_share_name path d.properties)
      (λ found. elim found [ some n ↦ ok (some n) | none ↦ later ])

-- The dataset's path without its last component, or "".
unfoldable pub parent_of : Text → Text
parent_of path = elim (cut_last b'/' path) [ some (before, after) ↦ before | none ↦ [] ]

unfoldable pub to_snapshot : Text → Model.Snapshot → Snapshot
unfolding parent_of
to_snapshot path s = record {
  path = path;
  name = s.name;
  parent = parent_of path;
  created_by = s.created_by;
  creation_time = s.creation;
}

unfoldable pub to_snapshots : List Model.Snapshot → List Snapshot
unfolding to_snapshot
to_snapshots [] = []
to_snapshots (s ∷ rest) = to_snapshot s.dataset_path s ∷ to_snapshots rest

-- The list of properties that sets `refquota`, if a size is asked for.
unfoldable pub ref_quota_properties : ℤ → List DatasetProperty
ref_quota_properties size =
    if is_positive size
    then record { name = codes "refquota"; value = some (format_int size); source = [] } ∷ []
    else []
