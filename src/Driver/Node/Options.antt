-- ===== src/Driver/Node/Options.antt =====
-- Mount options: the patterns, `appendMissing`, `containsRE`, and the options of a publish request,
-- of pkg/driver/nodeServer.go.
pub mod Laws
use brickstor_csi_driver.Base.{
  Bool, true, false, not, ◌&&◌, ◌||◌, List, [], ◌∷◌, ◌++◌, Text, codes, Option, none, some,
  is_empty, text_eq, has_prefix, has_byte, drop, length, split, if◌then◌else◌,
}
use brickstor_csi_driver.Config.Nodes.{BsrData, lookup}
use brickstor_csi_driver.Config.Validate.{contains_string, fs_type_nfs}
use brickstor_csi_driver.Driver.Csi.{VolumeCapability}

-- The patterns that the source compiles: `^text$`, `^text.*$` and `^text.+$`, where the point is any
-- character but a line feed.
pub data Pattern : Type 0 where
  exactly : Text → Pattern
  starting : Text → Pattern
  longer : Text → Pattern

abbrev one_line : Text → Bool
one_line s = not (has_byte b'\n' s)

-- `re.MatchString(s)`
unfoldable pub matches : Pattern → Text → Bool
matches (exactly t) s = text_eq s t
matches (starting t) s = has_prefix s t && one_line (drop (length t) s)
matches (longer t) s =
    has_prefix s t && (not (is_empty (drop (length t) s)) && one_line (drop (length t) s))

abbrev pub option_ro : Pattern
option_ro = exactly (codes "ro")

abbrev pub option_vers : Pattern
option_vers = starting (codes "vers=")

abbrev pub option_timeo : Pattern
option_timeo = starting (codes "timeo=")

abbrev pub option_username : Pattern
option_username = longer (codes "username=")

abbrev pub option_password : Pattern
option_password = longer (codes "password=")

abbrev pub option_nolock : Pattern
option_nolock = longer (codes "nolock")

-- `containsRE`
unfoldable pub contains_re : List Text → Pattern → Bool
contains_re [] re = false
contains_re (s ∷ strs) re = matches re s || contains_re strs re

-- `appendMissing`
unfoldable pub append_missing : List Text → Pattern → Text → List Text
append_missing strs re val = if contains_re strs re then strs else strs ++ val ∷ []

-- The parts of a comma-separated list that are not empty.
unfoldable pub not_empty_parts : List Text → List Text
not_empty_parts [] = []
not_empty_parts (o ∷ os) = let rest = not_empty_parts os in if is_empty o then rest else o ∷ rest

-- `if v, ok := m[key]; ok && v != "" { v } else { other }`
unfoldable pub value_or : Text → List (Text × Text) → Text → Text
value_or key m other = elim (lookup key m) [
  | none ↦ other
  | some v ↦ if is_empty v then other else v
]

-- `volumeCapability.GetMount().GetMountFlags()`: a block volume has none.
abbrev pub mount_flags_of : VolumeCapability → List Text
mount_flags_of c = if c.is_block then [] else c.mount_flags

-- The mount options, before the file system's own: those of the request, or those of the volume
-- context, or those of the configuration.
unfoldable pub requested_options : VolumeCapability → List (Text × Text) → BsrData → List Text
unfolding not_empty_parts value_or
requested_options c context cfg =
    if is_empty (mount_flags_of c)
    then not_empty_parts
        (split b',' (value_or (codes "mountOptions") context cfg.default_mount_options))
    else mount_flags_of c

-- The same with "ro" where a read-only volume is asked for.
unfoldable pub mount_options : Bool → VolumeCapability → List (Text × Text) → BsrData → List Text
unfolding requested_options append_missing
mount_options read_only c context cfg =
    if read_only
    then append_missing (requested_options c context cfg) option_ro (codes "ro")
    else requested_options c context cfg

unfoldable pub data_ip : List (Text × Text) → BsrData → Text
unfolding value_or
data_ip context cfg = value_or (codes "dataIP") context cfg.default_data_ip

unfoldable pub fs_type : List (Text × Text) → BsrData → Text
unfolding value_or
fs_type context cfg =
    value_or (codes "mountFsType") context
      (if is_empty cfg.default_mount_fs_type then fs_type_nfs else cfg.default_mount_fs_type)

-- The options that `mountNFS` adds.
unfoldable pub nfs_options : List Text → List Text
unfolding append_missing contains_string
nfs_options options =
    let with_vers = append_missing options option_vers (codes "vers=3") in
    let with_lock =
      if contains_string with_vers (codes "vers=3")
      then append_missing with_vers option_nolock (codes "nolock")
      else with_vers in
    append_missing with_lock option_timeo (codes "timeo=100")
