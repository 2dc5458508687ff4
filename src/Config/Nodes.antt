-- ===== src/Config/Nodes.antt =====
-- The configuration and the access to its nodes. A Go map is an association list: its order stands
-- for the order of a `range` over it, which Go leaves open.
pub mod Sorted
use brickstor_csi_driver.Base.{
  ℕ, Bool, true, false, List, [], ◌∷◌, Text, Option, none, some, if◌then◌else◌, ltb, ◌==◌, text_eq,
}

pub record BsrData : Type 0 where
  pub address : Text
  pub username : Text
  pub password : Text
  pub default_dataset : Text
  pub default_data_ip : Text
  pub default_mount_fs_type : Text
  pub default_mount_options : Text
  pub zone : Text
  pub mount_point_permissions : Text
  pub insecure_skip_verify : Option Bool

abbrev pub NodeMap : Type 0
NodeMap = List (Text × BsrData)

-- `Config`; a modification time is a number, and 0 is the zero `time.Time`.
pub record Config : Type 0 where
  pub node_map : NodeMap
  pub debug : Bool
  pub file_path : Text
  pub last_mod_time : ℕ
  pub temporary : Bool

-- `m[key]`
unfoldable pub lookup : {A : Type 0} → Text → List (Text × A) → Option A
lookup key [] = none
lookup key ((k, v) ∷ m) = if text_eq k key then some v else lookup key m

-- `LookupNode`
abbrev pub lookup_node : Config → Text → Option BsrData
lookup_node c name = lookup name c.node_map

-- Go's order of strings, byte by byte.
unfoldable pub text_leb : Text → Text → Bool
text_leb [] t = true
text_leb (x ∷ xs) [] = false
text_leb (x ∷ xs) (y ∷ ys) =
    let rest = text_leb xs ys in if ltb x y then true else if x == y then rest else false

insert_sorted : Text → List Text → List Text
unfolding text_leb
insert_sorted a [] = a ∷ []
insert_sorted a (b ∷ bs) =
    let rest = insert_sorted a bs in if text_leb a b then a ∷ b ∷ bs else b ∷ rest

-- The names in the order of `sort.Strings`.
unfoldable pub sorted_names : NodeMap → List Text
unfolding insert_sorted
sorted_names [] = []
sorted_names ((name, d) ∷ m) = insert_sorted name (sorted_names m)

-- `NodeNames`
abbrev pub node_names : Config → List Text
node_names c = sorted_names c.node_map
