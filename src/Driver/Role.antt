-- ===== src/Driver/Role.antt =====
-- pkg/driver/role.go: which servers a process runs.
pub mod Parse
use brickstor_csi_driver.Base.{
  Bool, ◌||◌, List, [], ◌∷◌, ◌++◌, Text, codes, Option, none, some, Error, plain, if◌then◌else◌,
  text_eq,
}

-- `Role`, with its text.
abbrev pub Role : Type 0
Role = Text

abbrev pub role_all : Role
role_all = codes "all"

abbrev pub role_controller : Role
role_controller = codes "controller"

abbrev pub role_node : Role
role_node = codes "node"

unfoldable pub is_controller : Role → Bool
is_controller r = text_eq r role_controller || text_eq r role_all

unfoldable pub is_node : Role → Bool
is_node r = text_eq r role_node || text_eq r role_all

-- `Roles`
abbrev pub roles : List Role
roles = role_all ∷ role_controller ∷ role_node ∷ []

abbrev unsupported : Text → Error
unsupported from = plain (
    codes "role '"
    ++ (from
        ++ codes
            "' is not one of supported roles: [all controller node], default 'all' will be used"))

unfoldable pub find_role : Text → List Role → Role × Option Error
find_role from [] = (role_all, some (unsupported from))
find_role from (r ∷ rs) = let rest = find_role from rs in if text_eq r from then (r, none) else rest

-- `ParseRole`: the role to use, and an error where it is not the one asked for.
unfoldable pub parse_role : Text → Role × Option Error
unfolding find_role
parse_role from = find_role from roles
