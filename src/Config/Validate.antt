-- ===== src/Config/Validate.antt =====
-- `validate` of pkg/config/config.go.
pub mod Sound
use brickstor_csi_driver.Base.{
  ℕ, Bool, true, false, not, ◌&&◌, ◌||◌, List, [], ◌∷◌, ◌++◌, Text, codes, Option, none, some,
  Error, plain, if◌then◌else◌, leb, text_eq, has_prefix, cut_first, split, join, length, drop,
  is_empty,
}
use brickstor_csi_driver.Config.Nodes.{BsrData, NodeMap}

abbrev pub fs_type_nfs : Text
fs_type_nfs = codes "nfs"

abbrev pub fs_type_cifs : Text
fs_type_cifs = codes "cifs"

-- `SuppertedFsTypeList`
abbrev pub supported_fs_types : List Text
supported_fs_types = fs_type_nfs ∷ fs_type_cifs ∷ []

-- `containsString`
unfoldable pub contains_string : List Text → Text → Bool
contains_string [] val = false
contains_string (s ∷ strs) val = text_eq s val || contains_string strs val

unfoldable pub all_digits : Text → Bool
all_digits [] = true
all_digits (c ∷ s) = (leb b'0' c && leb c b'9') && all_digits s

-- `[^:]+` before the first colon and `[0-9]{1,5}` after it
unfoldable pub is_host_port : Option (Text × Text) → Bool
unfolding all_digits
is_host_port none = false
is_host_port (some (host, port)) =
    not (is_empty host) && (not (is_empty port) && (leb (length port) 5 && all_digits port))

-- `regexpAddress`, `^https://[^:]+:[0-9]{1,5}$`
unfoldable pub is_address : Text → Bool
unfolding is_host_port
is_address s = has_prefix s (codes "https://") && is_host_port (cut_first b':' (drop 8 s))

abbrev invalid_address : Text → Text → Text
invalid_address name address =
    codes "[node: "
    ++ (name
        ++ (codes "] parameter 'restIp' has invalid address: '"
            ++ (address ++ codes "', should be 'https://host:port'")))

unfoldable pub address_errors : Text → List Text → List Text
address_errors name [] = []
address_errors name (a ∷ rest) =
    let more = address_errors name rest in
    if is_address a then more else invalid_address name a ∷ more

abbrev when : Bool → Text → List Text
when b message = if b then message ∷ [] else []

-- What one node adds to `errors`.
unfoldable pub node_errors : Text → BsrData → List Text
unfolding address_errors
node_errors name d =
    (if is_empty d.address
      then codes "parameter 'restIp' is missing" ∷ []
      else address_errors name (split b',' d.address))
    ++ (when (is_empty d.username) (codes "parameter 'username' is missing")
        ++ (when (is_empty d.password) (codes "parameter 'password' is missing")
            ++ when
                (not (is_empty d.default_mount_fs_type)
                  && not (contains_string supported_fs_types d.default_mount_fs_type))
                (codes "parameter 'defaultMountFsType' must be omitted or one of: [nfs, cifs]")))

-- The certificate check is skipped unless the file says otherwise.
unfoldable pub with_defaults : BsrData → BsrData
with_defaults d = elim d.insecure_skip_verify [
  | none ↦ record d { insecure_skip_verify = some true }
  | some b ↦ d
]

-- The nodes as `validate` leaves them, and its error: the first node that has errors ends the loop.
unfoldable pub validate : NodeMap → NodeMap × Option Error
unfolding node_errors with_defaults
validate [] = ([], none)
validate ((name, d) ∷ m) =
    let errors = node_errors name d in
    let rest = validate m in
    let next : NodeMap × Option Error = ((name, with_defaults d) ∷ rest.0, rest.1) in
    let stop : NodeMap × Option Error = (
      (name, with_defaults d) ∷ m,
      some (
          plain (
            codes "[noed: "
            ++ (name
                ++ (codes "] Bad format, fix following issues: " ++ join (codes "; ") errors)))),
    ) in
    if is_empty errors then next else stop
