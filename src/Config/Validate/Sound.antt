-- ===== src/Config/Validate/Sound.antt =====
-- What a configuration that passes `validate` satisfies.
use brickstor_csi_driver.Base.{
  ◌≤◌, ◌≡◌, ◌≢◌, refl, ap, ◌⊎◌, inl, inr, Bool, true, false, not, ◌&&◌, List, [], ◌∷◌, ◌++◌, Text,
  codes, Option, none, some, arith, is_empty, split, length, drop, has_prefix-eq, cut_first,
  cut_first_sound, Lacks, Bool-cases, Option-cases, &&-eq-true, leb→le, if◌then◌else◌,
}
use brickstor_csi_driver.Config.Nodes.{BsrData, NodeMap}
use brickstor_csi_driver.Config.Validate.{
  supported_fs_types, contains_string, all_digits, is_host_port, is_address, address_errors,
  node_errors, with_defaults, validate,
}

-- "https://host:port" with a host without colons and a port of one to five digits.
abbrev pub IsUrl : Text → Type 0
IsUrl s =
    (host port : Text) × (s ≡ codes "https://" ++ (host ++ b':' ∷ port))
    × (host ≢ [])
    × Lacks b':' host
    × (port ≢ [])
    × (length port ≤ 5)
    × (all_digits port ≡ true)

is_host_port_sound :
    (s host port : Text)
    → cut_first b':' s ≡ some (host, port)
    → is_host_port (some (host, port)) ≡ true
    → IsUrl (codes "https://" ++ s)
unfolding is_host_port
is_host_port_sound s host port e h =
    let (cut, lacks) = cut_first_sound b':' s host port e in
    (
      host,
      port,
      ap (λ t. codes "https://" ++ t) cut,
      ground arith,
      lacks,
      ground arith,
      ground (arith, leb→le (length port) 5),
      ground arith,
    )

-- An address that the pattern accepts is such a URL.
pub is_address_sound : (s : Text) → is_address s ≡ true → IsUrl s
unfolding is_address
is_address_sound s h =
    let (scheme, rest) = &&-eq-true _ _ h in
    rw (has_prefix-eq s (codes "https://") scheme)
      (elim (Option-cases (cut_first b':' (drop 8 s))) [
        | inl e ↦ let no_port : false ≡ true = rw e at rest in cc
        | inr ((host, port), e) ↦ is_host_port_sound (drop 8 s) host port e (rw e at rest)
      ])

abbrev pub AllUrls : List Text → Type 0
AllUrls [] = Unit
AllUrls (a ∷ rest) = IsUrl a × AllUrls rest

-- A node that the driver can use.
pub record IsUsable (d : BsrData) : Type 0 where
  pub has_address : d.address ≢ []
  pub urls : AllUrls (split b',' d.address)
  pub has_username : d.username ≢ []
  pub has_password : d.password ≢ []
  pub fs_type :
      (d.default_mount_fs_type ≡ [])
      ⊎ (contains_string supported_fs_types d.default_mount_fs_type ≡ true)
  pub tls : d.insecure_skip_verify ≢ none

abbrev pub AllUsable : NodeMap → Type 0
AllUsable [] = Unit
AllUsable ((name, d) ∷ m) = IsUsable d × AllUsable m

address_errors-AllUrls :
    (name : Text) (addresses : List Text)
    → is_empty (address_errors name addresses) ≡ true
    → AllUrls addresses
unfolding address_errors
address_errors-AllUrls name [] h = tt
address_errors-AllUrls name (a ∷ rest) h = elim (Bool-cases (is_address a)) [
  | inl e ↦ (is_address_sound a e, address_errors-AllUrls name rest (rw e at h))
  | inr e ↦ let bad : false ≡ true = rw e at h in cc
]

append_empty :
    {A : Type 0} (xs ys : List A)
    → is_empty (xs ++ ys) ≡ true
    → (is_empty xs ≡ true) × (is_empty ys ≡ true)
append_empty [] ys h = (refl, h)
append_empty (x ∷ xs) ys h = cc

when_empty : (b : Bool) (t : Text) → is_empty (if b then t ∷ [] else []) ≡ true → b ≡ false
when_empty b t h = ground arith

address_part :
    (name : Text) (d : BsrData)
    → is_empty (
        if is_empty d.address
        then codes "parameter 'restIp' is missing" ∷ []
        else address_errors name (split b',' d.address))
      ≡ true
    → (d.address ≢ []) × AllUrls (split b',' d.address)
address_part name d h = elim (Bool-cases (is_empty d.address)) [
  | inl e ↦ let bad : false ≡ true = rw e at h in cc
  | inr e ↦ (ground arith, address_errors-AllUrls name _ (rw e at h))
]

not_empty : (s : Text) → is_empty s ≡ false → s ≢ []
not_empty s h = ground arith

fs_part : (s : Text) (b : Bool) → (not (is_empty s) && not b) ≡ false → (s ≡ []) ⊎ (b ≡ true)
fs_part [] b h = inl refl
fs_part (c ∷ s) true h = inr refl
fs_part (c ∷ s) false h = cc

node_errors-IsUsable :
    (name : Text) (d : BsrData) (v : Option Bool)
    → v ≢ none
    → is_empty (node_errors name d) ≡ true
    → IsUsable (record d { insecure_skip_verify = v })
unfolding node_errors
node_errors-IsUsable name d v set h =
    let (address, more) = append_empty _ _ h in
    let (username, more') = append_empty _ _ more in
    let (password, fs) = append_empty _ _ more' in
    let (present, urls) = address_part name d address in
    record {
      has_address = present;
      urls = urls;
      has_username = not_empty d.username (when_empty _ _ username);
      has_password = not_empty d.password (when_empty _ _ password);
      fs_type = fs_part d.default_mount_fs_type _ (when_empty _ _ fs);
      tls = set;
    }

with_defaults-IsUsable :
    (name : Text) (d : BsrData) → is_empty (node_errors name d) ≡ true → IsUsable (with_defaults d)
unfolding with_defaults
with_defaults-IsUsable name d h = elim (Option-cases d.insecure_skip_verify) [
  | inl e ↦ rw e (node_errors-IsUsable name d (some true) (λ q. cc q) h)
  | inr (b, e) ↦ rw e (node_errors-IsUsable name d (some b) (λ q. cc q) h)
]

-- If `validate` reports no error, then every node that it leaves has URLs for addresses, a username,
-- a password, a supported file system type or none, and a setting for the certificate check.
pub validate_sound : (m : NodeMap) → (validate m).1 ≡ none → AllUsable (validate m).0
unfolding validate
validate_sound [] h = tt
validate_sound ((name, d) ∷ m) h = elim (Bool-cases (is_empty (node_errors name d))) [
  | inl e ↦ rw e (with_defaults-IsUsable name d e, validate_sound m (rw e at h))
  | inr e ↦ let bad = rw e at h in cc bad
]
