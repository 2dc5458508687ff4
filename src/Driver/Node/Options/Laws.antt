-- ===== src/Driver/Node/Options/Laws.antt =====
-- Which options a mount is made with.
use brickstor_csi_driver.Base.{
  ◌≡◌, refl, inl, inr, ap, ◌∙◌, sym, true, List, [], ◌∷◌, ◌++◌, Text, codes, append_assoc,
  append-nil, Bool-cases, if◌then◌else◌, text_eq, has_prefix, has_byte,
}
use brickstor_csi_driver.Config.Nodes.{BsrData}
use brickstor_csi_driver.Config.Validate.{contains_string}
use brickstor_csi_driver.Driver.Csi.{VolumeCapability}
use brickstor_csi_driver.Driver.Node.Options.{
  Pattern, matches, contains_re, append_missing, option_ro, option_vers, option_timeo,
  option_nolock, nfs_options, mount_options, requested_options,
}

-- What is added to a list of options.
abbrev missing : List Text → Pattern → Text → List Text
missing options re val = if contains_re options re then [] else val ∷ []

append_missing_lem :
    (options : List Text) (re : Pattern) (val : Text)
    → append_missing options re val ≡ options ++ missing options re val
unfolding append_missing
append_missing_lem options re val = elim (Bool-cases (contains_re options re)) [
  | inl e ↦ rw e (sym (append-nil options))
  | inr e ↦ rw e refl
]

contains_re-append :
    (options more : List Text) (re : Pattern)
    → contains_re (options ++ more) re
      ≡ (if contains_re options re then true else contains_re more re)
unfolding contains_re
contains_re-append [] more re = refl
contains_re-append (o ∷ os) more re = elim (Bool-cases (matches re o)) [
  | inl e ↦ rw e refl
  | inr e ↦ rw e (contains_re-append os more re)
]

append_missing-contains :
    (options : List Text) (re : Pattern) (val : Text)
    → matches re val ≡ true
    → contains_re (append_missing options re val) re ≡ true
unfolding append_missing
append_missing-contains options re val m = elim (Bool-cases (contains_re options re)) [
  | inl e ↦ rw e e
  | inr e ↦ rw (e, contains_re-append options (val ∷ []) re, e) (unfold contains_re in rw m refl)
]

contains_re-keeps :
    (options more : List Text) (re : Pattern)
    → contains_re options re ≡ true
    → contains_re (options ++ more) re ≡ true
contains_re-keeps options more re c = rw (contains_re-append options more re, c) refl

-- The lists that `mountNFS` goes through.
abbrev with_vers : List Text → List Text
with_vers options = append_missing options option_vers (codes "vers=3")

abbrev with_lock : List Text → List Text
with_lock options =
    if contains_string (with_vers options) (codes "vers=3")
    then append_missing (with_vers options) option_nolock (codes "nolock")
    else with_vers options

lock_added : List Text → List Text
lock_added options =
    if contains_string (with_vers options) (codes "vers=3")
    then missing (with_vers options) option_nolock (codes "nolock")
    else []

with_lock_lem : (options : List Text) → with_lock options ≡ with_vers options ++ lock_added options
unfolding lock_added
with_lock_lem options = elim (Bool-cases (contains_string (with_vers options) (codes "vers=3"))) [
  | inl e ↦ rw e (append_missing_lem (with_vers options) option_nolock (codes "nolock"))
  | inr e ↦ rw e (sym (append-nil (with_vers options)))
]

nfs_options_timeo :
    (options : List Text)
    → nfs_options options ≡ append_missing (with_lock options) option_timeo (codes "timeo=100")
unfolding nfs_options
nfs_options_timeo options = refl

nfs_options-added :
    (options : List Text)
    → nfs_options options
      ≡ options
        ++ (missing options option_vers (codes "vers=3")
            ++ (lock_added options ++ missing (with_lock options) option_timeo (codes "timeo=100")))
nfs_options-added options =
    let m = missing options option_vers (codes "vers=3") in
    let l = lock_added options in
    let t = missing (with_lock options) option_timeo (codes "timeo=100") in
    let front : with_lock options ≡ (options ++ m) ++ l =
      with_lock_lem options
      ∙ ap (λ x. x ++ l) (append_missing_lem options option_vers (codes "vers=3")) in
    nfs_options_timeo options
    ∙ append_missing_lem (with_lock options) option_timeo (codes "timeo=100")
    ∙ ap (λ x. x ++ t) front
    ∙ append_assoc (options ++ m) l t
    ∙ append_assoc options m (l ++ t)

vers-kept : (options : List Text) → contains_re (nfs_options options) option_vers ≡ true
vers-kept options =
    rw
      (
        nfs_options_timeo options,
        append_missing_lem (with_lock options) option_timeo (codes "timeo=100"),
        with_lock_lem options,
      )
      (contains_re-keeps (with_vers options ++ lock_added options) _ option_vers (
        contains_re-keeps (with_vers options) _ option_vers (
          append_missing-contains options option_vers (codes "vers=3")
            (unfold matches has_prefix has_byte in refl))))

-- `mountNFS` keeps the options that it is given, in their order and in front of those that it adds,
-- and the list that it mounts with has a `vers=` and a `timeo=` option.
pub nfs_options_lem :
    (options : List Text)
    → ((added : List Text) × (nfs_options options ≡ options ++ added))
      × (contains_re (nfs_options options) option_vers ≡ true)
      × (contains_re (nfs_options options) option_timeo ≡ true)
nfs_options_lem options = (
  (_, nfs_options-added options),
  vers-kept options,
  rw (nfs_options_timeo options) (
      append_missing-contains (with_lock options) option_timeo (codes "timeo=100")
        (unfold matches has_prefix has_byte in refl)),
)

requested_ro :
    (options : List Text) → contains_re options option_ro ≡ contains_string options (codes "ro")
unfolding contains_re matches contains_string
requested_ro [] = refl
requested_ro (o ∷ os) = rw (requested_ro os) refl

-- The options of a read-only volume hold "ro", whatever the request and the configuration say.
pub mount_options-ro :
    (c : VolumeCapability) (context : List (Text × Text)) (cfg : BsrData)
    → contains_string (mount_options true c context cfg) (codes "ro") ≡ true
unfolding mount_options
mount_options-ro c context cfg =
    sym (requested_ro _)
    ∙ append_missing-contains (requested_options c context cfg) option_ro (codes "ro")
        (unfold matches text_eq in refl)
