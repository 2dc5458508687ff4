-- ===== src/Driver/Role/Parse.antt =====
-- What `ParseRole` makes of the text of the command line, and which servers then run.
use brickstor_csi_driver.Base.{
  ◌≡◌, ◌≢◌, refl, inl, inr, ◌⊎◌, Bool, Bool-cases, true, false, Text, codes, Option, Error, none,
  text_eq, text_eq→eq, text_eq_refl,
}
use brickstor_csi_driver.Driver.Role.{
  Role, is_controller, is_node, role_all, role_controller, role_node, find_role, parse_role,
}

-- Whether the controller server and the node server run.
abbrev pub Serves : Role → Bool → Bool → Type 0
Serves r c n = (is_controller r ≡ c) × (is_node r ≡ n)

-- The text is that of a role, and is taken without an error.
abbrev pub IsTaken : Text → Role × Option Error → Type 0
IsTaken from r = (r.0 ≡ from) × (r.1 ≡ none)

abbrev pub IsUnknown : Text → Type 0
IsUnknown from = (codes "all" ≢ from) × (codes "controller" ≢ from) × (codes "node" ≢ from)

-- What comes of each text.
abbrev pub IsParsed : Text → Role × Option Error → Type 0
IsParsed from r =
    ((codes "all" ≡ from) × IsTaken from r × Serves r.0 true true)
    ⊎ ((codes "controller" ≡ from) × IsTaken from r × Serves r.0 true false)
    ⊎ ((codes "node" ≡ from) × IsTaken from r × Serves r.0 false true)
    ⊎ (IsUnknown from × ((r.0 ≡ codes "all") × (r.1 ≢ none)) × Serves r.0 true true)

all-Serves : Serves role_all true true
all-Serves = (unfold is_controller text_eq in refl, unfold is_node text_eq in refl)

controller-Serves : Serves role_controller true false
controller-Serves = (unfold is_controller text_eq in refl, unfold is_node text_eq in refl)

node-Serves : Serves role_node false true
node-Serves = (unfold is_controller text_eq in refl, unfold is_node text_eq in refl)

ne_of_text_eq : (t from : Text) → text_eq t from ≡ false → t ≢ from
ne_of_text_eq t from h q =
    let eq : text_eq from from ≡ true = text_eq_refl from in
    let other : text_eq from from ≡ false = rw q at h in cc (eq, other)

-- `ParseRole` takes the texts "all", "controller" and "node" as they are, without an error, and then
-- both servers run, the controller's alone, or the node's alone; any other text comes with an error
-- and the role of both servers.
pub parse_role-IsParsed : (from : Text) → IsParsed from (parse_role from)
unfolding parse_role find_role
parse_role-IsParsed from = elim (Bool-cases (text_eq role_all from)) [
  | inl a ↦
      let e : role_all ≡ from = text_eq→eq role_all from a in rw a (inl (e, (e, refl), all-Serves))
  | inr a ↦ elim (Bool-cases (text_eq role_controller from)) [
    | inl c ↦
        let e : role_controller ≡ from = text_eq→eq role_controller from c in
        rw (a, c) (inr (inl (e, (e, refl), controller-Serves)))
    | inr c ↦ elim (Bool-cases (text_eq role_node from)) [
      | inl n ↦
          let e : role_node ≡ from = text_eq→eq role_node from n in
          rw (a, c, n) (inr (inr (inl (e, (e, refl), node-Serves))))
      | inr n ↦
          let unknown : IsUnknown from = (
            ne_of_text_eq role_all from a,
            ne_of_text_eq role_controller from c,
            ne_of_text_eq role_node from n,
          ) in
          rw (a, c, n) (inr (inr (inr (unknown, (refl, λ q. cc q), all-Serves))))
    ]
  ]
]
