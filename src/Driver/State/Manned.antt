-- ===== src/Driver/State/Manned.antt =====
-- A resolver that is made from a node's data has a provider.
use brickstor_csi_driver.Base.{
  ◌≡◌, ◌≢◌, refl, inl, inr, ℕ, List, [], ◌∷◌, Text, ok, Option-cases, Bool-cases, split, push_part,
  arith, ◌==◌,
}
use brickstor_csi_driver.Bsr.Resolver.{Resolver, ResolverArgs, new_resolver, new_nodes}
use brickstor_csi_driver.Config.Nodes.{BsrData}
use brickstor_csi_driver.Driver.State.{Platform, node_resolver}

split-nonempty : (sep : ℕ) (s : Text) → split sep s ≢ []
unfolding split
split-nonempty sep [] h = cc h
split-nonempty sep (c ∷ s) h = elim (Bool-cases (c == sep)) [
  | inl e ↦ let bad = rw e at h in cc bad
  | inr e ↦ pushed c (split sep s) (rw e at h)
]
  where
    pushed : (c : ℕ) (parts : List Text) → push_part c parts ≢ []
    pushed c [] q = cc q
    pushed c (x ∷ xs) q = cc q

module _ {W : Type 0} (p : Platform W) where
  new_nodes-nonempty :
      (args : ResolverArgs) (addresses : List Text)
      → addresses ≢ []
      → new_nodes p.grpc p.transport args addresses ≢ ok []
  unfolding new_nodes
  new_nodes-nonempty args [] given h = given refl
  new_nodes-nonempty args (a ∷ rest) given h = ground arith

  new_resolver-nonempty :
      (args : ResolverArgs) (r : Resolver W)
      → new_resolver p.grpc p.transport args ≡ ok r
      → r.nodes ≢ []
  unfolding new_resolver
  new_resolver-nonempty args r h q =
      ground (
        arith,
        new_nodes-nonempty args (split b',' args.address) (split-nonempty b',' args.address),
      )

  pub node_resolver-nonempty :
      (d : BsrData) (r : Resolver W) → node_resolver p d ≡ ok r → r.nodes ≢ []
  unfolding node_resolver
  node_resolver-nonempty d r h = elim (Option-cases d.insecure_skip_verify) [
    | inl e ↦ let bad = rw (e, node_resolver) at h in cc bad
    | inr (skip, e) ↦ λ q. ground (
      arith,
      new_resolver-nonempty
          (record {
            address = d.address;
            username = d.username;
            password = d.password;
            insecure_skip_verify = skip;
          })
          r,
    )
  ]
