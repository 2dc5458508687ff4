-- ===== src/Bsr/Resolver/Calm.antt =====
-- Resolvers that do not panic.
use brickstor_csi_driver.Base.{
  ◌≡◌, ◌≢◌, refl, inl, inr, List, [], ◌∷◌, Text, none, some, ok, panic, Outcome-cases, ◌>>=◌,
  attempt, is_empty, Bool-cases,
}
use brickstor_csi_driver.Config.Nodes.{lookup}
use brickstor_csi_driver.Bsr.Provider.{ProviderInterface}
use brickstor_csi_driver.Bsr.Resolver.{
  Resolver, Found, node, last_error, nothing, resolve_loop, resolve,
}

module _ {W : Type 0} where
  -- No provider panics when it is asked for a dataset.
  abbrev pub AllCalm : List (ProviderInterface W) → Type 0
  AllCalm [] = Unit
  AllCalm (n ∷ ns) = ((path : Text) (w : W) → (n.get_dataset path w).0 ≢ panic) × AllCalm ns

  resolve_loop-Calm :
      (path : Text) (ns : List (ProviderInterface W)) (last : Found W) (w : W)
      → AllCalm ns
      → (ns ≡ [] → last ≢ nothing)
      → ((resolve_loop path ns last w).0 ≢ panic) × ((resolve_loop path ns last w).0 ≢ ok nothing)
  unfolding resolve_loop
  resolve_loop-Calm path [] last w calm started = (λ q. cc q, λ q. started refl (cc q))
  resolve_loop-Calm path (n ∷ ns) last w (here, rest) started =
      elim (Outcome-cases (n.get_dataset path w).0) [
        | inl (ds, e) ↦ rw (e, ◌>>=◌, attempt) (λ q. cc q, λ q. cc q)
        | inr (inl (x, e)) ↦
            rw (e, ◌>>=◌, attempt)
              (resolve_loop-Calm path ns (last_error x) (n.get_dataset path w).1 rest (λ _ q. cc q))
        | inr (inr e) ↦ absurd (here path w e)
      ]

  -- A resolver with a provider does not panic, and does not answer with a nil provider.
  pub resolve-Calm :
      (r : Resolver W) (path : Text) (w : W)
      → AllCalm r.nodes
      → r.nodes ≢ []
      → ((resolve r path w).0 ≢ panic) × ((resolve r path w).0 ≢ ok none)
  unfolding resolve
  resolve-Calm r path w calm some_nodes = elim (Bool-cases (is_empty path)) [
    | inl e ↦ rw e (λ q. cc q, λ q. cc q)
    | inr e ↦
        let (no_panic, some_found) =
          resolve_loop-Calm path r.nodes nothing w calm (λ q. absurd (some_nodes q)) in
        elim (Outcome-cases (resolve_loop path r.nodes nothing w).0) [
          | inl (node n, f) ↦ rw (e, f, ◌>>=◌) (λ q. cc q, λ q. cc q)
          | inl (last_error x, f) ↦ rw (e, f, ◌>>=◌) (λ q. cc q, λ q. cc q)
          | inl (nothing, f) ↦ absurd (some_found f)
          | inr (inl (x, f)) ↦ rw (e, f, ◌>>=◌) (λ q. cc q, λ q. cc q)
          | inr (inr f) ↦ absurd (no_panic f)
        ]
  ]

-- Each resolver of a map has a provider, and none of its providers panics.
abbrev pub AllReady : {W : Type 0} → List (Text × Resolver W) → Type 0
AllReady {W} m =
    (name : Text) (r : Resolver W) → lookup name m ≡ some r → AllCalm r.nodes × (r.nodes ≢ [])
