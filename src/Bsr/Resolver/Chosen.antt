-- ===== src/Bsr/Resolver/Chosen.antt =====
-- Which node `Resolve` chooses.
use mathlib.Core.Path.{subst}
use brickstor_csi_driver.Base.{
  ◌≡◌, ◌≢◌, ap, refl, List, [], ◌∷◌, ◌++◌, Text, Option, none, some, Outcome, ok, err, panic, Error,
  arith, is_empty, Outcome-cases, is_empty→eq, false, Bool-cases, inl, inr,
}
use brickstor_csi_driver.Bsr.Provider.{Dataset, ProviderInterface}
use brickstor_csi_driver.Bsr.Resolver.{
  Resolver, Found, node, last_error, nothing, resolve_loop, resolve,
}

module _ {W : Type 0} (path : Text) where
  -- Each node fails to find the dataset, one after the other, from the first world to the last.
  abbrev pub AllFail : List (ProviderInterface W) → W → W → Type 0
  AllFail [] w v = w ≡ v
  AllFail (n ∷ ns) w v =
      (e : Error) × ((n.get_dataset path w).0 ≡ err e) × AllFail ns (n.get_dataset path w).1 v

  -- The node is one of the list, has the dataset, and all nodes before it failed to find it.
  abbrev pub IsFirst : List (ProviderInterface W) → ProviderInterface W → W → W → Type 0
  IsFirst nodes n w w' =
      (before after : List (ProviderInterface W)) × (v : W) × (ds : Dataset) × (nodes
        ≡ before ++ n ∷ after)
      × AllFail before w v
      × ((n.get_dataset path v).0 ≡ ok ds)
      × ((n.get_dataset path v).1 ≡ w')

  IsFirst-cons :
      (m : ProviderInterface W) (ms : List (ProviderInterface W)) (n : ProviderInterface W)
      (w w' : W)
      → (e : Error) → (m.get_dataset path w).0 ≡ err e
      → IsFirst ms n (m.get_dataset path w).1 w'
      → IsFirst (m ∷ ms) n w w'
  IsFirst-cons m ms n w w' e h (before, after, v, ds, split_at, fails, found, world) =
      (m ∷ before, after, v, ds, ap (λ l. m ∷ l) split_at, (e, h, fails), found, world)

  module _ (m : ProviderInterface W) (ms : List (ProviderInterface W)) (last : Found W)
      (w : W) where
    loop_found :
        (ds : Dataset)
        → (m.get_dataset path w).0 ≡ ok ds
        → resolve_loop path (m ∷ ms) last w ≡ (ok (node m), (m.get_dataset path w).1)
    unfolding resolve_loop
    loop_found ds e = ground arith

    loop_failed :
        (e : Error)
        → (m.get_dataset path w).0 ≡ err e
        → resolve_loop path (m ∷ ms) last w
          ≡ resolve_loop path ms (last_error e) (m.get_dataset path w).1
    unfolding resolve_loop
    loop_failed e h = ground arith

    loop_panic : (m.get_dataset path w).0 ≡ panic → (resolve_loop path (m ∷ ms) last w).0 ≡ panic
    unfolding resolve_loop
    loop_panic h = ground arith

  loop_nil : (last : Found W) (w : W) → resolve_loop path [] last w ≡ (ok last, w)
  unfolding resolve_loop
  loop_nil last w = refl

  node-injective :
      {a b : ProviderInterface W} {u v : W}
      → ◌≡◌ {A = Outcome (Found W) × W} (ok (node a), u) (ok (node b), v)
      → (a ≡ b) × (u ≡ v)
  node-injective {a} {b} h =
      let outcome : ◌≡◌ {A = Outcome (Found W)} (ok (node a)) (ok (node b)) = ap (λ r. r.0) h in
      (cc, ap (λ r. r.1) h)

  resolve_loop-IsFirst :
      (nodes : List (ProviderInterface W)) (last : Found W) (n : ProviderInterface W) (w w' : W)
      → last ≢ node n
      → resolve_loop path nodes last w ≡ (ok (node n), w')
      → IsFirst nodes n w w'
  resolve_loop-IsFirst [] last n w w' other h =
      let found : ◌≡◌ {A = Outcome (Found W)} (ok last) (ok (node n)) =
        ap (λ r. r.0) (rw (loop_nil last w) at h) in
      absurd (other (cc))
  resolve_loop-IsFirst (m ∷ ms) last n w w' other h =
      elim (Outcome-cases (m.get_dataset path w).0) [
        | inl (ds, e) ↦
            let (same, world) = node-injective (rw (loop_found m ms last w ds e) at h) in
            subst (λ k. IsFirst (m ∷ ms) k w w') same ([], ms, w, ds, refl, refl, e, world)
        | inr (inl (e, f)) ↦ IsFirst-cons m ms n w w' e f (
            resolve_loop-IsFirst ms (last_error e) n (m.get_dataset path w).1 w' (λ q. cc q)
              (rw (loop_failed m ms last w e f) at h))
        | inr (inr e) ↦
            let crashed : ◌≡◌ {A = Outcome (Found W)} panic (ok (node n)) =
              rw (loop_panic m ms last w e) at (ap (λ r. r.0) h) in
            cc
      ]

  -- What `resolve` makes of the loop's result.
  conclude : Outcome (Found W) → Outcome (Option (ProviderInterface W))
  conclude (ok (node n)) = ok (some n)
  conclude (ok (last_error e)) = err e
  conclude (ok nothing) = ok none
  conclude (err e) = err e
  conclude panic = panic

  resolve-conclude :
      (r : Resolver W) (w : W)
      → is_empty path ≡ false
      → let l = resolve_loop path r.nodes nothing w in resolve r path w ≡ (conclude l.0, l.1)
  unfolding resolve conclude
  resolve-conclude r w h = ground arith

  conclude-found :
      (o : Outcome (Found W)) (n : ProviderInterface W) → conclude o ≡ ok (some n) → o ≡ ok (node n)
  unfolding conclude
  conclude-found (ok (node k)) n h =
      let same : k ≡ n = cc in ap (λ (x : ProviderInterface W). ok (node x)) same
  conclude-found (ok (last_error e)) n h = cc
  conclude-found (ok nothing) n h = cc
  conclude-found (err e) n h = cc
  conclude-found panic n h = cc

  resolve_empty :
      (r : Resolver W) (w : W) (n : ProviderInterface W)
      → path ≡ []
      → (resolve r path w).0 ≢ ok (some n)
  unfolding resolve
  resolve_empty r w n h = ground arith

  -- `Resolve` returns a node only if the path is not empty, the node is the first of the resolver's
  -- nodes that has the dataset, and all nodes before it were asked and failed.
  pub resolve-IsFirst :
      (r : Resolver W) (n : ProviderInterface W) (w w' : W)
      → resolve r path w ≡ (ok (some n), w')
      → (path ≢ []) × IsFirst r.nodes n w w'
  resolve-IsFirst r n w w' h = elim (Bool-cases (is_empty path)) [
    | inl e ↦ absurd (resolve_empty r w n (is_empty→eq path e) (ap (λ q. q.0) h))
    | inr e ↦
        let l = resolve_loop path r.nodes nothing w in
        let c : ◌≡◌ {A = Outcome (Option (ProviderInterface W)) × W} (conclude l.0, l.1)
            (ok (some n), w') =
          rw (resolve-conclude r w e) at h in
        let found : l.0 ≡ ok (node n) = conclude-found l.0 n (ap (λ q. q.0) c) in
        let world : l.1 ≡ w' = ap (λ q. q.1) c in
        (
          λ q. resolve_empty r w n q (ap (λ q. q.0) h),
          resolve_loop-IsFirst r.nodes nothing n w w' (λ q. cc q) (λ i. (found i, world i)),
        )
  ]
