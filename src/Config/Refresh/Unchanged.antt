-- ===== src/Config/Refresh/Unchanged.antt =====
-- What holds of a configuration after any `Refresh`, and after `New`.
use brickstor_csi_driver.Base.{
  ℕ, ◌≡◌, ◌≢◌, refl, inl, inr, Bool, true, false, Text, Outcome, ok, Eff, ◌>>=◌, Outcome-cases,
  >>=-ok, >>=-err, >>=-panic, Bool-cases, Option-cases, is_empty, Grpc, attempt,
}
use brickstor_csi_driver.Config.Nodes.{Config}
use brickstor_csi_driver.Config.Validate.{validate}
use brickstor_csi_driver.Config.Validate.Sound.{AllUsable}
use brickstor_csi_driver.Config.Refresh.{
  Files, refresh, refresh_file, reload, apply_content, validate_config, load_content, is_stale,
}
use brickstor_csi_driver.Config.Refresh.Outcomes.{IsCalm, refresh-IsSafe, stat_ok, stat_err}

module _ {W : Type 0} (g : Grpc) (f : Files W) where
  >>=-ne-false :
      {A : Type 0} (m : Eff (Config × W) A) (k : A → Eff (Config × W) Bool) (s : Config × W)
      → ((a : A) (t : Config × W) → (k a t).0 ≢ ok false)
      → ((m >>= k) s).0 ≢ ok false
  >>=-ne-false m k s h q = elim (Outcome-cases (m s).0) [
    | inl (a, e) ↦ h a (m s).1 (rw (>>=-ok m k s e) at q)
    | inr (inl (x, e)) ↦ let bad = rw (>>=-err m k s e) at q in cc bad
    | inr (inr e) ↦ let bad = rw (>>=-panic m k s e) at q in cc bad
  ]

  validate_config-ne-false : (s : Config × W) → (validate_config g f s).0 ≢ ok false
  unfolding validate_config
  validate_config-ne-false (c, w) = elim (Option-cases (validate c.node_map).1) [
    | inl e ↦ rw e (λ q. cc q)
    | inr (x, e) ↦ rw e (λ q. cc q)
  ]

  apply_content-ne-false :
      (content : Text) (s : Config × W) → (apply_content g f content s).0 ≢ ok false
  unfolding apply_content
  apply_content-ne-false content (c, w) =
      elim (Option-cases (f.unmarshal content (c.node_map, c.debug)).1) [
        | inl e ↦ rw e (validate_config-ne-false _)
        | inr (x, e) ↦ rw e (λ q. cc q)
      ]

  reload-ne-false : (secret : Text) (t : ℕ) (s : Config × W) → (reload g f secret t s).0 ≢ ok false
  unfolding reload
  reload-ne-false secret t s =
      >>=-ne-false (load_content g f secret t) (apply_content g f) s apply_content-ne-false

  -- A `Refresh` that reports no change has made none.
  abbrev pub IsHonest : Config → Outcome Bool × (Config × W) → Type 0
  IsHonest c r = r.0 ≡ ok false → r.1.0 ≡ c

  refresh_file-IsHonest :
      (secret : Text) (c : Config) (w : W) → IsHonest c (refresh_file g f secret c (c, w))
  unfolding refresh_file
  refresh_file-IsHonest secret c w = elim (Outcome-cases (f.stat c.file_path w).0) [
    | inl (t, e) ↦ elim (Bool-cases (is_stale g f c secret t)) [
      | inl stale ↦
          rw (stat_ok g f secret c c w t e, stale) (λ q. absurd (reload-ne-false secret t _ q))
      | inr fresh ↦ rw (stat_ok g f secret c c w t e, fresh) (λ q. refl)
    ]
    | inr (inl (x, e)) ↦ λ q. let bad = rw (stat_err g f secret c c w x e) at q in cc bad
    | inr (inr e) ↦ λ q. let bad = rw (e, ◌>>=◌, attempt) at q in cc bad
  ]

  refresh-IsHonest : (secret : Text) (c : Config) (w : W) → IsHonest c (refresh g f secret (c, w))
  unfolding refresh
  refresh-IsHonest secret c w = elim (Bool-cases (is_empty c.file_path)) [
    | inl e ↦ rw e (λ q. refl)
    | inr e ↦ rw e (refresh_file-IsHonest secret c w)
  ]

  -- A `Refresh` that succeeds, with a change or without one, leaves usable nodes where they were
  -- usable before.
  pub refresh-AllUsable :
      (secret : Text) (c : Config) (w : W) (changed : Bool)
      → IsCalm g f
      → AllUsable c.node_map
      → (refresh g f secret (c, w)).0 ≡ ok changed
      → AllUsable (refresh g f secret (c, w)).1.0.node_map
  refresh-AllUsable secret c w true calm u h = (refresh-IsSafe g f secret (c, w) calm).0 h
  refresh-AllUsable secret c w false calm u h = rw (refresh-IsHonest secret c w h) u
