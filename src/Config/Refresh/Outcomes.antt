-- ===== src/Config/Refresh/Outcomes.antt =====
-- What `Refresh` leaves behind, by its outcome.
use brickstor_csi_driver.Base.{
  ℕ, ◌≡◌, ◌≢◌, inl, inr, Bool, true, false, Text, codes, arith, Outcome, ok, err, panic, Error, Eff,
  ◌>>=◌, Outcome-cases, >>=-ok, >>=-err, attempt, pure, if◌then◌else◌, Bool-cases, Option-cases,
  is_empty, Grpc,
}
use brickstor_csi_driver.Config.Nodes.{Config}
use brickstor_csi_driver.Config.Validate.{validate}
use brickstor_csi_driver.Config.Validate.Sound.{AllUsable, validate_sound}
use brickstor_csi_driver.Config.Refresh.{
  Files, refresh, refresh_file, reload, apply_content, validate_config, load_content, is_stale,
  cannot,
}

module _ {W : Type 0} (g : Grpc) (f : Files W) where
  -- A change that is reported comes with a valid configuration, and there is no panic.
  abbrev pub IsSafe : Outcome Bool × (Config × W) → Type 0
  IsSafe r = (r.0 ≡ ok true → AllUsable r.1.0.node_map) × (r.0 ≢ panic)

  validate_config-IsSafe : (s : Config × W) → IsSafe (validate_config g f s)
  unfolding validate_config
  validate_config-IsSafe (c, w) = elim (Option-cases (validate c.node_map).1) [
    | inl e ↦ rw e (λ _. validate_sound c.node_map e, λ q. cc q)
    | inr (x, e) ↦ rw e (λ q. cc q, λ q. cc q)
  ]

  apply_content-IsSafe : (content : Text) (s : Config × W) → IsSafe (apply_content g f content s)
  unfolding apply_content
  apply_content-IsSafe content (c, w) =
      elim (Option-cases (f.unmarshal content (c.node_map, c.debug)).1) [
        | inl e ↦ rw e (validate_config-IsSafe _)
        | inr (x, e) ↦ rw e (λ q. cc q, λ q. cc q)
      ]

  >>=-IsSafe :
      {A : Type 0} (m : Eff (Config × W) A) (k : A → Eff (Config × W) Bool) (s : Config × W)
      → (m s).0 ≢ panic
      → ((a : A) (t : Config × W) → IsSafe (k a t))
      → IsSafe ((m >>= k) s)
  >>=-IsSafe m k s calm h = elim (Outcome-cases (m s).0) [
    | inl (a, e) ↦ rw (>>=-ok m k s e) (h a (m s).1)
    | inr (inl (x, e)) ↦ rw (>>=-err m k s e) (λ q. cc q, λ q. cc q)
    | inr (inr e) ↦ absurd (calm e)
  ]

  -- The file system and package yaml do not panic.
  abbrev pub IsCalm : Type 0
  IsCalm =
      ((path : Text) (w : W) → (f.stat path w).0 ≢ panic)
      × ((path : Text) (w : W) → (f.read_file path w).0 ≢ panic)

  load_content-ne-panic :
      (secret : Text) (t : ℕ) (s : Config × W) → IsCalm → (load_content g f secret t s).0 ≢ panic
  unfolding load_content
  load_content-ne-panic secret t (c, w) calm =
      let read = calm.1 c.file_path w in λ h. ground (arith, read)

  reload-IsSafe : (secret : Text) (t : ℕ) (s : Config × W) → IsCalm → IsSafe (reload g f secret t s)
  unfolding reload
  reload-IsSafe secret t s calm =
      >>=-IsSafe (load_content g f secret t) (apply_content g f) s
        (load_content-ne-panic secret t s calm) apply_content-IsSafe

  module _ (secret : Text) (c' c : Config) (w : W) where
    pub stat_ok :
        (t : ℕ)
        → (f.stat c'.file_path w).0 ≡ ok t
        → refresh_file g f secret c' (c, w)
          ≡ (if is_stale g f c' secret t then reload g f secret t else pure false)
              (c, (f.stat c'.file_path w).1)
    unfolding refresh_file
    stat_ok t e = rw (e, ◌>>=◌, attempt)

    pub stat_err :
        (x : Error)
        → (f.stat c'.file_path w).0 ≡ err x
        → (refresh_file g f secret c' (c, w)).0
          ≡ err (cannot g f (codes "Cannot access") c'.file_path x)
    unfolding refresh_file
    stat_err x e = rw (e, ◌>>=◌, attempt)

  refresh_file-IsSafe :
      (secret : Text) (c' : Config) (s : Config × W)
      → IsCalm
      → IsSafe (refresh_file g f secret c' s)
  unfolding refresh_file
  refresh_file-IsSafe secret c' (c, w) calm = elim (Outcome-cases (f.stat c'.file_path w).0) [
    | inl (t, e) ↦ elim (Bool-cases (is_stale g f c' secret t)) [
      | inl stale ↦ rw (stat_ok secret c' c w t e, stale) (reload-IsSafe secret t _ calm)
      | inr fresh ↦ rw (stat_ok secret c' c w t e, fresh) (λ q. cc q, λ q. cc q)
    ]
    | inr (inl (x, e)) ↦ rw (stat_err secret c' c w x e) (λ q. cc q, λ q. cc q)
    | inr (inr e) ↦ absurd (calm.0 c'.file_path w e)
  ]

  -- If the file system does not panic, then `Refresh` does not either, and if it reports a change
  -- then all nodes of the configuration that it leaves are usable.
  pub refresh-IsSafe : (secret : Text) (s : Config × W) → IsCalm → IsSafe (refresh g f secret s)
  unfolding refresh
  refresh-IsSafe secret (c, w) calm = elim (Bool-cases (is_empty c.file_path)) [
    | inl e ↦ rw e (λ q. cc q, λ q. cc q)
    | inr e ↦ rw e (refresh_file-IsSafe secret c (c, w) calm)
  ]
