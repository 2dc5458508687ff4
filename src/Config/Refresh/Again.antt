-- ===== src/Config/Refresh/Again.antt =====
-- What a second `Refresh` does while the file keeps its modification time.
use brickstor_csi_driver.Base.{
  ℕ, ◌≡◌, refl, ap, inl, inr, false, Text, arith, ok, [], is_empty, Option-cases, Outcome-cases,
  Bool-cases, ◌>>=◌, >>=-ok, attempt, pure, if◌then◌else◌, Grpc,
}
use brickstor_csi_driver.Config.Nodes.{Config}
use brickstor_csi_driver.Config.Validate.{validate}
use brickstor_csi_driver.Config.Refresh.{
  Files, refresh, refresh_file, reload, apply_content, validate_config, load_content, read_content,
  is_stale,
}

module _ {W : Type 0} (g : Grpc) (f : Files W) (t : ℕ) where
  -- The configuration has taken the file's modification time, and has a file.
  abbrev Remembers : Config × W → Type 0
  Remembers (c, w) = (c.last_mod_time ≡ t) × (c.temporary ≡ false) × (is_empty c.file_path ≡ false)

  validate_config-Remembers : (s : Config × W) → Remembers s → Remembers (validate_config g f s).1
  unfolding validate_config
  validate_config-Remembers (c, w) h = elim (Option-cases (validate c.node_map).1) [
    | inl e ↦ rw e h
    | inr (x, e) ↦ rw e h
  ]

  apply_content-Remembers :
      (content : Text) (s : Config × W) → Remembers s → Remembers (apply_content g f content s).1
  unfolding apply_content
  apply_content-Remembers content (c, w) h =
      elim (Option-cases (f.unmarshal content (c.node_map, c.debug)).1) [
        | inl e ↦ rw e (validate_config-Remembers _ h)
        | inr (x, e) ↦ rw e h
      ]

  load_content-Remembers :
      (s : Config × W) → is_empty s.0.file_path ≡ false → Remembers (load_content g f [] t s).1
  unfolding load_content read_content
  load_content-Remembers (c, w) h = elim (Outcome-cases (f.read_file c.file_path w).0) [
    | inl (content, e) ↦ rw (e, ◌>>=◌) (refl, refl, h)
    | inr (inl (x, e)) ↦ rw (e, ◌>>=◌) (refl, refl, h)
    | inr (inr e) ↦ rw (e, ◌>>=◌) (refl, refl, h)
  ]

  reload-Remembers :
      (s : Config × W) → is_empty s.0.file_path ≡ false → Remembers (reload g f [] t s).1
  unfolding reload
  reload-Remembers s h = elim (Outcome-cases (load_content g f [] t s).0) [
    | inl (content, e) ↦
        rw (>>=-ok (load_content g f [] t) (apply_content g f) s e)
          (apply_content-Remembers content _ (load_content-Remembers s h))
    | inr (inl (x, e)) ↦ rw (e, ◌>>=◌) (load_content-Remembers s h)
    | inr (inr e) ↦ rw (e, ◌>>=◌) (load_content-Remembers s h)
  ]

  not_stale :
      (c : Config) → is_stale g f c [] t ≡ false → (c.last_mod_time ≡ t) × (c.temporary ≡ false)
  not_stale c h = (ground arith, ground arith)

  fresh : (c : Config) → c.last_mod_time ≡ t → c.temporary ≡ false → is_stale g f c [] t ≡ false
  fresh c h k = ground arith

  module _ (stat : (path : Text) (w : W) → (f.stat path w).0 ≡ ok t) where
    refresh_reads :
        (s : Config × W)
        → is_empty s.0.file_path ≡ false
        → refresh g f [] s
          ≡ (if is_stale g f s.0 [] t then reload g f [] t else pure false)
              (s.0, (f.stat s.0.file_path s.1).1)
    unfolding refresh refresh_file
    refresh_reads (c, w) h = rw (h, stat c.file_path w, ◌>>=◌, attempt) refl

    refresh-Remembers :
        (s : Config × W) → is_empty s.0.file_path ≡ false → Remembers (refresh g f [] s).1
    refresh-Remembers (c, w) h = elim (Bool-cases (is_stale g f c [] t)) [
      | inl e ↦ rw (refresh_reads (c, w) h, e) (reload-Remembers _ h)
      | inr e ↦ let (time, kept) = not_stale c e in rw (refresh_reads (c, w) h, e) (time, kept, h)
    ]

    remembered :
        (s : Config × W)
        → Remembers s
        → refresh g f [] s ≡ (ok false, (s.0, (f.stat s.0.file_path s.1).1))
    remembered (c, w) (time, kept, h) = rw (refresh_reads (c, w) h, fresh c time kept) refl

    -- While the file keeps its modification time, a second `Refresh` without a secret reports that
    -- nothing has changed and leaves the configuration alone, however the first one ended: also if
    -- the first one refused the file, and left in the configuration what it had read from it.
    pub refresh-again :
        (s : Config × W)
        → is_empty s.0.file_path ≡ false
        → let first = refresh g f [] s in
          let second = refresh g f [] first.1 in (second.0 ≡ ok false) × (second.1.0 ≡ first.1.0)
    refresh-again s h =
        let again = remembered (refresh g f [] s).1 (refresh-Remembers s h) in
        (ap (λ r. r.0) again, ap (λ r. r.1.0) again)
