-- ===== src/Config/Find/Usable.antt =====
-- The configuration that `New` makes.
use mathlib.Core.Path.{subst}
use brickstor_csi_driver.Base.{
  ◌≡◌, ◌≢◌, refl, [], inl, inr, Bool-cases, Text, Outcome, ok, err, panic, Outcome-cases, is_empty,
  Grpc,
}
use brickstor_csi_driver.Config.Nodes.{Config}
use brickstor_csi_driver.Config.Validate.Sound.{AllUsable}
use brickstor_csi_driver.Config.Refresh.{Files, refresh}
use brickstor_csi_driver.Config.Refresh.Outcomes.{IsCalm, refresh-IsSafe}
use brickstor_csi_driver.Config.Refresh.Unchanged.{refresh-AllUsable}
use brickstor_csi_driver.Config.Find.{
  Entry, Walked, going_on, skip_folder, stopped, find_config_file, found_by, walk, empty_config,
  first_read, new_at, new,
}

found_by-ne-panic : (r : Walked × Text) → found_by r ≢ panic
unfolding found_by
found_by-ne-panic (stopped e, found) q = cc q
found_by-ne-panic (going_on, found) q = cc q
found_by-ne-panic (skip_folder, found) q = cc q

module _ {W : Type 0} (g : Grpc) (f : Files W) (calm : IsCalm g f) where
  -- No panic, and usable nodes where there is a configuration.
  abbrev pub IsStart : Outcome Config × W → Type 0
  IsStart r = (r.0 ≢ panic) × ((c : Config) → r.0 ≡ ok c → AllUsable c.node_map)

  first_read-IsStart :
      (tree : Text → W → Entry) (path : Text) (w : W) → IsStart (first_read g f tree path w)
  unfolding first_read
  first_read-IsStart tree path w = elim (Outcome-cases (refresh g f [] (empty_config path, w)).0) [
    | inl (changed, e) ↦ rw e (
      λ q. cc q,
      λ c q.
          let same : (refresh g f [] (empty_config path, w)).1.0 ≡ c = cc q in
          subst (λ (x : Config). AllUsable x.node_map) same
            (refresh-AllUsable g f [] (empty_config path) w changed calm tt e),
    )
    | inr (inl (x, e)) ↦ rw e (λ q. cc q, λ c q. cc q)
    | inr (inr e) ↦ absurd ((refresh-IsSafe g f [] (empty_config path, w) calm).1 e)
  ]

  new_at-IsStart :
      (tree : Text → W → Entry) (dir : Text) (o : Outcome Text) (w : W)
      → o ≢ panic
      → IsStart (new_at g f tree dir o w)
  unfolding new_at
  new_at-IsStart tree dir (err e) w found = (λ q. cc q, λ c q. cc q)
  new_at-IsStart tree dir panic w found = absurd (found refl)
  new_at-IsStart tree dir (ok path) w found = elim (Bool-cases (is_empty path)) [
    | inl e ↦ rw e (λ q. cc q, λ c q. cc q)
    | inr e ↦ rw e (first_read-IsStart tree path w)
  ]

  -- If the file system does not panic, then `New` does not, and all nodes of the configuration that
  -- it makes are usable.
  pub new-IsStart : (tree : Text → W → Entry) (dir : Text) (w : W) → IsStart (new g f tree dir w)
  unfolding new find_config_file
  new-IsStart tree dir w =
      new_at-IsStart tree dir (find_config_file dir (tree dir w)) w
        (found_by-ne-panic (walk dir (tree dir w)))
