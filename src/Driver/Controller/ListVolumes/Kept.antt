-- ===== src/Driver/Controller/ListVolumes/Kept.antt =====
-- `ListVolumes` keeps what the refresh keeps and no call below changes.
use brickstor_csi_driver.Base.{
  ℕ, Text, List, [], ◌∷◌, ◌++◌, Eff, pure, fail, crash, ◌>>=◌, aborted, Keeps, >>=-Keeps,
  option-Keeps, outcome-Keeps, recover-Keeps, split, drop, ℤ, pos, negsuc,
}
use brickstor_csi_driver.Bsr.Resolver.{Resolver, resolve_by_address}
use brickstor_csi_driver.Config.Nodes.{lookup, lookup_node, node_names}
use brickstor_csi_driver.Driver.Paging.{get_paging_values}
use brickstor_csi_driver.Driver.Csi.{ListVolumesRequest, Page}
use brickstor_csi_driver.Driver.State.{Platform, State, lift, return, refresh_config}
use brickstor_csi_driver.Driver.State.Kept.{IsInner, lift-Keeps}
use brickstor_csi_driver.Driver.Controller.Snapshots.{refresh_or, cannot_use_config}
use brickstor_csi_driver.Driver.Controller.Snapshots.Kept.{refresh_or-Keeps}
use brickstor_csi_driver.Driver.Controller.ListVolumes.{
  page_limit, negative_limit, datasets_at, datasets_of, volume_page, list_volumes_from,
  list_volumes_limited, list_volumes,
}

module _ {W : Type 0} (p : Platform W) (I : State W → Type 0) (inner : IsInner I) where
  datasets_at-Keeps : (r : Resolver W) (addr : Text) → Keeps I (datasets_at p r addr)
  unfolding datasets_at
  datasets_at-Keeps r addr =
      outcome-Keeps I (resolve_by_address r addr) _ _ _
        (λ b.
          recover-Keeps I (lift b.get_datasets) _ _ (lift-Keeps I inner b.get_datasets)
            (λ found s i. i) (λ e s i. i))
        (λ e s i. i) (λ s i. i)

  datasets_of-Keeps : (r : Resolver W) (addrs : List Text) → Keeps I (datasets_of p r addrs)
  unfolding datasets_of
  datasets_of-Keeps r [] = λ s i. i
  datasets_of-Keeps r (addr ∷ rest) =
      >>=-Keeps I (datasets_at p r addr)
        (λ here. datasets_of p r rest >>= λ more. pure (here ++ more)) (datasets_at-Keeps r addr)
        (λ here.
          >>=-Keeps I (datasets_of p r rest) (λ more. pure (here ++ more))
            (datasets_of-Keeps r rest) (λ more s i. i))

  -- The page of one node, or what follows.
  pub page_or-Keeps :
      {D E : Type 0} (page : List D → Page E) (next : Eff (State W) (Page E)) (ds : List D)
      → Keeps I next
      → Keeps I {A = Page E} (elim ds [ [] ↦ next | x ∷ xs ↦ pure (page (x ∷ xs)) ])
  page_or-Keeps page next [] kept = kept
  page_or-Keeps page next (x ∷ xs) kept = λ s i. i

  list_volumes_from-Keeps :
      (names : List Text) (offset : ℤ) (max : ℕ) → Keeps I (list_volumes_from p names offset max)
  unfolding list_volumes_from
  list_volumes_from-Keeps [] offset max = λ s i. i
  list_volumes_from-Keeps (name ∷ following) offset max = λ s.
      let next = list_volumes_from p following offset max in
      let page = volume_page p name following offset max in
      option-Keeps I (lookup_node s.config name) next _
        (list_volumes_from-Keeps following offset max)
        (λ d.
          option-Keeps I (lookup name s.controller) crash _ (λ t i. i)
            (λ r.
              >>=-Keeps I (datasets_of p r (split b',' d.address))
                (λ ds. elim ds [ [] ↦ next | x ∷ xs ↦ pure (page (x ∷ xs)) ])
                (datasets_of-Keeps r (split b',' d.address))
                (λ ds. page_or-Keeps page next ds (list_volumes_from-Keeps following offset max))))
        s

  pub list_volumes-Keeps :
      (req : ListVolumesRequest)
      → ((secret : Text) → Keeps I (refresh_config p secret))
      → Keeps I (list_volumes p req)
  unfolding list_volumes list_volumes_limited
  list_volumes-Keeps req kept = by_limit req.max_entries
    where
      limited : (max : ℕ) → Keeps I (list_volumes_limited p req.starting_token max)
      limited max =
          >>=-Keeps I (refresh_or p (cannot_use_config p aborted) [])
            (λ u s.
              (return (get_paging_values req.starting_token (node_names s.config)) >>= λ q.
              list_volumes_from p (drop q.node_index (node_names s.config)) q.offset max)
                s)
            (refresh_or-Keeps p I inner kept (cannot_use_config p aborted) [])
            (λ u s.
              >>=-Keeps I (return (get_paging_values req.starting_token (node_names s.config)))
                (λ q. list_volumes_from p (drop q.node_index (node_names s.config)) q.offset max)
                (λ t i. i)
                (λ q.
                  list_volumes_from-Keeps (drop q.node_index (node_names s.config)) q.offset max)
                s)

      by_limit :
          (n : ℤ)
          → Keeps I {A = Page Text} (elim n [
            | negsuc k ↦ fail (negative_limit (negsuc k))
            | pos k ↦ list_volumes_limited p req.starting_token (page_limit k)
          ])
      by_limit (negsuc k) = λ s i. i
      by_limit (pos k) = limited (page_limit k)
