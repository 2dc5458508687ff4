-- ===== src/Driver/Controller/ListVolumes.antt =====
-- `ListVolumes` of pkg/driver/controllerServer.go.
pub mod Following
pub mod Collected
pub mod Kept
use brickstor_csi_driver.Base.{
  ℕ, true, List, [], ◌∷◌, ◌++◌, Text, codes, none, some, Eff, pure, fail, crash, ◌>>=◌, ◌>>◌, ok,
  err, panic, Error, status, aborted, invalid_argument, value, failed, attempt, if◌then◌else◌, ◌==◌,
  split, drop, length, ℤ, pos, negsuc,
}
use brickstor_csi_driver.Strconv.{format_int}
use brickstor_csi_driver.Bsr.Provider.{Dataset}
use brickstor_csi_driver.Bsr.Resolver.{Resolver, resolve_by_address}
use brickstor_csi_driver.Config.Nodes.{lookup, lookup_node, node_names}
use brickstor_csi_driver.Driver.VolumeId.{volume_id}
use brickstor_csi_driver.Driver.Paging.{get_paging_values, page_entries, next_token}
use brickstor_csi_driver.Driver.Csi.{ListVolumesRequest, Page}
use brickstor_csi_driver.Driver.State.{Platform, State, lift, return, get_state}
use brickstor_csi_driver.Driver.Controller.Snapshots.{refresh_or, cannot_use_config}

-- The number that stands for no limit.
abbrev pub unlimited : ℕ
unlimited = 2000000000

-- The limit of a page: none if 0 is asked for.
abbrev pub page_limit : ℕ → ℕ
page_limit n = if n == 0 then unlimited else n

-- The error for a limit below 0.
abbrev pub negative_limit : ℤ → Error
negative_limit i =
    status invalid_argument (codes "req.MaxEntries must be 0 or greater, got: " ++ format_int i)

abbrev pub empty_page : {E : Type 0} → Page E
empty_page = record { entries = []; next_token = [] }

module _ {W : Type 0} (p : Platform W) where
  -- The datasets of one address: an address that is not known or does not answer has none.
  datasets_at : Resolver W → Text → Eff (State W) (List Dataset)
  datasets_at r addr = elim (resolve_by_address r addr) [
    | err e ↦ pure []
    | panic ↦ crash
    | ok b ↦ do
      ds ← attempt (lift b.get_datasets)
      elim ds [ value found ↦ pure found | failed e ↦ pure [] ]
  ]

  -- The datasets of all addresses of a node or cluster, in order.
  unfoldable pub datasets_of : Resolver W → List Text → Eff (State W) (List Dataset)
  unfolding datasets_at
  datasets_of r [] = pure []
  datasets_of r (addr ∷ rest) = do
    here ← datasets_at r addr
    more ← datasets_of r rest
    pure (here ++ more)

  -- The page of volumes of one node.
  unfoldable pub volume_page : Text → List Text → ℤ → ℕ → List Dataset → Page Text
  unfolding page_entries
  volume_page name following offset max ds =
      let entries = page_entries (λ (d : Dataset). volume_id name d.path) offset max 0 ds [] in
      record {
        entries = entries;
        next_token = next_token true name following offset (length entries) (length ds);
      }

  -- The loop over the nodes: the first one with datasets gives the page. A node whose resolver is
  -- missing is a nil pointer.
  unfoldable pub list_volumes_from : List Text → ℤ → ℕ → Eff (State W) (Page Text)
  unfolding datasets_of volume_page
  list_volumes_from [] offset max = pure empty_page
  list_volumes_from (name ∷ following) offset max = do
    s ← get_state
    elim (lookup_node s.config name) [
      | none ↦ list_volumes_from following offset max
      | some d ↦ elim (lookup name s.controller) [
        | none ↦ crash
        | some r ↦ do
          ds ← datasets_of r (split b',' d.address)
          elim ds [
            | [] ↦ list_volumes_from following offset max
            | x ∷ xs ↦ pure (volume_page name following offset max (x ∷ xs))
          ]
      ]
    ]

  list_volumes_limited : Text → ℕ → Eff (State W) (Page Text)
  unfolding list_volumes_from
  list_volumes_limited starting_token max = do
    refresh_or p (cannot_use_config p aborted) []
    s ← get_state
    q ← return (get_paging_values starting_token (node_names s.config))
    list_volumes_from (drop q.node_index (node_names s.config)) q.offset max

  -- `ListVolumes`
  unfoldable pub list_volumes : ListVolumesRequest → Eff (State W) (Page Text)
  unfolding list_volumes_limited
  list_volumes req = elim req.max_entries [
    | negsuc n ↦ fail (negative_limit (negsuc n))
    | pos n ↦ list_volumes_limited req.starting_token (page_limit n)
  ]
