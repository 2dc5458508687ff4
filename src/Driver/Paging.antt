-- ===== src/Driver/Paging.antt =====
-- Page tokens "node:offset" and the cut of one page, as `ListVolumes`, `ListSnapshots` and
-- `getPagingValues` of pkg/driver/controllerServer.go share them.
pub mod Pages
pub mod Tokens
use brickstor_csi_driver.Base.{
  ℕ, zero, suc, ◌+◌, ◌-◌, ◌^◌, Bool, true, false, List, [], ◌∷◌, ◌++◌, Text, codes, Option, none,
  some, Outcome, ok, err, status, aborted, split, is_empty, length, text_eq, if◌then◌else◌, ◌==◌,
  ltb, ℤ, pos, negsuc, ltb_int,
}
use brickstor_csi_driver.Strconv.{parse_int, format_int}
use brickstor_csi_driver.Driver.VolumeId.{volume_id}

-- `noBsrNodes`
abbrev pub no_bsr_nodes : Text
no_bsr_nodes = codes "No BrickStor nodes are configured"

pub record Position : Type 0 where
  pub offset : ℤ
  pub node_index : ℕ

-- The first index of a name.
unfoldable pub index_of : Text → List Text → Option ℕ
index_of name [] = none
index_of name (n ∷ ns) =
    let later = elim (index_of name ns) as (λ _. Option ℕ) [
      | none ↦ none
      | some i ↦ some (suc i)
    ] in
    if text_eq n name then some 0 else later

unfoldable pub position_of : List Text → List Text → Outcome Position
unfolding parse_int index_of
position_of nodes (name ∷ offset ∷ []) = elim (parse_int 10 (2 ^ 31) offset) [
  | none ↦ err (status aborted (codes "Invalid starting token; bad offset"))
  | some o ↦ elim (index_of name nodes) [
    | none ↦ err (status aborted (codes "Invalid starting token; unknown node " ++ name))
    | some i ↦ ok (record { offset = o; node_index = i })
  ]
]
position_of nodes _ =
    err (status aborted (codes "Invalid starting token; missing node name and offset"))

-- `getPagingValues`
unfoldable pub get_paging_values : Text → List Text → Outcome Position
unfolding position_of
get_paging_values start_token nodes =
    if is_empty nodes
    then err (status aborted no_bsr_nodes)
    else if is_empty start_token
    then ok (record { offset = pos 0; node_index = 0 })
    else position_of nodes (split b':' start_token)

-- `offset + n`
abbrev pub plus : ℤ → ℕ → ℤ
plus (pos m) n = pos (m + n)
plus (negsuc m) n = if ltb m n then pos (n - suc m) else negsuc (m - n)

-- The loop that fills a page: items before the offset are skipped, and it ends at `max` entries.
unfoldable pub page_entries {ℓ κ} :
    {A : Type ℓ} {B : Type κ} → (A → B) → ℤ → ℕ → ℕ → List A → List B → List B
page_entries convert offset max i [] entries = entries
page_entries convert offset max i (x ∷ xs) entries =
    let skip = page_entries convert offset max (i + 1) xs entries in
    let more = page_entries convert offset max (i + 1) xs (entries ++ convert x ∷ []) in
    if ltb_int (pos i) offset
    then skip
    else if length entries + 1 == max
    then entries ++ convert x ∷ []
    else more

-- `fmt.Sprintf("%s:%d", name, offset)`
abbrev pub token : Text → ℤ → Text
token name offset = volume_id name (format_int offset)

-- The token of the next page: on this node if items are left, else at the next node, if any.
unfoldable pub next_token : Bool → Text → List Text → ℤ → ℕ → ℕ → Text
next_token limited name following offset count total =
    let here = ltb_int (plus offset count) (pos total) in
    let there = elim following as (λ _. Text) [ [] ↦ [] | n ∷ ns ↦ volume_id n (codes "0") ] in
    if limited then if here then token name (plus offset count) else there else there
