-- ===== src/Driver/Controller/ListSnapshots/Repeats.antt =====
-- Where the token of a page of one dataset's snapshots leads.
use brickstor_csi_driver.Base.{
  ◌≡◌, ◌⊎◌, refl, ap, ◌∙◌, inl, inr, List, [], ◌∷◌, ◌++◌, Text, arith, Bool-cases, text_eq, ℤ,
  text_eq_refl,
}
use brickstor_csi_driver.Bsr.Provider.{Snapshot}
use brickstor_csi_driver.Driver.Csi.{CsiSnapshot}
use brickstor_csi_driver.Driver.Controller.ListSnapshots.{ds_snap_page, convert_snap, head_path}

-- All snapshots are of one dataset.
abbrev pub AllOf : Text → List Snapshot → Type 0
AllOf path [] = Unit
AllOf path (s ∷ rest) = (s.path ≡ path) × AllOf path rest

module _ (name : Text) (max : ℤ) (path : Text) where
  head_path-AllOf :
      (snaps : List Snapshot) → AllOf path snaps → (head_path snaps ≡ []) ⊎ (head_path snaps ≡ path)
  head_path-AllOf [] h = inl refl
  head_path-AllOf (s ∷ rest) (h, _) = inr h

  -- The dataset's path as a token skips nothing.
  from_path :
      (snaps : List Snapshot) (entries : List CsiSnapshot)
      → AllOf path snaps
      → ds_snap_page name max path snaps entries ≡ ds_snap_page name max [] snaps entries
  unfolding ds_snap_page
  from_path [] entries h = refl
  from_path (s ∷ rest) entries (h, _) =
      rw (h, text_eq_refl path)
        (elim (Bool-cases (text_eq path [])) [ inl e ↦ rw e refl | inr e ↦ rw e refl ])

  token_of_page :
      (snaps : List Snapshot) (entries : List CsiSnapshot)
      → AllOf path snaps
      → let t = (ds_snap_page name max [] snaps entries).next_token in (t ≡ []) ⊎ (t ≡ path)
  unfolding ds_snap_page
  token_of_page [] entries h = inl refl
  token_of_page (s ∷ rest) entries (h, hs) = ground (
    arith,
    token_of_page rest entries hs,
    token_of_page rest (entries ++ convert_snap name s ∷ []) hs,
    head_path-AllOf rest hs,
  )

  -- If all snapshots are of one dataset, then a page of `getDsSnapList` ends with no token, or with
  -- one for which the next call gives the same page again.
  pub ds_snap_page-repeats :
      (snaps : List Snapshot)
      → AllOf path snaps
      → let page = ds_snap_page name max [] snaps [] in
        (page.next_token ≡ []) ⊎ (ds_snap_page name max page.next_token snaps [] ≡ page)
  ds_snap_page-repeats snaps h = elim (token_of_page snaps [] h) [
    | inl e ↦ inl e
    | inr e ↦ inr (ap (λ t. ds_snap_page name max t snaps []) e ∙ from_path snaps [] h)
  ]
