-- ===== src/Driver/Paging/Pages.antt =====
-- The loop that fills a page, as a part of the list.
use brickstor_csi_driver.Base.{
  ℕ, zero, suc, ◌+◌, ◌≤◌, ◌<◌, ◌≡◌, refl, List, [], ◌∷◌, ◌++◌, map, append_assoc, append-nil, drop,
  length, pos, arith,
}
use brickstor_csi_driver.Driver.Paging.{page_entries}

abbrev pub take {ℓ} : {A : Type ℓ} → ℕ → List A → List A
take zero xs = []
take (suc n) [] = []
take (suc n) (x ∷ xs) = x ∷ take n xs

length-snoc {ℓ} : {A : Type ℓ} (xs : List A) (x : A) → length (xs ++ x ∷ []) ≡ length xs + 1
length-snoc [] x = refl
length-snoc (y ∷ xs) x = omega (arith, length-snoc xs x)

module _ {A B : Type 0} (convert : A → B) where
  -- Past the offset, the loop takes what is missing to the limit.
  page_entries_tail :
      (o i room max : ℕ) (xs : List A) (entries : List B)
      → o ≤ i
      → max ≡ length entries + suc room
      → page_entries convert (pos o) max i xs entries ≡ entries ++ map convert (take (suc room) xs)
  unfolding page_entries
  page_entries_tail o i room max [] entries h e = rw append-nil
  page_entries_tail o i zero max (x ∷ xs) entries h e = ground arith
  page_entries_tail o i (suc room) max (x ∷ xs) entries h e = ground (
    arith,
    page_entries_tail o (i + 1) room max xs (entries ++ convert x ∷ []),
    length-snoc entries (convert x),
    append_assoc entries (convert x ∷ []) (map convert (take (suc room) xs)),
  )

  page_entries_skip :
      (o i skip room : ℕ) (xs : List A)
      → o ≡ i + skip
      → page_entries convert (pos o) (suc room) i xs []
        ≡ map convert (take (suc room) (drop skip xs))
  unfolding page_entries
  page_entries_skip o i zero room xs h =
      page_entries_tail o i room (suc room) xs [] (omega arith) (omega arith)
  page_entries_skip o i (suc skip) room [] h = refl
  page_entries_skip o i (suc skip) room (x ∷ xs) h =
      ground (arith, page_entries_skip o (i + 1) skip room xs)

  -- A page of a positive limit at an offset holds the items from the offset on, in order and each
  -- once, as many as the limit allows.
  pub page_entries-take :
      (offset max : ℕ) (xs : List A)
      → 0 < max
      → page_entries convert (pos offset) max 0 xs [] ≡ map convert (take max (drop offset xs))
  page_entries-take offset zero xs h = elim h [ ]
  page_entries-take offset (suc room) xs h = page_entries_skip offset 0 offset room xs (omega arith)
