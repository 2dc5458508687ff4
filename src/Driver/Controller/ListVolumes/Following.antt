-- ===== src/Driver/Controller/ListVolumes/Following.antt =====
-- The pages of one node's volumes and the tokens they end with.
use brickstor_csi_driver.Base.{
  ℕ, zero, suc, ◌+◌, ◌≤◌, ◌<◌, ◌≡◌, refl, ap, sym, ◌∙◌, true, false, List, [], ◌∷◌, ◌++◌, Text,
  codes, map, drop, length, pos, arith, ltb,
}
use brickstor_csi_driver.Bsr.Provider.{Dataset}
use brickstor_csi_driver.Driver.VolumeId.{volume_id}
use brickstor_csi_driver.Driver.Paging.Pages.{take, page_entries-take}
use brickstor_csi_driver.Driver.Paging.{next_token, token}
use brickstor_csi_driver.Strconv.{format_int}
use brickstor_csi_driver.Driver.State.{Platform}
use brickstor_csi_driver.Driver.Controller.ListVolumes.{volume_page}

-- Lists cut in two.
module _ {A : Type 0} where
  drop-nil : (n : ℕ) → drop {A = A} n [] ≡ []
  drop-nil zero = refl
  drop-nil (suc n) = refl

  drop-drop : (o k : ℕ) (xs : List A) → drop k (drop o xs) ≡ drop (o + k) xs
  drop-drop zero k xs = let e : k ≡ 0 + k = omega arith in ap (λ i. drop i xs) e
  drop-drop (suc o) k [] = drop-nil k ∙ sym (drop-nil (suc o + k))
  drop-drop (suc o) k (x ∷ xs) =
      let e : suc (o + k) ≡ suc o + k = omega arith in
      drop-drop o k xs ∙ ap (λ i. drop i (x ∷ xs)) e

  pub drop_all : (o : ℕ) (xs : List A) → length xs ≤ o → drop o xs ≡ []
  drop_all zero [] h = refl
  drop_all (suc o) [] h = refl
  drop_all zero (x ∷ xs) h = absurd (omega arith)
  drop_all (suc o) (x ∷ xs) h = drop_all o xs (omega arith)

  -- What is taken, and what is left behind it.
  take-drop : (m : ℕ) (xs : List A) → take m xs ++ drop (length (take m xs)) xs ≡ xs
  take-drop zero xs = refl
  take-drop (suc m) [] = refl
  take-drop (suc m) (x ∷ xs) = ap (λ l. x ∷ l) (take-drop m xs)

  take-positive : (m o : ℕ) (xs : List A) → 0 < m → o < length xs → 0 < length (take m (drop o xs))
  take-positive zero o xs h k = absurd (omega arith)
  take-positive (suc m) o [] h k = absurd (omega arith)
  take-positive (suc m) zero (x ∷ xs) h k = omega arith
  take-positive (suc m) (suc o) (x ∷ xs) h k = take-positive (suc m) o xs h (omega arith)

  pub length-map : {B : Type 0} (f : A → B) (xs : List A) → length (map f xs) ≡ length xs
  length-map f [] = refl
  length-map f (x ∷ xs) = ap suc (length-map f xs)

  pub map-append :
      {B : Type 0} (f : A → B) (xs ys : List A) → map f (xs ++ ys) ≡ map f xs ++ map f ys
  map-append f [] ys = refl
  map-append f (x ∷ xs) ys = ap (λ l. f x ∷ l) (map-append f xs ys)

-- The token of a page behind which nothing is left: the next node from its start, if any.
abbrev pub token_after : List Text → Text
token_after [] = []
token_after (n ∷ ns) = token n (pos 0)

module _ {W : Type 0} (p : Platform W) (name : Text) (following : List Text) (max : ℕ)
    (ds : List Dataset) where
  -- The volumes of one page.
  abbrev pub entries_at : ℕ → List Text
  entries_at offset = (volume_page p name following (pos offset) max ds).entries

  -- What is behind a page.
  abbrev pub behind : ℕ → ℕ
  behind offset = offset + length (entries_at offset)

  abbrev pub id_of : Dataset → Text
  id_of d = volume_id name d.path

  module _ (limit : 0 < max) where
    entries_at-take : (offset : ℕ) → entries_at offset ≡ map id_of (take max (drop offset ds))
    unfolding volume_page
    entries_at-take offset = page_entries-take id_of offset max ds limit

    length-entries_at :
        (offset : ℕ) → length (entries_at offset) ≡ length (take max (drop offset ds))
    length-entries_at offset =
        ap length (entries_at-take offset) ∙ length-map id_of (take max (drop offset ds))

    -- One page, and all that is behind it.
    pub page_and_rest :
        (offset : ℕ)
        → entries_at offset ++ map id_of (drop (behind offset) ds) ≡ map id_of (drop offset ds)
    page_and_rest offset =
        let taken = take max (drop offset ds) in
        let e : drop (behind offset) ds ≡ drop (length taken) (drop offset ds) =
          ap (λ k. drop (offset + k) ds) (length-entries_at offset)
          ∙ sym (drop-drop offset (length taken) ds) in
        ap (λ l. entries_at offset ++ map id_of l) e
        ∙ ap (λ l. l ++ map id_of (drop (length taken) (drop offset ds))) (entries_at-take offset)
        ∙ sym (map-append id_of taken (drop (length taken) (drop offset ds)))
        ∙ ap (map id_of) (take-drop max (drop offset ds))

    pub lt_of_ltb : {a b : ℕ} → ltb a b ≡ true → a < b
    lt_of_ltb h = ground arith

    pub le_of_ltb : {a b : ℕ} → ltb a b ≡ false → b ≤ a
    le_of_ltb h = ground arith

    -- While items are left, a page moves the offset on.
    pub behind_moves : (offset : ℕ) → offset < length ds → offset < behind offset
    behind_moves offset h =
        omega (arith, length-entries_at offset, take-positive max offset ds limit h)

    -- The token of a page while items are left.
    pub token-here :
        (offset : ℕ)
        → ltb (behind offset) (length ds) ≡ true
        → (volume_page p name following (pos offset) max ds).next_token
          ≡ token name (pos (behind offset))
    unfolding volume_page next_token
    token-here offset more = rw more refl

    pub token-there :
        (offset : ℕ)
        → ltb (behind offset) (length ds) ≡ false
        → (volume_page p name following (pos offset) max ds).next_token ≡ token_after following
    unfolding volume_page next_token
    token-there offset done = rw done (from_start following)
      where
        from_start :
            (names : List Text)
            → (elim names as (λ _. Text) [ [] ↦ [] | n ∷ ns ↦ volume_id n (codes "0") ])
              ≡ token_after names
        from_start [] = refl
        from_start (n ∷ ns) = unfold format_int in refl
