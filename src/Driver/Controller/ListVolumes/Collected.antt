-- ===== src/Driver/Controller/ListVolumes/Collected.antt =====
-- What a caller of `ListVolumes` collects who follows the tokens.
use mathlib.Core.Path.{subst}
use brickstor_csi_driver.Base.{
  ℕ, zero, suc, ◌+◌, ◌≤◌, ◌<◌, ◌^◌, ◌≡◌, ◌≢◌, refl, ap, sym, ◌∙◌, inl, inr, false, List, [], ◌∷◌,
  ◌++◌, append_assoc, append-nil, Text, map, drop, length, ℤ, pos, arith, ltb, Bool-cases, is_empty,
  some, ok, Outcome, split, text_eq, text_eq_refl, >>=-to, Eff, pure, Option, none, crash, Lacks,
  ◌>>=◌, aborted,
}
use brickstor_csi_driver.Bsr.Provider.{Dataset}
use brickstor_csi_driver.Bsr.Resolver.{Resolver}
use brickstor_csi_driver.Config.Nodes.{BsrData, lookup, lookup_node, node_names}
use brickstor_csi_driver.Driver.VolumeId.{volume_id}
use brickstor_csi_driver.Driver.Csi.{ListVolumesRequest, Page}
use brickstor_csi_driver.Driver.Paging.{Position, get_paging_values, index_of, token}
use brickstor_csi_driver.Driver.Paging.Tokens.{get_paging_values-token}
use brickstor_csi_driver.Driver.State.{Platform, State, refresh_config, return}
use brickstor_csi_driver.Driver.Controller.Snapshots.{refresh_or, cannot_use_config}
use brickstor_csi_driver.Driver.Controller.ListVolumes.{
  page_limit, datasets_of, volume_page, list_volumes_from, list_volumes_limited, list_volumes,
  empty_page,
}
use brickstor_csi_driver.Driver.Controller.ListVolumes.Following.{
  entries_at, behind, id_of, drop_all, page_and_rest, lt_of_ltb, le_of_ltb, behind_moves,
  token-here, token-there, token_after,
}

-- No name stands twice.
abbrev AllOther : Text → List Text → Type 0
AllOther n [] = Unit
AllOther n (m ∷ ms) = (text_eq n m ≡ false) × AllOther n ms

abbrev pub Distinct : List Text → Type 0
Distinct [] = Unit
Distinct (n ∷ ns) = AllOther n ns × Distinct ns

-- A name is found where the rest of the list begins with it.
abbrev IsAt : List Text → Text → List Text → Type 0
IsAt names n ns = (i : ℕ) × (index_of n names ≡ some i) × (drop i names ≡ n ∷ ns)

abbrev Located : List Text → List Text → Type 0
Located names [] = Unit
Located names (n ∷ ns) = IsAt names n ns × Located names ns

Located-behind :
    (names : List Text) (n : Text) (ns : List Text)
    → Located names ns
    → AllOther n ns
    → Located (n ∷ names) ns
unfolding index_of
Located-behind names n [] h other = tt
Located-behind names n (m ∷ ms) ((i, known, here), rest) (ne, other) =
    ((suc i, rw (known, ne) refl, here), Located-behind names n ms rest other)

Distinct-Located : (names : List Text) → Distinct names → Located names names
unfolding index_of
Distinct-Located [] h = tt
Distinct-Located (n ∷ ns) (other, rest) =
    ((0, rw (text_eq_refl n) refl, refl), Located-behind ns n ns (Distinct-Located ns rest) other)

module _ {W : Type 0} (p : Platform W) (max : ℕ) where
  abbrev pub ask : Text → ListVolumesRequest
  ask t = record { max_entries = pos max; starting_token = t }

  -- The ids that a caller collects who asks for the page of a token, and then for that of the token
  -- that the page ends with, until a page ends with none.
  pub data Collected : State W → Text → List Text → Type 0 where
    last :
        (s s' : State W) (t : Text) (page : Page Text)
        → list_volumes p (ask t) s ≡ (ok page, s')
        → page.next_token ≡ []
        → Collected s t page.entries
    more :
        (s s' : State W) (t : Text) (page : Page Text) (rest : List Text)
        → list_volumes p (ask t) s ≡ (ok page, s')
        → page.next_token ≢ []
        → Collected s' page.next_token rest
        → Collected s t (page.entries ++ rest)

  module _ (s : State W) (held : Text → List Dataset) where
    -- The node is configured, has a resolver, and its addresses hold these datasets together,
    -- without a change of the world; its name has no colon, and the datasets can be counted by an
    -- offset.
    abbrev pub Answers : Text → Type 0
    Answers n =
        (Lacks b':' n × (length (held n) < 2 ^ 31))
        × ((d : BsrData) × (r : Resolver W) × (lookup_node s.config n ≡ some d)
            × (lookup n s.controller ≡ some r)
            × (datasets_of p r (split b',' d.address) s ≡ (ok (held n), s)))

    abbrev pub AllAnswer : List Text → Type 0
    AllAnswer [] = Unit
    AllAnswer (n ∷ ns) = Answers n × AllAnswer ns

    -- The ids of all volumes, node by node.
    abbrev pub all_ids : List Text → List Text
    all_ids [] = []
    all_ids (n ∷ ns) = map (λ (d : Dataset). volume_id n d.path) (held n) ++ all_ids ns

    -- A node with datasets gives the page, one without is passed over.
    page_or_next : Text → List Text → ℤ → List Dataset → Outcome (Page Text) × State W
    page_or_next n ns offset [] = list_volumes_from p ns offset max s
    page_or_next n ns offset (x ∷ xs) = (ok (volume_page p n ns offset max (x ∷ xs)), s)

    abbrev page_of : Text → List Text → ℤ → List Dataset → Eff (State W) (Page Text)
    page_of n ns offset ds = elim ds [
      | [] ↦ list_volumes_from p ns offset max
      | x ∷ xs ↦ pure (volume_page p n ns offset max (x ∷ xs))
    ]

    page_of-same :
        (n : Text) (ns : List Text) (offset : ℤ) (ds : List Dataset)
        → page_of n ns offset ds s ≡ page_or_next n ns offset ds
    unfolding page_or_next
    page_of-same n ns offset [] = refl
    page_of-same n ns offset (x ∷ xs) = refl

    abbrev with_resolver :
        Text → List Text → ℤ → BsrData → Option (Resolver W) → Eff (State W) (Page Text)
    with_resolver n ns offset d o = elim o [
      | none ↦ crash
      | some r ↦ datasets_of p r (split b',' d.address) >>= page_of n ns offset
    ]

    abbrev with_data : Text → List Text → ℤ → Option BsrData → Eff (State W) (Page Text)
    with_data n ns offset o = elim o [
      | none ↦ list_volumes_from p ns offset max
      | some d ↦ with_resolver n ns offset d (lookup n s.controller)
    ]

    list_from_data :
        (n : Text) (ns : List Text) (offset : ℤ)
        → list_volumes_from p (n ∷ ns) offset max s
          ≡ with_data n ns offset (lookup_node s.config n) s
    unfolding list_volumes_from
    list_from_data n ns offset = refl

    list_from_node :
        (n : Text) (ns : List Text) (offset : ℤ)
        → Answers n
        → list_volumes_from p (n ∷ ns) offset max s ≡ page_or_next n ns offset (held n)
    list_from_node n ns offset (_, (d, r, known, there, answer)) =
        list_from_data n ns offset
        ∙ ap (λ o. with_data n ns offset o s) known
        ∙ ap (λ o. with_resolver n ns offset d o s) there
        ∙ >>=-to (datasets_of p r (split b',' d.address)) (page_of n ns offset) s answer
        ∙ page_of-same n ns offset (held n)

    module _ (limit : 0 < max) (fresh : refresh_config p [] s ≡ (ok tt, s)) where
      limited : page_limit max ≡ max
      limited = ground arith

      refreshed : refresh_or p (cannot_use_config p aborted) [] s ≡ (ok tt, s)
      refreshed =
          let done : (refresh_config p [] s).0 ≡ ok tt = ap (λ r. r.0) fresh in
          let step : refresh_or p (cannot_use_config p aborted) [] s
              ≡ (ok tt, (refresh_config p [] s).1) =
            rw (done, ◌>>=◌) refl in
          step ∙ ap (λ (r : Outcome (Unit {0}) × State W). (ok tt, r.1)) fresh

      abbrev from_position : Position → Eff (State W) (Page Text)
      from_position q = list_volumes_from p (drop q.node_index (node_names s.config)) q.offset max

      -- What `ListVolumes` does with a token that is read.
      list_at :
          (t : Text) (q : Position)
          → get_paging_values t (node_names s.config) ≡ ok q
          → list_volumes p (ask t) s ≡ from_position q s
      unfolding list_volumes list_volumes_limited
      list_at t q read =
          ap (λ m. list_volumes_limited p t m s) limited
          ∙ >>=-to (refresh_or p (cannot_use_config p aborted) [])
              (λ u s'.
                (return (get_paging_values t (node_names s'.config)) >>= λ q.
                list_volumes_from p (drop q.node_index (node_names s'.config)) q.offset max)
                  s')
              s refreshed
          ∙ >>=-to (return (get_paging_values t (node_names s.config))) from_position s
              (ap (λ (o : Outcome Position). (o, s)) read)

      abbrev names : List Text
      names = node_names s.config

      list_at-token :
          (n : Text) (ns : List Text) (offset : ℕ)
          → IsAt names n ns
          → Lacks b':' n
          → offset < 2 ^ 31
          → list_volumes p (ask (token n (pos offset))) s
            ≡ list_volumes_from p (n ∷ ns) (pos offset) max s
      list_at-token n ns offset (i, known, here) colon small =
          list_at (token n (pos offset)) (record { offset = pos offset; node_index = i })
            (get_paging_values-token names n (pos offset) i colon small known)
          ∙ ap (λ (l : List Text). list_volumes_from p l (pos offset) max s) here

      -- The last page of a node, and what follows on the nodes behind it.
      abbrev AllBehind : List Text → Type 0
      AllBehind ns =
          (t : Text)
          → list_volumes p (ask t) s ≡ list_volumes_from p ns (pos 0) max s
          → Collected s t (all_ids ns)

      token-ne : (n : Text) (offset : ℕ) → token n (pos offset) ≢ []
      token-ne [] offset q = cc q
      token-ne (c ∷ n) offset q = cc q

      last_page :
          (ns : List Text) (t : Text) (page : Page Text)
          → list_volumes p (ask t) s ≡ (ok page, s)
          → page.next_token ≡ token_after ns
          → AllAnswer ns
          → Located names ns
          → AllBehind ns
          → Collected s t (page.entries ++ all_ids ns)
      last_page [] t page e next answers at behind_it =
          subst (Collected s t) (sym (append-nil page.entries)) (last s s t page e next)
      last_page (n ∷ ns) t page e next ((name, _), _) (at, _) behind_it =
          let eq : list_volumes p (ask (token n (pos 0))) s
              ≡ list_volumes_from p (n ∷ ns) (pos 0) max s =
            list_at-token n ns 0 at name.0 (omega arith) in
          more s s t page (all_ids (n ∷ ns)) e (λ q. token-ne n 0 (sym next ∙ q))
            (subst (λ u. Collected s u (all_ids (n ∷ ns))) (sym next)
              (behind_it (token n (pos 0)) eq))

      passed_over :
          (n : Text) (ns : List Text)
          → page_or_next n ns (pos 0) [] ≡ list_volumes_from p ns (pos 0) max s
      unfolding page_or_next
      passed_over n ns = refl

      page_there :
          (n : Text) (ns : List Text) (offset : ℤ) (ds : List Dataset)
          → 0 < length ds
          → page_or_next n ns offset ds ≡ (ok (volume_page p n ns offset max ds), s)
      unfolding page_or_next
      page_there n ns offset [] h = absurd (omega arith)
      page_there n ns offset (x ∷ xs) h = refl

      module _ (n : Text) (ns : List Text) (answer : Answers n) (at : IsAt names n ns)
          (answers : AllAnswer ns) (located : Located names ns) (behind_it : AllBehind ns) where
        abbrev total : ℕ
        total = length (held n)

        abbrev page : ℕ → Page Text
        page offset = volume_page p n ns (pos offset) max (held n)

        abbrev after : ℕ → ℕ
        after = behind p n ns max (held n)

        -- What is left of the node's ids, and those of the nodes behind it.
        abbrev left : ℕ → List Text
        left offset = map (id_of p n ns max (held n)) (drop offset (held n)) ++ all_ids ns

        abbrev entries : ℕ → List Text
        entries = entries_at p n ns max (held n)

        listed :
            (offset : ℕ)
            → offset < total
            → list_volumes p (ask (token n (pos offset))) s ≡ (ok (page offset), s)
        listed offset room =
            list_at-token n ns offset at answer.0.0 (omega (arith, answer.0.1))
            ∙ list_from_node n ns (pos offset) answer
            ∙ page_there n ns (pos offset) (held n) (omega arith)

        -- The last page of the node.
        left-done :
            (offset : ℕ)
            → ltb (after offset) total ≡ false
            → entries offset ++ all_ids ns ≡ left offset
        left-done offset done =
            let none_left : drop (after offset) (held n) ≡ [] =
              drop_all (after offset) (held n) (le_of_ltb p n ns max (held n) limit done) in
            let whole : entries offset ≡ map (id_of p n ns max (held n)) (drop offset (held n)) =
              sym (append-nil (entries offset))
              ∙ ap (λ l. entries offset ++ map (id_of p n ns max (held n)) l) (sym none_left)
              ∙ page_and_rest p n ns max (held n) limit offset in
            ap (λ l. l ++ all_ids ns) whole

        left-more : (offset : ℕ) → entries offset ++ left (after offset) ≡ left offset
        left-more offset =
            sym (
              append_assoc (entries offset)
                (map (id_of p n ns max (held n)) (drop (after offset) (held n))) (all_ids ns))
            ∙ ap (λ l. l ++ all_ids ns) (page_and_rest p n ns max (held n) limit offset)

        -- The pages of the node from an offset on, of which at most so many are missing.
        node_pages :
            (calls offset : ℕ) (t : Text)
            → total ≤ offset + calls
            → offset < total
            → list_volumes p (ask t) s ≡ (ok (page offset), s)
            → Collected s t (left offset)
        node_pages zero offset t enough room e = absurd (omega arith)
        node_pages (suc calls) offset t enough room e =
            elim (Bool-cases (ltb (after offset) total)) [
              | inr done ↦ subst (Collected s t) (left-done offset done) (
                  last_page ns t (page offset) e (token-there p n ns max (held n) limit offset done)
                    answers located behind_it)
              | inl going ↦
                  let next = token-here p n ns max (held n) limit offset going in
                  let room' : after offset < total = lt_of_ltb p n ns max (held n) limit going in
                  let moved : offset < after offset =
                    behind_moves p n ns max (held n) limit offset room in
                  let rest =
                    node_pages calls (after offset) (token n (pos (after offset)))
                      (omega (arith, enough, moved)) room' (listed (after offset) room') in
                  subst (Collected s t) (left-more offset) (
                    more s s t (page offset) (left (after offset)) e
                      (λ q. token-ne n (after offset) (sym next ∙ q))
                      (subst (λ u. Collected s u (left (after offset))) (sym next) rest))
            ]

        -- All of the node and of those behind it.
        node_and_rest : AllBehind (n ∷ ns)
        node_and_rest t e = elim (Bool-cases (ltb 0 total)) [
          | inl some_held ↦
              let room : 0 < total = lt_of_ltb p n ns max (held n) limit some_held in
              node_pages total 0 t (omega arith) room
                (e ∙ list_from_node n ns (pos 0) answer ∙ page_there n ns (pos 0) (held n) room)
          | inr nothing_held ↦
              let empty : held n ≡ [] =
                drop_all 0 (held n) (le_of_ltb p n ns max (held n) limit nothing_held) in
              subst (λ l. Collected s t (map (id_of p n ns max (held n)) l ++ all_ids ns))
                (sym empty)
                (behind_it t (
                  e
                  ∙ list_from_node n ns (pos 0) answer
                  ∙ ap (page_or_next n ns (pos 0)) empty
                  ∙ passed_over n ns))
        ]

      collect_from : (ns : List Text) → AllAnswer ns → Located names ns → AllBehind ns
      unfolding list_volumes_from
      collect_from [] answers located t e = last s s t empty_page e refl
      collect_from (n ∷ ns) (answer, answers) (at, located) t e =
          node_and_rest n ns answer at answers located (collect_from ns answers located) t e

      -- A caller of `ListVolumes` that starts without a token and follows the tokens of the pages
      -- comes to a page without one, and has then got the id of each dataset of each node, once and
      -- in order; nodes without datasets are passed over. This is for a positive limit, while the
      -- refresh, the configuration, the world and the datasets stay as they are, where there is a
      -- node, each name stands once, holds no colon and has a resolver, and each node has fewer
      -- than 2 ^ 31 datasets.
      pub collect_all :
          is_empty names ≡ false → Distinct names → AllAnswer names → Collected s [] (all_ids names)
      unfolding get_paging_values
      collect_all some_nodes distinct answers =
          collect_from names answers (Distinct-Located names distinct) []
            (list_at [] (record { offset = pos 0; node_index = 0 }) (rw some_nodes refl))
