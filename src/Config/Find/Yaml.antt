-- ===== src/Config/Find/Yaml.antt =====
-- Which file `findConfigFile` finds, against a list of what the tree holds.
use brickstor_csi_driver.Base.{
  ◌≡◌, ◌≢◌, ◌⊎◌, refl, ◌∙◌, inl, inr, List, [], ◌∷◌, ◌++◌, Text, Error, none, some, ok, err,
  Outcome, Bool-cases, if◌then◌else◌, path_join,
}
use brickstor_csi_driver.Config.Find.{
  Entry, Entries, file, folder, unseen, no_more, then_next, Walked, going_on, skip_folder, stopped,
  is_yaml, visit, left_inner, walk_entry, walk_entries, and_then, walk, found_by, find_config_file,
}

-- An element of a list.
abbrev pub Among : {A : Type 0} → A → List A → Type 0
Among a [] = ⊥
Among a (x ∷ xs) = (x ≡ a) ⊎ Among a xs

module _ {A : Type 0} (a : A) where
  Among-left : (xs ys : List A) → Among a xs → Among a (xs ++ ys)
  Among-left [] ys h = absurd h
  Among-left (x ∷ xs) ys (inl e) = inl e
  Among-left (x ∷ xs) ys (inr h) = inr (Among-left xs ys h)

  Among-right : (xs ys : List A) → Among a ys → Among a (xs ++ ys)
  Among-right [] ys h = h
  Among-right (x ∷ xs) ys h = inr (Among-right xs ys h)

abbrev pub only_yaml : Text → List Text
only_yaml path = if is_yaml path then path ∷ [] else []

-- The paths of the YAML files, at any depth, in folders that can be read.
mutual
  unfolding path_join

  pub yaml_files : Text → Entry → List Text
  yaml_files dir (file name) = only_yaml (path_join dir name)
  yaml_files dir (folder name none es) = all_yaml_files (path_join dir name) es
  yaml_files dir (folder name (some e) es) = []
  yaml_files dir (unseen e) = []

  pub all_yaml_files : Text → Entries → List Text
  all_yaml_files dir no_more = []
  all_yaml_files dir (then_next e es) = yaml_files dir e ++ all_yaml_files dir es

-- The errors of the entries that cannot be looked at and of the folders that cannot be read.
mutual
  pub faults : Entry → List Error
  faults (file name) = []
  faults (folder name none es) = all_faults es
  faults (folder name (some e) es) = e ∷ []
  faults (unseen e) = e ∷ []

  pub all_faults : Entries → List Error
  all_faults no_more = []
  all_faults (then_next e es) = faults e ++ all_faults es

-- The same for the root, whose path is given.
abbrev pub yaml_below : Text → Entry → List Text
yaml_below dir (file name) = only_yaml dir
yaml_below dir (folder name none es) = all_yaml_files dir es
yaml_below dir (folder name (some e) es) = []
yaml_below dir (unseen e) = []

-- A fault ends the walk, or a YAML file of the part is found, or the part has neither of both and
-- what was found before stays.
abbrev Met : Walked × Text → Text → List Text → List Error → Type 0
Met r found ys fs =
    ((x : Error) × (r.0 ≡ stopped x) × Among x fs)
    ⊎ (((x : Error) → r.0 ≢ stopped x) × Among r.1 ys)
    ⊎ ((r.0 ≡ going_on) × (r.1 ≡ found) × (ys ≡ []) × (fs ≡ []))

visit-Met : (path found : Text) → Met (visit path found) found (only_yaml path) []
unfolding visit
visit-Met path found = elim (Bool-cases (is_yaml path)) [
  | inl e ↦ rw e (inr (inl (λ x q. cc q, inl refl)))
  | inr e ↦ rw e (inr (inr (refl, refl, refl, refl)))
]

left_inner-Met :
    (r : Walked × Text) (found : Text) (ys : List Text) (fs : List Error)
    → Met r found ys fs
    → Met (left_inner r) found ys fs
left_inner-Met (going_on, f) found ys fs h = h
left_inner-Met (skip_folder, f) found ys fs (inl (x, e, h)) = cc e
left_inner-Met (skip_folder, f) found ys fs (inr (inl (on, h))) = inr (inl (λ x q. cc q, h))
left_inner-Met (skip_folder, f) found ys fs (inr (inr (e, kept, y, g))) = cc e
left_inner-Met (stopped x, f) found ys fs h = h

module _ (rest : Text → Walked × Text) (ys zs : List Text) (fs gs : List Error) where
  after_nothing :
      (f found : Text)
      → Met (rest f) f zs gs
      → f ≡ found
      → ys ≡ []
      → fs ≡ []
      → Met (rest f) found (ys ++ zs) (fs ++ gs)
  after_nothing f found (inl (x, e, h)) same y g = inl (x, e, Among-right x fs gs h)
  after_nothing f found (inr (inl (on, h))) same y g =
      inr (inl (on, Among-right (rest f).1 ys zs h))
  after_nothing f found (inr (inr (e, kept, z, none_left))) same y g =
      inr (inr (e, kept ∙ same, rw (y, z) refl, rw (g, none_left) refl))

  after_yaml :
      (f found : Text)
      → Met (rest f) f zs gs
      → Among f ys
      → Met (rest f) found (ys ++ zs) (fs ++ gs)
  after_yaml f found (inl (x, e, h)) there = inl (x, e, Among-right x fs gs h)
  after_yaml f found (inr (inl (on, h))) there = inr (inl (on, Among-right (rest f).1 ys zs h))
  after_yaml f found (inr (inr (e, kept, z, none_left))) there =
      inr (inl (λ x q. cc (e, q), rw kept (Among-left f ys zs there)))

  and_then-Met :
      (r : Walked × Text) (found : Text)
      → Met r found ys fs
      → ((f : Text) → Met (rest f) f zs gs)
      → Met (and_then r rest) found (ys ++ zs) (fs ++ gs)
  and_then-Met (going_on, f) found (inl (x, e, h)) k = cc e
  and_then-Met (going_on, f) found (inr (inl (on, h))) k = after_yaml f found (k f) h
  and_then-Met (going_on, f) found (inr (inr (e, kept, y, g))) k =
      after_nothing f found (k f) kept y g
  and_then-Met (skip_folder, f) found (inl (x, e, h)) k = cc e
  and_then-Met (skip_folder, f) found (inr (inl (on, h))) k = inr (inl (on, Among-left f ys zs h))
  and_then-Met (skip_folder, f) found (inr (inr (e, kept, y, g))) k = cc e
  and_then-Met (stopped x, f) found (inl (y, e, h)) k = inl (y, e, Among-left y fs gs h)
  and_then-Met (stopped x, f) found (inr (inl (on, h))) k = absurd (on x refl)
  and_then-Met (stopped x, f) found (inr (inr (e, kept, y, g))) k = cc e

mutual
  unfolding walk_entry walk_entries yaml_files all_yaml_files faults all_faults

  walk_entry-Met :
      (dir : Text) (e : Entry) (found : Text)
      → Met (walk_entry dir e found) found (yaml_files dir e) (faults e)
  walk_entry-Met dir (file name) found = visit-Met (path_join dir name) found
  walk_entry-Met dir (folder name none es) found =
      left_inner-Met (walk_entries (path_join dir name) es found) found
        (all_yaml_files (path_join dir name) es) (all_faults es)
        (walk_entries-Met (path_join dir name) es found)
  walk_entry-Met dir (folder name (some x) es) found = inl (x, refl, inl refl)
  walk_entry-Met dir (unseen x) found = inl (x, refl, inl refl)

  walk_entries-Met :
      (dir : Text) (es : Entries) (found : Text)
      → Met (walk_entries dir es found) found (all_yaml_files dir es) (all_faults es)
  walk_entries-Met dir no_more found = inr (inr (refl, refl, refl, refl))
  walk_entries-Met dir (then_next e es) found =
      and_then-Met (walk_entries dir es) (yaml_files dir e) (all_yaml_files dir es) (faults e)
        (all_faults es) (walk_entry dir e found) found (walk_entry-Met dir e found)
        (λ f. walk_entries-Met dir es f)

walk-Met : (dir : Text) (tree : Entry) → Met (walk dir tree) [] (yaml_below dir tree) (faults tree)
unfolding walk faults
walk-Met dir (file name) = left_inner-Met (visit dir []) [] (only_yaml dir) [] (visit-Met dir [])
walk-Met dir (folder name none es) =
    left_inner-Met (walk_entries dir es []) [] (all_yaml_files dir es) (all_faults es)
      (walk_entries-Met dir es [])
walk-Met dir (folder name (some x) es) = inl (x, refl, inl refl)
walk-Met dir (unseen x) = inl (x, refl, inl refl)

-- An error that the tree holds, the path of one of its YAML files, or an empty path for a tree with
-- neither.
abbrev pub IsFound : Text → Entry → Outcome Text → Type 0
IsFound dir tree o =
    ((x : Error) × (o ≡ err x) × Among x (faults tree))
    ⊎ ((path : Text) × (o ≡ ok path) × Among path (yaml_below dir tree))
    ⊎ ((o ≡ ok []) × (yaml_below dir tree ≡ []) × (faults tree ≡ []))

found_by-IsFound :
    (dir : Text) (tree : Entry) (r : Walked × Text)
    → Met r [] (yaml_below dir tree) (faults tree)
    → IsFound dir tree (found_by r)
unfolding found_by
found_by-IsFound dir tree (stopped y, f) (inl (x, e, h)) = inl (x, cc e, h)
found_by-IsFound dir tree (going_on, f) (inl (x, e, h)) = cc e
found_by-IsFound dir tree (skip_folder, f) (inl (x, e, h)) = cc e
found_by-IsFound dir tree (stopped y, f) (inr (inl (on, h))) = absurd (on y refl)
found_by-IsFound dir tree (going_on, f) (inr (inl (on, h))) = inr (inl (f, refl, h))
found_by-IsFound dir tree (skip_folder, f) (inr (inl (on, h))) = inr (inl (f, refl, h))
found_by-IsFound dir tree (stopped z, f) (inr (inr (e, kept, y, g))) = cc e
found_by-IsFound dir tree (going_on, f) (inr (inr (e, kept, y, g))) = inr (inr (rw kept refl, y, g))
found_by-IsFound dir tree (skip_folder, f) (inr (inr (e, kept, y, g))) = cc e

-- `findConfigFile` fails with an error that the tree holds, or it returns the path of a YAML file of
-- the tree, or an empty path; an empty path only if the tree holds neither a YAML file nor an
-- error.
pub find_config_file-IsFound :
    (dir : Text) (tree : Entry) → IsFound dir tree (find_config_file dir tree)
unfolding find_config_file
find_config_file-IsFound dir tree = found_by-IsFound dir tree (walk dir tree) (walk-Met dir tree)
