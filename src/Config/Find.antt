-- ===== src/Config/Find.antt =====
-- `findConfigFile` and `New` of pkg/config/config.go, with what they use of filepath.Walk.
pub mod Yaml
pub mod Usable
use brickstor_csi_driver.Base.{
  Bool, true, false, ◌||◌, ◌∷◌, [], ◌++◌, Text, codes, Option, none, some, Eff, pure, fail, ◌>>=◌,
  ok, err, panic, Outcome, Error, plain, Attempt, value, failed, attempt, if◌then◌else◌, is_empty,
  text_eq, cut_last, path_join, Grpc, error_text,
}
use brickstor_csi_driver.Config.Nodes.{Config}
use brickstor_csi_driver.Config.Refresh.{Files, refresh}

-- A directory tree as `filepath.Walk` meets it, in the order of the names: a file, a folder with the
-- error of reading it, if any, and an entry that cannot be looked at.
mutual
  pub data Entry : Type 0 where
    file : Text → Entry
    folder : Text → Option Error → Entries → Entry
    unseen : Error → Entry

  pub data Entries : Type 0 where
    no_more : Entries
    then_next : Entry → Entries → Entries

-- What the walk of a part comes to: it goes on, the containing folder is left, or the walk ends.
pub data Walked : Type 0 where
  going_on : Walked
  skip_folder : Walked
  stopped : Error → Walked

-- The last element of a path.
abbrev base : Text → Text
base path = elim (cut_last b'/' path) [ none ↦ path | some (dir, name) ↦ name ]

-- `filepath.Ext(path)`
unfoldable pub ext : Text → Text
ext path = elim (cut_last b'.' (base path)) [ none ↦ [] | some (name, e) ↦ b'.' ∷ e ]

unfoldable pub is_yaml : Text → Bool
unfolding ext
is_yaml path = text_eq (ext path) (codes ".yaml") || text_eq (ext path) (codes ".yml")

-- The callback of `findConfigFile` for a file.
unfoldable pub visit : Text → Text → Walked × Text
unfolding is_yaml
visit path found = if is_yaml path then (skip_folder, path) else (going_on, found)

-- What a folder's outcome is to the folder around it: leaving the inner one leaves no other.
abbrev pub left_inner : Walked × Text → Walked × Text
left_inner (skip_folder, found) = (going_on, found)
left_inner (going_on, found) = (going_on, found)
left_inner (stopped e, found) = (stopped e, found)

-- The rest of a folder, unless an entry ends the walk of it.
abbrev pub and_then : Walked × Text → (Text → Walked × Text) → Walked × Text
and_then (going_on, found) rest = rest found
and_then (skip_folder, found) rest = (skip_folder, found)
and_then (stopped e, found) rest = (stopped e, found)

unfoldable mutual
  unfolding visit path_join

  pub walk_entry : Text → Entry → Text → Walked × Text
  walk_entry dir (file name) found = visit (path_join dir name) found
  walk_entry dir (folder name none es) found =
      left_inner (walk_entries (path_join dir name) es found)
  walk_entry dir (folder name (some e) es) found = (stopped e, found)
  walk_entry dir (unseen e) found = (stopped e, found)

  pub walk_entries : Text → Entries → Text → Walked × Text
  walk_entries dir no_more found = (going_on, found)
  walk_entries dir (then_next e es) found = and_then (walk_entry dir e found) (walk_entries dir es)

-- `filepath.Walk` from its root.
unfoldable pub walk : Text → Entry → Walked × Text
unfolding walk_entry visit
walk dir (file name) = left_inner (visit dir [])
walk dir (folder name none es) = left_inner (walk_entries dir es [])
walk dir (folder name (some e) es) = (stopped e, [])
walk dir (unseen e) = (stopped e, [])

found_by : Walked × Text → Outcome Text
found_by (stopped e, found) = err e
found_by (going_on, found) = ok found
found_by (skip_folder, found) = ok found

-- `findConfigFile`; the path that was found before an error is returned with it, and not used.
unfoldable pub find_config_file : Text → Entry → Outcome Text
unfolding walk found_by
find_config_file dir tree = found_by (walk dir tree)

-- A configuration before it is read.
abbrev pub empty_config : Text → Config
empty_config path = record {
  node_map = [];
  debug = false;
  file_path = path;
  last_mod_time = 0;
  temporary = false;
}

module _ {W : Type 0} (g : Grpc) (f : Files W) (tree : Text → W → Entry) where
  cannot_read : Text → Error → Error
  cannot_read dir e =
      plain (codes "Cannot read config directory '" ++ (dir ++ (codes "': " ++ error_text g e)))

  no_file : Text → Error
  no_file dir = plain (codes "Cannot find .yaml config file in '" ++ (dir ++ codes "' directory"))

  cannot_refresh : Text → Error → Error
  cannot_refresh path e =
      plain (codes "Cannot refresh config from file '" ++ (path ++ (codes "': " ++ error_text g e)))

  -- The first read of the file that was found.
  unfoldable pub first_read : Text → Eff W Config
  unfolding refresh cannot_refresh
  first_read path w =
      let r = refresh g f [] (empty_config path, w) in
      elim r.0 [
        | ok changed ↦ (ok r.1.0, r.1.1)
        | err e ↦ (err (cannot_refresh path e), r.1.1)
        | panic ↦ (panic, r.1.1)
      ]

  unfoldable pub new_at : Text → Outcome Text → Eff W Config
  unfolding cannot_read no_file first_read
  new_at dir (err e) = fail (cannot_read dir e)
  new_at dir panic = λ w. (panic, w)
  new_at dir (ok path) = if is_empty path then fail (no_file dir) else first_read path

  -- `New`
  unfoldable pub new : Text → Eff W Config
  unfolding find_config_file new_at
  new dir w = new_at dir (find_config_file dir (tree dir w)) w
