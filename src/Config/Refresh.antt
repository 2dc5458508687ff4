-- ===== src/Config/Refresh.antt =====
-- `Refresh` and `New` of pkg/config/config.go, over the file system and package yaml.
pub mod Outcomes
pub mod Again
pub mod Unchanged
use brickstor_csi_driver.Base.{
  ℕ, Bool, true, false, not, ◌||◌, List, [], ◌++◌, Text, codes, Option, none, some, Eff, pure, fail,
  ◌>>=◌, ◌>>◌, ok, err, panic, Error, plain, Attempt, value, failed, attempt, if◌then◌else◌, ◌==◌,
  is_empty, Grpc, error_text,
}
use brickstor_csi_driver.Config.Nodes.{Config, NodeMap}
use brickstor_csi_driver.Config.Validate.{validate}

-- What `Refresh` calls: `os.Stat`, `ioutil.ReadFile` and `yaml.Unmarshal` into the two exported
-- fields, which it may have written in part where it fails.
pub record Files (W : Type 0) : Type 0 where
  pub stat : Text → Eff W ℕ
  pub read_file : Text → Eff W Text
  pub unmarshal : Text → NodeMap × Bool → (NodeMap × Bool) × Option Error

module _ {W : Type 0} where
  -- A call on the world below a configuration.
  abbrev in_world : {A : Type 0} → Eff W A → Eff (Config × W) A
  in_world m (c, w) = ((m w).0, (c, (m w).1))

  abbrev get_config : Eff (Config × W) Config
  get_config (c, w) = (ok c, (c, w))

  abbrev put_config : Config → Eff (Config × W) (Unit {0})
  put_config c (old, w) = (ok tt, (c, w))

module _ {W : Type 0} (g : Grpc) (f : Files W) where
  abbrev cannot : Text → Text → Error → Error
  cannot doing path e =
      plain (doing ++ (codes " config file (" ++ (path ++ (codes "): " ++ error_text g e))))

  read_content : ℕ → Eff (Config × W) Text
  read_content mod_time = do
    c ← get_config
    put_config (record c { last_mod_time = mod_time; temporary = false })
    r ← attempt (in_world (f.read_file c.file_path))
    elim r [
      | value content ↦ pure content
      | failed e ↦ fail (cannot (codes "Cannot read") c.file_path e)
    ]

  use_secret : Text → Eff (Config × W) Text
  use_secret secret = do c ← get_config; put_config (record c { temporary = true }); pure secret

  -- The new content: the secret, or the file.
  load_content : Text → ℕ → Eff (Config × W) Text
  unfolding read_content use_secret
  load_content secret mod_time =
      if is_empty secret then read_content mod_time else use_secret secret

  validate_config : Eff (Config × W) Bool
  validate_config = do
    c ← get_config
    put_config (record c { node_map = (validate c.node_map).0 })
    elim (validate c.node_map).1 [ none ↦ pure true | some e ↦ fail e ]

  apply_content : Text → Eff (Config × W) Bool
  unfolding validate_config
  apply_content content = do
    c ← get_config
    let r = f.unmarshal content (c.node_map, c.debug)
    put_config (record c { node_map = r.0.0; debug = r.0.1 })
    elim r.1 [
      | none ↦ validate_config
      | some e ↦ fail (cannot (codes "Cannot parse") c.file_path e)
    ]

  pub reload : Text → ℕ → Eff (Config × W) Bool
  unfolding load_content apply_content
  reload secret mod_time = do content ← load_content secret mod_time; apply_content content

  abbrev is_stale : Config → Text → ℕ → Bool
  is_stale c secret mod_time =
      (not (c.last_mod_time == mod_time) || not (is_empty secret)) || c.temporary

  pub refresh_file : Text → Config → Eff (Config × W) Bool
  unfolding reload
  refresh_file secret c = do
    st ← attempt (in_world (f.stat c.file_path))
    elim st [
      | failed e ↦ fail (cannot (codes "Cannot access") c.file_path e)
      | value mod_time ↦ if is_stale c secret mod_time then reload secret mod_time else pure false
    ]

  -- `Refresh`: whether the configuration has changed.
  unfoldable pub refresh : Text → Eff (Config × W) Bool
  unfolding refresh_file
  refresh secret = do
    c ← get_config
    if is_empty c.file_path
        then fail (plain (codes "Cannot read config file, filePath not specified"))
        else refresh_file secret c
