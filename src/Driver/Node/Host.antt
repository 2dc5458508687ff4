-- ===== src/Driver/Node/Host.antt =====
-- What the node server calls of the host.
use brickstor_csi_driver.Base.{ℕ, Bool, List, Text, Eff, Error}

-- `mount.New("")` of k8s.io/mount-utils, package os, and the texts of package strconv and package
-- fmt: an error of a parse, and a list of options and a pattern as `%v` and `%s` print them.
pub record Host (W : Type 0) : Type 0 where
  pub is_likely_not_mount_point : Text → Eff W Bool
  pub mount : Text → Text → Text → List Text → Eff W (Unit {0})
  pub unmount : Text → Eff W (Unit {0})
  pub mkdir_all : Text → ℕ → Eff W (Unit {0})
  pub remove : Text → Eff W (Unit {0})
  pub chmod : Text → ℕ → Eff W (Unit {0})
  pub is_not_exist : Error → Bool
  pub is_permission : Error → Bool
  pub parse_error : Text → Error
  pub cifs_error : Text → List Text → Text
