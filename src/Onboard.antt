-- ===== src/Onboard.antt =====
-- internal/onboard/onboard.go: the file that says that the guide was shown.
pub mod Console
mod English
mod Russian
pub mod Guide
pub mod Shown
mod Runs
use road.Base.{
  none, some, Bool, true, false, if◌then◌else◌, Result, ok, err, Bytes, codes, bytes_key, lookup,
}
use road.Crypto.Keys.Disk.{Env, Disk, Write, write_file, config_dir_file}
use road.Crypto.Keys

unfoldable pub sentinel_path : Env → Result Keys.Error Bytes
sentinel_path env = config_dir_file env (codes "setup_done")

unfoldable pub is_first_run : Env → Disk → Bool
is_first_run env disk = elim (sentinel_path env) [
  | err e ↦ false
  | ok path ↦ elim (lookup path disk) [ none ↦ true | some f ↦ false ]
]

unfoldable pub mark_done : Env → Disk → Bool → Write → Disk
mark_done env disk mkdir_ok write = elim (sentinel_path env) [
  | err e ↦ disk
  | ok path ↦ if mkdir_ok then (write_file disk path (codes "1") write).1 else disk
]
