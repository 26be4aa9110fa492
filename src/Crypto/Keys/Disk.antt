-- ===== src/Crypto/Keys/Disk.antt =====
-- internal/crypto/keys.go: where the key files are, and how they are read and written.
use road.Base.{
  ℕ, ◌%◌, ◌≡◌, List, [], ◌∷◌, ◌++◌, Option, none, some, Bool, true, false, not, ◌&&◌, ◌==◌,
  if◌then◌else◌, Bytes, codes, bytes_eq, bytes_key, take, lookup, insert, Result, ok, err, ◌>>=◌,
}
use road.Crypto.Hex.{IsAscii}
use road.Crypto.Keys.{
  Curve, Error, KeyPair, no_home, read_config, parse_config, no_keychain, key_file_not_found,
  insecure_permissions, key_pair_from_raw_bytes,
}

-- What the process finds around it. `home` is what `os.UserHomeDir` gives.
pub record Env : Type 0 where
  pub windows : Bool
  pub appdata : Bytes
  pub home : Option Bytes

pub record FileEntry : Type 0 where
  pub contents : Bytes
  pub mode : ℕ
  -- Whether reading it works.
  pub readable : Bool

abbrev pub Disk : Type 0
Disk = List (Bytes × FileEntry)

-- The modes 0600 and 0077.
abbrev pub key_file_permission : ℕ
key_file_permission = 384

-- How `os.WriteFile` ends: without a change, after a part of the data, or in full.
pub data Write : Type 0 where
  not_opened : Write
  written_part : ℕ → Write
  written : Write

-- `os.WriteFile`: a file that is there keeps its mode.
unfoldable pub put_file : Disk → Bytes → Bytes → Disk
put_file disk path contents = elim (lookup path disk) [
  | none ↦
      insert path (record { contents = contents; mode = key_file_permission; readable = true }) disk
  | some old ↦ insert path (record old { contents = contents }) disk
]

unfoldable pub write_file : Disk → Bytes → Bytes → Write → Bool × Disk
unfolding put_file
write_file disk path contents not_opened = (false, disk)
write_file disk path contents (written_part n) = (false, put_file disk path (take n contents))
write_file disk path contents written = (true, put_file disk path contents)

-- `filepath.Join` on elements that are clean.
abbrev pub join : Bytes → List Bytes → Bytes
join sep [] = []
join sep (a ∷ []) = a
join sep (a ∷ b ∷ rest) = a ++ (sep ++ join sep (b ∷ rest))

-- `defaultConfigPath` and `defaultKeyPath`, which differ in the last element.
unfoldable pub config_dir_file : Env → Bytes → Result Error Bytes
config_dir_file env name =
    if env.windows
    then (if bytes_eq env.appdata []
        then err no_home
        else ok (join (codes "\\") (env.appdata ∷ codes "road-1337" ∷ name ∷ [])))
    else elim env.home [
      | none ↦ err no_home
      | some home ↦ ok (join (codes "/") (home ∷ codes ".config" ∷ codes "road-1337" ∷ name ∷ []))
    ]

unfoldable pub default_config_path : Env → Result Error Bytes
unfolding config_dir_file
default_config_path env = config_dir_file env (codes "config.json")

unfoldable pub default_key_path : Env → Result Error Bytes
unfolding config_dir_file
default_key_path env = config_dir_file env (codes "private.key")

pub record DiskConfig : Type 0 where
  pub salt : Bytes
  pub nonce : Bytes
  pub ciphertext : Bytes
  pub seen_manual : Bool

unfoldable pub IsAsciiConfig : DiskConfig → Type 0
IsAsciiConfig c = IsAscii c.salt × IsAscii c.nonce × IsAscii c.ciphertext

-- encoding/json on this type: what was printed is read back, when its strings are ASCII, or what
-- parsing gave (valid UTF-8 then), with any flag.
pub record Json : Type 0 where
  pub print : DiskConfig → Bytes
  pub parse : Bytes → Option DiskConfig
  pub parse-print : (c : DiskConfig) → IsAsciiConfig c → parse (print c) ≡ some c
  pub parse-print_again :
      (text : Bytes) (c : DiskConfig) (seen : Bool)
      → parse text ≡ some c
      → parse (print (record c { seen_manual = seen })) ≡ some (record c { seen_manual = seen })

-- `os.ReadFile`, with the error for a file that is not there.
unfoldable pub read_file : Disk → Bytes → Error → Result Error Bytes
read_file disk path missing = elim (lookup path disk) [
  | none ↦ err missing
  | some f ↦ if f.readable then ok f.contents else err read_config
]

unfoldable pub read_disk_config : Json → Disk → Bytes → Result Error DiskConfig
unfolding read_file
read_disk_config j disk path = do
  text ← read_file disk path no_keychain
  elim (j.parse text) [ none ↦ err parse_config | some cfg ↦ ok cfg ]

-- The bits of a mode for the group and the others.
abbrev pub group_and_others : ℕ → ℕ
group_and_others mode = mode % 64

unfoldable pub load_key_pair_from_path : Curve → Env → Disk → Bytes → Result Error KeyPair
unfolding read_file
load_key_pair_from_path x env disk path = elim (lookup path disk) [
  | none ↦ err key_file_not_found
  | some f ↦
      if not env.windows && not (group_and_others f.mode == 0)
      then err insecure_permissions
      else do raw ← read_file disk path key_file_not_found; key_pair_from_raw_bytes x raw
]

unfoldable pub load_key_pair_from_disk : Curve → Env → Disk → Result Error KeyPair
unfolding load_key_pair_from_path
load_key_pair_from_disk x env disk = do
  path ← default_key_path env
  load_key_pair_from_path x env disk path
