-- ===== src/Crypto/Keys/Runs.antt =====
-- The key store at concrete inputs.
use road.Crypto.Keys.Disk.{FileEntry}
use road.Base.{sym, ap, ◌∷◌, bytes_eq, Bool-cases, inl, inr}
use road.Base.{
  ◌≡◌, refl, [], some, true, false, Bytes, codes, replicate, ok, lookup, All-replicate, IsByte,
  arith, bytes_key,
}
use road.Crypto.Standins.{clear_aead}
use road.Crypto.Keys.{pair_of}
use road.Crypto.Keys.Disk.{Env, Disk, Write, written, default_config_path}
use road.Crypto.Keys.Store.{
  Outcome, save_private_key_encrypted, load_key_pair_from_disk_encrypted, check_first_run,
  mark_manual_as_seen,
}
use road.Crypto.Keys.Store.Stored.{IsReadable}
use road.Crypto.Keys.Store.Reload.{load_key_pair_from_disk_encrypted-save_private_key_encrypted}
use road.Crypto.Keys.Standins.{toy_curve, toy_json, sevens, toy-GivesBytes}

abbrev linux : Env
linux = record { windows = false; appdata = []; home = some (codes "/home/a") }

abbrev empty_disk : Disk
empty_disk = []

abbrev fine : Outcome
fine = record { mkdir_ok = true; write = written; chmod_ok = true }

abbrev secret : Bytes
secret = replicate 32 5

empty-IsReadable : (path : Bytes) → IsReadable empty_disk path
unfolding lookup
empty-IsReadable path f e = cc

saves :
    (save_private_key_encrypted toy_curve clear_aead toy_json linux sevens empty_disk 0
      (pair_of toy_curve secret)
      (codes "pass")
      fine).0
    ≡ ok (codes "/home/a/.config/road-1337/config.json")
unfolding save_private_key_encrypted default_config_path road.Crypto.Keys.Store.save_at
    road.Crypto.Keys.derive_disk_key road.Crypto.Keys.Store.store_config
    road.Crypto.Keys.Disk.write_file
saves = refl

load_key_pair_from_disk_encrypted-save_private_key_encrypted_example :
    let saved =
      save_private_key_encrypted toy_curve clear_aead toy_json linux sevens empty_disk 0
        (pair_of toy_curve secret)
        (codes "pass")
        fine in
    (load_key_pair_from_disk_encrypted toy_curve clear_aead toy_json linux saved.1 (codes "pass")
      ≡ ok (pair_of toy_curve secret))
    × (check_first_run toy_json linux saved.1 ≡ check_first_run toy_json linux empty_disk)
load_key_pair_from_disk_encrypted-save_private_key_encrypted_example =
    load_key_pair_from_disk_encrypted-save_private_key_encrypted toy_curve clear_aead toy_json linux
      sevens empty_disk 0 secret (codes "pass") fine toy-GivesBytes refl
      (All-replicate IsByte 32 5 (omega arith)) (codes "/home/a/.config/road-1337/config.json")
      (λ path e. empty-IsReadable path) saves

abbrev config_file : FileEntry
config_file = record {
  contents =
      toy_json.print
        (record { salt = codes "00"; nonce = codes "00"; ciphertext = []; seen_manual = false });
  mode = 384;
  readable = true;
}

abbrev one_file : Disk
one_file = (codes "/home/a/.config/road-1337/config.json", config_file) ∷ []

one_file-IsReadable : (path : Bytes) → IsReadable one_file path
unfolding lookup
one_file-IsReadable path f e =
    elim (Bool-cases (bytes_eq (codes "/home/a/.config/road-1337/config.json") path)) [
      | inl h ↦
          let g : some config_file ≡ some f = rw h at e in
          let k : config_file ≡ f = cc in ap (λ x. x.readable) (sym k)
      | inr h ↦ absurd (let g = rw h at e in cc)
    ]

marks : (mark_manual_as_seen toy_json linux one_file written).0 ≡ ok tt
unfolding mark_manual_as_seen default_config_path road.Crypto.Keys.Disk.read_disk_config lookup
    road.Crypto.Keys.Standins.toy_parse road.Crypto.Keys.Standins.toy_print
    road.Crypto.Keys.Disk.write_file
marks = refl
