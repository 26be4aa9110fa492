-- ===== src/Command.antt =====
-- cmd/road-1337/main.go: the commands, from their arguments and the hidden input to the key file.
pub mod Target
pub mod Keychain
pub mod Restore
pub mod Chat
pub mod Usage
pub mod Server
mod Runs
use road.Base.{
  map, ℕ, ◌≡◌, List, [], ◌∷◌, ◌++◌, Option, none, some, Bool, true, false, not, ◌==◌, ◌||◌,
  if◌then◌else◌, Result, ok, err, Bytes, codes, bytes_eq, bytes_key, lookup, length,
}
use road.Onboard.{is_first_run, mark_done}
use road.Crypto.Base58.{decode_base58}
use road.Crypto.Base58
use road.Crypto.Cipher.{Aead, Random}
use road.Crypto.Keys.{
  Curve, KeyPair, generate_key_pair, key_pair_from_raw_bytes, public_key_base58,
  public_key_from_base58,
}
use road.Crypto.Keys
use road.Crypto.Keys.Disk.{Env, Disk, Write, write_file, config_dir_file, Json}
use road.Crypto.Keys.Store.{
  Outcome, save_private_key_encrypted, load_key_pair_from_disk_encrypted, mark_manual_as_seen,
}

pub data Error : Type 0 where
  missing_command : Error
  unknown_command : Bytes → Error
  key_generation : Keys.Error → Error
  read_input : Error
  empty_passphrase : Error
  passphrases_differ : Error
  save_keychain : Keys.Error → Error
  empty_input : Error
  invalid_base58 : Base58.Error → Error
  invalid_private_key : Keys.Error → Error
  invalid_target : Bytes → Error
  missing_port : Bytes → Error
  invalid_peer_key : Keys.Error → Error
  unlock_failed : Keys.Error → Error

-- What is printed that matters: the rest is decoration.
pub data Line : Type 0 where
  guide : Line
  usage : Line
  version_line : Line
  keychain_saved : Bytes → Line
  keychain_restored : Bytes → Line
  public_key : Bytes → Line

-- What a command goes on to run.
pub data Action : Type 0 where
  finished : Action
  serve : List Bytes → Action
  demo : Action
  chat : Bytes → KeyPair → Bytes → Action

-- The names and values of the machine: `trim` is `strings.TrimSpace`.
pub record Host : Type 1 where
  pub curve : Curve
  pub aead : Aead
  pub json : Json
  pub env : Env
  pub random : Random
  pub trim : Bytes → Bytes

pub record World (h : Host) : Type 0 where
  pub disk : Disk
  pub source : h.random.Source
  -- What the next hidden inputs give; `none` is a read that fails.
  pub inputs : List (Option Bytes)
  pub shown : List Line

-- How the calls of the file system end, in the order in which a command makes them.
pub record Outcomes : Type 0 where
  pub setup_mkdir : Bool
  pub setup : Write
  pub save : Outcome
  pub manual : Write

module _ (h : Host) where
  -- The lines that the user is going to type.
  abbrev pub typing : World h → List Bytes → World h
  typing w lines = record w { inputs = map some lines }

  abbrev pub say : World h → Line → World h
  say w l = record w { shown = w.shown ++ (l ∷ []) }

  unfoldable pub read_hidden_input : World h → Result Error Bytes × World h
  read_hidden_input w = elim w.inputs [
    | [] ↦ (err read_input, w)
    | i ∷ rest ↦
        (elim i [ none ↦ err read_input | some raw ↦ ok (h.trim raw) ], record w { inputs = rest })
  ]

  unfoldable pub prompt_new_passphrase : World h → Result Error Bytes × World h
  prompt_new_passphrase w =
      let (first, w1) = read_hidden_input w in
      elim first [
        | err e ↦ (err e, w1)
        | ok p1 ↦
            if bytes_eq p1 []
            then (err empty_passphrase, w1)
            else let (second, w2) = read_hidden_input w1 in
              elim second [
                | err e ↦ (err e, w2)
                | ok p2 ↦ (if bytes_eq p1 p2 then ok p1 else err passphrases_differ, w2)
              ]
      ]

  -- With a key pair and the passphrase: the key file, and what is printed.
  unfoldable pub save_keys :
      World h → KeyPair → Outcome → (Bytes → Line) → Bytes → Result Error Bytes × World h
  save_keys w kp o line passphrase =
      let (saved, disk, source) =
        save_private_key_encrypted h.curve h.aead h.json h.env h.random w.disk w.source kp
          passphrase o in
      let w1 = record w { disk = disk; source = source } in
      elim saved [
        | err e ↦ (err (save_keychain e), w1)
        | ok path ↦ (ok path, say (say w1 (line path)) (public_key (public_key_base58 kp)))
      ]

  unfoldable pub store_keys :
      World h → KeyPair → Outcome → (Bytes → Line) → Result Error Bytes × World h
  store_keys w kp o line =
      let (passphrase, w1) = prompt_new_passphrase w in
      elim passphrase [ err e ↦ (err e, w1) | ok p ↦ save_keys w1 kp o line p ]

  unfoldable pub onboarded : World h → Outcomes → World h
  onboarded w o =
      if is_first_run h.env w.disk
      then record (say w guide) { disk = mark_done h.env w.disk o.setup_mkdir o.setup }
      else w

  unfoldable pub cmd_generate_keychain : World h → Outcomes → Result Error Action × World h
  unfolding store_keys
  cmd_generate_keychain w0 o =
      let w = onboarded w0 o in
      let (kp, source) = generate_key_pair h.curve h.random w.source in
      let w1 = record w { source = source } in
      elim kp [
        | err e ↦ (err (key_generation e), w1)
        | ok kp ↦
            let (saved, w2) = store_keys w1 kp o.save keychain_saved in
            elim saved [
              | err e ↦ (err e, w2)
              | ok path ↦ (
                ok finished,
                record w2 { disk = (mark_manual_as_seen h.json h.env w2.disk o.manual).1 },
              )
            ]
      ]

  unfoldable pub cmd_restore_key : World h → Outcome → Result Error Action × World h
  unfolding store_keys
  cmd_restore_key w o =
      let (input, w1) = read_hidden_input w in
      elim input [
        | err e ↦ (err e, w1)
        | ok raw ↦ if bytes_eq raw [] then (err empty_input, w1) else elim (decode_base58 raw) [
          | err e ↦ (err (invalid_base58 e), w1)
          | ok priv ↦ elim (key_pair_from_raw_bytes h.curve priv) [
            | err e ↦ (err (invalid_private_key e), w1)
            | ok kp ↦
                let (saved, w2) = store_keys w1 kp o keychain_restored in
                elim saved [ err e ↦ (err e, w2) | ok path ↦ (ok finished, w2) ]
          ]
        ]
      ]

abbrev pub contains : ℕ → Bytes → Bool
contains c [] = false
contains c (b ∷ bs) = b == c || contains c bs

-- `strings.SplitN(target, "@", 2)`, where it gives two parts.
unfoldable pub split_at : ℕ → Bytes → Option (Bytes × Bytes)
split_at c [] = none
split_at c (b ∷ bs) =
    let rest = split_at c bs in
    if b == c
    then some ([], bs)
    else elim rest [ none ↦ none | some (front, back) ↦ some (b ∷ front, back) ]

module _ (h : Host) where
  -- With the address and the peer's key apart.
  unfoldable pub unlock_and_chat : World h → Bytes → Bytes → Result Error Action × World h
  unlock_and_chat w addr peer_key =
      if not (contains 58 addr)
      then (err (missing_port addr), w)
      else elim (public_key_from_base58 peer_key) [
        | err e ↦ (err (invalid_peer_key e), w)
        | ok peer ↦
            let (passphrase, w1) = read_hidden_input h w in
            elim passphrase [
              | err e ↦ (err e, w1)
              | ok p ↦
                  elim (load_key_pair_from_disk_encrypted h.curve h.aead h.json h.env w1.disk p) [
                    | err e ↦ (err (unlock_failed e), w1)
                    | ok kp ↦ (ok (chat addr kp peer), w1)
                  ]
            ]
      ]

  unfoldable pub cmd_client : World h → Bytes → Result Error Action × World h
  unfolding unlock_and_chat
  cmd_client w target = elim (split_at 64 target) [
    | none ↦ (err (invalid_target target), w)
    | some (addr, peer_key) ↦ unlock_and_chat w addr peer_key
  ]

  -- A command that has no case of its own.
  unfoldable pub other_command : World h → Bytes → Result Error Action × World h
  unfolding cmd_client
  other_command w command =
      if contains 64 command
      then cmd_client w command
      else (err (unknown_command command), say h w usage)

  unfoldable pub run : World h → List Bytes → Outcomes → Result Error Action × World h
  unfolding cmd_generate_keychain cmd_restore_key other_command
  run w [] o = (err missing_command, say h w usage)
  run w (exe ∷ []) o = (err missing_command, say h w usage)
  run w (exe ∷ command ∷ args) o =
      if bytes_eq command (codes "generate-keychain")
      then cmd_generate_keychain h w o
      else if bytes_eq command (codes "restore-key")
      then cmd_restore_key h w o.save
      else if bytes_eq command (codes "server")
      then (ok (serve args), w)
      else if bytes_eq command (codes "tui") || bytes_eq command (codes "test")
      then (ok demo, w)
      else if bytes_eq command (codes "version") || bytes_eq command (codes "--version")
      then (ok finished, say h w version_line)
      else if bytes_eq command (codes "help")
          || (bytes_eq command (codes "--help") || bytes_eq command (codes "-h"))
      then (ok finished, say h w usage)
      else other_command w command
