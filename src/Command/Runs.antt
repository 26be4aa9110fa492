-- ===== src/Command/Runs.antt =====
-- The commands at concrete inputs.
use road.Command.Restore.{cmd_restore_key-loads}
use road.Command.Keychain.{load}
use road.Command.{cmd_restore_key}
use road.Crypto.Keys.{pair_of}
use road.Crypto.Base58.{decode_base58}
use road.Base.{
  Bool-cases, inl, inr, bytes_eq, bytes_eq_iff, sym, ap, ◌∙◌, ◌≡◌, refl, List, [], ◌∷◌, ◌++◌, some,
  true, false, ok, Bytes, codes, replicate, lookup, bytes_key, All-replicate, IsByte, arith, none,
}
use road.Crypto.Standins.{clear_aead}
use road.Crypto.Base58.{encode_base58}
use road.Crypto.Base58.RoundTrip.{decode_base58-encode_base58}
use road.Crypto.Keys.{KeyPair, public_key_base58, public_key_from_base58}
use road.Crypto.Keys.Disk.{default_config_path, written}
use road.Crypto.Keys.Standins.{toy_curve, toy_json, sevens, toy-GivesBytes}
use road.Crypto.Keys.Store.Stored.{IsReadable}
use road.Onboard.{is_first_run, mark_done, sentinel_path}
use road.Command.{
  Host, World, Line, Outcomes, Error, Action, finished, chat, public_key, run, typing, onboarded,
}
use road.Command.Chat.{run-chat}

abbrev host : Host
host = record {
  curve = toy_curve;
  aead = clear_aead;
  json = toy_json;
  env = record { windows = false; appdata = []; home = some (codes "/home/a") };
  random = sevens;
  trim = λ t. t;
}

abbrev start : World host
start = record { disk = []; source = 0; inputs = []; shown = [] }

abbrev fine : Outcomes
fine = record {
  setup_mkdir = true;
  setup = written;
  save = record { mkdir_ok = true; write = written; chmod_ok = true };
  manual = written;
}

abbrev secret : Bytes
secret = codes "pass"

abbrev peer : Bytes
peer = replicate 32 6

peer_key : public_key_from_base58 (encode_base58 peer) ≡ ok peer
unfolding public_key_from_base58
peer_key =
    rw
      (
        public_key_from_base58,
        decode_base58-encode_base58 peer (All-replicate IsByte 32 6 (omega arith)),
      )
      refl

abbrev config : Bytes
config = codes "/home/a/.config/road-1337/config.json"

config_path : default_config_path host.env ≡ ok config
unfolding default_config_path road.Crypto.Keys.Disk.config_dir_file
config_path = refl

no_config :
    lookup config (onboarded host (typing host start (secret ∷ secret ∷ [])) fine).disk ≡ none
unfolding onboarded is_first_run mark_done sentinel_path lookup
    road.Crypto.Keys.Disk.config_dir_file road.Crypto.Keys.Disk.write_file road.Base.insert
no_config = refl

first_run-IsReadable :
    (path : Bytes)
    → default_config_path host.env ≡ ok path
    → IsReadable (onboarded host (typing host start (secret ∷ secret ∷ [])) fine).disk path
first_run-IsReadable path e f at =
    let both : ok config ≡ ok path = sym config_path ∙ e in
    let same : config ≡ path = cc (both) in
    let disk = (onboarded host (typing host start (secret ∷ secret ∷ [])) fine).disk in
    let absent : none ≡ some f = sym no_config ∙ (ap (λ p. lookup p disk) same ∙ at) in
    absurd (cc absent)

generates :
    (run host
      (typing host start (secret ∷ secret ∷ []))
      (codes "road-1337" ∷ codes "generate-keychain" ∷ [])
      fine).0
    ≡ ok finished
unfolding run onboarded is_first_run mark_done sentinel_path default_config_path lookup
    road.Command.cmd_generate_keychain road.Command.store_keys road.Command.save_keys
    road.Command.prompt_new_passphrase road.Command.read_hidden_input
    road.Crypto.Keys.generate_key_pair road.Crypto.Keys.Store.save_private_key_encrypted
    road.Crypto.Keys.Store.save_at road.Crypto.Keys.derive_disk_key
    road.Crypto.Keys.Store.store_config road.Crypto.Keys.Disk.config_dir_file
    road.Crypto.Keys.Disk.write_file
generates = refl

run-chat_example :
    let out =
      run host
        (typing host start (secret ∷ secret ∷ []))
        (codes "road-1337" ∷ codes "generate-keychain" ∷ [])
        fine in
    (kp : KeyPair) × (before : List Line) × (out.1.shown
      ≡ before ++ (public_key (public_key_base58 kp) ∷ []))
    × ((run host
          (typing host out.1 (secret ∷ []))
          (codes "road-1337" ∷ (codes "1.2.3.4:1337" ++ 64 ∷ encode_base58 peer) ∷ [])
          fine).0
        ≡ ok (chat (codes "1.2.3.4:1337") kp peer))
run-chat_example =
    run-chat host (codes "1.2.3.4:1337") (encode_base58 peer) peer refl refl peer_key start fine
      fine (codes "road-1337") secret secret secret toy-GivesBytes refl first_run-IsReadable refl
      generates

abbrev priv : Bytes
priv = replicate 32 5

typed_key : decode_base58 (encode_base58 priv) ≡ ok priv
typed_key = decode_base58-encode_base58 priv (All-replicate IsByte 32 5 (omega arith))

not_empty : bytes_eq (encode_base58 priv) [] ≡ false
unfolding decode_base58
not_empty = elim (Bool-cases (bytes_eq (encode_base58 priv) [])) [
  | inr e ↦ e
  | inl e ↦
      let same : encode_base58 priv ≡ [] = (bytes_eq_iff (encode_base58 priv) []).0 e in
      let f : ok priv ≡ ok [] = sym typed_key ∙ (ap decode_base58 same ∙ refl) in absurd (cc f)
]

restores :
    (cmd_restore_key host
      (typing host start (encode_base58 priv ∷ secret ∷ secret ∷ []))
      fine.save).0
    ≡ ok finished
unfolding cmd_restore_key default_config_path lookup road.Command.store_keys road.Command.save_keys
    road.Command.prompt_new_passphrase road.Command.read_hidden_input
    road.Crypto.Keys.key_pair_from_raw_bytes road.Crypto.Keys.Store.save_private_key_encrypted
    road.Crypto.Keys.Store.save_at road.Crypto.Keys.derive_disk_key
    road.Crypto.Keys.Store.store_config road.Crypto.Keys.Disk.config_dir_file
    road.Crypto.Keys.Disk.write_file
restores = rw (not_empty, typed_key) refl

no_file-IsReadable :
    (path : Bytes) → default_config_path host.env ≡ ok path → IsReadable start.disk path
unfolding lookup
no_file-IsReadable path e f at = cc

cmd_restore_key-loads_example :
    let out =
      cmd_restore_key host
        (typing host start (encode_base58 priv ∷ secret ∷ secret ∷ []))
        fine.save in
    (load host out.1.disk secret ≡ ok (pair_of toy_curve priv))
    × ((before : List Line) × (out.1.shown
          ≡ before ++ (public_key (public_key_base58 (pair_of toy_curve priv)) ∷ [])))
cmd_restore_key-loads_example =
    cmd_restore_key-loads host start fine.save (encode_base58 priv) priv secret secret
      toy-GivesBytes no_file-IsReadable refl refl (All-replicate IsByte 32 5 (omega arith)) restores
