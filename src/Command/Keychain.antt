-- ===== src/Command/Keychain.antt =====
-- cmd/road-1337/main.go: what generate-keychain leaves on the disk.
use road.Onboard.{is_first_run}
use road.Base.{
  if_both, ◌≡◌, refl, sym, ap, ◌∙◌, List, [], ◌∷◌, ◌++◌, some, Result, ok, Bytes, bytes_eq,
  bytes_key, Bool-cases, Result-cases, Option-cases, inl, inr,
}
use road.Crypto.Keys.{
  Curve, KeyPair, pair_of, generate_key_pair, public_key_base58, private_key_size, no_keychain,
}
use road.Crypto.Keys
use road.Crypto.Keys.Disk.{
  Disk, written, Json, DiskConfig, default_config_path, read_disk_config, read_file, write_file,
}
use road.Crypto.Keys.Store.{
  Outcome, save_private_key_encrypted, load_key_pair_from_disk_encrypted, mark_manual_as_seen,
}
use road.Crypto.Keys.Store.Stored.{IsReadable, GivesBytes}
use road.Crypto.Keys.Store.Reload.{load_key_pair_from_disk_encrypted-save_private_key_encrypted}
use road.Crypto.Keys.Store.Manual.{check_first_run-mark_manual_as_seen}
use road.Command.{
  save_keys, Host, World, Line, Outcomes, finished, public_key, keychain_saved, typing,
  read_hidden_input, prompt_new_passphrase, store_keys, onboarded, cmd_generate_keychain,
}

-- A configuration that was read can be read.
read_disk_config-IsReadable :
    (j : Json) (disk : Disk) (path : Bytes) (cfg : DiskConfig)
    → read_disk_config j disk path ≡ ok cfg
    → IsReadable disk path
unfolding read_disk_config read_file
read_disk_config-IsReadable j disk path cfg e f at = elim (Bool-cases f.readable) [
  | inl h ↦ h
  | inr h ↦ absurd (let g = rw (read_disk_config, read_file, at, h) at e in cc)
]

module _ (h : Host) where
  abbrev pub load : Disk → Bytes → Result Keys.Error KeyPair
  load disk passphrase =
      load_key_pair_from_disk_encrypted h.curve h.aead h.json h.env disk passphrase

  -- What loading a key pair relies on.
  load-ok :
      (disk : Disk) (passphrase : Bytes) (kp : KeyPair)
      → load disk passphrase ≡ ok kp
      → (path : Bytes) × (cfg : DiskConfig) × (default_config_path h.env ≡ ok path)
        × (read_disk_config h.json disk path ≡ ok cfg)
  unfolding load_key_pair_from_disk_encrypted
  load-ok disk passphrase kp e = elim (Result-cases (default_config_path h.env)) [
    | inr (x, f) ↦ absurd (let g = rw (load_key_pair_from_disk_encrypted, f) at e in cc)
    | inl (path, f) ↦ elim (Result-cases (read_disk_config h.json disk path)) [
      | inr (x, g) ↦ absurd (let k = rw (load_key_pair_from_disk_encrypted, f, g) at e in cc)
      | inl (cfg, g) ↦ (path, cfg, f, g)
    ]
  ]

  -- Noting that the guide was read keeps a key pair that can be loaded.
  load-mark_manual_as_seen :
      (disk : Disk) (passphrase : Bytes) (kp : KeyPair)
      → load disk passphrase ≡ ok kp
      → load (mark_manual_as_seen h.json h.env disk written).1 passphrase ≡ ok kp
  load-mark_manual_as_seen disk passphrase kp e =
      let (path, cfg, f, g) = load-ok disk passphrase kp e in
      let done : (mark_manual_as_seen h.json h.env disk written).0 ≡ ok tt =
        unfold mark_manual_as_seen write_file in rw (mark_manual_as_seen, f, g) refl in
      (check_first_run-mark_manual_as_seen h.json h.env disk written h.curve h.aead
          (λ path1 f1.
            let same : path ≡ path1 = cc (f, f1) in
            rw (← same) (read_disk_config-IsReadable h.json disk path cfg g))
          done).1
        passphrase
      ∙ e

  prompt_new_passphrase-two :
      (w : World h) (p1 p2 p : Bytes)
      → (prompt_new_passphrase h (typing h w (p1 ∷ p2 ∷ []))).0 ≡ ok p
      → (h.trim p1 ≡ p)
        × ((prompt_new_passphrase h (typing h w (p1 ∷ p2 ∷ []))).1 ≡ record w { inputs = [] })
  unfolding prompt_new_passphrase read_hidden_input
  prompt_new_passphrase-two w p1 p2 p e = elim (Bool-cases (bytes_eq (h.trim p1) [])) [
    | inl f ↦ absurd (let g = rw (prompt_new_passphrase, f) at e in cc)
    | inr f ↦ elim (Bool-cases (bytes_eq (h.trim p1) (h.trim p2))) [
      | inr g ↦ absurd (let k = rw (prompt_new_passphrase, f, g) at e in cc)
      | inl g ↦
          let k : ok (h.trim p1) ≡ ok p = rw (prompt_new_passphrase, f, g) at e in
          (cc, rw (prompt_new_passphrase, f) refl)
    ]
  ]

  -- What a save that succeeds has done.
  pub record HasSaved (w w1 : World h) (kp : KeyPair) (o : Outcome) (line : Bytes → Line)
      (passphrase path : Bytes) : Type 0 where
    pub saved :
        (save_private_key_encrypted h.curve h.aead h.json h.env h.random w.disk w.source kp
          passphrase o).0
        ≡ ok path
    pub on_disk :
        w1.disk
        ≡ (save_private_key_encrypted h.curve h.aead h.json h.env h.random w.disk w.source kp
            passphrase o).1
    pub said : w1.shown ≡ (w.shown ++ (line path ∷ [])) ++ (public_key (public_key_base58 kp) ∷ [])

  save_keys-ok :
      (w : World h) (kp : KeyPair) (o : Outcome) (line : Bytes → Line) (passphrase path : Bytes)
      → (save_keys h w kp o line passphrase).0 ≡ ok path
      → HasSaved w (save_keys h w kp o line passphrase).1 kp o line passphrase path
  unfolding save_keys
  save_keys-ok w kp o line passphrase path e =
      let saved =
        save_private_key_encrypted h.curve h.aead h.json h.env h.random w.disk w.source kp
          passphrase o in
      elim (Result-cases saved.0) [
        | inr (x, k) ↦ absurd (let l = rw (save_keys, k) at e in cc)
        | inl (path1, k) ↦
            let l : ok path1 ≡ ok path = rw (save_keys, k) at e in
            let same : path1 ≡ path = cc in
            let lines = λ (q : Bytes).
              (w.shown ++ (line q ∷ [])) ++ (public_key (public_key_base58 kp) ∷ []) in
            record {
              saved = k ∙ ap ok same;
              on_disk = rw (save_keys, k) refl;
              said = rw (save_keys, k) (ap lines same);
            }
      ]

  -- Two equal passphrases, and a key file that is written.
  pub store_keys-ok :
      (w : World h) (kp : KeyPair) (o : Outcome) (line : Bytes → Line) (p1 p2 path : Bytes)
      → (store_keys h (typing h w (p1 ∷ p2 ∷ [])) kp o line).0 ≡ ok path
      → HasSaved w (store_keys h (typing h w (p1 ∷ p2 ∷ [])) kp o line).1 kp o line (h.trim p1) path
  unfolding store_keys
  store_keys-ok w kp o line p1 p2 path e =
      elim (Result-cases (prompt_new_passphrase h (typing h w (p1 ∷ p2 ∷ []))).0) [
        | inr (x, f) ↦ absurd (let g = rw (store_keys, f) at e in cc)
        | inl (p, f) ↦
            let (same, after) = prompt_new_passphrase-two w p1 p2 p f in
            let step : store_keys h (typing h w (p1 ∷ p2 ∷ [])) kp o line
                ≡ save_keys h (record w { inputs = [] }) kp o line (h.trim p1) =
              rw (store_keys, f, after, same) refl in
            let ok_now = sym (ap (λ out. out.0) step) ∙ e in
            let had = save_keys-ok (record w { inputs = [] }) kp o line (h.trim p1) path ok_now in
            rw step (record { saved = had.saved; on_disk = had.on_disk; said = had.said })
      ]

  -- A key pair was shown and can be loaded with the passphrase.
  pub record HasKeychain (w : World h) (passphrase : Bytes) : Type 0 where
    pub kp : KeyPair
    pub before : List Line
    pub shown : w.shown ≡ before ++ (public_key (public_key_base58 kp) ∷ [])
    pub loads : load w.disk passphrase ≡ ok kp

  onboarded-typing :
      (w : World h) (o : Outcomes) (source : h.random.Source) (p1 p2 : Bytes)
      → let start = onboarded h (typing h w (p1 ∷ p2 ∷ [])) o in
        ◌≡◌ {A = World h}
          (record start { source = source })
          (typing h (record start { source = source }) (p1 ∷ p2 ∷ []))
  unfolding onboarded
  onboarded-typing w o source p1 p2 =
      let start : World h = onboarded h (typing h w (p1 ∷ p2 ∷ [])) o in
      let lines : start.inputs ≡ some p1 ∷ some p2 ∷ [] =
        if_both {A = World h} (λ v. v.inputs ≡ some p1 ∷ some p2 ∷ []) (is_first_run h.env w.disk) _
          _ refl refl in
      λ i. record start { source = source; inputs = lines i }

  pub cmd_generate_keychain-HasKeychain :
      (w : World h) (o : Outcomes) (p1 p2 : Bytes)
      → GivesBytes h.curve h.aead h.random
      → o.manual ≡ written
      → ((path : Bytes)
          → default_config_path h.env ≡ ok path
          → IsReadable (onboarded h (typing h w (p1 ∷ p2 ∷ [])) o).disk path)
      → let out = cmd_generate_keychain h (typing h w (p1 ∷ p2 ∷ [])) o in
        out.0 ≡ ok finished → HasKeychain out.1 (h.trim p1)
  unfolding cmd_generate_keychain generate_key_pair
  cmd_generate_keychain-HasKeychain w0 o p1 p2 gives whole readable e =
      let start = onboarded h (typing h w0 (p1 ∷ p2 ∷ [])) o in
      elim (Option-cases (h.random.read_full start.source private_key_size).0) [
        | inl f ↦ absurd (let g = rw (cmd_generate_keychain, generate_key_pair, f) at e in cc)
        | inr (raw, f) ↦
            let source = (h.random.read_full start.source private_key_size).1 in
            let w : World h = record start { source = source } in
            let kp = pair_of h.curve raw in
            let typed = onboarded-typing w0 o source p1 p2 in
            let out = store_keys h w kp o.save keychain_saved in
            elim (Result-cases out.0) [
              | inr (x, g) ↦
                  absurd (let k = rw (cmd_generate_keychain, generate_key_pair, f, g) at e in cc)
              | inl (path, g) ↦
                  let had =
                    store_keys-ok w kp o.save keychain_saved p1 p2 path
                      (ap (λ v. (store_keys h v kp o.save keychain_saved).0) (sym typed) ∙ g) in
                  let reload =
                    load_key_pair_from_disk_encrypted-save_private_key_encrypted h.curve h.aead
                      h.json h.env h.random start.disk source raw (h.trim p1) o.save gives
                      (h.random.length-read_full start.source private_key_size raw f)
                      (gives.random start.source private_key_size raw f) path readable had.saved in
                  let disk =
                    ap (λ v. (store_keys h v kp o.save keychain_saved).1.disk) typed
                    ∙ had.on_disk in
                  let lines =
                    ap (λ v. (store_keys h v kp o.save keychain_saved).1.shown) typed ∙ had.said in
                  let marked =
                    load-mark_manual_as_seen out.1.disk (h.trim p1) kp
                      (ap (λ d. load d (h.trim p1)) disk ∙ reload.0) in
                  rw (cmd_generate_keychain, generate_key_pair, f, g)
                    (record {
                      kp = kp;
                      before = start.shown ++ (keychain_saved path ∷ []);
                      shown = lines;
                      loads =
                          ap
                            (λ v.
                              load (mark_manual_as_seen h.json h.env out.1.disk v).1 (h.trim p1))
                            whole
                          ∙ marked;
                    })
            ]
      ]
