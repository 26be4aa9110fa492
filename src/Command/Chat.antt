-- ===== src/Command/Chat.antt =====
-- cmd/road-1337/main.go: from a new keychain to a chat.
use road.Base.{◌≡◌, refl, ap, ◌∙◌, sym, List, [], ◌∷◌, ◌++◌, true, false, ok, Bytes, codes}
use road.Crypto.Keys.{KeyPair, public_key_base58, public_key_from_base58}
use road.Crypto.Keys.Disk.{default_config_path, written}
use road.Crypto.Keys.Store.Stored.{IsReadable, GivesBytes}
use road.Command.{
  Host, World, Line, Outcomes, finished, chat, public_key, typing, onboarded, contains, run,
  cmd_client, cmd_generate_keychain, unlock_and_chat, read_hidden_input,
}
use road.Command.Target.{split_at-append, run-target}
use road.Command.Keychain.{load, cmd_generate_keychain-HasKeychain}

module _ (h : Host) (addr peer_key peer : Bytes) (one_at : contains 64 addr ≡ false)
    (port : contains 58 addr ≡ true) (key : public_key_from_base58 peer_key ≡ ok peer) where
  -- A chat starts once the key file opens.
  cmd_client-chat :
      (w : World h) (p : Bytes) (kp : KeyPair)
      → load h w.disk (h.trim p) ≡ ok kp
      → (cmd_client h (typing h w (p ∷ [])) (addr ++ 64 ∷ peer_key)).0 ≡ ok (chat addr kp peer)
  unfolding cmd_client unlock_and_chat read_hidden_input
  cmd_client-chat w p kp e =
      rw (cmd_client, split_at-append 64 addr peer_key one_at, unlock_and_chat, port, key, e) refl

  -- After generate-keychain succeeded, with the last write to the key file done in full, typing the
  -- passphrase again (as trimmed) and giving [address with a port]@[a valid public key of a peer]
  -- starts a chat with this peer at this address, under the very key pair whose public key was shown
  -- last. A key file that was there before can be read, what the host computes are byte strings, and
  -- the address has no "@".
  pub run-chat :
      (w : World h) (o o1 : Outcomes) (exe p1 p2 p3 : Bytes)
      → GivesBytes h.curve h.aead h.random
      → o.manual ≡ written
      → ((path : Bytes)
          → default_config_path h.env ≡ ok path
          → IsReadable (onboarded h (typing h w (p1 ∷ p2 ∷ [])) o).disk path)
      → h.trim p1 ≡ h.trim p3
      → let out = run h (typing h w (p1 ∷ p2 ∷ [])) (exe ∷ codes "generate-keychain" ∷ []) o in
        out.0 ≡ ok finished
        → (kp : KeyPair) × (before : List Line) × (out.1.shown
            ≡ before ++ (public_key (public_key_base58 kp) ∷ []))
          × ((run h (typing h out.1 (p3 ∷ [])) (exe ∷ (addr ++ 64 ∷ peer_key) ∷ []) o1).0
              ≡ ok (chat addr kp peer))
  unfolding run
  run-chat w o o1 exe p1 p2 p3 gives whole readable same e =
      let out = cmd_generate_keychain h (typing h w (p1 ∷ p2 ∷ [])) o in
      let k = cmd_generate_keychain-HasKeychain h w o p1 p2 gives whole readable e in
      (
        k.kp,
        k.before,
        k.shown,
        ap (λ v. v.0) (run-target h (typing h out.1 (p3 ∷ [])) exe addr peer_key o1)
            ∙ cmd_client-chat out.1 p3 k.kp (ap (load h out.1.disk) (sym same) ∙ k.loads),
      )
