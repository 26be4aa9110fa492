-- ===== src/Client/Teardown.antt =====
-- internal/client/client.go: `Zeroize`, and what is left of a session after it.
use road.Base.{
  if_both, Bool, Option, ==-false, ap, ◌∙◌, nat_key, ℕ, ◌≡◌, refl, List, [], ◌∷◌, none, some, true,
  false, Bool-cases, err, Bytes, inl, inr, length, make, ==_refl, ◌==◌, lookup, ◌≢◌,
}
use road.Crypto.Cipher
use road.Crypto.Cipher.{Aead, Random}
use road.Client.{
  clear_key, close_conn, Session, FileTransfer, File, zeroize, close_file, close_files,
  store_connection, send_packet, session_closed,
}

close_file_keeps :
    (files : ℕ → File) (i j : ℕ) → (files j).closed ≡ true → (close_file files i j).closed ≡ true
unfolding close_file
close_file_keeps files i j h = elim (Bool-cases (i == j)) [ inl e ↦ rw e refl | inr e ↦ rw e h ]

close_files_keeps :
    (files : ℕ → File) (m : List (ℕ × FileTransfer)) (j : ℕ)
    → (files j).closed ≡ true
    → (close_files files m j).closed ≡ true
unfolding close_files
close_files_keeps files [] j h = h
close_files_keeps files ((id, ft) ∷ m) j h =
    close_files_keeps (close_file files ft.file) m j (close_file_keeps files ft.file j h)

close_file_self : (files : ℕ → File) (i : ℕ) → (close_file files i i).closed ≡ true
unfolding close_file
close_file_self files i = rw (==_refl i) refl

-- The files of the transfers in the table are closed.
close_files-closed :
    (files : ℕ → File) (m : List (ℕ × FileTransfer)) (id : ℕ) (ft : FileTransfer)
    → lookup id m ≡ some ft
    → (close_files files m ft.file).closed ≡ true
unfolding close_files lookup
close_files-closed files [] id ft h = cc
close_files-closed files ((i, x) ∷ m) id ft h = elim (Bool-cases (i == id)) [
  | inl e ↦
      let g : some x ≡ some ft = rw e at h in
      let same : x ≡ ft = cc in
      rw (← same)
        (close_files_keeps (close_file files x.file) m x.file (close_file_self files x.file))
  | inr e ↦ close_files-closed (close_file files x.file) m id ft (rw e at h)
]

pub close_conn_self :
    (conn : Option ℕ) (closed : ℕ → Bool) (i : ℕ) → conn ≡ some i → close_conn conn closed i ≡ true
unfolding close_conn
close_conn_self none closed i e = cc
close_conn_self (some j) closed i e = let f : j ≡ i = cc in rw (f, ==_refl i) refl

pub close_conn_keeps :
    (conn : Option ℕ) (closed : ℕ → Bool) (i : ℕ)
    → closed i ≡ true
    → close_conn conn closed i ≡ true
unfolding close_conn
close_conn_keeps none closed i e = e
close_conn_keeps (some j) closed i e = if_both (λ b. b ≡ true) (j == i) _ _ refl e

pub zeroize_done : (s : Session) → s.done ≡ true → zeroize s ≡ s
unfolding zeroize
zeroize_done s e = simp e refl

close_conn_other :
    (conn : Option ℕ) (closed : ℕ → Bool) (i : ℕ)
    → conn ≢ some i
    → close_conn conn closed i ≡ closed i
unfolding close_conn
close_conn_other none closed i h = refl
close_conn_other (some j) closed i h =
    let k : j ≢ i = λ e. h (ap some e) in rw (==-false j i k) refl

clear_key_lem :
    (before : Option Bytes) (cipher : Option Cipher.Session) (cs : Cipher.Session) (key : Bytes)
    → cipher ≡ some cs
    → cs.key ≡ some key
    → clear_key cipher before ≡ some (make (length key))
unfolding clear_key Cipher.zeroize
clear_key_lem before none cs key e f = cc
clear_key_lem before (some other) cs key e f = let same : other ≡ cs = cc in rw (same, f) refl

-- Tearing an open session down: the key array of its cipher session is overwritten with as many
-- zeros, and so is its copy of the peer's public key; no cipher session, no connection and no
-- transfer is left in it; and the connection and the file of every transfer in the table are closed.
-- Tearing it down again changes nothing.
pub zeroize_lem :
    (s : Session)
    → s.done ≡ false
    → let s1 = zeroize s in
      (s1.done ≡ true)
      × ((cs : Cipher.Session) (key : Bytes)
          → s.cipher_sess ≡ some cs
          → cs.key ≡ some key
          → s1.cleared_key ≡ some (make (length key)))
      × (s1.cipher_sess ≡ none)
      × (s1.conn ≡ none)
      × (s1.peer_pub_key ≡ make (length s.peer_pub_key))
      × (s1.transfers ≡ [])
      × ((id : ℕ) (ft : FileTransfer)
          → lookup id s.transfers ≡ some ft
          → (s1.files ft.file).closed ≡ true)
      × ((i : ℕ) → s.conn ≡ some i → s1.conn_closed i ≡ true)
      × (zeroize s1 ≡ s1)
unfolding zeroize
zeroize_lem s h = simp h (
  refl,
  clear_key_lem s.cleared_key s.cipher_sess,
  refl,
  refl,
  refl,
  refl,
  close_files-closed s.files s.transfers,
  close_conn_self s.conn s.conn_closed,
  refl,
)

-- A session that was torn down sends nothing: every later send fails as closed and leaves the session
-- and the random source as they were.
pub send_packet-zeroize :
    (c : Aead) (r : Random) (s : Session) (rand : r.Source) (payload : Bytes)
    → send_packet c r (zeroize s) rand payload ≡ (err session_closed, zeroize s, rand)
unfolding send_packet zeroize
send_packet-zeroize c r s rand payload = elim (Bool-cases s.done) [
  | inl h ↦ simp h refl
  | inr h ↦ simp h refl
]

-- A connection that is stored after the teardown outlives it: the session is done, so no later
-- teardown reaches the cipher session and the connection, which stays open.
pub zeroize-store_connection :
    (s : Session) (conn : ℕ) (cs : Cipher.Session)
    → s.conn_closed conn ≡ false
    → s.conn ≢ some conn
    → let late = zeroize (store_connection (zeroize s) conn cs) in
      (late.done ≡ true)
      × (late.cipher_sess ≡ some cs)
      × (late.conn ≡ some conn)
      × (late.conn_closed conn ≡ false)
unfolding zeroize store_connection
zeroize-store_connection s conn cs open_now other = elim (Bool-cases s.done) [
  | inl h ↦ simp h (refl, refl, refl, open_now)
  | inr h ↦ simp h (refl, refl, refl, close_conn_other s.conn s.conn_closed conn other ∙ open_now)
]
