-- ===== src/Client/Connect/Outcomes.antt =====
-- internal/client/client.go: the ways in which `connect` ends.
use road.Base.{
  ◌≡◌, refl, ◌∙◌, [], ◌∷◌, ◌++◌, Option, none, some, true, false, ok, err, take, copy_at, ap, Bytes,
  codes, length, make, ◌⊎◌, inl, inr, Result-cases, ℕ, update, ==_refl, length-make, Option-cases,
}
use mathlib.Core.List.{append_assoc}
use road.Protocol.{encode_handshake}
use road.Crypto.Cipher
use road.Crypto.Cipher.{new_session}
use road.Crypto.Keys.{Curve, KeyPair, ecdh}
use road.Crypto.Keys
use road.Crypto.Keys.Agreement.{ecdh-length}
use road.Client.{
  store_connection, Session, AbortReason, ecdh_failed, dial_failed, handshake_failed, incoming_text,
  abort, status, peer_disconnected, aead_key, abort_with_msg, zeroize, emit, close_conn,
}
use road.Client.Connect.{
  Connected, Dial, refused, dialled, HandshakeWrite, part_written, all_written, connect, dial,
  shake_hands, handshake_of,
}

-- An array that holds no key: there is none, or it is zeros.
pub IsWiped : Option Bytes → Type 0
IsWiped none = Unit
IsWiped (some key) = key ≡ make (length key)

-- The connection has come to nothing.
pub record IsAborted (s : Session) (why : AbortReason) (o : Connected) : Type 0 where
  pub done : o.session.done ≡ true
  pub no_cipher : o.session.cipher_sess ≡ none
  pub no_conn : o.session.conn ≡ none
  pub told :
      o.session.incoming
      ≡ s.incoming
        ++ (status (codes "Connecting...") ∷ incoming_text (abort why) ∷ peer_disconnected ∷ [])
  pub shared_wiped : IsWiped (some o.shared_key)
  pub cipher_wiped : IsWiped o.cipher_key

-- The connection is there, under the key.
pub record IsReady (s : Session) (kp : KeyPair) (key : Bytes) (conn : ℕ) (o : Connected)
    : Type 0 where
  pub live : o.session.done ≡ false
  pub conn_stored : o.session.conn ≡ some conn
  pub key_stored : aead_key o.session ≡ some key
  pub hash : o.session.peer_key_hash ≡ s.peer_key_hash
  pub network : o.session.network ≡ s.network
  pub handshake :
      o.session.sent ≡ s.sent ++ (encode_handshake (handshake_of kp s.peer_key_hash) ∷ [])
  pub told :
      o.session.incoming
      ≡ s.incoming ++ (status (codes "Connecting...") ∷ status (codes "SECURE") ∷ [])
  pub shared_wiped : IsWiped (some o.shared_key)

-- After the keys: the connection is refused, or it is there.
pub IsDialled : Session → KeyPair → Bytes → Dial → HandshakeWrite → Connected → Type 0
IsDialled s kp key d w o =
    ((d ≡ refused) × IsAborted s dial_failed o)
    ⊎ ((conn : ℕ) × (d ≡ dialled conn)
        × (((n : ℕ) × (w ≡ part_written n)
              × IsAborted s handshake_failed o
              × (o.session.conn_closed conn ≡ true))
            ⊎ ((w ≡ all_written) × IsReady s kp key conn o)))

-- What `connect` says first.
abbrev connecting : Session → Session
connecting s = emit s (status (codes "Connecting..."))

zeros-IsWiped : (n : ℕ) → IsWiped (some (make n))
unfolding IsWiped
zeros-IsWiped n = rw (length-make n) refl

empty-IsWiped : IsWiped (some [])
unfolding make IsWiped
empty-IsWiped = refl

zeroize-IsWiped : (cs : Cipher.Session) → IsWiped (Cipher.zeroize cs).0
unfolding IsWiped road.Crypto.Cipher.zeroize
zeroize-IsWiped cs = elim (Option-cases cs.key) [
  | inl e ↦ simp e tt
  | inr (key, e) ↦ simp e (rw (length-make (length key)) refl)
]

abort_with_msg-IsAborted :
    (s0 s : Session) (why : AbortReason) (shared : Bytes) (cipher : Option Bytes)
    → s.done ≡ false
    → s.incoming ≡ (connecting s0).incoming
    → IsWiped (some shared)
    → IsWiped cipher
    → IsAborted s0 why
        (record { session = abort_with_msg s why; shared_key = shared; cipher_key = cipher })
unfolding abort_with_msg zeroize
abort_with_msg-IsAborted s0 s why shared cipher live said h k = simp live (record {
  done = refl;
  no_cipher = refl;
  no_conn = refl;
  told = rw said (append_assoc (s0.incoming ++ _) _ _ ∙ append_assoc s0.incoming _ _);
  shared_wiped = h;
  cipher_wiped = k;
})

-- The cipher session of a key of 32 bytes.
abbrev private_cipher : Bytes → Cipher.Session
private_cipher key = record { aead = some key; key = some (copy_at (make 32) 0 key) }

-- Tearing a session without a connection down closes no other connection.
abort_with_msg-conn_closed :
    (s : Session) (why : AbortReason)
    → s.done ≡ false
    → s.conn ≡ none
    → (abort_with_msg s why).conn_closed ≡ s.conn_closed
unfolding abort_with_msg zeroize close_conn
abort_with_msg-conn_closed s why live e = simp (live, e) refl

module _ (s : Session) (kp : KeyPair) (key : Bytes) (live : s.done ≡ false)
    (unconnected : s.conn ≡ none) where
  shake_hands_cases :
      (conn : ℕ) (w : HandshakeWrite)
      → let o = shake_hands (connecting s) kp (private_cipher key) (make (length key)) conn w in
        ((n : ℕ) × (w ≡ part_written n)
          × IsAborted s handshake_failed o
          × (o.session.conn_closed conn ≡ true))
        ⊎ ((w ≡ all_written) × IsReady s kp key conn o)
  unfolding shake_hands store_connection aead_key
  shake_hands_cases conn (part_written n) =
      let s1 = record (connecting s) {
        sent = s.sent ++ (take n (encode_handshake (handshake_of kp s.peer_key_hash)) ∷ []);
        conn_closed = update s.conn_closed conn true;
      } in
      inl (
        n,
        refl,
        abort_with_msg-IsAborted s s1 handshake_failed (make (length key))
            (Cipher.zeroize (private_cipher key)).0 live refl (zeros-IsWiped (length key))
            (zeroize-IsWiped (private_cipher key)),
        ap (λ closed. closed conn) (abort_with_msg-conn_closed s1 handshake_failed live unconnected)
            ∙ rw (==_refl conn) refl,
      )
  shake_hands_cases conn all_written = inr (
    refl,
    record {
      live = live;
      conn_stored = refl;
      key_stored = refl;
      hash = refl;
      network = refl;
      handshake = refl;
      told = append_assoc s.incoming _ _;
      shared_wiped = zeros-IsWiped (length key);
    },
  )

  dial_cases :
      (d : Dial) (w : HandshakeWrite)
      → IsDialled s kp key d w (dial (connecting s) kp (private_cipher key) (make (length key)) d w)
  unfolding dial IsDialled
  dial_cases refused w = inl (
    refl,
    abort_with_msg-IsAborted s (connecting s) dial_failed (make (length key))
        (Cipher.zeroize (private_cipher key)).0 live refl (zeros-IsWiped (length key))
        (zeroize-IsWiped (private_cipher key)),
  )
  dial_cases (dialled conn) w = inr (conn, refl, shake_hands_cases conn w)

-- Connecting a session that is open and has no connection ends in one of four ways: the session key
-- cannot be derived; the dial is refused; the handshake is not written in full, and the new
-- connection is closed; or the handshake is written in full, and the session is ready under the
-- session key, with the connection and the handshake sent. In the first three the session is torn
-- down and the terminal told why. In all of them the array of the shared key is left as zeros, and
-- in the first three so is the array of the cipher session.
pub connect_cases :
    (x : Curve) (s : Session) (kp : KeyPair) (d : Dial) (w : HandshakeWrite)
    → s.done ≡ false
    → s.conn ≡ none
    → let o = connect x s kp d w in
      ((e : Keys.Error) × (ecdh x kp s.peer_pub_key ≡ err e) × IsAborted s (ecdh_failed e) o)
      ⊎ ((key : Bytes) × (ecdh x kp s.peer_pub_key ≡ ok key) × IsDialled s kp key d w o)
unfolding connect new_session IsWiped
connect_cases x s kp d w live unconnected = elim (Result-cases (ecdh x kp s.peer_pub_key)) [
  | inr (e, f) ↦ inl (
    e,
    f,
    rw (connect, f)
        (abort_with_msg-IsAborted s (connecting s) (ecdh_failed e) [] none live refl empty-IsWiped
          tt),
  )
  | inl (key, f) ↦
      let size = ecdh-length x kp s.peer_pub_key key f in
      inr (key, f, rw (connect, f, size) (dial_cases s kp key live unconnected d w))
]

-- What has to go well for a session to be ready.
pub connect-IsReady :
    (x : Curve) (s : Session) (kp : KeyPair) (key : Bytes) (conn : ℕ)
    → s.done ≡ false
    → s.conn ≡ none
    → ecdh x kp s.peer_pub_key ≡ ok key
    → IsReady s kp key conn (connect x s kp (dialled conn) all_written)
unfolding IsDialled
connect-IsReady x s kp key conn live unconnected e =
    elim (connect_cases x s kp (dialled conn) all_written live unconnected) [
      | inl (e1, f, _) ↦ absurd (cc)
      | inr (k, f, inl (g, _)) ↦ absurd cc
      | inr (k, f, inr (i, g, inl (n, h, _, _))) ↦ absurd cc
      | inr (k, f, inr (i, g, inr (h, ready))) ↦
          let same_key : k ≡ key = cc in
          let same_conn : i ≡ conn = cc in rw (same_key, same_conn) at ready
    ]
