-- ===== src/Client/Connect.antt =====
-- internal/client/client.go: how a session comes to be, and `connect` from the shared key to the first
-- bytes on the connection.
pub mod Outcomes
use road.Base.{
  ℕ, [], ◌∷◌, ◌++◌, Option, none, some, false, true, ok, err, Bytes, codes, length, take, make,
  copy_at, List, update,
}
use road.Protocol.{HandshakePayload, encode_handshake}
use road.Protocol
use road.Crypto.Cipher.{new_session}
use road.Crypto.Cipher
use road.Crypto.Keys.{Curve, KeyPair, ecdh, public_key_bytes}
use road.Relay.{WriteOutcome}
use road.Client.{
  Session, File, AbortReason, ecdh_failed, cipher_init_failed, dial_failed, handshake_failed, emit,
  status, abort_with_msg, store_connection,
}

abbrev no_files : ℕ → File
no_files i = record { path = []; contents = []; closed = true }

-- `network` is what the writes of the session will meet.
unfoldable pub new : (Bytes → Bytes) → Bytes → List WriteOutcome → Session
new sha256 peer_pub_key network =
    let peer_copy = copy_at (make (length peer_pub_key)) 0 peer_pub_key in
    record {
      peer_pub_key = peer_copy;
      peer_key_hash = sha256 peer_copy;
      conn = none;
      conn_closed = λ i. false;
      cipher_sess = none;
      cleared_key = none;
      incoming = [];
      transfers = [];
      files = no_files;
      next_file = 0;
      sent = [];
      network = network;
      done = false;
    }

-- How `net.DialTimeout` ends: with an error, or with the number of a new connection.
pub data Dial : Type 0 where
  refused : Dial
  dialled : ℕ → Dial

-- How writing the handshake ends: after a part of it, or in full.
pub data HandshakeWrite : Type 0 where
  part_written : ℕ → HandshakeWrite
  all_written : HandshakeWrite

-- The session, and what `connect` leaves in the array of the shared key and in that of the cipher
-- session (`none` where it has none).
pub record Connected : Type 0 where
  pub session : Session
  pub shared_key : Bytes
  pub cipher_key : Option Bytes

unfoldable pub handshake_of : KeyPair → Bytes → HandshakePayload
handshake_of kp hash = record {
  version = Protocol.version;
  sender_pub_key = copy_at (make 32) 0 (public_key_bytes kp);
  recipient_key_hash = hash;
}

-- With the cipher session and the connection at hand.
unfoldable pub shake_hands :
    Session → KeyPair → Cipher.Session → Bytes → ℕ → HandshakeWrite → Connected
unfolding handshake_of
shake_hands s kp cs cleared conn (part_written n) =
    let sent = take n (encode_handshake (handshake_of kp s.peer_key_hash)) in
    record {
      session =
          abort_with_msg
            (record s {
              sent = s.sent ++ (sent ∷ []);
              conn_closed = update s.conn_closed conn true;
            })
            handshake_failed;
      shared_key = cleared;
      cipher_key = (Cipher.zeroize cs).0;
    }
shake_hands s kp cs cleared conn all_written =
    let sent = encode_handshake (handshake_of kp s.peer_key_hash) in
    record {
      session = store_connection (record s { sent = s.sent ++ (sent ∷ []) }) conn cs;
      shared_key = cleared;
      cipher_key = cs.key;
    }

-- With the cipher session at hand.
unfoldable pub dial : Session → KeyPair → Cipher.Session → Bytes → Dial → HandshakeWrite → Connected
dial s kp cs cleared refused w = record {
  session = abort_with_msg s dial_failed;
  shared_key = cleared;
  cipher_key = (Cipher.zeroize cs).0;
}
dial s kp cs cleared (dialled conn) w = shake_hands s kp cs cleared conn w

unfoldable pub connect : Curve → Session → KeyPair → Dial → HandshakeWrite → Connected
connect x s0 kp d w =
    let s = emit s0 (status (codes "Connecting...")) in
    elim (ecdh x kp s.peer_pub_key) [
      | err e ↦ record {
        session = abort_with_msg s (ecdh_failed e);
        shared_key = [];
        cipher_key = none;
      }
      | ok shared ↦
          let cleared = make (length shared) in
          elim (new_session shared) [
            | err e ↦ record {
              session = abort_with_msg s (cipher_init_failed e);
              shared_key = cleared;
              cipher_key = none;
            }
            | ok cs ↦ dial s kp cs cleared d w
          ]
    ]
