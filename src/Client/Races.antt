-- ===== src/Client/Races.antt =====
-- internal/client/client.go: `sendPacket` in the pieces between which `Zeroize` can run: taking the two
-- pointers under the lock, the look at `done`, sealing, setting the deadline, and writing. Many calls
-- can be under way. The cipher session is one object behind the pointers: `Zeroize` takes the AEAD out
-- of it, so a call that took the pointer before meets a nil AEAD. Setting a deadline on a closed
-- connection fails, and so does writing to it.
pub mod Interrupted
pub mod Held
pub mod Silent
mod Runs
use road.Base.{
  drop, ℕ, suc, zero, ◌≡◌, refl, sym, ap, ◌∙◌, List, [], ◌∷◌, Option, none, some, Bool, true, false,
  if◌then◌else◌, Result, ok, err, Bytes, update, ◌⊎◌, inl, inr, ◌==◌, ==_iff, Bool-cases,
}
use road.Crypto.Cipher.{Aead, Random, seal}
use road.Relay.{WriteOutcome, deadline_failed, write_failed, write_done}
use road.Crypto.Cipher
use road.Client.{
  write_error, Session, SendError, session_closed, session_not_ready, seal_failed,
  set_write_deadline, zeroize, frame_of, write_frame,
}

-- A call of `sendPacket`: what it holds between two pieces.
pub data Call : Type 0 where
  entered : Call
  -- The connection, and whether the pointer to the cipher session is not nil.
  captured : Option ℕ → Bool → Call
  checked : ℕ → Call
  sealed : ℕ → Bytes → Call
  timed : ℕ → Bytes → List WriteOutcome → Call
  returned : Result SendError (Unit {0}) → Call
  -- A call of a method of the nil AEAD.
  panicked : Call

abbrev pub is_set : Option Cipher.Session → Bool
is_set none = false
is_set (some cs) = true

-- The AEAD in the object of the cipher session.
unfoldable pub shared_aead : Session → Option Bytes
shared_aead s = elim s.cipher_sess [ none ↦ none | some cs ↦ cs.aead ]

-- `cs == nil || conn == nil`.
unfoldable pub nil_checked : Option ℕ → Bool → Call
nil_checked none cs = returned (err session_not_ready)
nil_checked (some i) false = returned (err session_not_ready)
nil_checked (some i) true = checked i

-- What sealing does before it calls the AEAD is the same for a nil AEAD.
unfoldable pub after_seal : Option Bytes → ℕ → Bytes → Result Cipher.Error Bytes → Call
after_seal aead i hash (err e) = returned (err (seal_failed e))
after_seal none i hash (ok enc) = panicked
after_seal (some key) i hash (ok enc) = sealed i (frame_of hash enc)

abbrev pub any_key : Option Bytes → Bytes
any_key none = []
any_key (some key) = key

-- The deadline of a write is set; how the write will end is held for it.
unfoldable pub after_deadline : ℕ → Bytes → List WriteOutcome → Call
after_deadline i frame [] = timed i frame []
after_deadline i frame (deadline_failed ∷ os) = returned (err set_write_deadline)
after_deadline i frame (write_failed n ∷ os) = timed i frame (write_failed n ∷ [])
after_deadline i frame (write_done ∷ os) = timed i frame (write_done ∷ [])

-- `conn.SetWriteDeadline`.
unfoldable pub deadline_piece : Session → ℕ → Bytes → Session × Call
unfolding after_deadline
deadline_piece s i frame =
    if s.conn_closed i
    then (s, returned (err set_write_deadline))
    else (record s { network = drop 1 s.network }, after_deadline i frame s.network)

-- `conn.Write`.
unfoldable pub write_piece : Session → ℕ → Bytes → List WriteOutcome → Session × Call
write_piece s i frame outcome =
    let (result, s1) = write_frame s frame outcome in
    if s.conn_closed i
    then (s, returned (err write_error))
    else (record s1 { network = s.network }, returned result)

module _ (c : Aead) (r : Random) (payload : Bytes) where
  -- The next piece of a call.
  unfoldable pub piece : Session → r.Source → Call → Session × r.Source × Call
  unfolding nil_checked after_seal deadline_piece write_piece shared_aead
  piece s rand entered = (s, rand, captured s.conn (is_set s.cipher_sess))
  piece s rand (captured conn cs) =
      (s, rand, if s.done then returned (err session_closed) else nil_checked conn cs)
  piece s rand (checked i) =
      let (enc, rand1) = seal c r (any_key (shared_aead s)) payload rand in
      (s, rand1, after_seal (shared_aead s) i s.peer_key_hash enc)
  piece s rand (sealed i frame) = let (s1, call) = deadline_piece s i frame in (s1, rand, call)
  piece s rand (timed i frame outcome) =
      let (s1, call) = write_piece s i frame outcome in (s1, rand, call)
  piece s rand (returned result) = (s, rand, returned result)
  piece s rand panicked = (s, rand, panicked)

-- A session with any number of calls that were made on it.
pub record Race (r : Random) : Type 0 where
  pub session : Session
  pub source : r.Source
  pub calls : ℕ → Call

module _ (c : Aead) (r : Random) (payloads : ℕ → Bytes) where
  unfoldable pub go : Race r → ℕ → Race r
  go x n =
      let (s, rand, call) = piece c r (payloads n) x.session x.source (x.calls n) in
      record { session = s; source = rand; calls = update x.calls n call }

  pub data Piece (x : Race r) : Race r → Type 0 where
    goes : (n : ℕ) → Piece x (go x n)
    tears : Piece x (record x { session = zeroize x.session })

  pub data Pieces (x : Race r) : Race r → Type 0 where
    begins : Pieces x x
    then_piece : {y z : Race r} → Pieces x y → Piece y z → Pieces x z

-- The connection that a call holds.
abbrev pub conn_of : Call → Option ℕ
conn_of entered = none
conn_of (captured conn cs) = conn
conn_of (checked i) = some i
conn_of (sealed i frame) = some i
conn_of (timed i frame outcome) = some i
conn_of (returned result) = none
conn_of panicked = none
