-- ===== src/Client/Races/Interrupted.antt =====
-- internal/client/client.go: a call of `sendPacket` on a session that is ready, torn down at each of the
-- points where that can happen.
use road.Base.{
  true, drop, List, ◌∷◌, ℕ, zero, suc, ◌≡◌, refl, sym, ap, ◌∙◌, Option, Bool, some, false, Result,
  ok, err, Bytes, none, ltb, length, ◌-◌, ◌+◌, Bool-cases, Option-cases, inl, inr, [],
}
use road.Crypto.Cipher.{
  Aead, Random, seal, max_plaintext_size, nonce_size, inner_size, wire_packet, inner_block,
}
use road.Crypto.Cipher
use road.Relay.{WriteOutcome, deadline_failed, write_failed, write_done}
use road.Client.{
  write_error, Session, SendError, session_closed, set_write_deadline, zeroize, aead_key,
  send_packet, frame_of, write_frame,
}
use road.Client.Teardown.{close_conn_self}
use road.Client.Races.Held.{zeroize-closes}
use road.Client.Races.{
  Call, entered, captured, checked, sealed, returned, panicked, piece, shared_aead, nil_checked,
  after_seal, write_piece, is_set, timed, deadline_piece, after_deadline,
}

module _ (c : Aead) (r : Random) (payload : Bytes) where
  abbrev pub step : Session × r.Source × Call → Session × r.Source × Call
  step (s, rand, call) = piece c r payload s rand call

  unfoldable pub pieces : ℕ → Session × r.Source × Call → Session × r.Source × Call
  pieces zero x = x
  pieces (suc n) x = pieces n (step x)

  abbrev pub torn : Session × r.Source × Call → Session × r.Source × Call
  torn (s, rand, call) = (zeroize s, rand, call)

  -- The teardown after `n` pieces of a call, and then all that is left of the call.
  unfoldable pub interrupted : ℕ → Session → r.Source → Session × r.Source × Call
  unfolding pieces
  interrupted n s rand = pieces 5 (torn (pieces n (s, rand, entered)))

  pieces_returned :
      (n : ℕ) (s : Session) (rand : r.Source) (result : Result SendError (Unit {0}))
      → pieces n (s, rand, returned result) ≡ (s, rand, returned result)
  unfolding pieces piece
  pieces_returned zero s rand result = refl
  pieces_returned (suc n) s rand result = pieces_returned n s rand result

  pieces_panicked :
      (n : ℕ) (s : Session) (rand : r.Source) → pieces n (s, rand, panicked) ≡ (s, rand, panicked)
  unfolding pieces piece
  pieces_panicked zero s rand = refl
  pieces_panicked (suc n) s rand = pieces_panicked n s rand

-- The error of a write whose connection is closed after its deadline was to be set.
abbrev pub late_error : List WriteOutcome → SendError
late_error [] = write_error
late_error (deadline_failed ∷ os) = set_write_deadline
late_error (write_failed n ∷ os) = write_error
late_error (write_done ∷ os) = write_error

-- Whether sealing succeeds does not depend on the key.
seal_any :
    (c : Aead) (r : Random) (key payload : Bytes) (rand : r.Source) (enc : Bytes)
    → (seal c r key payload rand).0 ≡ ok enc
    → (key1 : Bytes) → (enc1 : Bytes) × ((seal c r key1 payload rand).0 ≡ ok enc1)
unfolding seal
seal_any c r key payload rand enc e key1 =
    let long = ltb max_plaintext_size (length payload) in
    let (padding, s1) = r.read_full rand (inner_size - (2 + length payload)) in
    elim (Bool-cases long) [
      | inl f ↦ absurd (let g = rw (f, seal) at e in cc)
      | inr f ↦ elim (Option-cases padding) [
        | inl g ↦ absurd (let h = rw (f, seal, g) at e in cc)
        | inr (pad, g) ↦ elim (Option-cases (r.read_full s1 nonce_size).0) [
          | inl h ↦ absurd (let k = rw (f, seal, g, h) at e in cc)
          | inr (nonce, h) ↦ (
            wire_packet nonce (c.seal key1 nonce (inner_block payload pad)),
            rw (f, seal, g, h) refl,
          )
        ]
      ]
    ]

module _ (c : Aead) (r : Random) (payload : Bytes) (s : Session) (rand : r.Source) (i : ℕ)
    (cs : Cipher.Session) (key enc : Bytes) (live : s.done ≡ false) (has_conn : s.conn ≡ some i)
    (unclosed : s.conn_closed i ≡ false) (has_cipher : s.cipher_sess ≡ some cs)
    (has_key : cs.aead ≡ some key) (seals : (seal c r key payload rand).0 ≡ ok enc) where
  abbrev held : Call
  held = captured s.conn (is_set s.cipher_sess)

  abbrev rand1 : r.Source
  rand1 = (seal c r key payload rand).1

  abbrev frame : Bytes
  frame = frame_of s.peer_key_hash enc

  check : piece c r payload s rand held ≡ (s, rand, checked i)
  unfolding piece nil_checked
  check = simp (live, has_conn, has_cipher) refl

  has_aead : shared_aead s ≡ some key
  unfolding shared_aead
  has_aead = rw (has_cipher, shared_aead) has_key

  seal_piece : piece c r payload s rand (checked i) ≡ (s, rand1, sealed i frame)
  unfolding piece after_seal
  seal_piece = rw (piece, has_aead, seals) refl

  -- Setting the deadline and writing, on an open connection, over any outcomes.
  write_over :
      (os : List WriteOutcome)
      → let s0 : Session = record s { network = os } in
        pieces c r payload 2 (s0, rand1, sealed i frame)
        ≡ ((write_frame s0 frame os).1, rand1, returned (write_frame s0 frame os).0)
  unfolding pieces piece deadline_piece after_deadline write_piece write_frame
  write_over [] = simp unclosed refl
  write_over (deadline_failed ∷ os) = simp unclosed refl
  write_over (write_failed n ∷ os) = simp unclosed refl
  write_over (write_done ∷ os) = simp unclosed refl

  write :
      pieces c r payload 2 (s, rand1, sealed i frame)
      ≡ ((write_frame s frame s.network).1, rand1, returned (write_frame s frame s.network).0)
  write = write_over s.network

  late_check :
      (conn : Option ℕ) (cipher : Bool)
      → piece c r payload (zeroize s) rand (captured conn cipher)
        ≡ (zeroize s, rand, returned (err session_closed))
  unfolding piece zeroize
  late_check conn cipher = simp live refl

  no_aead : shared_aead (zeroize s) ≡ none
  unfolding zeroize shared_aead
  no_aead = simp live refl

  late_seal :
      piece c r payload (zeroize s) rand (checked i)
      ≡ (zeroize s, (seal c r [] payload rand).1, panicked)
  unfolding piece after_seal
  late_seal =
      let (other, e) = seal_any c r key payload rand enc seals [] in rw (piece, no_aead, e) refl

  late_deadline :
      piece c r payload (zeroize s) rand1 (sealed i frame)
      ≡ (zeroize s, rand1, returned (err set_write_deadline))
  unfolding piece zeroize deadline_piece
  late_deadline = simp (live, has_conn, close_conn_self (some i) s.conn_closed i refl) refl

  set_deadline :
      (os : List WriteOutcome)
      → piece c r payload (record s { network = os }) rand1 (sealed i frame)
        ≡ (record s { network = drop 1 os }, rand1, after_deadline i frame os)
  unfolding piece deadline_piece
  set_deadline os = simp unclosed refl

  closed_write :
      (t : Session) (os : List WriteOutcome)
      → t.conn_closed i ≡ true
      → pieces c r payload 5 (t, rand1, timed i frame os) ≡ (t, rand1, returned (err write_error))
  unfolding piece pieces write_piece
  closed_write t os closed =
      ap (pieces c r payload 4) (
        let e : piece c r payload t rand1 (timed i frame os)
            ≡ (t, rand1, returned (err write_error)) =
          simp closed refl in
        e)
      ∙ pieces_returned c r payload 4 t rand1 (err write_error)

  torn_closed :
      (os : List WriteOutcome) → (zeroize (record s { network = os })).conn_closed i ≡ true
  torn_closed os = zeroize-closes (record s { network = os }) i live (inl has_conn)

  -- The connection is closed after the deadline was set, or setting it had failed.
  late_write :
      (os : List WriteOutcome)
      → pieces c r payload 5
          (torn c r payload (record s { network = drop 1 os }, rand1, after_deadline i frame os))
        ≡ (zeroize (record s { network = drop 1 os }), rand1, returned (err (late_error os)))
  unfolding after_deadline
  late_write [] = closed_write _ [] (torn_closed [])
  late_write (deadline_failed ∷ os) =
      pieces_returned c r payload 5 (zeroize (record s { network = os })) rand1
        (err set_write_deadline)
  late_write (write_failed n ∷ os) = closed_write _ (write_failed n ∷ []) (torn_closed os)
  late_write (write_done ∷ os) = closed_write _ (write_done ∷ []) (torn_closed os)

  ready : aead_key s ≡ some key
  unfolding aead_key
  ready = rw (has_conn, aead_key, has_cipher) has_key

  sends :
      send_packet c r s rand payload
      ≡ ((write_frame s frame s.network).0, (write_frame s frame s.network).1, rand1)
  unfolding send_packet
  sends = simp (live, ready, seals) refl

  after_seal_piece : pieces c r payload 3 (s, rand, entered) ≡ (s, rand1, sealed i frame)
  unfolding pieces piece
  after_seal_piece = ap (step c r payload) check ∙ seal_piece

  closed_after :
      (n : ℕ) (conn : Option ℕ) (cipher : Bool)
      → pieces c r payload (suc n) (zeroize s, rand, captured conn cipher)
        ≡ (zeroize s, rand, returned (err session_closed))
  unfolding pieces
  closed_after n conn cipher =
      ap (pieces c r payload n) (late_check conn cipher)
      ∙ pieces_returned c r payload n (zeroize s) rand (err session_closed)

  -- A call of `sendPacket` on a session that is open and connected under a key, with a payload that can
  -- be sealed, and the teardown by `Zeroize` at each of the six points between its pieces. Before the
  -- call takes its pointers, or before it looks whether the session is done: the call reports that the
  -- session is closed. After that look and before sealing: the call panics on the nil AEAD. After
  -- sealing and before the deadline is set: setting the deadline fails. After that and before writing:
  -- writing fails, unless setting the deadline had failed. In these cases the call writes nothing.
  -- Once all pieces are through, all is as `sendPacket` in one piece and the teardown after it.
  pub interrupted_cases :
      let run = interrupted c r payload in
      (run 0 s rand ≡ (zeroize s, rand, returned (err session_closed)))
      × (run 1 s rand ≡ (zeroize s, rand, returned (err session_closed)))
      × ((rand2 : r.Source) × (run 2 s rand ≡ (zeroize s, rand2, panicked)))
      × (run 3 s rand ≡ (zeroize s, rand1, returned (err set_write_deadline)))
      × (run 4 s rand ≡ (
        zeroize (record s { network = drop 1 s.network }),
        rand1,
        returned (err (late_error s.network)),
      ))
      × (run 5 s rand
          ≡ let (result, s1, rand2) = send_packet c r s rand payload in
            (zeroize s1, rand2, returned result))
      × ((zeroize s).sent ≡ s.sent)
  unfolding interrupted piece pieces
  interrupted_cases =
      let rest = pieces c r payload in
      let tear = torn c r payload in
      (
        closed_after 3 _ _,
        closed_after 4 _ _,
        (
          (seal c r [] payload rand).1,
          ap (λ x. rest 5 (tear x)) check
              ∙ ap (rest 4) late_seal
              ∙ pieces_panicked c r payload 4 (zeroize s) _,
        ),
        ap (λ x. rest 5 (tear x)) after_seal_piece
            ∙ ap (rest 4) late_deadline
            ∙ pieces_returned c r payload 4 (zeroize s) rand1 (err set_write_deadline),
        ap (λ x. rest 5 (tear (step c r payload x))) after_seal_piece
            ∙ ap (λ x. rest 5 (tear x)) (set_deadline s.network)
            ∙ late_write s.network,
        ap (λ x. rest 5 (tear (rest 2 x))) after_seal_piece
            ∙ ap (λ x. rest 5 (tear x)) write
            ∙ pieces_returned c r payload 5 _ rand1 _
            ∙ ap (λ out. let (result, s1, rand2) = out in (zeroize s1, rand2, returned result))
                (sym sends),
        unfold zeroize in simp live refl,
      )
