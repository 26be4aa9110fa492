-- ===== src/Client/Send.antt =====
-- internal/client/client.go: what `sendPacket` puts on the connection.
use road.Base.{
  ◌≤◌, ◌≡◌, refl, ap, ◌∙◌, List, [], ◌∷◌, ◌++◌, some, Bool, true, false, Result, ok, err, Bytes,
  ◌⊎◌, inl, inr, length, take, drop, length-make, make, copy_at_two, arith, Result-cases,
  take_append, drop_append,
}
use road.Crypto.Cipher
use road.Crypto.Cipher.{
  Aead, Random, seal, open_packet, packet_size, max_plaintext_size, plaintext_too_large,
}
use road.Crypto.Cipher.RoundTrip.{seal_cases}
use road.Relay.{WriteOutcome, deadline_failed, write_failed, write_done}
use road.Client.{
  Session, SendError, seal_failed, set_write_deadline, write_error, stuck, write_frame, frame_of,
  Event, emit, aead_key, send_packet, outer_frame_size,
}

-- Errors that only the caller's own data, or the model, would be to blame for.
abbrev pub own_fault : SendError → Bool
own_fault stuck = true
own_fault (seal_failed (plaintext_too_large n)) = true
own_fault e = false

frame_of_lem :
    (hash enc : Bytes)
    → length hash ≡ 32
    → length enc ≡ packet_size
    → frame_of hash enc ≡ hash ++ enc
unfolding frame_of
frame_of_lem hash enc h k =
    copy_at_two (make outer_frame_size) hash enc h (omega (arith, length-make outer_frame_size))

write_frame_cases :
    (s : Session) (frame : Bytes) (os : List WriteOutcome)
    → let (result, s1) = write_frame s frame os in
      ((e : SendError) × (result ≡ err e) × (own_fault e ≡ false))
      ⊎ ((result ≡ ok tt) × (s1.sent ≡ s.sent ++ (frame ∷ [])))
unfolding write_frame
write_frame_cases s frame [] = inl (write_error, refl, refl)
write_frame_cases s frame (deadline_failed ∷ os) = inl (set_write_deadline, refl, refl)
write_frame_cases s frame (write_failed n ∷ os) = inl (write_error, refl, refl)
write_frame_cases s frame (write_done ∷ os) = inr (refl, refl)

-- An event for the terminal leaves the key as it is.
pub aead_key-emit : (s : Session) (e : Event) → aead_key (emit s e) ≡ aead_key s
unfolding aead_key
aead_key-emit s e = refl

-- Sending changes neither the keys nor the state of the connection.
pub record Same (s s1 : Session) : Type 0 where
  pub done : s1.done ≡ s.done
  pub key : aead_key s1 ≡ aead_key s
  pub hash : s1.peer_key_hash ≡ s.peer_key_hash

write_frame-Same :
    (s : Session) (frame : Bytes) (os : List WriteOutcome) → Same s (write_frame s frame os).1
unfolding write_frame aead_key
write_frame-Same s frame [] = record { done = refl; key = refl; hash = refl }
write_frame-Same s frame (deadline_failed ∷ os) = record { done = refl; key = refl; hash = refl }
write_frame-Same s frame (write_failed n ∷ os) = record { done = refl; key = refl; hash = refl }
write_frame-Same s frame (write_done ∷ os) = record { done = refl; key = refl; hash = refl }

module _ (c : Aead) (r : Random) (s : Session) (key : Bytes) (live : s.done ≡ false)
    (ready : aead_key s ≡ some key) where
  pub send_packet_sealed :
      (rand : r.Source) (payload enc : Bytes)
      → (seal c r key payload rand).0 ≡ ok enc
      → let out = send_packet c r s rand payload in
        let written = write_frame s (frame_of s.peer_key_hash enc) s.network in
        (out.0 ≡ written.0) × (out.1 ≡ written.1)
  unfolding send_packet
  send_packet_sealed rand payload enc e = simp (live, ready, e) (refl, refl)

  send_packet_refused :
      (rand : r.Source) (payload : Bytes) (e : Cipher.Error)
      → (seal c r key payload rand).0 ≡ err e
      → let out = send_packet c r s rand payload in (out.0 ≡ err (seal_failed e)) × (out.1 ≡ s)
  unfolding send_packet
  send_packet_refused rand payload e h = simp (live, ready, h) (refl, refl)

-- What a packet on the connection carries: the relay's 32 bytes of the recipient, and a packet that
-- the recipient's key opens.
pub record Carries (c : Aead) (key hash frame payload : Bytes) : Type 0 where
  pub recipient : take 32 frame ≡ hash
  pub size : length (drop 32 frame) ≡ packet_size
  pub opened : open_packet c key (drop 32 frame) ≡ ok payload

-- A frame of the size that the relay reads, for the owner of a hash.
abbrev pub Addressed : Bytes → Bytes → Type 0
Addressed hash frame = (take 32 frame ≡ hash) × (length (drop 32 frame) ≡ packet_size)

-- The result of sending one payload: an error that is not the payload's fault, or a frame more.
abbrev pub Sends : Aead → Bytes → Session → Result SendError (Unit {0}) → Session → Bytes → Type 0
Sends c key s result s1 payload =
    ((e : SendError) × (result ≡ err e) × (own_fault e ≡ false))
    ⊎ ((result ≡ ok tt)
        × ((frame : Bytes) × (s1.sent ≡ s.sent ++ (frame ∷ []))
            × Carries c key s.peer_key_hash frame payload))

module _ (c : Aead) (r : Random) (s : Session) (key : Bytes) (live : s.done ≡ false)
    (ready : aead_key s ≡ some key) where
  pub send_packet-Same :
      (rand : r.Source) (payload : Bytes) → Same s (send_packet c r s rand payload).1
  send_packet-Same rand payload = elim (Result-cases (seal c r key payload rand).0) [
    | inl (enc, h) ↦
        rw ((send_packet_sealed c r s key live ready rand payload enc h).1)
          (write_frame-Same s (frame_of s.peer_key_hash enc) s.network)
    | inr (e, h) ↦
        rw ((send_packet_refused c r s key live ready rand payload e h).1)
          (record { done = refl; key = refl; hash = refl })
  ]

  -- On a session that is open and ready, with a 32-byte hash of the peer, a payload of at most 4066
  -- bytes is either sent as one frame (the recipient, and a packet of 4096 bytes that opens to the
  -- payload under the key) or not reported as sent, and its size is not the reason.
  pub send_packet_cases :
      (rand : r.Source) (payload : Bytes)
      → length s.peer_key_hash ≡ 32
      → length payload ≤ max_plaintext_size
      → let out = send_packet c r s rand payload in Sends c key s out.0 out.1 payload
  send_packet_cases rand payload h fits = elim (seal_cases c r key payload rand) [
    | inl (long, _) ↦ absurd (omega (arith, long, fits))
    | inr (_, inl (_, e)) ↦ inl (
      seal_failed Cipher.Error.generate_padding,
      (send_packet_refused c r s key live ready rand payload _ e).0,
      refl,
    )
    | inr (_, inr (pad, _, inl (_, e))) ↦ inl (
      seal_failed Cipher.Error.generate_nonce,
      (send_packet_refused c r s key live ready rand payload _ e).0,
      refl,
    )
    | inr (_, inr (pad, _, inr (n, _, (enc, e, size, opens)))) ↦
        let (same, st) = send_packet_sealed c r s key live ready rand payload enc e in
        elim (write_frame_cases s (frame_of s.peer_key_hash enc) s.network) [
          | inl (x, f, g) ↦ inl (x, same ∙ f, g)
          | inr (f, g) ↦
              let fr = frame_of_lem s.peer_key_hash enc h size in
              let d = drop_append s.peer_key_hash enc 32 h in
              inr (
                same ∙ f,
                (
                  frame_of s.peer_key_hash enc,
                  ap (λ x. x.sent) st ∙ g,
                  rw fr (record {
                    recipient = take_append s.peer_key_hash enc 32 h;
                    size = rw d size;
                    opened = rw d opens;
                  }),
                ),
              )
        ]
  ]
