-- ===== src/Client/Chunks.antt =====
-- internal/client/client.go: the frames that `sendChunkFragmented` puts on the connection.
use road.Base.{
  take-append-drop, zero, suc, length-take, length-drop, ◌≤◌, ◌≡◌, refl, ap, ◌∙◌, List, [], ◌∷◌,
  ◌++◌, some, false, Result, ok, err, Bytes, ◌⊎◌, inl, inr, length, take, drop, arith, ℕ, ◌<◌, sym,
  min,
}
use road.Protocol.Header.{length-build_file_chunk}
use mathlib.Core.List.{flatten, append_assoc, append-nil}
use road.Crypto.Cipher.{Aead, Random, max_plaintext_size}
use road.Client.{
  send_chunk_fragmented, Session, SendError, aead_key, send_packet, build_file_chunk, max_body,
  send_fragments,
}
use road.Client.Send.{own_fault, Same, Carries, send_packet-Same, send_packet_cases}

-- Frames that carry the parts of a chunk, in their order.
pub data AllCarry (c : Aead) (key hash : Bytes) (id index : ℕ)
    : List Bytes → List Bytes → Type 0 where
  no_parts : AllCarry c key hash id index [] []
  part :
      {frame body : Bytes} {frames bodies : List Bytes}
      → Carries c key hash frame (build_file_chunk id index body)
      → 0 < length body
      → length body ≤ max_body
      → AllCarry c key hash id index frames bodies
      → AllCarry c key hash id index (frame ∷ frames) (body ∷ bodies)

abbrev pub SendsChunk :
    Aead → Bytes → Session → ℕ → ℕ → Result SendError (Unit {0}) → Session → Bytes → Type 0
SendsChunk c key s id index result s1 body =
    ((e : SendError) × (result ≡ err e) × (own_fault e ≡ false))
    ⊎ ((result ≡ ok tt)
        × ((frames : List Bytes) × (bodies : List Bytes) × (s1.sent ≡ s.sent ++ frames)
            × AllCarry c key s.peer_key_hash id index frames bodies
            × (flatten bodies ≡ body)))

module _ (c : Aead) (r : Random) (key : Bytes) (id index : ℕ) where
  -- The rounds of the loop.
  fragments_failed :
      (fuel : ℕ) (s : Session) (rand : r.Source) (b : ℕ) (bs : Bytes) (e : SendError)
      → let end = min max_body (length (b ∷ bs)) in
        (send_packet c r s rand (build_file_chunk id index (take end (b ∷ bs)))).0 ≡ err e
        → (send_fragments c r (suc fuel) s rand id index (b ∷ bs)).0 ≡ err e
  unfolding send_fragments
  fragments_failed fuel s rand b bs e x = rw (send_fragments, x) refl

  fragments_step :
      (fuel : ℕ) (s : Session) (rand : r.Source) (b : ℕ) (bs : Bytes)
      → let end = min max_body (length (b ∷ bs)) in
        let out = send_packet c r s rand (build_file_chunk id index (take end (b ∷ bs))) in
        out.0 ≡ ok tt
        → send_fragments c r (suc fuel) s rand id index (b ∷ bs)
          ≡ send_fragments c r fuel out.1 out.2 id index (drop end (b ∷ bs))
  unfolding send_fragments
  fragments_step fuel s rand b bs x = rw (send_fragments, x) refl

  -- A part that was sent, before the parts of the rest.
  SendsChunk-first :
      (s s1 s2 : Session) (now rest body frame : Bytes) (result : Result SendError (Unit {0}))
      → Same s s1
      → s1.sent ≡ s.sent ++ (frame ∷ [])
      → Carries c key s.peer_key_hash frame (build_file_chunk id index now)
      → 0 < length now
      → length now ≤ max_body
      → now ++ rest ≡ body
      → SendsChunk c key s1 id index result s2 rest
      → SendsChunk c key s id index result s2 body
  unfolding flatten
  SendsChunk-first s s1 s2 now rest body frame result same grown carries pos fits whole
        (inl failed) =
      inl failed
  SendsChunk-first s s1 s2 now rest body frame result same grown carries pos fits whole
        (inr (e, (frames, bodies, sent, all, joined))) =
      inr (
        e,
        (
          frame ∷ frames,
          now ∷ bodies,
          sent ∙ ap (λ l. l ++ frames) grown ∙ append_assoc s.sent (frame ∷ []) frames,
          part carries pos fits (rw same.hash at all),
          ap (◌++◌ now) joined ∙ whole,
        ),
      )

  send_fragments_cases :
      (fuel : ℕ) (s : Session) (rand : r.Source) (body : Bytes)
      → s.done ≡ false
      → aead_key s ≡ some key
      → length s.peer_key_hash ≡ 32
      → length body ≤ fuel
      → let out = send_fragments c r fuel s rand id index body in
        SendsChunk c key s id index out.0 out.1 body
  unfolding send_fragments flatten
  send_fragments_cases fuel s rand [] live ready h f =
      inr (refl, ([], [], sym (append-nil s.sent), no_parts, refl))
  send_fragments_cases zero s rand (b ∷ bs) live ready h f = absurd (omega (arith, f))
  send_fragments_cases (suc fuel) s rand (b ∷ bs) live ready h f =
      let body = b ∷ bs in
      let end = min max_body (length body) in
      let now = take end body in
      let rest = drop end body in
      let payload = build_file_chunk id index now in
      let size = length-take end body in
      let fits : length payload ≤ max_plaintext_size =
        omega (arith, length-build_file_chunk id index now, size) in
      let same = send_packet-Same c r s key live ready rand payload in
      elim (send_packet_cases c r s key live ready rand payload h fits) [
        | inl (e, x, y) ↦ inl (e, fragments_failed fuel s rand b bs e x, y)
        | inr (x, (frame, grown, carries)) ↦
            let (out1, s1, rand1) = send_packet c r s rand payload in
            let later =
              send_fragments_cases fuel s1 rand1 rest (same.done ∙ live) (same.key ∙ ready)
                (ap length same.hash ∙ h) (omega (arith, length-drop end body, f)) in
            let (result, s2, rand2) = send_fragments c r fuel s1 rand1 id index rest in
            rw (fragments_step fuel s rand b bs x) (
              SendsChunk-first s s1 s2 now rest body frame result same grown carries
                (omega (arith, size)) (omega (arith, size)) (take-append-drop end body) later)
      ]

-- On a session that is open and ready, a chunk of any length either fails for a reason outside its
-- data (no fragment is too large to seal, and the loop ends), or is sent as a list of frames, each
-- for the peer and each opening to a file chunk of the transfer with 1 to 4057 bytes, and these
-- bytes in order are exactly the data.
pub send_chunk_fragmented_cases :
    (c : Aead) (r : Random) (key : Bytes) (s : Session) (rand : r.Source) (id index : ℕ)
    (body : Bytes)
    → s.done ≡ false
    → aead_key s ≡ some key
    → length s.peer_key_hash ≡ 32
    → let out = send_chunk_fragmented c r s rand id index body in
      SendsChunk c key s id index out.0 out.1 body
unfolding send_chunk_fragmented
send_chunk_fragmented_cases c r key s rand id index body live ready h =
    send_fragments_cases c r key id index (length body) s rand body live ready h (omega arith)
