-- ===== src/Client/Outgoing/Pieces.antt =====
-- internal/client/client.go: what the loop of `sendFile` sends, and what a receiver makes of it.
use road.Base.{
  ℕ, suc, zero, ◌^◌, ◌<◌, ◌≡◌, refl, sym, ap, ◌∙◌, List, [], ◌∷◌, ◌++◌, some, false, Bytes, length,
  take, drop, min, All, All-append, inl, inr, Result-cases,
}
use mathlib.Core.List.{flatten, append_assoc}
use road.Protocol.{build_file_chunk}
use road.Crypto.Cipher.{Aead, Random}
use road.Client.{
  Session, Event, emit, aead_key, send_packet, send_fragments, send_chunk_fragmented, max_body,
}
use road.Client.Send.{Addressed, Same, send_packet-Same}
use road.Client.Chunks.{AllCarry, no_parts, part}
use road.Client.Incoming.Transfer.{append_chunks, IsBody}
use road.Client.Incoming.Delivery.{
  packets_of, recv_packets, recv_packets-chunks, append_chunk-aead_key, AllCarry-IsBody,
}
use road.Client.Incoming.{append_chunk, all_written}

pub Same-trans : (s t u : Session) → Same s t → Same t u → Same s u
Same-trans s t u x y = record {
  done = y.done ∙ x.done;
  key = y.key ∙ x.key;
  hash = y.hash ∙ x.hash;
}

pub emit-Same : (s t : Session) (e : Event) → Same s t → Same s (emit t e)
unfolding aead_key
emit-Same s t e x = record { done = x.done; key = x.key; hash = x.hash }

module _ (c : Aead) (r : Random) (key : Bytes) (id index : ℕ) where
  send_fragments-Same :
      (fuel : ℕ) (s : Session) (rand : r.Source) (body : Bytes)
      → s.done ≡ false
      → aead_key s ≡ some key
      → Same s (send_fragments c r fuel s rand id index body).1
  unfolding send_fragments
  send_fragments-Same fuel s rand [] live ready = record { done = refl; key = refl; hash = refl }
  send_fragments-Same zero s rand (b ∷ bs) live ready = record {
    done = refl;
    key = refl;
    hash = refl;
  }
  send_fragments-Same (suc fuel) s rand (b ∷ bs) live ready =
      let end = min max_body (length (b ∷ bs)) in
      let payload = build_file_chunk id index (take end (b ∷ bs)) in
      let same = send_packet-Same c r s key live ready rand payload in
      let (result, s1, rand1) = send_packet c r s rand payload in
      elim (Result-cases (send_packet c r s rand payload).0) [
        | inr (e, f) ↦ rw (send_fragments, f) same
        | inl (u, f) ↦
            rw (send_fragments, f)
              (Same-trans s s1 _ same (
                send_fragments-Same fuel s1 rand1 (drop end (b ∷ bs)) (same.done ∙ live)
                  (same.key ∙ ready)))
      ]

  pub send_chunk_fragmented-Same :
      (s : Session) (rand : r.Source) (body : Bytes)
      → s.done ≡ false
      → aead_key s ≡ some key
      → Same s (send_chunk_fragmented c r s rand id index body).1
  unfolding send_chunk_fragmented
  send_chunk_fragmented-Same s rand body = send_fragments-Same (length body) s rand body

packets_of-append :
    (frames more : List Bytes) → packets_of (frames ++ more) ≡ packets_of frames ++ packets_of more
unfolding packets_of
packets_of-append [] more = refl
packets_of-append (frame ∷ frames) more = ap (◌∷◌ (drop 32 frame)) (packets_of-append frames more)

module _ (percent : ℕ → ℕ → ℕ) where
  append_chunks-append :
      (bodies more : List Bytes) (t : Session) (id : ℕ)
      → append_chunks percent t id (bodies ++ more)
        ≡ append_chunks percent (append_chunks percent t id bodies) id more
  unfolding append_chunks
  append_chunks-append [] more t id = refl
  append_chunks-append (b ∷ bodies) more t id =
      append_chunks-append bodies more (append_chunk percent t id b all_written) id

  append_chunks-aead_key :
      (bodies : List Bytes) (t : Session) (id : ℕ)
      → aead_key (append_chunks percent t id bodies) ≡ aead_key t
  unfolding append_chunks
  append_chunks-aead_key [] t id = refl
  append_chunks-aead_key (b ∷ bodies) t id =
      append_chunks-aead_key bodies (append_chunk percent t id b all_written) id
      ∙ append_chunk-aead_key percent t id b

pub flatten-append :
    (bodies more : List Bytes) → flatten (bodies ++ more) ≡ flatten bodies ++ flatten more
unfolding flatten
flatten-append [] more = refl
flatten-append (b ∷ bodies) more =
    ap (◌++◌ b) (flatten-append bodies more) ∙ sym (append_assoc b (flatten bodies) (flatten more))

pub AllCarry-Addressed :
    {c : Aead} {key hash : Bytes} {id index : ℕ} {frames bodies : List Bytes}
    → AllCarry c key hash id index frames bodies
    → All (Addressed hash) frames
AllCarry-Addressed no_parts = tt
AllCarry-Addressed (part x pos fits rest) = ((x.recipient, x.size), AllCarry-Addressed rest)

module _ (c : Aead) (r : Random) (percent : ℕ → ℕ → ℕ) (key hash : Bytes) (id : ℕ) where
  recv_packets-append :
      (packets more : List Bytes) (t : Session) (rand : r.Source)
      → let out = recv_packets c r percent t rand packets in
        recv_packets c r percent t rand (packets ++ more)
        ≡ recv_packets c r percent out.0 out.1 more
  unfolding recv_packets
  recv_packets-append [] more t rand = refl
  recv_packets-append (p ∷ packets) more t rand = recv_packets-append packets more _ _

  -- Frames that a receiver with the key turns into the chunks of a file, in order.
  pub record AreChunks (frames bodies : List Bytes) : Type 0 where
    pub addressed : All (Addressed hash) frames
    pub sizes : All IsBody bodies
    pub read :
        (t : Session) (rand : r.Source)
        → aead_key t ≡ some key
        → recv_packets c r percent t rand (packets_of frames)
          ≡ (append_chunks percent t id bodies, rand)

  pub no_AreChunks : AreChunks [] []
  unfolding packets_of recv_packets append_chunks
  no_AreChunks = record { addressed = tt; sizes = tt; read = λ t rand h. refl }

  pub AllCarry-AreChunks :
      (index : ℕ) (frames bodies : List Bytes)
      → id < 2 ^ 32
      → index < 2 ^ 32
      → AllCarry c key hash id index frames bodies
      → AreChunks frames bodies
  AllCarry-AreChunks index frames bodies h k all = record {
    addressed = AllCarry-Addressed all;
    sizes = AllCarry-IsBody all;
    read = λ t rand ready. recv_packets-chunks c r percent key hash id index t rand ready h k all;
  }

  pub append-AreChunks :
      (frames more bodies rest : List Bytes)
      → AreChunks frames bodies
      → AreChunks more rest
      → AreChunks (frames ++ more) (bodies ++ rest)
  append-AreChunks frames more bodies rest x y = record {
    addressed = All-append (Addressed hash) frames more x.addressed y.addressed;
    sizes = All-append IsBody bodies rest x.sizes y.sizes;
    read = λ t rand ready.
        ap (recv_packets c r percent t rand) (packets_of-append frames more)
        ∙ (recv_packets-append (packets_of frames) (packets_of more) t rand
            ∙ (ap (λ out. recv_packets c r percent out.0 out.1 (packets_of more))
                  (x.read t rand ready)
                ∙ (y.read (append_chunks percent t id bodies) rand
                      (append_chunks-aead_key percent bodies t id ∙ ready)
                    ∙ ap (λ u. (u, rand)) (sym (append_chunks-append percent bodies rest t id)))));
  }
