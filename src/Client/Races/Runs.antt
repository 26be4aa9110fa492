-- ===== src/Client/Races/Runs.antt =====
-- A session on which two packets are sent while it is torn down.
use road.Base.{
  arith, ℕ, ◌≡◌, refl, [], ◌∷◌, none, some, true, false, ok, err, Bytes, codes, replicate,
}
use road.Crypto.Cipher
use road.Crypto.Cipher.{open_packet, seal, wire_packet, inner_block}
use road.Crypto.Standins.{clear_aead, counted}
use road.Protocol.{build_message, type_message, WireHeader}
use road.Relay.{write_done}
use road.Client.{
  Session, File, session_closed, set_write_deadline, write_error, zeroize, send_packet,
}
use road.Client.Outgoing.{send_line}
use road.Client.Goroutines
use road.Client.Goroutines.{goes_on, sends_line, Acts-zeroize}
use road.Client.Races.{entered, panicked, returned, Race, Pieces, begins, goes, then_piece, go}
use road.Client.Races.Interrupted.{interrupted, interrupted_cases}
use road.Client.Races.Silent.{Pieces-zeroize}

abbrev key : Bytes
key = replicate 32 7

abbrev cipher : Cipher.Session
cipher = record { aead = some key; key = some key }

abbrev ready : Session
ready = record {
  peer_pub_key = replicate 32 9;
  peer_key_hash = replicate 32 5;
  conn = some 1;
  conn_closed = λ i. false;
  cipher_sess = some cipher;
  cleared_key = none;
  incoming = [];
  transfers = [];
  files = λ i. record { path = []; contents = []; closed = true };
  next_file = 3;
  sent = [];
  network = write_done ∷ write_done ∷ [];
  done = false;
}

abbrev hi : Bytes
hi = build_message type_message (codes "hi")

-- Two calls are made. The first has sealed its frame, and the second has its pointers.
abbrev start : Race counted
start = record { session = ready; source = 4; calls = λ n. entered }

abbrev both : ℕ → Bytes
both n = hi

abbrev running : Race counted
running = let move = go clear_aead counted both in move (move (move (move start 0) 0) 0) 1

abbrev over : Race counted
over = record running { session = zeroize running.session }

before : Pieces clear_aead counted both start running
before =
    then_piece (then_piece (then_piece (then_piece begins (goes 0)) (goes 0)) (goes 0)) (goes 1)

after : Pieces clear_aead counted both over (go clear_aead counted both over 0)
after = then_piece begins (goes 0)

running_open : running.session.done ≡ false
unfolding go road.Client.Races.piece
running_open = refl

Pieces-zeroize_example :
    let y = go clear_aead counted both over 0 in
    (y.session.sent ≡ running.session.sent)
    × ((n : ℕ) → y.calls n ≡ returned (ok tt) → running.calls n ≡ returned (ok tt))
Pieces-zeroize_example = Pieces-zeroize clear_aead counted both ready 4 before running_open after

abbrev sealed_hi : Bytes
sealed_hi =
    wire_packet (replicate 12 3)
      (clear_aead.seal key (replicate 12 3) (inner_block hi (replicate 4057 4)))

interrupted_cases_example :
    let run = interrupted clear_aead counted hi in
    (run 0 ready 4 ≡ (zeroize ready, 4, returned (err session_closed)))
    × (run 1 ready 4 ≡ (zeroize ready, 4, returned (err session_closed)))
    × ((rand2 : ℕ) × (run 2 ready 4 ≡ (zeroize ready, rand2, panicked)))
    × (run 3 ready 4
        ≡ (zeroize ready, (seal clear_aead counted key hi 4).1, returned (err set_write_deadline)))
    × (run 4 ready 4 ≡ (
      zeroize (record ready { network = write_done ∷ [] }),
      (seal clear_aead counted key hi 4).1,
      returned (err write_error),
    ))
    × (run 5 ready 4
        ≡ let (result, s1, rand2) = send_packet clear_aead counted ready 4 hi in
          (zeroize s1, rand2, returned result))
    × ((zeroize ready).sent ≡ ready.sent)
unfolding seal wire_packet inner_block build_message road.Protocol.encode
    road.Crypto.Standins.counted_read road.Base.make
interrupted_cases_example =
    interrupted_cases clear_aead counted hi ready 4 1 cipher key sealed_hi refl refl refl refl refl
      refl

Acts-zeroize_example :
    let t = (send_line clear_aead counted (λ a b. 0) (λ t. t) (zeroize ready) 4 (codes "hi")).1.0 in
    (t.sent ≡ ready.sent) × (t.done ≡ true) × (t.cipher_sess ≡ none) × (t.conn ≡ none)
Acts-zeroize_example =
    Acts-zeroize clear_aead counted (λ a b. 0) (λ t. t) ready refl
      (goes_on Goroutines.begins (sends_line 4 (codes "hi")))
