-- ===== src/Client/Incoming/Runs.antt =====
-- The receive loop of a session on two reads, of which the second fails.
use road.Base.{refl, [], ◌∷◌, ◌⊎◌, ◌≡◌, ◌≢◌, none, some, true, false, replicate, Option, List, All}
use road.Crypto.Cipher
use road.Crypto.Standins.{clear_aead, counted}
use road.Client.{Session}
use road.Client.Incoming.{no_path, all_written}
use road.Client.Incoming.Torn.{IsTorn}
use road.Client.Incoming.Loop.{Read, recv_loop, recv_loop_lem}

abbrev cipher : Cipher.Session
cipher = record { aead = some (replicate 32 7); key = some (replicate 32 7) }

abbrev ready : Session
ready = record {
  peer_pub_key = replicate 32 9;
  peer_key_hash = replicate 32 5;
  conn = some 1;
  conn_closed = λ i. false;
  cipher_sess = some cipher;
  cleared_key = none;
  incoming = [];
  transfers = [];
  files = λ i. record { path = []; contents = []; closed = true };
  next_file = 3;
  sent = [];
  network = [];
  done = false;
}

abbrev reads : List (Option Read)
reads =
    some (record { packet = replicate 4096 1; create = no_path; disk = all_written }) ∷ none ∷ []

recv_loop_lem_example :
    let out = recv_loop clear_aead counted (λ a b. 0) ready 4 reads in
    ((out.2 ≡ true) × IsTorn out.0)
    ⊎ ((out.2 ≡ false) × (out.0.done ≡ false) × All (λ read. read ≢ none) reads)
unfolding road.Client.Incoming.Loop.is_connected
recv_loop_lem_example = recv_loop_lem clear_aead counted (λ a b. 0) ready 4 reads refl refl
