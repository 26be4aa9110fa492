-- ===== src/Conversation/Runs.antt =====
-- A conversation at concrete inputs.
use road.Base.{
  ℕ, nat_key, Option, true, IsBytes, List, map, none, ◌≡◌, refl, [], ◌∷◌, ◌++◌, some, ok, err,
  Bytes, bytes_key, codes, length, drop, take, has_prefix, replicate, length-replicate, get_or,
  lookup, ◌⊎◌, false, arith,
}
use road.Crypto.Standins.{clear_aead, counted, counted_read}
use road.Crypto.Keys.{pair_of, ecdh}
use road.Crypto.Keys
use road.Crypto.Keys.Standins.{toy_curve}
use road.Relay.{Server, write_done, handle_conn, accept, new}
use road.Client.{ecdh_failed, Session, SendError, send_packet, emit, incoming_text, text}
use road.Client.Send.{own_fault}
use road.Client.Connect.{connect, dialled, part_written}
use road.Client.Connect
use road.Client.Connect.Outcomes.{connect_cases, IsAborted, IsDialled}
use road.Client.Incoming.{no_path, all_written}
use road.Conversation.Messages.{Talk, say_all, shown}
use road.Conversation.Spoken.{talk_of, say_all_lem}
use road.Conversation.{
  first_sent, session_with, handle_conn-session_with, handle_conn-peer_key_hash,
}
use road.Conversation.Files.{through, relay_frames, read_file, file_lem}
use road.Conversation.Lines.{take_lines, Told}
use road.Client.{Notice}
use road.Relay.{deadline_failed}
use road.Conversation.Screens.{report_text, event_msgs, timed, typed_lem}
use road.Tui.{Model}
use road.Tui.Standins.{plain}
use road.Client.Terminal.{first_model}
use road.Tui.Update.{updates}
use road.Tui.Update
use road.Tui.History.{recent}
use road.Tui.Typing.{typed_texts, echoes, enter_all, received_messages}
use road.Client.Outgoing.{send_file, opened, at_eof, base}
use road.Client.Outgoing.SendFile.{IsTold}

abbrev alice : Bytes
alice = replicate 32 5

abbrev bob : Bytes
bob = replicate 32 6

abbrev toy_hash : Bytes → Bytes
toy_hash t = replicate 32 (get_or t 0 0)

toy_hash-length : (t : Bytes) → length (toy_hash t) ≡ 32
toy_hash-length t = length-replicate 32 (get_or t 0 0)

agreed :
    ecdh toy_curve (pair_of toy_curve alice) (pair_of toy_curve bob).public_key
    ≡ ok (replicate 32 11)
unfolding ecdh pair_of road.Crypto.Keys.derive_session_key
agreed = refl

agreed_back :
    ecdh toy_curve (pair_of toy_curve bob) (pair_of toy_curve alice).public_key
    ≡ ok (replicate 32 11)
unfolding ecdh pair_of road.Crypto.Keys.derive_session_key
agreed_back = refl

abbrev alice_session : Session
alice_session = session_with toy_curve toy_hash alice bob (write_done ∷ []) 1

abbrev bob_session : Session
bob_session = session_with toy_curve toy_hash bob alice [] 2

abbrev with_bob : Server
with_bob = handle_conn toy_hash (accept new 9) 9 (first_sent bob_session) 100

handle_conn-peer_key_hash_example : lookup alice_session.peer_key_hash with_bob.peers ≡ some 9
handle_conn-peer_key_hash_example =
    handle_conn-peer_key_hash toy_curve toy_hash toy_hash-length bob alice (replicate 32 11) [] 2
      agreed_back (accept new 9) 9 100 (write_done ∷ []) 1 refl refl

abbrev fresh : Session
fresh = Connect.new toy_hash (pair_of toy_curve bob).public_key []

connect_cases_example :
    let kp = pair_of toy_curve alice in
    let o = connect toy_curve fresh kp (dialled 1) (part_written 3) in
    ((e : Keys.Error) × (ecdh toy_curve kp fresh.peer_pub_key ≡ err e)
      × IsAborted fresh (ecdh_failed e) o)
    ⊎ ((key : Bytes) × (ecdh toy_curve kp fresh.peer_pub_key ≡ ok key)
        × IsDialled fresh kp key (dialled 1) (part_written 3) o)
unfolding road.Client.Connect.new
connect_cases_example =
    connect_cases toy_curve fresh (pair_of toy_curve alice) (dialled 1) (part_written 3) refl refl

-- Two texts, over a network that takes two frames.
abbrev talk : Talk counted
talk =
    talk_of toy_curve toy_hash counted alice bob (write_done ∷ write_done ∷ []) [] 1 2 with_bob 4 4

abbrev two_texts : List Bytes
two_texts = codes "hi" ∷ codes "there" ∷ []

say_all_lem_example :
    let (after, error, unsent) =
      say_all clear_aead counted (λ a b. 0) 8 9 200 no_path all_written talk two_texts in
    (said : List Bytes) × (two_texts ≡ said ++ unsent)
    × (after.recipient.incoming ≡ talk.recipient.incoming ++ map shown said)
    × (((error ≡ none) × (unsent ≡ []))
        ⊎ ((e : SendError) × (error ≡ some e) × (own_fault e ≡ false)))
say_all_lem_example =
    say_all_lem toy_curve toy_hash toy_hash-length alice bob (replicate 32 11) clear_aead counted
      (λ a b. 0) 8 9 200 no_path all_written (write_done ∷ write_done ∷ []) [] 1 2 with_bob 4 4
      two_texts refl refl agreed
      (handle_conn-session_with toy_curve toy_hash toy_hash-length bob alice (replicate 32 11) [] 2
        agreed_back (accept new 9) 9 100)
      (omega arith, (omega arith, tt))

-- What alice types arrives on bob's screen.
abbrev alice_screen : Model plain
alice_screen = first_model plain alice_session [] [] 0

abbrev bob_screen : Model plain
bob_screen = first_model plain bob_session [] [] 0

abbrev two_lines : List (Bytes × ℕ)
two_lines = (codes "hi", 5) ∷ (codes "there", 6) ∷ []

abbrev eof : Notice → Bytes
eof notice = codes "EOF"

-- The first write fails when its deadline is set.
abbrev talk1 : Talk counted
talk1 =
    talk_of toy_curve toy_hash counted alice bob (deadline_failed ∷ write_done ∷ []) [] 1 2 with_bob
      4 4

typed_lem_example :
    let texts = take 32 (typed_texts plain two_lines) in
    let entered = enter_all plain alice_screen two_lines in
    let own = alice_screen.history ++ echoes plain 32 two_lines in
    let end =
      take_lines clear_aead counted (λ a b. 0) (λ t. t) 8 9 200 no_path all_written talk1 texts in
    let reports = drop (length talk1.sender.incoming) end.sender.incoming in
    let events = drop (length talk1.recipient.incoming) end.recipient.incoming in
    let told = updates plain entered (event_msgs eof length (λ i. 7) 0 reports) in
    let seen = updates plain bob_screen (event_msgs eof length (λ i. 8) 0 events) in
    (entered.outgoing ≡ some texts)
    × (entered.history ≡ recent own)
    × ((said : List Bytes) × (errors : List SendError) × Told texts said errors
        × (seen.history ≡ recent (bob_screen.history ++ received_messages (timed (λ i. 8) 0 said)))
        × (told.history
            ≡ recent (own ++ received_messages (timed (λ i. 7) 0 (map (report_text eof) errors)))))
unfolding first_model Update.new typed_texts has_prefix
typed_lem_example =
    typed_lem toy_curve toy_hash toy_hash-length alice bob (replicate 32 11) clear_aead counted
      plain eof length (λ a b. 0) (λ t. t) 8 9 200 no_path all_written
      (deadline_failed ∷ write_done ∷ []) [] 1 2 with_bob 4 4 alice_screen bob_screen two_lines
      (λ i. 7) (λ i. 8) refl refl agreed
      (handle_conn-session_with toy_curve toy_hash toy_hash-length bob alice (replicate 32 11) [] 2
        agreed_back (accept new 9) 9 100)
      (refl, (refl, tt)) refl refl (omega arith) (omega arith)
      (
        record { filled = refl; no_exit = refl; no_clear = refl; no_file = refl },
        (record { filled = refl; no_exit = refl; no_clear = refl; no_file = refl }, tt),
      )
      (omega arith, (omega arith, tt))

counted-IsBytes : (bs : Bytes) → ◌≡◌ {A = Option Bytes} (counted_read 9 4).0 (some bs) → IsBytes bs
unfolding counted_read
counted-IsBytes bs e =
    let f : some (9 ∷ 9 ∷ 9 ∷ 9 ∷ []) ≡ some bs = e in
    let g : 9 ∷ 9 ∷ 9 ∷ 9 ∷ [] ≡ bs = cc in
    rw (← g) (omega arith, (omega arith, (omega arith, (omega arith, tt))))

-- A file of three bytes, over a network that takes three frames.
file_lem_example :
    let sender =
      session_with toy_curve toy_hash alice bob (write_done ∷ write_done ∷ write_done ∷ []) 1 in
    let out =
      send_file clear_aead counted
        (λ a b. 0)
        sender
        9
        (codes "/tmp/a.txt")
        (opened 3 ((1 ∷ 2 ∷ []) ∷ (3 ∷ []) ∷ []) at_eof)
        0 in
    let frames = drop (length sender.sent) out.0.sent in
    let packets = through with_bob (relay_frames with_bob 8 200 frames) 9 in
    let t1 = read_file clear_aead counted (λ a b. 0) bob_session 7 (codes "/d/a.txt") packets in
    IsTold at_eof out.0
    ⊎ ((id : ℕ) × (lookup id t1.transfers ≡ none)
        × ((t1.files bob_session.next_file).contents ≡ 1 ∷ 2 ∷ 3 ∷ [])
        × ((t1.files bob_session.next_file).closed ≡ true))
unfolding mathlib.Core.List.flatten base
file_lem_example =
    file_lem toy_curve toy_hash toy_hash-length alice bob (replicate 32 11) clear_aead counted
      (λ a b. 0) 8 9 200 (write_done ∷ write_done ∷ write_done ∷ []) [] 1 2 with_bob 9 7
      (codes "/tmp/a.txt") (codes "/d/a.txt") 3 ((1 ∷ 2 ∷ []) ∷ (3 ∷ []) ∷ []) at_eof 0
      counted-IsBytes refl refl agreed
      (handle_conn-session_with toy_curve toy_hash toy_hash-length bob alice (replicate 32 11) [] 2
        agreed_back (accept new 9) 9 100)
      (omega arith) refl (omega arith) (omega arith)
