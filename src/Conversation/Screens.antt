-- ===== src/Conversation/Screens.antt =====
-- internal/tui over internal/client over internal/relay: what one user types, on the way to what the
-- interface of the other one shows.
use road.Base.{
  utf8, ℕ, suc, ◌≤◌, ◌-◌, ◌≡◌, refl, ap, ◌∙◌, List, [], ◌∷◌, ◌++◌, map, some, false, ok, Bytes,
  bytes_key, length, lookup, drop, take, All-take, drop_append, All, arith,
}
use road.Crypto.Cipher.{Aead, Random}
use road.Crypto.Keys.{Curve, pair_of, ecdh}
use road.Relay.{Server, WriteOutcome}
use road.Client.{send_error, SendError, Event, Notice, max_body}
use road.Client.Incoming.{CreateOutcome, DiskOutcome}
use road.Client.Events.{msg_of, notice_text}
use road.Tui.{Ui, Model, Msg, ChatMessage, max_message_history, outgoing_capacity}
use road.Tui.Update.{updates}
use road.Tui.History.{recent}
use road.Tui.Typing.{
  IsPlain, typed_texts, echoes, enter_all, enter_all-IsTaking, text_msgs, received_messages,
  updates-text_msgs,
}
use road.Conversation.{session_with-network}
use road.Conversation.Messages.{shown}
use road.Conversation.Lines.{AllWhole, IsMessage, Told, reported, take_lines, take_lines-Told}
use road.Conversation.Spoken.{talk_of, talk_of-IsJoined}

-- The messages for the interface that events are, the i-th one with the time that the clock gives it.
unfoldable pub event_msgs :
    (Notice → Bytes) → (Bytes → ℕ) → (ℕ → ℕ) → ℕ → List Event → List (Msg × ℕ)
event_msgs error rune_count clock i [] = []
event_msgs error rune_count clock i (e ∷ es) =
    (msg_of error rune_count e, clock i) ∷ event_msgs error rune_count clock (suc i) es

unfoldable pub timed : (ℕ → ℕ) → ℕ → List Bytes → List (Bytes × ℕ)
timed clock i [] = []
timed clock i (text ∷ texts) = (text, clock i) ∷ timed clock (suc i) texts

event_msgs-shown :
    (error : Notice → Bytes) (rune_count : Bytes → ℕ) (clock : ℕ → ℕ) (i : ℕ) (texts : List Bytes)
    → event_msgs error rune_count clock i (map shown texts) ≡ text_msgs (timed clock i texts)
unfolding event_msgs timed text_msgs msg_of notice_text
event_msgs-shown error rune_count clock i [] = refl
event_msgs-shown error rune_count clock i (text ∷ texts) =
    ap (◌∷◌ (msg_of error rune_count (shown text), clock i))
      (event_msgs-shown error rune_count clock (suc i) texts)

-- What the sender sees of an error.
abbrev pub report_text : (Notice → Bytes) → SendError → Bytes
report_text error e = utf8 "⚠  send error: " ++ error (send_error e)

event_msgs-reported :
    (error : Notice → Bytes) (rune_count : Bytes → ℕ) (clock : ℕ → ℕ) (i : ℕ)
    (errors : List SendError)
    → event_msgs error rune_count clock i (map reported errors)
      ≡ text_msgs (timed clock i (map (report_text error) errors))
unfolding event_msgs timed text_msgs msg_of notice_text
event_msgs-reported error rune_count clock i [] = refl
event_msgs-reported error rune_count clock i (e ∷ errors) =
    ap (◌∷◌ (msg_of error rune_count (reported e), clock i))
      (event_msgs-reported error rune_count clock (suc i) errors)

recent-short :
    (history : List ChatMessage) → length history ≤ max_message_history → history ≡ recent history
unfolding recent
recent-short history h =
    let z : length history - max_message_history ≡ 0 = omega (arith, h) in rw z refl

AllMessages :
    (texts : List Bytes)
    → All IsPlain texts
    → All (λ words. length words ≤ max_body) texts
    → All IsMessage texts
AllMessages [] h k = tt
AllMessages (text ∷ texts) (plain, h) (short, k) =
    ((plain.no_exit, plain.no_file, short), AllMessages texts h k)

module _ (x : Curve) (sha256 : Bytes → Bytes) (hashes : (t : Bytes) → length (sha256 t) ≡ 32)
    (mine theirs key : Bytes) (c : Aead) (r : Random) (ui : Ui) (error : Notice → Bytes)
    (rune_count : Bytes → ℕ) where
  -- Texts that are no commands, of at most 4057 bytes each, are typed one after the other into the
  -- interface of one connected session, before its send loop takes anything: the first 32 wait in
  -- their order for the send loop, and all are shown as sent, also those that found the channel full.
  -- Then the send loop takes those that wait, over a relay whose table has the other session, whose
  -- interface takes the events that this gives: each text either is shown there, unchanged, as a
  -- received message, or its error, which has a reason outside the text, is shown to the sender; all
  -- in their order, the loop going on after an error, and neither interface shows anything else. Of
  -- each history the last hundred messages are kept. The interfaces are any two with at most a hundred
  -- messages, of which the sender's is not disconnected and has nothing in its queue. The two private
  -- keys have 32 bytes and agree on a session key, hashes have 32 bytes, the relay's writes are done
  -- in full, and the sender's writes are done in full or fail when their deadline is set.
  pub typed_lem :
      (percent : ℕ → ℕ → ℕ) (trim : Bytes → Bytes) (from to now : ℕ) (create : CreateOutcome)
      (disk : DiskOutcome) (network network1 : List WriteOutcome) (conn conn1 : ℕ) (relay : Server)
      (rand rand1 : r.Source) (screen screen1 : Model ui) (typed : List (ui.Textarea × ℕ))
      (clock clock1 : ℕ → ℕ)
      → length mine ≡ 32
      → length theirs ≡ 32
      → ecdh x (pair_of x mine) (pair_of x theirs).public_key ≡ ok key
      → lookup (sha256 (pair_of x theirs).public_key) relay.peers ≡ some to
      → AllWhole network
      → screen.disconnected ≡ false
      → screen.outgoing ≡ some []
      → length screen.history ≤ max_message_history
      → length screen1.history ≤ max_message_history
      → All IsPlain (typed_texts ui typed)
      → All (λ words. length words ≤ max_body) (typed_texts ui typed)
      → let texts = take outgoing_capacity (typed_texts ui typed) in
        let entered = enter_all ui screen typed in
        let own = screen.history ++ echoes ui outgoing_capacity typed in
        let t = talk_of x sha256 r mine theirs network network1 conn conn1 relay rand rand1 in
        let end = take_lines c r percent trim from to now create disk t texts in
        let reports = drop (length t.sender.incoming) end.sender.incoming in
        let events = drop (length t.recipient.incoming) end.recipient.incoming in
        let told = updates ui entered (event_msgs error rune_count clock 0 reports) in
        let shown1 = updates ui screen1 (event_msgs error rune_count clock1 0 events) in
        (entered.outgoing ≡ some texts)
        × (entered.history ≡ recent own)
        × ((said : List Bytes) × (errors : List SendError) × Told texts said errors
            × (shown1.history ≡ recent (screen1.history ++ received_messages (timed clock1 0 said)))
            × (told.history
                ≡ recent
                    (own ++ received_messages (timed clock 0 (map (report_text error) errors)))))
  typed_lem percent trim from to now create disk network network1 conn conn1 relay rand rand1 screen
        screen1 typed clock clock1 hm ht agreed at whole live queue few few1 plain short =
      let t = talk_of x sha256 r mine theirs network network1 conn conn1 relay rand rand1 in
      let texts = typed_texts ui typed in
      let hash = sha256 (pair_of x theirs).public_key in
      let entered = enter_all ui screen typed in
      let own = screen.history ++ echoes ui outgoing_capacity typed in
      let taking =
        enter_all-IsTaking ui outgoing_capacity [] screen.history screen typed
          (record { unlocked = live; outgoing = queue; history = recent-short screen.history few })
          plain (omega arith) in
      let (said, errors, told, seen, heard) =
        take_lines-Told c r percent trim from to now create disk key hash
          (hashes (pair_of x theirs).public_key) t (take outgoing_capacity texts)
          (record {
            joined =
                talk_of-IsJoined x sha256 mine theirs key r network network1 conn conn1 to relay
                  rand rand1 hm ht agreed at;
            network = rw (session_with-network x sha256 mine theirs key network conn agreed) whole;
          })
          (All-take IsMessage outgoing_capacity texts (AllMessages texts plain short)) in
      let fresh =
        ap (drop (length t.recipient.incoming)) seen
        ∙ drop_append t.recipient.incoming (map shown said) (length t.recipient.incoming) refl in
      let fresh1 =
        ap (drop (length t.sender.incoming)) heard
        ∙ drop_append t.sender.incoming (map reported errors) (length t.sender.incoming) refl in
      (
        taking.outgoing,
        taking.history,
        (
          said,
          errors,
          told,
          rw (fresh, event_msgs-shown error rune_count clock1 0 said)
              (updates-text_msgs ui screen1.history screen1 (timed clock1 0 said)
                (recent-short screen1.history few1)),
          rw (fresh1, event_msgs-reported error rune_count clock 0 errors)
              (updates-text_msgs ui own entered (timed clock 0 (map (report_text error) errors))
                taking.history),
        ),
      )
