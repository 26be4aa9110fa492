-- ===== src/Tui/Typing.antt =====
-- internal/tui/tui.go: texts that the user enters one after the other, and texts that come from the
-- network, on a running interface.
use road.Base.{
  ℕ, zero, suc, ◌+◌, ◌≤◌, ◌<◌, ◌≡◌, refl, sym, ap, ◌∙◌, List, [], ◌∷◌, ◌++◌, some, false, Bytes,
  codes, bytes_eq, has_prefix, length, length-append, arith, ltb-true, ltb-false, take, All,
}
use mathlib.Core.List.{append-nil, append_assoc}
use road.Tui.{
  Ui, Model, Msg, ChatMessage, kind_sent, kind_received, outgoing_capacity, incoming_text, key_msg,
  enter, push_message,
}
use road.Tui.Update.{
  queue_full, update, updates, press_enter, exit, submit, relay_text, try_send, own_message, finish,
  show, push,
}
use road.Tui.History.{recent, push_message-recent}

-- A text that is no command, as the interface reads it.
pub record IsPlain (text : Bytes) : Type 0 where
  pub filled : bytes_eq text [] ≡ false
  pub no_exit : bytes_eq text exit ≡ false
  pub no_clear : bytes_eq text (codes "/clear") ≡ false
  pub no_file : has_prefix (codes "/file ") text ≡ false

abbrev pub sent_message : Bytes → ℕ → ChatMessage
sent_message text now = record { kind = kind_sent; text = text; meta = []; timestamp = now }

abbrev pub received_message : Bytes → ℕ → ChatMessage
received_message text now = record { kind = kind_received; text = text; meta = []; timestamp = now }

-- Texts from the network, each with the time at which the interface takes it.
unfoldable pub received_messages : List (Bytes × ℕ) → List ChatMessage
received_messages [] = []
received_messages ((text, now) ∷ rest) = received_message text now ∷ received_messages rest

unfoldable pub text_msgs : List (Bytes × ℕ) → List (Msg × ℕ)
text_msgs [] = []
text_msgs ((text, now) ∷ rest) = (incoming_text text, now) ∷ text_msgs rest

module _ (ui : Ui) where
  -- What the text area holds when Enter is pressed, with the time of each.
  unfoldable pub typed_texts : List (ui.Textarea × ℕ) → List Bytes
  typed_texts [] = []
  typed_texts ((area, now) ∷ rest) = ui.trim_space (ui.value area) ∷ typed_texts rest

  -- What the interface shows for them, where the channel has room for so many: a text that finds the
  -- channel full is reported, and shown as sent nevertheless.
  unfoldable pub echoes : ℕ → List (ui.Textarea × ℕ) → List ChatMessage
  echoes room [] = []
  echoes zero ((area, now) ∷ rest) =
      queue_full now ∷ sent_message (ui.trim_space (ui.value area)) now ∷ echoes zero rest
  echoes (suc room) ((area, now) ∷ rest) =
      sent_message (ui.trim_space (ui.value area)) now ∷ echoes room rest

  -- Enter is pressed again and again, before the send loop takes anything.
  unfoldable pub enter_all : Model ui → List (ui.Textarea × ℕ) → Model ui
  enter_all m [] = m
  enter_all m ((area, now) ∷ rest) =
      enter_all (press_enter ui (record m { textarea = area }) now).0 rest

  -- An interface that takes texts, with what it has queued and what it has shown.
  pub record IsTaking (queue : List Bytes) (all : List ChatMessage) (m : Model ui) : Type 0 where
    pub unlocked : m.disconnected ≡ false
    pub outgoing : m.outgoing ≡ some queue
    pub history : m.history ≡ recent all

  submit-IsTaking :
      (queue : List Bytes) (all : List ChatMessage) (m : Model ui) (text : Bytes) (now : ℕ)
      → IsTaking queue all m
      → IsPlain text
      → length queue < outgoing_capacity
      → IsTaking (queue ++ (text ∷ [])) (all ++ (sent_message text now ∷ [])) (submit ui m text now)
  unfolding submit relay_text try_send own_message show push
  submit-IsTaking queue all m text now h plain room = record {
    unlocked = rw (h.outgoing, ltb-true (length queue) outgoing_capacity room) h.unlocked;
    outgoing = rw (h.outgoing, ltb-true (length queue) outgoing_capacity room) refl;
    history =
        rw (h.outgoing, ltb-true (length queue) outgoing_capacity room, plain.no_file, h.history)
          (push_message-recent all (sent_message text now));
  }

  press_enter-plain :
      (m : Model ui) (area : ui.Textarea) (now : ℕ)
      → m.disconnected ≡ false
      → IsPlain (ui.trim_space (ui.value area))
      → press_enter ui (record m { textarea = area }) now
        ≡ finish ui
            (submit ui (record m { textarea = ui.reset area }) (ui.trim_space (ui.value area)) now)
            (key_msg enter)
            false
  unfolding press_enter
  press_enter-plain m area now live plain =
      rw (live, plain.filled, plain.no_exit, plain.no_clear) refl

  -- A text that finds the channel full.
  submit-full :
      (queue : List Bytes) (all : List ChatMessage) (m : Model ui) (text : Bytes) (now : ℕ)
      → IsTaking queue all m
      → IsPlain text
      → outgoing_capacity ≤ length queue
      → IsTaking queue (all ++ (queue_full now ∷ sent_message text now ∷ [])) (submit ui m text now)
  unfolding submit relay_text try_send own_message show push
  submit-full queue all m text now h plain full =
      let no_room = ltb-false (length queue) outgoing_capacity full in
      record {
        unlocked = rw (h.outgoing, no_room) h.unlocked;
        outgoing = rw (h.outgoing, no_room) refl;
        history =
            rw (h.outgoing, no_room, plain.no_file, h.history)
              (ap (λ history. push_message history (sent_message text now))
                  (push_message-recent all (queue_full now))
                ∙ push_message-recent (all ++ (queue_full now ∷ [])) (sent_message text now)
                ∙ ap recent (append_assoc all (queue_full now ∷ []) (sent_message text now ∷ [])));
      }

  -- The widgets' turn at the end changes nothing of this.
  press_enter-IsTaking :
      (queue queue1 : List Bytes) (all all1 : List ChatMessage) (m : Model ui) (area : ui.Textarea)
      (now : ℕ)
      → IsTaking queue all m
      → IsPlain (ui.trim_space (ui.value area))
      → IsTaking queue1 all1
          (submit ui (record m { textarea = ui.reset area }) (ui.trim_space (ui.value area)) now)
      → IsTaking queue1 all1 (press_enter ui (record m { textarea = area }) now).0
  unfolding finish
  press_enter-IsTaking queue queue1 all all1 m area now h plain taken =
      rw (press_enter-plain m area now h.unlocked plain)
        (record { unlocked = taken.unlocked; outgoing = taken.outgoing; history = taken.history })

  cleared-IsTaking :
      (queue : List Bytes) (all : List ChatMessage) (m : Model ui) (area : ui.Textarea)
      → IsTaking queue all m
      → IsTaking queue all (record m { textarea = ui.reset area })
  cleared-IsTaking queue all m area h = record {
    unlocked = h.unlocked;
    outgoing = h.outgoing;
    history = h.history;
  }

  -- Texts that are no commands, over a channel with room for some more: so many of them are queued for
  -- the network in their order, and all are shown as sent.
  pub enter_all-IsTaking :
      (room : ℕ) (queue : List Bytes) (all : List ChatMessage) (m : Model ui)
      (typed : List (ui.Textarea × ℕ))
      → IsTaking queue all m
      → All IsPlain (typed_texts typed)
      → length queue + room ≡ outgoing_capacity
      → IsTaking
          (queue ++ take room (typed_texts typed))
          (all ++ echoes room typed)
          (enter_all m typed)
  unfolding enter_all typed_texts echoes
  enter_all-IsTaking zero queue all m [] h plain fit = rw (append-nil queue, append-nil all) h
  enter_all-IsTaking (suc room) queue all m [] h plain fit = rw (append-nil queue, append-nil all) h
  enter_all-IsTaking zero queue all m ((area, now) ∷ rest) h (plain, plains) fit =
      let text = ui.trim_space (ui.value area) in
      let shown = queue_full now ∷ sent_message text now ∷ [] in
      rw (← append_assoc all shown (echoes zero rest)) (
        enter_all-IsTaking zero queue (all ++ shown)
          (press_enter ui (record m { textarea = area }) now).0 rest
          (press_enter-IsTaking queue queue all (all ++ shown) m area now h plain (
            submit-full queue all (record m { textarea = ui.reset area }) text now
              (cleared-IsTaking queue all m area h) plain (omega (arith, fit))))
          plains fit)
  enter_all-IsTaking (suc room) queue all m ((area, now) ∷ rest) h (plain, plains) fit =
      let text = ui.trim_space (ui.value area) in
      let shown = sent_message text now ∷ [] in
      rw
        (
          ← append_assoc queue (text ∷ []) (take room (typed_texts rest)),
          ← append_assoc all shown (echoes room rest),
        )
        (enter_all-IsTaking room (queue ++ (text ∷ [])) (all ++ shown)
          (press_enter ui (record m { textarea = area }) now).0 rest
          (press_enter-IsTaking queue (queue ++ (text ∷ [])) all (all ++ shown) m area now h plain (
            submit-IsTaking queue all (record m { textarea = ui.reset area }) text now
              (cleared-IsTaking queue all m area h) plain (omega (arith, fit))))
          plains (omega (arith, fit, length-append queue (text ∷ []))))

  pub updates-text_msgs :
      (all : List ChatMessage) (m : Model ui) (texts : List (Bytes × ℕ))
      → m.history ≡ recent all
      → (updates ui m (text_msgs texts)).history ≡ recent (all ++ received_messages texts)
  unfolding updates update finish show push text_msgs received_messages
  updates-text_msgs all m [] h = h ∙ ap recent (sym (append-nil all))
  updates-text_msgs all m ((text, now) ∷ rest) h =
      let msg = received_message text now in
      updates-text_msgs (all ++ (msg ∷ [])) (update ui m (incoming_text text) now).0 rest
        (ap (λ history. push_message history msg) h ∙ push_message-recent all msg)
      ∙ ap recent (append_assoc all (msg ∷ []) (received_messages rest))
