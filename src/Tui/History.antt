-- ===== src/Tui/History.antt =====
-- internal/tui/tui.go: which messages the history holds.
use road.Base.{
  take_all, if_both, codes, ℕ, zero, suc, ◌+◌, ◌-◌, ◌≤◌, ◌<◌, ◌≡◌, refl, ap, sym, ◌∙◌, List, [],
  ◌∷◌, ◌++◌, Option, Bool, Bytes, inl, inr, length, length-append, length-drop, drop, drop-drop,
  ltb, ltb-true, ltb-false, ltb→le, ltb→lt, Bool-cases, arith, bytes_eq,
}
use mathlib.Core.List.{append_assoc, append-nil}
use road.Tui.{
  Key, Cmd, Ui, Model, Msg, ChatMessage, push_message, max_message_history, window_size, key_msg,
  status_msg, incoming_text, incoming_file, file_progress, peer_disconnected, other_msg, ctrl_c,
  enter, page_up, page_down, other_key,
}
use road.Tui.Update.{
  queue_full, relay_text, own_message, exit, update, updates, press, press_enter, submit, push,
  show, resized, finish, new, try_send,
}

-- The history after messages have been pushed, one after the other.
push_all : List ChatMessage → List ChatMessage → List ChatMessage
push_all history [] = history
push_all history (msg ∷ msgs) = push_all (push_message history msg) msgs

drop_front {ℓ} :
    {A : Type ℓ} (n : ℕ) (xs ys : List A) → n ≤ length xs → drop n (xs ++ ys) ≡ drop n xs ++ ys
drop_front zero xs ys h = refl
drop_front (suc n) [] ys h = absurd (omega arith)
drop_front (suc n) (x ∷ xs) ys h = drop_front n xs ys (omega arith)

push_message-short :
    (xs : List ChatMessage) (msg : ChatMessage)
    → length xs < max_message_history
    → push_message xs msg ≡ xs ++ (msg ∷ [])
unfolding push_message
push_message-short xs msg h =
    rw
      (ltb-false max_message_history (length (xs ++ (msg ∷ [])))
        (omega (arith, length-append xs (msg ∷ []))))
      refl

push_message-full :
    (xs : List ChatMessage) (msg : ChatMessage)
    → length xs ≡ max_message_history
    → push_message xs msg ≡ drop 1 xs ++ (msg ∷ [])
unfolding push_message
push_message-full xs msg h =
    let longer = xs ++ (msg ∷ []) in
    let n = length-append xs (msg ∷ []) in
    rw (ltb-true max_message_history (length longer) (omega (arith, n))) (
      take_all max_message_history (drop 1 longer) (omega (arith, n, h, length-drop 1 longer))
      ∙ drop_front 1 xs (msg ∷ []) (omega arith))

push_message-length :
    (xs : List ChatMessage) (msg : ChatMessage)
    → length xs ≤ max_message_history
    → length (push_message xs msg) ≤ max_message_history
push_message-length xs msg h = elim (Bool-cases (ltb (length xs) max_message_history)) [
  | inl e ↦
      let less = ltb→lt _ _ e in
      rw (push_message-short xs msg less) (omega (arith, less, length-append xs (msg ∷ [])))
  | inr e ↦
      let whole : length xs ≡ max_message_history = omega (arith, h, ltb→le _ _ e) in
      rw (push_message-full xs msg whole)
        (omega (arith, whole, length-append (drop 1 xs) (msg ∷ []), length-drop 1 xs))
]

-- The last hundred messages.
unfoldable pub recent : List ChatMessage → List ChatMessage
recent all = drop (length all - max_message_history) all

pub push_message-recent :
    (all : List ChatMessage) (msg : ChatMessage)
    → push_message (recent all) msg ≡ recent (all ++ (msg ∷ []))
unfolding recent
push_message-recent all msg =
    let n = length-append all (msg ∷ []) in
    elim (Bool-cases (ltb (length all) max_message_history)) [
      | inl e ↦
          let less = ltb→lt _ _ e in
          let z : length all - max_message_history ≡ 0 = omega (arith, less) in
          let y : length (all ++ (msg ∷ [])) - max_message_history ≡ 0 = omega (arith, less, n) in
          rw (z, y) (push_message-short all msg less)
      | inr e ↦
          let k = length all - max_message_history in
          let more = ltb→le _ _ e in
          let z : length (drop k all) ≡ max_message_history =
            omega (arith, more, length-drop k all) in
          let y : length (all ++ (msg ∷ [])) - max_message_history ≡ k + 1 =
            omega (arith, more, n) in
          push_message-full (drop k all) msg z
          ∙ sym (
              ap (λ i. drop i (all ++ (msg ∷ []))) y
              ∙ drop-drop k 1 (all ++ (msg ∷ []))
              ∙ ap (drop 1) (drop_front k all (msg ∷ []) (omega arith))
              ∙ drop_front 1 (drop k all) (msg ∷ []) (omega (arith, z)))
    ]

push_all-recent : (all msgs : List ChatMessage) → push_all (recent all) msgs ≡ recent (all ++ msgs)
unfolding push_all
push_all-recent all [] = ap recent (sym (append-nil all))
push_all-recent all (msg ∷ msgs) =
    ap (λ h. push_all h msgs) (push_message-recent all msg)
    ∙ push_all-recent (all ++ (msg ∷ [])) msgs
    ∙ ap recent (append_assoc all (msg ∷ []) msgs)

-- Messages that are pushed onto an empty history, one after the other, leave exactly the last
-- hundred of them, in their order, or all of them where there are fewer.
push_all_lem : (msgs : List ChatMessage) → push_all [] msgs ≡ recent msgs
unfolding recent
push_all_lem msgs = push_all-recent [] msgs

module _ (ui : Ui) where
  abbrev IsBounded : Model ui → Type 0
  IsBounded m = length m.history ≤ max_message_history

  push-IsBounded : (m : Model ui) (msg : ChatMessage) → IsBounded m → IsBounded (push ui m msg)
  unfolding push
  push-IsBounded m msg h = push_message-length m.history msg h

  relay_text-IsBounded :
      (m : Model ui) (text : Bytes) (now : ℕ) → IsBounded m → IsBounded (relay_text ui m text now)
  unfolding relay_text
  relay_text-IsBounded m text now h =
      let m1 : Model ui = record m { outgoing = (try_send m.outgoing text).0 } in
      if_both IsBounded (try_send m.outgoing text).1 m1 (push ui m1 (queue_full now)) h
        (push-IsBounded m1 (queue_full now) h)

  submit-IsBounded :
      (m : Model ui) (text : Bytes) (now : ℕ) → IsBounded m → IsBounded (submit ui m text now)
  unfolding submit show
  submit-IsBounded m text now h =
      push-IsBounded (relay_text ui m text now) (own_message text now)
        (relay_text-IsBounded m text now h)

  press_enter-IsBounded :
      (m : Model ui) (now : ℕ) → IsBounded m → IsBounded (press_enter ui m now).0
  unfolding press_enter finish
  press_enter-IsBounded m now h =
      let text = ui.trim_space (ui.value m.textarea) in
      let P : Model ui × Cmd → Type 0 = λ out. IsBounded out.0 in
      let m1 : Model ui = record m { textarea = ui.reset m.textarea } in
      if_both P m.disconnected _ _ h (
        if_both P (bytes_eq text []) _ _ h (
          if_both P (bytes_eq text exit) _ _ h (
            if_both P (bytes_eq text (codes "/clear")) _ _ (omega arith)
              (submit-IsBounded m1 text now h))))

  press-IsBounded :
      (m : Model ui) (key : Key) (now : ℕ) → IsBounded m → IsBounded (press ui m key now).0
  unfolding press finish
  press-IsBounded m ctrl_c now h = if_both IsBounded m.disconnected _ _ h h
  press-IsBounded m enter now h = press_enter-IsBounded m now h
  press-IsBounded m page_up now h = h
  press-IsBounded m page_down now h = h
  press-IsBounded m other_key now h = h

  update-IsBounded :
      (m : Model ui) (msg : Msg) (now : ℕ) → IsBounded m → IsBounded (update ui m msg now).0
  unfolding update finish show resized push
  update-IsBounded m (window_size w k) now h = h
  update-IsBounded m (key_msg key) now h = press-IsBounded m key now h
  update-IsBounded m (status_msg text) now h = h
  update-IsBounded m (incoming_text text) now h = push-IsBounded m _ h
  update-IsBounded m (incoming_file text meta) now h = push-IsBounded m _ h
  update-IsBounded m (file_progress status) now h = h
  update-IsBounded m peer_disconnected now h = push_message-length m.history _ h
  update-IsBounded m other_msg now h = h

  updates-IsBounded :
      (m : Model ui) (msgs : List (Msg × ℕ)) → IsBounded m → IsBounded (updates ui m msgs)
  unfolding updates
  updates-IsBounded m [] h = h
  updates-IsBounded m ((msg, now) ∷ rest) h =
      updates-IsBounded (update ui m msg now).0 rest (update-IsBounded m msg now h)

  -- Whatever keys are pressed and whatever the network reports, in any order, the history of an
  -- interface never holds more than a hundred messages.
  pub updates-new :
      (peer_key : Bytes) (outgoing : Option (List Bytes)) (incoming : Bool) (textarea : ui.Textarea)
      (viewport : ui.Viewport) (now : ℕ) (msgs : List (Msg × ℕ))
      → length (updates ui (new ui peer_key outgoing incoming textarea viewport now) msgs).history
        ≤ max_message_history
  unfolding new
  updates-new peer_key outgoing incoming textarea viewport now msgs =
      updates-IsBounded (new ui peer_key outgoing incoming textarea viewport now) msgs (omega arith)
