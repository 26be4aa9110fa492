-- ===== src/Tui/Program/Listening.antt =====
-- internal/tui/tui.go: the program always has one wait for the next network event under way, so what
-- the network layer puts into the channel reaches the model.
use road.Base.{
  ℕ, suc, ◌≡◌, refl, ◌∙◌, List, [], ◌∷◌, Bool, true, false, if◌then◌else◌, if_both, Bool-cases, ◌⊎◌,
  inl, inr, Bytes, bytes_eq, codes, All, All-append, arith, ap,
}
use road.Tui.{
  Ui, Model, Msg, Cmd, quit, batch, window_size, key_msg, status_msg, incoming_text, incoming_file,
  file_progress, peer_disconnected, other_msg, ctrl_c, enter, page_up, page_down, other_key,
}
use road.Tui.Update.{
  update, press, press_enter, finish, show, resized, push, submit, relay_text, try_send, exit,
}
use road.Tui.Program.{
  Program, Turn, Turns, is_network, waits, init, launch, take_turn, arrives, delivers, reacts,
  stays, then_turn,
}

module _ (ui : Ui) where
  -- What a message that is not from the network leaves: the channel as it was, and no new wait.
  abbrev IsQuiet : Model ui → Model ui × Cmd → Type 0
  IsQuiet m out = (out.0.incoming ≡ m.incoming) × (waits out.1 ≡ false)

  relay_text-incoming :
      (m : Model ui) (text : Bytes) (now : ℕ) → (relay_text ui m text now).incoming ≡ m.incoming
  unfolding relay_text push
  relay_text-incoming m text now =
      if_both {A = Model ui} (λ t. t.incoming ≡ m.incoming) (try_send m.outgoing text).1 _ _ refl
        refl

  press_enter-IsQuiet : (m : Model ui) (now : ℕ) → IsQuiet m (press_enter ui m now)
  unfolding press_enter finish submit show push
  press_enter-IsQuiet m now =
      let text = ui.trim_space (ui.value m.textarea) in
      let m1 : Model ui = record m { textarea = ui.reset m.textarea } in
      if_both (IsQuiet m) m.disconnected _ _ (refl, refl)
        (if_both (IsQuiet m) (bytes_eq text []) _ _ (refl, refl)
          (if_both (IsQuiet m) (bytes_eq text exit) _ _ (refl, refl)
            (if_both (IsQuiet m) (bytes_eq text (codes "/clear")) _ _ (refl, refl)
              (relay_text-incoming m1 text now, refl))))

  update-IsQuiet :
      (m : Model ui) (msg : Msg) (now : ℕ)
      → is_network msg ≡ false
      → IsQuiet m (update ui m msg now)
  unfolding update press finish show resized
  update-IsQuiet m (window_size w h) now e = (refl, refl)
  update-IsQuiet m (key_msg ctrl_c) now e =
      (if_both {A = Model ui} (λ t. t.incoming ≡ m.incoming) m.disconnected _ _ refl refl, refl)
  update-IsQuiet m (key_msg enter) now e = press_enter-IsQuiet m now
  update-IsQuiet m (key_msg page_up) now e = (refl, refl)
  update-IsQuiet m (key_msg page_down) now e = (refl, refl)
  update-IsQuiet m (key_msg other_key) now e = (refl, refl)
  update-IsQuiet m (status_msg text) now e = cc
  update-IsQuiet m (incoming_text text) now e = cc
  update-IsQuiet m (incoming_file text meta) now e = cc
  update-IsQuiet m (file_progress status) now e = cc
  update-IsQuiet m peer_disconnected now e = cc
  update-IsQuiet m other_msg now e = (refl, refl)

  -- A network event ends the program, or is followed by a wait for the next one.
  abbrev Rearms : Model ui → Model ui × Cmd → Type 0
  Rearms m out = (out.0.incoming ≡ m.incoming) × ((out.1 ≡ quit) ⊎ (out.1 ≡ batch m.incoming))

  update-Rearms :
      (m : Model ui) (msg : Msg) (now : ℕ) → is_network msg ≡ true → Rearms m (update ui m msg now)
  unfolding update finish show push
  update-Rearms m (window_size w h) now e = cc
  update-Rearms m (key_msg key) now e = cc
  update-Rearms m (status_msg text) now e = (refl, inr refl)
  update-Rearms m (incoming_text text) now e = (refl, inr refl)
  update-Rearms m (incoming_file text meta) now e = (refl, inr refl)
  update-Rearms m (file_progress status) now e = (refl, inr refl)
  update-Rearms m peer_disconnected now e = (refl, inl refl)
  update-Rearms m other_msg now e = cc

  -- All that is in the channel came from the network.
  abbrev FromNetwork : List Msg → Type 0
  FromNetwork = All (λ msg. is_network msg ≡ true)

  pub record IsListening (wired : Bool) (p : Program ui) : Type 0 where
    pub incoming : p.model.incoming ≡ wired
    pub channel : FromNetwork p.channel
    pub listeners : p.ended ≡ false → p.listeners ≡ (if wired then 1 else 0)

  launch-IsListening :
      (m : Model ui) (wired : Bool) → m.incoming ≡ wired → IsListening wired (launch ui m)
  unfolding launch init
  launch-IsListening m wired e = record {
    incoming = e;
    channel = tt;
    listeners = λ h. ap (λ b. if b then 1 else 0) e;
  }

  delivers-IsListening :
      (wired : Bool) (p : Program ui) (msg : Msg) (rest : List Msg) (listeners now : ℕ)
      → p.ended ≡ false
      → p.channel ≡ msg ∷ rest
      → p.listeners ≡ suc listeners
      → IsListening wired p
      → IsListening wired (take_turn ui p msg now listeners rest)
  unfolding take_turn
  delivers-IsListening wired p msg rest listeners now live at one v =
      let (network, more) : FromNetwork (msg ∷ rest) = rw at at v.channel in
      let (incoming, command) = update-Rearms p.model msg now network in
      record {
        incoming = incoming ∙ v.incoming;
        channel = more;
        listeners = λ e. elim command [
          | inl q ↦ absurd (let g = rw q at e in cc)
          | inr q ↦ rw (q, v.incoming) (ground (arith, v.listeners live, one))
        ];
      }

  Turn-IsListening :
      {wired : Bool} {p q : Program ui} → Turn ui p q → IsListening wired p → IsListening wired q
  unfolding take_turn
  Turn-IsListening (arrives p msg e) v = record {
    incoming = v.incoming;
    channel = All-append (λ i. is_network i ≡ true) p.channel (msg ∷ []) v.channel (e, tt);
    listeners = v.listeners;
  }
  Turn-IsListening {wired} (delivers p msg rest n now live at one) v =
      delivers-IsListening wired p msg rest n now live at one v
  Turn-IsListening (reacts p msg now live e) v =
      let (incoming, command) = update-IsQuiet p.model msg now e in
      record {
        incoming = incoming ∙ v.incoming;
        channel = v.channel;
        listeners = λ h. rw command (v.listeners live);
      }

  Turns-IsListening :
      {wired : Bool} {p q : Program ui} → Turns ui p q → IsListening wired p → IsListening wired q
  Turns-IsListening (stays p) v = v
  Turns-IsListening (then_turn t ts) v = Turns-IsListening ts (Turn-IsListening t v)

  -- With a wait under way the events in the channel are given to `Update`, until none is left or one
  -- of them ends the program.
  drains :
      (p : Program ui) (events : List Msg)
      → p.channel ≡ events
      → p.ended ≡ false
      → IsListening true p
      → (q : Program ui) × Turns ui p q × ((q.ended ≡ true) ⊎ (q.channel ≡ []))
  drains p [] at live v = (p, stays p, inr at)
  drains p (msg ∷ rest) at live v =
      let t = delivers p msg rest 0 0 live at (v.listeners live) in
      let q = take_turn ui p msg 0 0 rest in
      elim (Bool-cases q.ended) [
        | inl e ↦ (q, then_turn t (stays q), inl e)
        | inr e ↦
            let (r, ts, end) = drains q rest (unfold take_turn in refl) e (Turn-IsListening t v) in
            (r, then_turn t ts, end)
      ]

  -- A program launched on a channel, after any turns and while it has not quit: exactly one wait for
  -- the next network event is under way, never none and never two, whatever was typed or received;
  -- and from there the events in the channel can be handled one after the other, until none is left
  -- or one of them makes the program quit.
  pub launch_listens :
      {p : Program ui} (m : Model ui)
      → m.incoming ≡ true
      → Turns ui (launch ui m) p
      → p.ended ≡ false
      → (p.listeners ≡ 1)
        × ((q : Program ui) × Turns ui p q × ((q.ended ≡ true) ⊎ (q.channel ≡ [])))
  launch_listens {p} m wired turns live =
      let v = Turns-IsListening turns (launch-IsListening m true wired) in
      (v.listeners live, drains p p.channel refl live v)
