-- ===== src/Tui/Program.antt =====
-- internal/tui/tui.go: `Init`, `waitForNetwork` and `nextNetwork`, and the Bubble Tea program around
-- the model: it gives a message to `Update`, and runs the command that comes back. A command that
-- waits on the channel gives the next network event, once.
pub mod Listening
use road.Base.{
  ℕ, suc, ◌≡◌, List, [], ◌∷◌, ◌++◌, Option, none, some, Bool, true, false, ◌||◌, if◌then◌else◌,
}
use road.Tui.{
  Ui, Model, Msg, Cmd, quit, no_cmd, batch, window_size, key_msg, status_msg, incoming_text,
  incoming_file, file_progress, peer_disconnected, other_msg,
}
use road.Tui.Update.{update}

-- The events that the network layer puts into the channel.
abbrev pub is_network : Msg → Bool
is_network (status_msg text) = true
is_network (incoming_text text) = true
is_network (incoming_file text meta) = true
is_network (file_progress status) = true
is_network peer_disconnected = true
is_network (window_size w h) = false
is_network (key_msg key) = false
is_network other_msg = false

-- Whether a command has the wait for the next network event in it.
abbrev pub waits : Cmd → Bool
waits quit = false
waits no_cmd = false
waits (batch listen) = listen

abbrev pub quits : Cmd → Bool
quits quit = true
quits no_cmd = false
quits (batch listen) = false

module _ (ui : Ui) where
  unfoldable pub init : Model ui → Cmd
  init m = batch m.incoming

  -- The running program: its model, how many waits for a network event are under way, the events in
  -- the channel, and whether it has quit.
  pub record Program : Type 0 where
    pub model : Model ui
    pub listeners : ℕ
    pub channel : List Msg
    pub ended : Bool

  unfoldable pub launch : Model ui → Program
  unfolding init
  launch m = record {
    model = m;
    listeners = if waits (init m) then 1 else 0;
    channel = [];
    ended = false;
  }

  -- What is left of a turn in which the program gives `msg` to `Update`, over the waits and the
  -- events that the turn leaves.
  unfoldable pub take_turn : Program → Msg → ℕ → ℕ → List Msg → Program
  take_turn p msg now listeners channel =
      let (m, cmd) = update ui p.model msg now in
      record {
        model = m;
        listeners = if waits cmd then suc listeners else listeners;
        channel = channel;
        ended = quits cmd;
      }

  pub data Turn : Program → Program → Type 0 where
    -- The network layer puts an event into the channel.
    arrives :
        (p : Program) (msg : Msg)
        → is_network msg ≡ true
        → Turn p (record p { channel = p.channel ++ (msg ∷ []) })
    -- A wait on the channel ends, with the first event.
    delivers :
        (p : Program) (msg : Msg) (rest : List Msg) (listeners now : ℕ)
        → p.ended ≡ false
        → p.channel ≡ msg ∷ rest
        → p.listeners ≡ suc listeners
        → Turn p (take_turn p msg now listeners rest)
    -- A key, a new size of the window, or a message of a widget.
    reacts :
        (p : Program) (msg : Msg) (now : ℕ)
        → p.ended ≡ false
        → is_network msg ≡ false
        → Turn p (take_turn p msg now p.listeners p.channel)

  pub data Turns : Program → Program → Type 0 where
    stays : (p : Program) → Turns p p
    then_turn : {p q r : Program} → Turn p q → Turns q r → Turns p r
