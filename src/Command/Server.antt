-- ===== src/Command/Server.antt =====
-- cmd/road-1337/main.go: `cmdServer`, with the goroutine that waits for a signal, and `cmdTUIDemo`. The
-- parsing of the flags is a parameter, over ports that are not negative; the relay is that of
-- road.Relay.Listener.
use road.Base.{
  ℕ, ◌-◌, List, [], ◌∷◌, ◌++◌, Option, none, some, Bool, true, Bytes, codes, utf8, repeat, decimal,
  length,
}
use road.Relay.Listener.{Relay, fresh_relay, listen, stop_all}
use road.Tui.{Ui, Model, Msg, status_msg, incoming_text}
use road.Tui.Update
use road.Tui.Update.{updates}
use road.Command.Usage.{banner}

-- `%-5d`
unfoldable pub padded_port : ℕ → Bytes
padded_port port = decimal port ++ repeat (codes " ") (5 - length (decimal port))

unfoldable pub server_box : Bytes → ℕ → List Bytes
unfolding padded_port
server_box version port =
    (banner ++ (codes "  (" ++ (version ++ codes ")\n\n")))
    ∷ utf8 "  ┌─ Blind Relay ──────────────────────────────────────┐\n"
    ∷ (utf8 "  │  port         : "
        ++ (padded_port port ++ utf8 "                              │\n"))
    ∷ utf8 "  │  ram-only     : true  (log → /dev/null)            │\n"
    ∷ utf8 "  │  disk I/O     : none                               │\n"
    ∷ utf8 "  │  max peers    : 2048                               │\n"
    ∷ utf8 "  │  heartbeat    : 45 s eviction                      │\n"
    ∷ utf8 "  │  burn-on-read : clear() after every Write()        │\n"
    ∷ utf8 "  └────────────────────────────────────────────────────┘\n\n"
    ∷ []

-- The command while it runs.
pub record Serving : Type 0 where
  pub shown : List Bytes
  pub address : Bytes
  pub relay : Relay

-- `none` where the flags are refused. The flag says whether the address could be bound.
unfoldable pub cmd_server : (List Bytes → Option ℕ) → Bytes → List Bytes → Bool → Option Serving
unfolding server_box
cmd_server parse_port version args bound = elim (parse_port args) [
  | none ↦ none
  | some port ↦ some (record {
    shown = server_box version port;
    address = codes ":" ++ decimal port;
    relay = listen fresh_relay bound;
  })
]

-- The goroutine on the signal channel, once a signal arrives.
unfoldable pub on_signal : Serving → Bytes → Serving
on_signal v sig = record v {
  shown = v.shown ++ ((codes "\n  received " ++ (sig ++ utf8 " — shutting down relay...\n")) ∷ []);
  relay = stop_all v.relay;
}

unfoldable pub demo_messages : List Bytes
demo_messages =
    codes "road-1337 demo mode."
    ∷ codes "All traffic is 4096-byte encrypted noise."
    ∷ utf8 "Server sees nothing. Zero trust. 🔐"
    ∷ []

module _ (ui : Ui) where
  -- Each message with the time at which `Update` gets it.
  abbrev pub feed : List Bytes → ℕ → List (Msg × ℕ)
  feed [] now = []
  feed (text ∷ texts) now = (incoming_text text, now) ∷ feed texts now

  -- The model of the demo once the messages that are fed to it have arrived.
  unfoldable pub cmd_tui_demo : ui.Textarea → ui.Viewport → ℕ → Model ui
  unfolding demo_messages
  cmd_tui_demo textarea viewport now =
      updates ui
        (Update.new ui (codes "DemoKey1337PurpleHackerVibes") (some []) true textarea viewport now)
        ((status_msg (codes "SECURE"), now) ∷ feed demo_messages now)
