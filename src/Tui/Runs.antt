-- ===== src/Tui/Runs.antt =====
-- Runs of the terminal interface, over widgets that are plain texts.
use road.Base.{
  ◌⊎◌, ◌++◌, arith, repeat, decimal, ℕ, ◌≡◌, refl, List, [], ◌∷◌, some, true, codes, length,
}
use road.Tui.Progress.{
  render_progress, render_progress_lem, pos, padded, short_name, progress_bar, clamped,
}
use road.Tui.Progress
use road.Tui.Program.{Program, Turns, launch, init, take_turn, then_turn, reacts, stays}
use road.Tui.Program.Listening.{launch_listens}
use road.Tui.{Model, Msg, key_msg, enter, status_msg, incoming_text, peer_disconnected, quit}
use road.Tui.Update.{resized, press, press_enter, new, update, updates}
use road.Tui.Standins.{plain}
use road.Tui.Lock.{updates-peer_disconnected}

abbrev typed : Model plain
typed = new plain (codes "peer") (some []) true (codes "hello") [] 0

-- Enter sends what was typed.
enter_run : (update plain typed (key_msg enter) 5).0.outgoing ≡ some (codes "hello" ∷ [])
unfolding update new
enter_run = refl

abbrev events : List (Msg × ℕ)
events =
    (status_msg (codes "SECURE"), 1) ∷ (incoming_text (codes "hi"), 2) ∷ (key_msg enter, 3) ∷ []

updates-peer_disconnected_example :
    let (gone, cmd) = update plain typed peer_disconnected 4 in
    (cmd ≡ quit)
    × ((updates plain gone events).outgoing ≡ some [])
    × ((updates plain gone events).disconnected ≡ true)
unfolding new
updates-peer_disconnected_example = updates-peer_disconnected plain typed 4 events

progress_run :
    render_progress length (codes "passport.jpg") (pos 40)
    ≡ codes "passport.jpg         [" ++ (progress_bar (pos 40) ++ codes "] 40%")
unfolding render_progress padded short_name repeat decimal clamped
progress_run = refl

render_progress_lem_example :
    Progress.IsLine
      (codes "passport.jpg")
      (pos 140)
      (render_progress length (codes "passport.jpg") (pos 140))
render_progress_lem_example =
    render_progress_lem length (λ text h. refl) (codes "passport.jpg") (pos 140) (ground arith)

abbrev sized : Model plain
sized = resized plain typed 80 24

abbrev after_key : Program plain
after_key = take_turn plain (launch plain typed) (key_msg enter) 3 1 []

launch_listens_example :
    (after_key.listeners ≡ 1)
    × ((q : Program plain) × Turns plain after_key q × ((q.ended ≡ true) ⊎ (q.channel ≡ [])))
unfolding launch init take_turn new update press press_enter
launch_listens_example =
    launch_listens plain typed refl
      (then_turn (reacts (launch plain typed) (key_msg enter) 3 refl refl) (stays after_key)) refl
