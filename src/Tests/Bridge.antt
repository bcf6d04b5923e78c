-- ===== src/Tests/Bridge.antt =====
-- A terminal from its claim to its end.
use clusteration.Base.{ℕ, ◌+◌, ◌≡◌, any, leb, refl, true, List, [], ◌∷◌, some}
use clusteration.Base.Json.{str, field, end, obj}
use clusteration.Entities.{connected}
use clusteration.Terminal.Bridge.{
  Event, What, bytes_message, text_message, opened, read, heard, unheard, live, output, ended,
  status_frame, pong, Bridge, start_at, step, steps, terminal_websocket,
}
use clusteration.Terminal.Bridge.Closing.{IsBridge, terminal_websocket-closes}
use clusteration.Terminal.Bridge.Logs.{output_bytes, entered}
use clusteration.Terminal.Bridge.Passed.{read_of, typed_of, all_news, Relayed}
use clusteration.Terminal.Bridge.Relay.{steps-relays}
use clusteration.Terminal.Bridge.Idle.{input_times, steps-recent}
use clusteration.Tests.Panel.{session_db, a_session}

abbrev event : ℕ → What → Event
event now what = record { now = now; utc = now + 100; delivers = true; writes = true; what = what }

abbrev begun : Bridge
begun = start_at 0 (record a_session { status = connected })

-- A command and its output, a ping, and half an hour of silence.
abbrev typing : List Event
typing =
    event 2 (heard (bytes_message (108 ∷ 115 ∷ [])))
    ∷ event 3 (read (97 ∷ []))
    ∷ event 4 (heard (text_message (some (obj (field "type" (str "ping") end)))))
    ∷ event 5 (read (98 ∷ 99 ∷ []))
    ∷ event 1810 unheard
    ∷ event 1811 (read (100 ∷ []))
    ∷ []

abbrev typed_first : List Event
typed_first =
    event 2 (heard (bytes_message (108 ∷ 115 ∷ [])))
    ∷ event 4 (heard (text_message (some (obj (field "type" (str "ping") end)))))
    ∷ []

abbrev is_open : Event
is_open = event 1 (opened true)

abbrev opened_bridge : Bridge
opened_bridge = record begun {
  phase = live;
  sent = status_frame "connecting" ∷ status_frame "connected" ∷ [];
}

opens : step is_open begun ≡ opened_bridge
unfolding step
opens = refl

sent_frames :
    (steps typing opened_bridge).sent
    ≡ status_frame "connecting"
      ∷ status_frame "connected"
      ∷ output (97 ∷ [])
      ∷ pong
      ∷ output (98 ∷ 99 ∷ [])
      ∷ ended "inactivity_timeout"
      ∷ []
unfolding steps
sent_frames = refl

terminal_websocket-closes_example : IsBridge begun.row (steps (is_open ∷ typing) begun)
unfolding terminal_websocket
terminal_websocket-closes_example =
    terminal_websocket-closes 0 100 (some 9) session_db begun (is_open ∷ typing) refl

steps-relays_example :
    Relayed
      (steps typing opened_bridge).phase
      []
      (output_bytes (steps typing opened_bridge).sent)
      (all_news read_of typing)
    × Relayed
        (steps typing opened_bridge).phase
        []
        (entered (steps typing opened_bridge).shell)
        (all_news typed_of typing)
steps-relays_example = steps-relays begun.row typing opened_bridge (refl, refl, refl)

-- At 1804 seconds the ping of the fourth second is recent.
steps-recent_example :
    any (λ i. leb 1804 (i + 1800)) (0 ∷ input_times (is_open ∷ typed_first)) ≡ true
unfolding step steps
steps-recent_example = steps-recent (is_open ∷ typed_first) begun (event 1804 unheard) refl refl
