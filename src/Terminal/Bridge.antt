-- ===== src/Terminal/Bridge.antt =====
-- `terminal_websocket` of backend/app/services/terminal.py: the bridge between a web socket and SSH. Its
-- two tasks and the world interleave in a sequence of events, one step each.
pub mod Logs
pub mod Passed
pub mod Relay
pub mod Closing
pub mod Idle
use clusteration.Base.{
  ℕ, ◌+◌, ◌-◌, String, Bool, true, false, ◌&&◌, not, Option, none, some, List, [], ◌∷◌, ◌++◌, ltb,
  ◌=ₛ◌, is_empty, if◌then◌else◌, ◌⊎◌, inl, inr,
}
use clusteration.Base.Json.{ℤ, Json, Fields, str, obj, get, int}
use clusteration.Entities.{Vm, TerminalSession, SessionStatus, connected, closed}
use clusteration.Database.{Db}
use clusteration.Terminal.{validate_and_claim_session}

abbrev pub Bytes : Type 0
Bytes = List ℕ

-- What is sent to the browser. `ended` is the text frame of type `close`, and the close of the socket.
pub data Frame : Type 0 where
  status_frame : String → Frame
  output : Bytes → Frame
  pong : Frame
  error_frame : String → Frame
  ended : String → Frame
  rejected : ℕ → Frame

-- What the SSH process gets.
pub data Input : Type 0 where
  typed : Bytes → Input
  resized : ℤ → ℤ → Input

-- A message of the browser: bytes, a text that was read as JSON or could not be, or neither.
pub data Message : Type 0 where
  bytes_message : Bytes → Message
  text_message : Option Json → Message
  other_message : Message

-- What a task or the connection meets next: SSH is open or failed to open; the shell's output was read,
-- empty at its end, or the read raised; the browser sent a message, nothing for five seconds, or
-- `receive` raised.
pub data What : Type 0 where
  opened : Bool → What
  read : Bytes → What
  read_failed : What
  heard : Message → What
  unheard : What
  receive_failed : What

-- An event with its times, the loop's in seconds and the wall's; whether the browser's socket takes what
-- is sent, and whether the SSH process takes what is written.
pub record Event : Type 0 where
  pub now : ℕ
  pub utc : ℕ
  pub delivers : Bool
  pub writes : Bool
  pub what : What

pub data Phase : Type 0 where
  opening live over : Phase

pub record Bridge : Type 0 where
  pub phase : Phase
  pub row : TerminalSession
  pub last_input : ℕ
  pub sent : List Frame
  pub shell : List Input

-- The `finally` block.
unfoldable pub finish : Event → String → Bridge → Bridge
finish e reason b = record b {
  phase = over;
  row = record b.row { status = closed; closed_at = some e.utc };
  sent = if e.delivers then b.sent ++ ended reason ∷ [] else b.sent;
}

tell_error : Event → Bridge → Bridge
tell_error e b = record b {
  sent = if e.delivers then b.sent ++ error_frame "erro ao conectar no terminal" ∷ [] else b.sent;
}

-- `except Exception`
unfoldable pub fail : Event → Bridge → Bridge
unfolding finish tell_error
fail e b = finish e "ssh_error" (tell_error e b)

-- A frame is sent, or the task raises.
unfoldable pub send_frame : Event → Frame → Bridge → Bridge
unfolding fail
send_frame e frame b = if e.delivers then record b { sent = b.sent ++ frame ∷ [] } else fail e b

idle_at : Phase → Event → Bridge → Bridge
unfolding finish
idle_at live e b = if ltb 1800 (e.now - b.last_input) then finish e "inactivity_timeout" b else b
idle_at _ e b = b

-- The head of the loop of `ws_to_ssh`, unless the bridge is over.
unfoldable pub check_idle : Event → Bridge → Bridge
unfolding idle_at
check_idle e b = idle_at b.phase e b

touch : Event → Bridge → Bridge
touch e b = record b { last_input = e.now }

-- The SSH process gets an input, or the task raises.
unfoldable pub write : Event → Input → Bridge → Bridge
unfolding fail
write e i b = if e.writes then record b { shell = b.shell ++ i ∷ [] } else fail e b

resize_shell : Event → Option ℤ → Option ℤ → Bridge → Bridge
unfolding write fail
resize_shell e (some cols) (some rows) b = write e (resized cols rows) b
resize_shell e _ _ b = fail e b

unfoldable pub is_type : String → Fields → Bool
unfolding get
is_type type d = elim (get "type" d) [ str s ↦ s =ₛ type | _ ↦ false ]

-- A payload that is no dict has no `get`.
unfoldable pub on_payload : Event → Json → Bridge → Bridge
unfolding is_type resize_shell touch send_frame fail get int
on_payload e (obj d) b =
    if is_type "resize" d
    then resize_shell e (int (get "cols" d)) (int (get "rows" d)) (touch e b)
    else if is_type "ping" d
    then send_frame e pong (touch e b)
    else b
on_payload e j b = fail e b

unfoldable pub on_message : Event → Message → Bridge → Bridge
unfolding write touch on_payload fail
on_message e (bytes_message bs) b = write e (typed bs) (touch e b)
on_message e (text_message (some j)) b = on_payload e j b
on_message e (text_message none) b = fail e b
on_message e other_message b = b

-- A live bridge: the first task that ends takes the other with it.
unfoldable pub on_live : Event → What → Bridge → Bridge
unfolding send_frame finish fail check_idle on_message
on_live e (read bs) b = if is_empty bs then finish e "ssh_error" b else send_frame e (output bs) b
on_live e read_failed b = fail e b
on_live e (heard m) b = check_idle e (on_message e m b)
on_live e unheard b = check_idle e b
on_live e receive_failed b = fail e b
on_live e (opened ok) b = b

unfoldable pub on_opening : Event → What → Bridge → Bridge
unfolding send_frame fail check_idle
on_opening e (opened true) b =
    check_idle e (send_frame e (status_frame "connected") (record b { phase = live }))
on_opening e (opened false) b = fail e b
on_opening e _ b = b

step_at : Phase → Event → Bridge → Bridge
unfolding on_live on_opening
step_at opening e b = on_opening e e.what b
step_at live e b = on_live e e.what b
step_at over e b = b

unfoldable pub step : Event → Bridge → Bridge
unfolding step_at
step e b = step_at b.phase e b

-- The events one after the other.
unfoldable pub steps : List Event → Bridge → Bridge
unfolding step
steps [] b = b
steps (e ∷ es) b = steps es (step e b)

abbrev pub start_at : ℕ → TerminalSession → Bridge
start_at now row = record {
  phase = opening;
  row = row;
  last_input = now;
  sent = status_frame "connecting" ∷ [];
  shell = [];
}

begin : ℕ → Option (TerminalSession × Vm) → Frame ⊎ Bridge
begin now none = inl (rejected 4401)
begin now (some (ts, vm)) = inr (start_at now ts)

-- `terminal_websocket` up to the opening of SSH: the socket is closed, or the bridge begins. The accepted
-- socket takes the first frame.
unfoldable pub terminal_websocket : ℕ → ℕ → Option ℕ → Db → (Frame ⊎ Bridge) × Db
unfolding validate_and_claim_session begin
terminal_websocket now utc sid db =
    let (claimed, db') = validate_and_claim_session utc sid db in (begin now claimed, db')
