-- ===== src/Proxmox.antt =====
-- What backend/app/services/proxmox.py needs from outside: the calls of the Proxmox API that the
-- panel makes, what an HTTP request may come to, and the server, the network and the clock behind it.
pub mod Paths
pub mod Request
pub mod Parse
pub mod Resolve
pub mod Wait
pub mod Trace
pub mod Retry
pub mod Polls
pub mod Calls
use clusteration.Base.{ℕ, ◌+◌, ◌≤◌, String, Option, Bool}
use clusteration.Base.Json.{Json, Fields}

-- One constructor for each endpoint; `Paths` has the method and the path.
pub data Call : Type 0 where
  next_id : Call
  cluster_resources : String → Call
  vm_config : (node : String) (vmid : ℕ) → Call
  status_current : (node : String) (vmid : ℕ) → Call
  task_status : (node upid : String) → Call
  network_interfaces : (node : String) (vmid : ℕ) → Call
  agent_exec : (node : String) (vmid : ℕ) (script : String) → Call
  exec_status : (node : String) (vmid : ℕ) (pid : Json) → Call
  storage_status : (node storage : String) → Call
  clone : (node : String) (template_vmid newid : ℕ) (name : String) → Call
  put_config : (node : String) (vmid : ℕ) (config : Fields) → Call
  resize : (node : String) (vmid : ℕ) (disk : String) (size_gb : ℕ) → Call
  status_action : (node : String) (vmid : ℕ) (action : String) → Call
  destroy : (node : String) (vmid : ℕ) → Call

pub record Response : Type 0 where
  pub status_code : ℕ
  pub json : Option Json
  pub text : String

-- `connect_error` and `timed_out` are `httpx.ConnectError` and `httpx.TimeoutException`; `broken` is
-- any other exception that `httpx` raises, by the name of its class and its `str`.
pub data Outcome : Type 0 where
  connect_error timed_out : Outcome
  broken : String → String → Outcome
  response : Response → Outcome

-- The world outside the panel, in the state `N`: a request is answered and changes it. Times are
-- milliseconds of the event loop's clock; `utcnow` is in seconds.
-- `open_terminal` says whether an SSH terminal could be opened at an address; it is closed at once.
pub record Transport (N : Type 0) : Type 0 where
  pub send : Call → N → Outcome × N
  pub sleep : ℕ → N → N
  pub now : N → ℕ
  pub iso_now : N → String
  pub utcnow : N → ℕ
  pub open_terminal : String → N → Bool × N

-- The monotonic clock: a sleep takes at least its time, and a request does not turn the clock back.
pub record IsMonotonic {N : Type 0} (t : Transport N) : Type 0 where
  pub now-sleep : (d : ℕ) (n : N) → t.now n + d ≤ t.now (t.sleep d n)
  pub now-send : (c : Call) (n : N) → t.now n ≤ t.now (t.send c n).1
  pub now-open_terminal : (ip : String) (n : N) → t.now n ≤ t.now (t.open_terminal ip n).1
