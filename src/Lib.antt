-- ===== src/Lib.antt =====
-- The clusteration panel: a web service that creates, reinstalls, starts, stops, reboots and
-- deletes virtual machines on a Proxmox VE cluster, and opens SSH terminals in them. This library
-- models the core of its backend, backend/app, and proves what the backend promises of VMs and
-- jobs.
--
-- How the parts interact. A request of the API (backend/app/api/routes.py) checks a VM's row, adds
-- a row of `jobs`, and puts a payload in the queue. The worker (backend/app/workers/inprocess.py)
-- takes one payload after the other and runs the job for it (backend/app/services/lifecycle.py),
-- which calls the Proxmox API through the client (backend/app/services/proxmox.py) and writes its
-- progress to the rows of the job and the VM. A job that brings a VM up is followed by one that
-- checks its SSH server (backend/app/services/terminal.py). At a restart, jobs that were running
-- fail and those that were queued are put in the queue again.
--
-- The files:
-- - Base and the files below it: the shared names. Base/Exec has the calls that change a state and
--   may raise; Base/Exec/Keeps, Base/Exec/Ends and Base/Exec/Then have the rules for what such a
--   call keeps, that it ends, and what holds behind it. Base/Json has the values of JSON,
--   Base/Text Python's text functions.
-- - Entities: backend/app/models/entities.py. Database: the tables, and rows looked up and written
--   back.
-- - Settings, Readiness: backend/app/core/config.py and backend/app/core/readiness.py.
-- - Proxmox: the requests of backend/app/services/proxmox.py as a data type, and the interface
--   `Transport` of the world outside. Proxmox/Paths has the paths, Proxmox/Request `_request`,
--   Proxmox/Parse the readers of replies with their results below it, Proxmox/Resolve the lookups,
--   Proxmox/Wait the waits. Proxmox/Retry and Proxmox/Retry/Refusal are about `_request`,
--   Proxmox/Polls about the polling loops, and Proxmox/Trace and Proxmox/Calls about the requests
--   that are sent.
-- - Lifecycle: a running job of backend/app/services/lifecycle.py. Lifecycle/Disk is
--   `ensure_disk_size`, Lifecycle/Destroy `destroy_existing_vm` and `delete_vm_job`,
--   Lifecycle/Provision the creation and reinstallation, Lifecycle/Power `power_job`. Below each,
--   Ends is about its end, Rows about the rows it stays with, Calls, OneVm and Reinstall about the
--   requests it sends, Outcome about the VM's row behind it, and Tracked about the note of the
--   VMID that is being cloned; Disk/Growth is about the size of the disk.
-- - Terminal: `check_ssh_ready` and `validate_and_claim_session` of
--   backend/app/services/terminal.py; Terminal/Claim is about the latter. Terminal/Bridge is
--   `terminal_websocket`: its two tasks and the world interleave in a list of events, one step
--   each. Bridge/Closing, Bridge/Logs, Bridge/Passed, Bridge/Relay and Bridge/Idle are about it.
-- - Worker: backend/app/workers/inprocess.py, with Worker/Recovery for a restart.
-- - Api: the VM requests of backend/app/api/routes.py, in Api/Actions, Api/Create, Api/Sessions
--   and Api/Exposures, with `record_audit` of backend/app/services/audit.py.
-- - Auth: backend/app/api/auth.py and backend/app/core/auth.py on the state `Panel` that the
--   requests share. Auth/Throttle is `_throttle`, Auth/Credentials
--   backend/app/services/credentials.py, Auth/Login the login, logout and change of the password,
--   Auth/Reset the reset codes. Throttle/Window, Credentials/Stored, Login/Outcome and
--   Login/Guesses are about these. Reset/Rows has the lemmas on the rows of the codes, Reset/Codes
--   their invariant, Reset/Keeps what every request keeps of them, Reset/Accepted what a reset has
--   found, Reset/Life the life of a code, and Reset/Owner the way back in. passlib, the random
--   numbers and the mail server are `Libraries`; `VerifiesOwnHashes` is what passlib documents. A
--   hash does not raise here: no password holds a NUL.
-- - Proxy: backend/app/exposure_proxy.py, with Proxy/Cache and Proxy/Headers about it;
--   Proxy/Upstream is backend/app/api/internal.py, and Upstream/Offered about that.
-- - Api/Lists: the lists of backend/app/api/routes.py, with Lists/Errors about the error that is
--   shown of a VM. Api/Diagnostics: the requests that tell how the panel is set up.
-- - Startup: backend/app/main.py, with Startup/Order about its order; the worker has had some
--   rounds when the first request comes. Startup/Templates is `seed_templates` of
--   backend/app/services/lifecycle.py, Templates/Seeded is about it. SQLAlchemy's `make_url` is
--   the parameter `MakeUrl`.
-- - Backup: backend/app/services/backup.py, with Backup/Rotation about the sorted names and
--   Rotation/Newest about the rotation; the copy, the clock and the removal of a file are the
--   parameter `System`.
-- - Dokploy: backend/scripts/dokploy-repair.py, with Dokploy/Redact, Dokploy/Candidates,
--   Dokploy/Picked, Dokploy/Logs and Dokploy/Audit (its `run`). The host, the public page and the
--   clock are the parameter `Outside`. Dokploy/Rules and the Calls have the rules of its calls,
--   Audit/Reads, Audit/Ended and Redact/Hidden what is proved of it.
-- - Tests: a scripted Proxmox server, and an example of each result.
--
-- How code is modelled. A method of the client is a call on the world outside, a job is a call on
-- `Run` (its two rows, what it has committed, and the world), a handler is a call on `World` (the
-- database, the queue and the world). The exceptions are the values of `Exc`. Ids are numbers from
-- one counter, for the UUIDs. Status and type columns hold their enumerations. Times are
-- milliseconds of the event loop's clock, and seconds for timestamps. Sizes in texts are exact
-- fractions, rounded up, where the code has floats; the size in bytes is rounded to a float as
-- Python does; the times of `time.monotonic` in Auth and Proxy are milliseconds; those of
-- Terminal/Bridge and Dokploy are seconds, and each event reads a clock once. A request of Auth
-- reads each clock once. Case mapping is that of ASCII; the text of a container is Python's `repr`
-- for printable strings.
--
-- Fuel. `backup_loop` is cut after a number of rounds, for it does not end. The source's `while
-- True` loops that poll until a deadline run on `limit / interval + 2` rounds of fuel: each round
-- sleeps for the interval, so the deadline has passed before the fuel is used up where the clock
-- is monotonic (`IsMonotonic`). Running out would be `out_of_fuel`, an exception that the program
-- does not have. The wait of dokploy-repair.py has `wait / 5 + 2` rounds, each with a sleep of
-- five seconds.
--
-- Not modelled: the failure of the database; changes by other sessions to a job's two rows while
-- the job runs, and between the awaits of one request, save that `create` takes what the others do
-- during its preflight as an argument; a crash in the middle of a job, save by what it has
-- committed; the connection of asyncssh; the bytes that the exposure proxy forwards; the building
-- of a mail for SMTP; the pages; the column `updated_at`.
pub mod Base
pub mod Entities
pub mod Settings
pub mod Proxmox
pub mod Lifecycle
pub mod Database
pub mod Terminal
pub mod Worker
pub mod Readiness
pub mod Api
pub mod Auth
pub mod Proxy
pub mod Startup
pub mod Backup
pub mod Dokploy
pub mod Tests
