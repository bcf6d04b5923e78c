-- ===== src/Entities.antt =====
-- backend/app/models/entities.py: the rows of the tables. A status or type column holds the value of
-- its enumeration, so it is that enumeration here. Row ids (UUIDs) are numbers, times are seconds.
use clusteration.Base.{ℕ, String, Option, Bool, true, false}
use clusteration.Base.Json.{Fields}

pub data VmStatus : Type 0 where
  creating provisioning stopped starting running stopping rebooting deleting deleted error :
      VmStatus

pub data SshStatus : Type 0 where
  pending ready failed : SshStatus

pub data JobStatus : Type 0 where
  queued running success failed : JobStatus

pub data JobType : Type 0 where
  create_vm reinstall_vm start_vm stop_vm reboot_vm delete_vm ssh_readiness_check : JobType

pub data SessionStatus : Type 0 where
  pending connected closed expired error : SessionStatus

pub record Vm : Type 0 where
  pub id : ℕ
  pub hostname : String
  pub template : String
  pub cpu : ℕ
  pub memory_mb : ℕ
  pub disk_gb : ℕ
  pub proxmox_vmid : Option ℕ
  pub node : String
  pub status : VmStatus
  pub ssh_status : SshStatus
  pub ip_address : Option String
  pub deleted_at : Option ℕ
  pub created_at : ℕ

pub record Job : Type 0 where
  pub id : ℕ
  pub type : JobType
  pub status : JobStatus
  pub vm_id : Option ℕ
  pub meta : Fields
  pub error : Option String
  pub created_at : ℕ

pub record TerminalSession : Type 0 where
  pub id : ℕ
  pub vm_id : ℕ
  pub status : SessionStatus
  pub expires_at : ℕ
  pub created_at : ℕ
  pub closed_at : Option ℕ

pub record VmExposure : Type 0 where
  pub id : ℕ
  pub vm_id : ℕ
  pub slug : String
  pub port : ℕ
  pub enabled : Bool
  pub created_at : ℕ

pub record Template : Type 0 where
  pub id : ℕ
  pub name : String
  pub os : String
  pub proxmox_template_vmid : ℕ
  pub defaults : Fields
  pub created_at : ℕ

pub record AuditEvent : Type 0 where
  pub id : ℕ
  pub action : String
  pub actor : Option String
  pub source_ip : Option String
  pub target_type : Option String
  pub target_id : Option String
  pub target_label : Option String
  pub detail : Fields
  pub request_id : Option String
  pub created_at : ℕ

pub record AdminCredential : Type 0 where
  pub username : String
  pub password_hash : String

pub record PasswordReset : Type 0 where
  pub id : ℕ
  pub username : String
  pub code_hash : String
  pub expires_at : ℕ
  pub used_at : Option ℕ
  pub attempts : ℕ
  pub created_at : ℕ

-- `status == VMStatus.x.value` and its like
abbrev pub is_running : VmStatus → Bool
is_running VmStatus.running = true
is_running _ = false

-- `status in (running, stopped, error)`: a settled VM, which may be deleted or reinstalled.
abbrev pub is_settled : VmStatus → Bool
is_settled VmStatus.running = true
is_settled stopped = true
is_settled VmStatus.error = true
is_settled _ = false

-- `status in (stopped, error)`
abbrev pub is_startable : VmStatus → Bool
is_startable stopped = true
is_startable VmStatus.error = true
is_startable _ = false

abbrev pub is_transient : VmStatus → Bool
is_transient creating = true
is_transient provisioning = true
is_transient starting = true
is_transient stopping = true
is_transient rebooting = true
is_transient deleting = true
is_transient _ = false

abbrev pub is_ready : SshStatus → Bool
is_ready ready = true
is_ready _ = false
