-- ===== src/Settings.antt =====
-- backend/app/core/config.py: the settings that the modelled code reads, and the sizes of a VM.
use clusteration.Base.{
  ℕ, String, Option, none, some, List, [], ◌∷◌, ◌||◌, ◌=ₛ◌, if◌then◌else◌, ◌≡◌, refl,
}
use clusteration.Base.Text.{strip}

pub record Settings : Type 0 where
  pub environment : String
  pub app_build_id : String
  pub admin_username : String
  pub admin_password_hash : String
  pub database_url : String
  pub backup_dir : String
  pub backup_interval_hours : ℕ
  pub backup_keep : ℕ
  pub smtp_host : String
  pub smtp_user : String
  pub reset_email_to : String
  pub reset_code_ttl_minutes : ℕ
  pub proxmox_host : String
  pub proxmox_token_id : String
  pub proxmox_token_secret : String
  pub proxmox_default_node : String
  pub proxmox_default_storage : String
  pub template_debian_vmid : ℕ
  pub template_ubuntu_vmid : ℕ
  pub template_fedora_vmid : ℕ
  pub template_hermes_vmid : ℕ
  pub template_openclaw_vmid : ℕ
  pub template_claude_vmid : ℕ
  pub cloudinit_nameserver : String
  pub cloudinit_ipconfig : String
  pub console_ssh_private_key : String
  pub console_ssh_public_key : String
  pub terminal_session_ttl_seconds : ℕ
  pub exposure_base_domain : String
  pub exposure_proxy_secret : String
  pub vm_disk_choices : List ℕ

abbrev pub defaults : Settings
defaults = record {
  environment = "development";
  app_build_id = "dev";
  admin_username = "admin";
  admin_password_hash = "";
  database_url = "sqlite+aiosqlite:////data/vmpanel.db";
  backup_dir = "/data/backups";
  backup_interval_hours = 6;
  backup_keep = 28;
  smtp_host = "";
  smtp_user = "";
  reset_email_to = "";
  reset_code_ttl_minutes = 15;
  proxmox_host = "";
  proxmox_token_id = "";
  proxmox_token_secret = "";
  proxmox_default_node = "pve1";
  proxmox_default_storage = "local-lvm";
  template_debian_vmid = 9000;
  template_ubuntu_vmid = 9001;
  template_fedora_vmid = 9002;
  template_hermes_vmid = 9010;
  template_openclaw_vmid = 9011;
  template_claude_vmid = 9012;
  cloudinit_nameserver = "1.1.1.1";
  cloudinit_ipconfig = "ip=dhcp";
  console_ssh_private_key = "";
  console_ssh_public_key = "";
  terminal_session_ttl_seconds = 300;
  exposure_base_domain = "apps.exemplo.internal";
  exposure_proxy_secret = "";
  vm_disk_choices = 12 ∷ 16 ∷ 36 ∷ 64 ∷ 100 ∷ [];
}

pub record VmSize : Type 0 where
  pub cpu : ℕ
  pub memory_mb : ℕ
  pub label : String

-- `VM_SIZES[size]`; `none` where the key is missing
abbrev pub vm_sizes : String → Option VmSize
vm_sizes size =
    if size =ₛ "small"
    then some (record { cpu = 1; memory_mb = 2048; label = "1 vCPU / 2 GB" })
    else if size =ₛ "medium"
    then some (record { cpu = 2; memory_mb = 4096; label = "2 vCPU / 4 GB" })
    else none

abbrev pub source_build_id : String
source_build_id = "2026-06-20-dokploy-runtime-proof-v3"

unfoldable pub effective_build_id : Settings → String
unfolding strip
effective_build_id settings =
    let configured = strip settings.app_build_id in
    if configured =ₛ "" || configured =ₛ "dev" || configured =ₛ "unknown"
    then source_build_id
    else configured

unknown_build : effective_build_id (record defaults { app_build_id = "unknown" }) ≡ source_build_id
unfolding effective_build_id
unknown_build = refl

configured_build :
    effective_build_id (record defaults { app_build_id = "deploy-123" }) ≡ "deploy-123"
unfolding effective_build_id
configured_build = refl
