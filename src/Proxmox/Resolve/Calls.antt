-- ===== src/Proxmox/Resolve/Calls.antt =====
-- The lookups of `ProxmoxClient` only read.
use clusteration.Base.{ℕ, ◌≡◌, true, String, Option, none, some}
use clusteration.Base.Json.{Fields}
use clusteration.Base.Exec.Keeps.{Keeps}
use clusteration.Proxmox.{Call, Transport}
use clusteration.Proxmox.Trace.{traced}
use clusteration.Proxmox.Calls.{Sends, is_read, sends_rules}
use clusteration.Proxmox.Resolve.{
  take_next_id, find_vm_resource, get_vm_config, cluster_lookup, template_node_from,
  resolve_template_node, vm_node_from, vm_owner, resolve_vm_node, or_config, vm_disk_size_gb,
}

module _ {N : Type 0} (t : Transport N) (C : Call → Type 0)
    (reads : (c : Call) → is_read c ≡ true → C c) where
  pub take_next_id-Sends : Keeps (Sends C) (take_next_id (traced t))
  unfolding take_next_id
  take_next_id-Sends = search (sends_rules, reads)

  find_vm_resource-Sends : (vmid : ℕ) → Keeps (Sends C) (find_vm_resource (traced t) vmid)
  unfolding find_vm_resource
  find_vm_resource-Sends vmid = search (sends_rules, reads)

  get_vm_config-Sends :
      (node : String) (vmid : ℕ) → Keeps (Sends C) (get_vm_config (traced t) node vmid)
  unfolding get_vm_config
  get_vm_config-Sends node vmid = search (sends_rules, reads)

  cluster_lookup-Sends : (vmid : ℕ) → Keeps (Sends C) (cluster_lookup (traced t) vmid)
  unfolding cluster_lookup
  cluster_lookup-Sends vmid = search (sends_rules, reads, find_vm_resource-Sends) depth 8

  template_node_from-Sends :
      (preferred : String) (vmid : ℕ) (found : Option Fields × String)
      → Keeps (Sends C) (template_node_from (traced t) preferred vmid found)
  unfolding template_node_from
  template_node_from-Sends preferred vmid (some resource, e) = search sends_rules depth 8
  template_node_from-Sends preferred vmid (none, e) =
      search (sends_rules, get_vm_config-Sends) depth 10

  pub resolve_template_node-Sends :
      (preferred : String) (vmid : ℕ)
      → Keeps (Sends C) (resolve_template_node (traced t) preferred vmid)
  unfolding resolve_template_node
  resolve_template_node-Sends preferred vmid =
      search (sends_rules, reads, cluster_lookup-Sends, template_node_from-Sends)

  vm_node_from-Sends :
      (vmid : ℕ) (found : Option Fields) → Keeps (Sends C) (vm_node_from (traced t) vmid found)
  unfolding vm_node_from
  vm_node_from-Sends vmid none = search sends_rules
  vm_node_from-Sends vmid (some d) = search sends_rules

  vm_owner-Sends : (vmid : ℕ) → Keeps (Sends C) (vm_owner (traced t) vmid)
  unfolding vm_owner
  vm_owner-Sends vmid = search (sends_rules, reads, find_vm_resource-Sends, vm_node_from-Sends)

  pub resolve_vm_node-Sends :
      (preferred : String) (vmid : ℕ) → Keeps (Sends C) (resolve_vm_node (traced t) preferred vmid)
  unfolding resolve_vm_node
  resolve_vm_node-Sends preferred vmid = search (sends_rules, reads, vm_owner-Sends) depth 10

  or_config-Sends :
      (node : String) (vmid : ℕ) (found : Option ℕ)
      → Keeps (Sends C) (or_config (traced t) node vmid found)
  unfolding or_config
  or_config-Sends node vmid (some gb) = search sends_rules
  or_config-Sends node vmid none = search (sends_rules, get_vm_config-Sends) depth 8

  pub vm_disk_size_gb-Sends :
      (node : String) (vmid : ℕ) → Keeps (Sends C) (vm_disk_size_gb (traced t) node vmid)
  unfolding vm_disk_size_gb
  vm_disk_size_gb-Sends node vmid =
      search (sends_rules, reads, find_vm_resource-Sends, or_config-Sends) depth 10
