-- ===== src/Proxmox/Resolve/Ends.antt =====
-- The lookups of `ProxmoxClient` end.
use clusteration.Base.{ℕ, String, ◌≢◌, Option, none, some, arith}
use clusteration.Base.Json.{Json, pos, negsuc, obj, Fields, Items, nil, item, ℤ}
use clusteration.Base.Exec.{out_of_fuel, err}
use clusteration.Base.Exec.Ends.{Ends, ends_rules}
use clusteration.Proxmox.{Transport, IsMonotonic}
use clusteration.Proxmox.Polls.{Ends-request}
use clusteration.Proxmox.Resolve.{
  find_resource, vmid_of, take_next_id, find_vm_resource, get_vm_config, cluster_lookup,
  template_node_from, resolve_template_node, vm_node_from, vm_owner, resolve_vm_node, or_config,
  vm_disk_size_gb,
}

vmid_of-ne : (v : Json) (z : Option ℤ) → vmid_of v z ≢ err out_of_fuel
unfolding vmid_of
vmid_of-ne v (some (pos n)) h = cc h
vmid_of-ne v (some (negsuc n)) h = cc h
vmid_of-ne v none h = cc h

find_resource-ne : (vmid : ℕ) (xs : Items) → find_resource vmid xs ≢ err out_of_fuel
unfolding find_resource
find_resource-ne vmid nil h = cc h
find_resource-ne vmid (item (obj d) xs) h = ground (arith, find_resource-ne vmid xs)
find_resource-ne vmid (item v xs) h = cc h

module _ {N : Type 0} {t : Transport N} (mono : IsMonotonic t) where
  pub take_next_id-Ends : Ends t.now (take_next_id t)
  unfolding take_next_id
  take_next_id-Ends = search (ends_rules, Ends-request mono, vmid_of-ne)

  find_vm_resource-Ends : (vmid : ℕ) → Ends t.now (find_vm_resource t vmid)
  unfolding find_vm_resource
  find_vm_resource-Ends vmid = search (ends_rules, Ends-request mono, find_resource-ne)

  get_vm_config-Ends : (node : String) (vmid : ℕ) → Ends t.now (get_vm_config t node vmid)
  unfolding get_vm_config
  get_vm_config-Ends node vmid = search (ends_rules, Ends-request mono)

  cluster_lookup-Ends : (vmid : ℕ) → Ends t.now (cluster_lookup t vmid)
  unfolding cluster_lookup
  cluster_lookup-Ends vmid = search (ends_rules, find_vm_resource-Ends) depth 8

  template_node_from-Ends :
      (preferred : String) (vmid : ℕ) (found : Option Fields × String)
      → Ends t.now (template_node_from t preferred vmid found)
  unfolding template_node_from
  template_node_from-Ends preferred vmid (some resource, e) = search ends_rules depth 8
  template_node_from-Ends preferred vmid (none, e) =
      search (ends_rules, get_vm_config-Ends) depth 10

  pub resolve_template_node-Ends :
      (preferred : String) (vmid : ℕ) → Ends t.now (resolve_template_node t preferred vmid)
  unfolding resolve_template_node
  resolve_template_node-Ends preferred vmid =
      search (ends_rules, cluster_lookup-Ends, template_node_from-Ends)

  vm_node_from-Ends : (vmid : ℕ) (found : Option Fields) → Ends t.now (vm_node_from t vmid found)
  unfolding vm_node_from
  vm_node_from-Ends vmid none = search ends_rules
  vm_node_from-Ends vmid (some d) = search ends_rules

  vm_owner-Ends : (vmid : ℕ) → Ends t.now (vm_owner t vmid)
  unfolding vm_owner
  vm_owner-Ends vmid = search (ends_rules, find_vm_resource-Ends, vm_node_from-Ends)

  pub resolve_vm_node-Ends :
      (preferred : String) (vmid : ℕ) → Ends t.now (resolve_vm_node t preferred vmid)
  unfolding resolve_vm_node
  resolve_vm_node-Ends preferred vmid =
      search (ends_rules, Ends-request mono, vm_owner-Ends) depth 10

  or_config-Ends :
      (node : String) (vmid : ℕ) (found : Option ℕ) → Ends t.now (or_config t node vmid found)
  unfolding or_config
  or_config-Ends node vmid (some gb) = search ends_rules
  or_config-Ends node vmid none = search (ends_rules, get_vm_config-Ends) depth 8

  pub vm_disk_size_gb-Ends : (node : String) (vmid : ℕ) → Ends t.now (vm_disk_size_gb t node vmid)
  unfolding vm_disk_size_gb
  vm_disk_size_gb-Ends node vmid =
      search (ends_rules, find_vm_resource-Ends, or_config-Ends) depth 10
