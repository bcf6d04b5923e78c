-- ===== src/Proxmox/Resolve.antt =====
-- The lookups of `ProxmoxClient` in backend/app/services/proxmox.py: which node holds a VM or a
-- template, and how large its disk is.
pub mod Ends
pub mod Calls
use clusteration.Base.{
  ℕ, String, ◌<>◌, Bool, true, false, not, Option, none, some, ◌==◌, ◌=ₛ◌, if◌then◌else◌,
}
use clusteration.Base.Text.{show, strip}
use clusteration.Base.Json.{
  Json, null, Items, Fields, ℤ, pos, nil, item, arr, obj, end, get, int, str_or_empty,
}
use clusteration.Base.Exec.{
  Exc, proxmox, base, other, ProxmoxKind, Result, ok, err, Exec, pure, raise, try_except,
  on_proxmox, ◌>>=◌, ◌>>◌, raise_if, of_result,
}
use clusteration.Proxmox.{Transport, Call, next_id, cluster_resources, vm_config, status_current}
use clusteration.Proxmox.Request.{request}
use clusteration.Proxmox.Parse.{is_template, disk_size_gb_from_resource, parse_disk_size_gb}

-- `data if isinstance(data, list) else []`
abbrev list_or_empty : Json → Items
list_or_empty (arr xs) = xs
list_or_empty _ = nil

-- `data if isinstance(data, dict) else {}`
abbrev dict_or_empty : Json → Fields
dict_or_empty (obj d) = d
dict_or_empty _ = end

abbrev is_vmid : ℕ → Option ℤ → Bool
is_vmid vmid (some (pos n)) = n == vmid
is_vmid vmid _ = false

-- The loop of `find_vm_resource`; a resource that is no dict has no `get`.
find_resource : ℕ → Items → Result (Option Fields)
unfolding get int
find_resource vmid nil = ok none
find_resource vmid (item (obj d) xs) =
    let rest = find_resource vmid xs in
    if is_vmid vmid (int (get "vmid" d)) then ok (some d) else rest
find_resource vmid (item _ xs) = err (other "AttributeError")

-- The exception of `int(value)`
int_error : Json → String
int_error null = "TypeError"
int_error (arr _) = "TypeError"
int_error (obj _) = "TypeError"
int_error _ = "ValueError"

-- The VMID that `int(value)` is; that it is not negative, as Proxmox gives none, is taken for granted.
unfoldable vmid_of : Json → Option ℤ → Result ℕ
unfolding int_error
vmid_of value (some (pos n)) = ok n
vmid_of value _ = err (other (int_error value))

-- `str(resource.get("node") or "").strip()`
node_of : Fields → String
unfolding get str_or_empty strip
node_of d = strip (str_or_empty (get "node" d))

-- `node`, or an error where it is empty
abbrev named_node : {N : Type 0} → Exc → String → Exec N String
named_node e node = if node =ₛ "" then raise e else pure node

-- `: {cluster_error}` where there is one
abbrev suffix_of : String → String → String
suffix_of cluster_error text = if cluster_error =ₛ "" then "" else text

module _ {N : Type 0} (t : Transport N) where
  unfoldable pub take_next_id : Exec N ℕ
  unfolding int vmid_of
  take_next_id = do reply ← request t next_id; of_result (vmid_of reply (int reply))

  unfoldable pub find_vm_resource : ℕ → Exec N (Option Fields)
  unfolding find_resource
  find_vm_resource vmid = do
    reply ← request t (cluster_resources "vm")
    of_result (find_resource vmid (list_or_empty reply))

  unfoldable pub get_vm_config : String → ℕ → Exec N Fields
  get_vm_config node vmid = do reply ← request t (vm_config node vmid); pure (dict_or_empty reply)

  -- The first `try`: the resource, or none and the error of the cluster.
  cluster_lookup : ℕ → Exec N (Option Fields × String)
  unfolding find_vm_resource on_proxmox
  cluster_lookup vmid =
      try_except (do resource ← find_vm_resource vmid; pure (resource, ""))
        (on_proxmox (λ _ msg. pure (none, msg)))

  owner_of_template : ℕ → Fields → Exec N String
  unfolding node_of is_template
  owner_of_template vmid resource = do
    raise_if (not (is_template resource))
        (proxmox base ("VMID " <> show vmid <> " encontrado, mas não está marcado como template"))
    named_node (proxmox base ("template VMID " <> show vmid <> " encontrado sem node no Proxmox"))
        (node_of resource)

  -- The second `try`: the configured node is asked for the template's config.
  configured_node : String → ℕ → String → Exec N String
  unfolding get_vm_config on_proxmox is_template
  configured_node preferred vmid cluster_error =
      try_except
        (do
          config ← get_vm_config preferred vmid
          if is_template config
              then pure preferred
              else raise (
                  proxmox base (
                    "VMID "
                    <> show vmid
                    <> " existe em "
                    <> preferred
                    <> ", mas não está marcado como template")))
        (on_proxmox λ _ msg. raise (
          proxmox base (
            "template VMID "
            <> show vmid
            <> " não encontrado no cluster;"
            <> suffix_of cluster_error (" lookup do cluster respondeu: " <> cluster_error <> ";")
            <> " node configurado respondeu: "
            <> msg)))

  template_node_from : String → ℕ → Option Fields × String → Exec N String
  unfolding owner_of_template configured_node
  template_node_from preferred vmid (some resource, _) = owner_of_template vmid resource
  template_node_from preferred vmid (none, cluster_error) =
      if preferred =ₛ ""
      then raise (
          proxmox base (
            "template VMID "
            <> show vmid
            <> " não encontrado no cluster"
            <> suffix_of cluster_error (": " <> cluster_error)))
      else configured_node preferred vmid cluster_error

  unfoldable pub resolve_template_node : String → ℕ → Exec N String
  unfolding cluster_lookup template_node_from
  resolve_template_node preferred vmid = do
    found ← cluster_lookup vmid
    template_node_from preferred vmid found

  -- The `try` of `resolve_vm_node`: whether the configured node answers for the VM.
  answers : String → ℕ → Exec N Bool
  unfolding on_proxmox
  answers preferred vmid =
      try_except (do request t (status_current preferred vmid); pure true)
        (on_proxmox (λ _ _. pure false))

  vm_node_from : ℕ → Option Fields → Exec N String
  unfolding node_of
  vm_node_from vmid none =
      raise (proxmox base ("VMID " <> show vmid <> " não encontrado no cluster"))
  vm_node_from vmid (some resource) =
      named_node (proxmox base ("VMID " <> show vmid <> " encontrado sem node no Proxmox"))
        (node_of resource)

  vm_owner : ℕ → Exec N String
  unfolding find_vm_resource vm_node_from
  vm_owner vmid = do resource ← find_vm_resource vmid; vm_node_from vmid resource

  unfoldable pub resolve_vm_node : String → ℕ → Exec N String
  unfolding answers vm_owner
  resolve_vm_node preferred vmid =
      if preferred =ₛ ""
      then vm_owner vmid
      else do here ← answers preferred vmid; if here then pure preferred else vm_owner vmid

  -- The first `try` of `vm_disk_size_gb`.
  disk_in_cluster : ℕ → Exec N (Option ℕ)
  unfolding find_vm_resource on_proxmox disk_size_gb_from_resource
  disk_in_cluster vmid =
      try_except (do resource ← find_vm_resource vmid; pure (disk_size_gb_from_resource resource))
        (on_proxmox (λ _ _. pure none))

  -- The second.
  disk_in_config : String → ℕ → Exec N (Option ℕ)
  unfolding get_vm_config on_proxmox get str_or_empty parse_disk_size_gb
  disk_in_config node vmid =
      try_except
        (do
          config ← get_vm_config node vmid
          pure (parse_disk_size_gb (str_or_empty (get "scsi0" config))))
        (on_proxmox (λ _ _. pure none))

  or_config : String → ℕ → Option ℕ → Exec N (Option ℕ)
  unfolding disk_in_config
  or_config node vmid (some gb) = pure (some gb)
  or_config node vmid none = disk_in_config node vmid

  unfoldable pub vm_disk_size_gb : String → ℕ → Exec N (Option ℕ)
  unfolding disk_in_cluster or_config
  vm_disk_size_gb node vmid = do found ← disk_in_cluster vmid; or_config node vmid found
