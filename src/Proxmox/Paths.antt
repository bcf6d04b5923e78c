-- ===== src/Proxmox/Paths.antt =====
-- The method and the path of each call, which `ProxmoxClient._request` puts into an error.
use Prim.Native.Char.{code}
use Prim.Native.String.{String, [], ◌∷◌, ◌++◌}
use clusteration.Base.{
  ℕ, zero, suc, ◌/◌, ◌%◌, Bool, ◌||◌, ◌&&◌, leb, ◌==◌, if◌then◌else◌, ◌≡◌, refl,
}
use clusteration.Base.Text.{show}
use clusteration.Proxmox.{
  Call, next_id, cluster_resources, vm_config, status_current, task_status, network_interfaces,
  agent_exec, exec_status, storage_status, clone, put_config, resize, status_action, destroy,
}

nth : String → ℕ → String
nth [] i = ""
nth (c ∷ s) zero = c ∷ []
nth (c ∷ s) (suc i) = nth s i

hex : ℕ → String
unfolding nth
hex n = nth "0123456789ABCDEF" n

is_unreserved : ℕ → Bool
is_unreserved c =
    (leb b'0' c && leb c b'9')
    || (leb b'A' c && leb c b'Z')
    || (leb b'a' c && leb c b'z')
    || c == b'_'
    || c == b'.'
    || c == b'-'
    || c == b'~'

-- `quote(upid, safe="")`, on ASCII
pub quote : String → String
unfolding hex is_unreserved
quote [] = []
quote (ch ∷ s) =
    let c = code ch in
    let rest = quote s in
    if is_unreserved c then ch ∷ rest else "%" ++ hex (c / 16 % 16) ++ hex (c % 16) ++ rest

in_qemu : String → ℕ → String → String
unfolding show
in_qemu node vmid rest = "/nodes/" ++ node ++ "/qemu/" ++ show vmid ++ rest

unfoldable pub path_of : Call → String
unfolding in_qemu quote
path_of next_id = "/cluster/nextid"
path_of (cluster_resources _) = "/cluster/resources"
path_of (vm_config node vmid) = in_qemu node vmid "/config"
path_of (status_current node vmid) = in_qemu node vmid "/status/current"
path_of (task_status node upid) = "/nodes/" ++ node ++ "/tasks/" ++ quote upid ++ "/status"
path_of (network_interfaces node vmid) = in_qemu node vmid "/agent/network-get-interfaces"
path_of (agent_exec node vmid _) = in_qemu node vmid "/agent/exec"
path_of (exec_status node vmid _) = in_qemu node vmid "/agent/exec-status"
path_of (storage_status node storage) = "/nodes/" ++ node ++ "/storage/" ++ storage ++ "/status"
path_of (clone node template_vmid _ _) = in_qemu node template_vmid "/clone"
path_of (put_config node vmid _) = in_qemu node vmid "/config"
path_of (resize node vmid _ _) = in_qemu node vmid "/resize"
path_of (status_action node vmid action) = in_qemu node vmid ("/status/" ++ action)
path_of (destroy node vmid) = in_qemu node vmid ""

unfoldable pub method_of : Call → String
method_of (agent_exec _ _ _) = "POST"
method_of (clone _ _ _ _) = "POST"
method_of (status_action _ _ _) = "POST"
method_of (put_config _ _ _) = "PUT"
method_of (resize _ _ _ _) = "PUT"
method_of (destroy _ _) = "DELETE"
method_of _ = "GET"

path_runs :
    path_of (task_status "pve1" "UPID:pve1:00AB") ≡ "/nodes/pve1/tasks/UPID%3Apve1%3A00AB/status"
unfolding path_of
path_runs = refl
