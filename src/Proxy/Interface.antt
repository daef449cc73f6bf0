-- ===== src/Proxy/Interface.antt =====
-- `Interface` of twinleaf/src/tio/proxy.rs: the ports that it makes for clients. Durations are
-- nanoseconds. The queue of the core for new clients, and its confirmation, are parameters.
use twinleaf_rust.Shared.{
  ℕ, ◌^◌, ◌-◌, Bool, true, false, not, ltb, Result, ok, ◌>>◌, refuse, Option, some, none,
}
use twinleaf_rust.Proto.Route.{DeviceRoute, root}
use twinleaf_rust.Proxy.Client.{ProxyClient}

pub data PortError : Type 0 where
  rpc_timeout_too_short rpc_timeout_too_long failed_new_client_setup : PortError

-- `usize::MAX`
abbrev pub usize_max : ℕ
usize_max = 2 ^ 64 - 1

unfoldable pub unwrap_or : Option ℕ → ℕ → ℕ
unwrap_or (some d) default = d
unwrap_or none default = default

-- `confirm` is none where the caller has a status queue of its own.
unfoldable pub is_confirmed : Option Bool → Bool
is_confirmed none = true
is_confirmed (some received) = received

module _ (queue : ProxyClient → Bool) (confirm : Option Bool) where
  -- The client that the core gets; its depth is the port's too.
  unfoldable pub new_port : Option ℕ → DeviceRoute → ℕ → Bool → Bool → Result ProxyClient PortError
  unfolding unwrap_or is_confirmed
  new_port rpc_timeout scope depth forward_data forward_nonrpc = do
    let timeout = unwrap_or rpc_timeout 3000000000
    refuse (ltb timeout 100000000) rpc_timeout_too_short
    refuse (ltb 60000000000 timeout) rpc_timeout_too_long
    let client : ProxyClient = record {
      rpc_timeout = timeout;
      scope = scope;
      depth = depth;
      forward_data = forward_data;
      forward_nonrpc = forward_nonrpc;
    }
    refuse (not (queue client)) failed_new_client_setup
    refuse (not (is_confirmed confirm)) failed_new_client_setup
    ok client

  abbrev pub subtree_full : DeviceRoute → Result ProxyClient PortError
  subtree_full subtree_root = new_port none subtree_root usize_max true true

  abbrev pub subtree_rpc : DeviceRoute → Result ProxyClient PortError
  subtree_rpc subtree_root = new_port none subtree_root usize_max false false

  abbrev pub tree_full : Result ProxyClient PortError
  tree_full = subtree_full root

  abbrev pub tree_rpc : Result ProxyClient PortError
  tree_rpc = subtree_rpc root

  abbrev pub device_full : DeviceRoute → Result ProxyClient PortError
  device_full address = new_port none address 0 true true

  abbrev pub device_rpc : DeviceRoute → Result ProxyClient PortError
  device_rpc address = new_port none address 0 false false

  abbrev pub root_full : Result ProxyClient PortError
  root_full = device_full root

  abbrev pub root_rpc : Result ProxyClient PortError
  root_rpc = device_rpc root
