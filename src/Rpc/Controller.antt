-- ===== src/Rpc/Controller.antt =====
-- rocket/net/rpc/rpc_controller.h and rpc_controller.cc. An address pointer is an option.
use my_rocket.Base.{Bool, true, false, ℤ, pos, Option, none, Text, []}
use my_rocket.Tcp.NetAddr.{IpNetAddr}

pub record RpcController : Type 0 where
  pub error_code : ℤ
  pub error_info : Text
  pub msg_id : Text
  pub is_failed : Bool
  pub is_canceled : Bool
  pub is_finished : Bool
  pub local_addr : Option IpNetAddr
  pub peer_addr : Option IpNetAddr
  pub timeout : ℤ

-- A new controller, and what `Reset` leaves.
abbrev pub fresh : RpcController
fresh = record {
  error_code = pos 0;
  error_info = [];
  msg_id = [];
  is_failed = false;
  is_canceled = false;
  is_finished = false;
  local_addr = none;
  peer_addr = none;
  timeout = pos 1000;
}

unfoldable pub reset : RpcController → RpcController
reset c = record c {
  error_code = pos 0;
  error_info = [];
  msg_id = [];
  is_failed = false;
  is_canceled = false;
  is_finished = false;
  local_addr = none;
  peer_addr = none;
  timeout = pos 1000;
}

unfoldable pub set_finished : Bool → RpcController → RpcController
set_finished b c = record c { is_finished = b }

unfoldable pub start_cancel : RpcController → RpcController
unfolding set_finished
start_cancel c = set_finished true (record c { is_canceled = true; is_failed = true })

unfoldable pub set_failed : Text → RpcController → RpcController
set_failed reason c = record c { error_info = reason; is_failed = true }

unfoldable pub set_error : ℤ → Text → RpcController → RpcController
set_error code info c = record c { error_code = code; error_info = info; is_failed = true }

unfoldable pub set_msg_id : Text → RpcController → RpcController
set_msg_id id c = record c { msg_id = id }

unfoldable pub set_local_addr : Option IpNetAddr → RpcController → RpcController
set_local_addr a c = record c { local_addr = a }

unfoldable pub set_peer_addr : Option IpNetAddr → RpcController → RpcController
set_peer_addr a c = record c { peer_addr = a }

unfoldable pub set_timeout : ℤ → RpcController → RpcController
set_timeout t c = record c { timeout = t }
