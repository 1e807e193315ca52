-- ===== src/Rpc/Dispatcher.antt =====
-- rocket/net/rpc/rpc_dispatcher.h and rpc_dispatcher.cc. Services, methods and messages are
-- protobuf's: a `Service` is what the dispatcher asks of one. `call_method` answers with the response
-- message if it runs the closure that it is given, and `none` if it never does.
pub mod Routing
pub mod Serving
mod Tests
use Prim.Native.Char.{code}
use Prim.Native.String.{String}
use my_rocket.Base.{
  ℕ, suc, ◌+◌, ◌≡◌, Bool, true, false, List, [], ◌∷◌, ◌++◌, length, take, drop, if◌then◌else◌, ℤ,
  pos, Option, none, some, Text, find_first_of,
}
use my_rocket.Base.Assoc.{lookup, assign}
use my_rocket.Tcp.NetAddr.{IpNetAddr}
use my_rocket.Coder.TinyPb.{TinyPbProtocol}
use my_rocket.Rpc.ErrorCode.{
  error_parse_service_name, error_service_not_found, error_failed_deserialize,
  error_failed_serialize,
}
use my_rocket.Rpc.Controller.{RpcController, fresh, set_local_addr, set_peer_addr, set_msg_id}

-- The bytes of an ASCII literal.
abbrev pub codes : String → Text
codes String.[] = []
codes (String.◌∷◌ c s) = code c ∷ codes s

pub record Service (Method Req Rsp : Type 0) : Type 0 where
  pub full_name : Text
  pub find_method : Text → Option Method
  pub parse_request : Method → List ℕ → Option Req
  pub call_method : Method → RpcController → Req → Option Rsp
  pub serialize : Rsp → Option (List ℕ)

-- rocket/common/run_time.h: what the thread remembers of its request. The interface pointer is set
-- by closures only.
pub record RunTime : Type 0 where
  pub msgid : Text
  pub method_name : Text

-- `GetRunTime`: that of the thread, made by the first call.
unfoldable pub get_run_time : Option RunTime → RunTime
get_run_time none = record { msgid = []; method_name = [] }
get_run_time (some r) = r

-- The two ends of the connection that a request came from.
pub record Ends : Type 0 where
  pub local : Option IpNetAddr
  pub peer : Option IpNetAddr

-- What a dispatch leaves: the response object, the thread's `RunTime`, and the replies handed to the
-- connection, in order.
pub record Dispatched : Type 0 where
  pub response : TinyPbProtocol
  pub run_time : RunTime
  pub replies : List (List TinyPbProtocol)

unfoldable pub set_tiny_pb_error : TinyPbProtocol → ℤ → Text → TinyPbProtocol
set_tiny_pb_error m err_code info = record m {
  err_code = err_code;
  err_info = info;
  err_info_len = pos (length info);
}

-- Service and method, cut at the first dot.
unfoldable pub parse_service_full_name : Text → Option (Text × Text)
parse_service_full_name [] = none
parse_service_full_name (c ∷ s) = elim (find_first_of b'.' (c ∷ s)) [
  | none ↦ none
  | some i ↦ some (take i (c ∷ s), drop (i + 1) (c ∷ s))
]

abbrev pub failed : TinyPbProtocol → RunTime → ℤ → Text → Dispatched
failed rsp run_time err_code info = record {
  response = set_tiny_pb_error rsp err_code info;
  run_time = run_time;
  replies = [];
}

abbrev pub controller_for : Ends → Text → RpcController
controller_for ends id = set_msg_id id (set_peer_addr ends.peer (set_local_addr ends.local fresh))

abbrev pub ServiceMap : Type 0 → Type 0 → Type 0 → Type 0
ServiceMap Method Req Rsp = List (Text × Service Method Req Rsp)

module _ {Method Req Rsp : Type 0} where
  unfoldable pub register_service :
      Service Method Req Rsp → ServiceMap Method Req Rsp → ServiceMap Method Req Rsp
  register_service s services = assign s.full_name s services

  -- The static `GetRpcDispatcher`: the one dispatcher, with no service at first.
  unfoldable pub get_rpc_dispatcher : Option (ServiceMap Method Req Rsp) → ServiceMap Method Req Rsp
  get_rpc_dispatcher none = []
  get_rpc_dispatcher (some services) = services

  -- The closure: the response filled in from the serialized message, and one reply of it.
  unfoldable pub finish :
      Service Method Req Rsp → Option Rsp → TinyPbProtocol → RunTime → Dispatched
  finish service none rsp run_time = record { response = rsp; run_time = run_time; replies = [] }
  finish service (some msg) rsp run_time = elim (service.serialize msg) [
    | none ↦
        let rsp' = set_tiny_pb_error rsp error_failed_serialize (codes "serilize error") in
        record { response = rsp'; run_time = run_time; replies = (rsp' ∷ []) ∷ [] }
    | some bytes ↦
        let rsp' = record rsp { pb_data = bytes; err_code = pos 0; err_info = [] } in
        record { response = rsp'; run_time = run_time; replies = (rsp' ∷ []) ∷ [] }
  ]

  unfoldable pub dispatch :
      ServiceMap Method Req Rsp → Ends → TinyPbProtocol → TinyPbProtocol → RunTime → Dispatched
  dispatch services ends req response run_time =
      let rsp = record response { msg_id = req.msg_id; method_name = req.method_name } in
      elim (parse_service_full_name req.method_name) [
        | none ↦ failed rsp run_time error_parse_service_name (codes "parse service name error")
        | some (service_name, method_name) ↦ elim (lookup service_name services) [
          | none ↦ failed rsp run_time error_service_not_found (codes "service not found")
          | some service ↦ elim (service.find_method method_name) [
            | none ↦ failed rsp run_time error_service_not_found (codes "method not found")
            | some method ↦ elim (service.parse_request method req.pb_data) [
              | none ↦ failed rsp run_time error_failed_deserialize (codes "deserilize error")
              | some msg ↦
                  finish service (service.call_method method (controller_for ends req.msg_id) msg)
                    rsp (record { msgid = req.msg_id; method_name = method_name })
            ]
          ]
        ]
      ]
