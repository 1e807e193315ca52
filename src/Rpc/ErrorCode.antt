-- ===== src/Rpc/ErrorCode.antt =====
-- rocket/common/error_code.h: `1000##xx`.
use my_rocket.Base.{ℤ, pos}

abbrev pub error_peer_closed : ℤ
error_peer_closed = pos 10000000

abbrev pub error_failed_connect : ℤ
error_failed_connect = pos 10000001

abbrev pub error_failed_get_reply : ℤ
error_failed_get_reply = pos 10000002

abbrev pub error_failed_deserialize : ℤ
error_failed_deserialize = pos 10000003

abbrev pub error_failed_serialize : ℤ
error_failed_serialize = pos 10000004

abbrev pub error_rpc_call_timeout : ℤ
error_rpc_call_timeout = pos 10000007

abbrev pub error_service_not_found : ℤ
error_service_not_found = pos 10000008

abbrev pub error_parse_service_name : ℤ
error_parse_service_name = pos 10000010

abbrev pub error_rpc_channel_init : ℤ
error_rpc_channel_init = pos 10000011

abbrev pub error_rpc_peer_addr : ℤ
error_rpc_peer_addr = pos 10000012
