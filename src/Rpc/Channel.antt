-- ===== src/Rpc/Channel.antt =====
-- rocket/net/rpc/rpc_channel.h and rpc_channel.cc: one call, seen from the client. A controller is a
-- pointer into a store, so that the channel, the timer and the caller see one object. `runs` counts
-- the runs of the user's closure. The callbacks that a call leaves behind are the events of `step`;
-- those of the connection are the numbers `sent_callback` and `response_callback`, handed to it with
-- the messages. The closure leaves the call alone. The lifetimes of the objects and the
-- log are left out.
pub mod Progress
pub mod Ending
pub mod Answer
pub mod Exchange
pub mod Once
pub mod Refused
pub mod Address
mod Tests
use my_rocket.Base.{
  ℕ, suc, ◌+◌, ◌≡◌, Bool, true, false, not, List, [], ◌∷◌, ◌++◌, if◌then◌else◌, ◌==◌, ℤ, pos,
  negsuc, Option, none, some, Text, Outcome, ok, fault, stuck, ◌>>=◌, or_fault, decimal,
}
use my_rocket.Base.Assoc.{lookup}
use my_rocket.Tcp.NetAddr.{Inet, IpNetAddr, SockAddr, check_valid, of_string, is_empty}
use my_rocket.Tcp.Connection.{TcpConnection, WriteResult, ReadResult, on_write, on_read}
use my_rocket.Tcp.Client.{
  TcpClient, Next, call_done, await_event, make_client, connect, connect_event, write_message,
  read_message,
}
use my_rocket.Coder.TinyPb.{TinyPbProtocol, empty_protocol}
use my_rocket.Common.Config.{RpcStub}
use my_rocket.Common.MsgId.{MsgId, gen_msg_id}
use my_rocket.Rpc.Dispatcher.{RunTime, codes}
use my_rocket.Rpc.Controller.{RpcController, set_error, set_msg_id, set_finished, start_cancel}
use my_rocket.Rpc.ErrorCode.{
  error_rpc_channel_init, error_rpc_peer_addr, error_failed_serialize, error_rpc_call_timeout,
}

pub record RpcChannel : Type 0 where
  pub peer_addr : Option IpNetAddr
  pub controller : Option ℕ
  pub has_closure : Bool
  pub is_init : Bool
  pub client : Option TcpClient

abbrev pub Controllers : Type 0
Controllers = ℕ → RpcController

-- A call in progress: what its callbacks share. `timer` is the controller that an armed timeout
-- holds, and `request` the message that is sent.
pub record Call : Type 0 where
  pub channel : RpcChannel
  pub controllers : Controllers
  pub run_time : RunTime
  pub msg_ids : MsgId
  pub request : TinyPbProtocol
  pub timer : Option ℕ
  pub runs : ℕ

unfoldable pub make_channel : Option IpNetAddr → RpcChannel
make_channel peer_addr = record {
  peer_addr = peer_addr;
  controller = none;
  has_closure = false;
  is_init = false;
  client = none;
}

-- `Init`, with the controller and whether there is a closure.
unfoldable pub init : Option ℕ → Bool → RpcChannel → RpcChannel
init controller has_closure ch =
    if ch.is_init
    then ch
    else record ch { controller = controller; has_closure = has_closure; is_init = true }

abbrev pub addr_of : Option RpcStub → Option IpNetAddr
addr_of none = none
addr_of (some stub) = some stub.addr

-- The static `FindAddr`, with the stubs of the configuration.
unfoldable pub find_addr : Inet → List (Text × RpcStub) → Text → Option IpNetAddr
find_addr net stubs str =
    if check_valid str then some (of_string net str) else addr_of (lookup str stubs)

abbrev pub change : ℕ → (RpcController → RpcController) → Call → Call
change p f s = record s {
  controllers = λ q. if q == p then f (s.controllers q) else s.controllers q;
}

-- A method call on a null controller is a fault.
unfoldable pub call_back : Call → Outcome Call
call_back s = or_fault s.channel.controller >>= λ p.
    if (s.controllers p).is_finished
    then ok s
    else if s.channel.has_closure
    then ok (change p (set_finished true) (record s { runs = s.runs + 1 }))
    else ok s

abbrev pub fail : ℕ → ℤ → Text → Call → Outcome Call
fail p code info s = call_back (change p (set_error code info) s)

abbrev pub sent_callback : ℕ
sent_callback = 0

abbrev pub response_callback : ℕ
response_callback = 1

abbrev pub on_client : (TcpClient → Outcome TcpClient) → Call → Outcome Call
on_client f s = or_fault s.channel.client >>= λ c.
    f c >>= λ c'. ok (record s { channel = record (s.channel) { client = some c' } })

abbrev pub is_zero : ℤ → Bool
is_zero (pos n) = n == 0
is_zero (negsuc n) = false

-- The callback of `connect`.
unfoldable pub connect_done : Call → Outcome Call
unfolding call_back
connect_done s = or_fault s.channel.controller >>= λ p. or_fault s.channel.client >>= λ c.
    if is_zero c.connect_error_code
    then on_client (write_message s.request sent_callback) s
    else fail p c.connect_error_code c.connect_error_info s

-- The message id of a call: the controller's, or else that of the request that this thread serves, or
-- else a new one.
unfoldable pub choose_id : ℕ → List ℕ → Call → Outcome (Text × Call)
choose_id p random s =
    if is_empty (s.controllers p).msg_id
    then if is_empty s.run_time.msgid
      then (gen_msg_id s.msg_ids random >>= λ r.
          ok (r.0, change p (set_msg_id r.0) (record s { msg_ids = r.1 })))
      else ok (s.run_time.msgid, change p (set_msg_id s.run_time.msgid) s)
    else ok ((s.controllers p).msg_id, s)

-- What stands outside of the program at the time of a call: whether the request and the response are
-- there, the method's full name, the serialized request, random bytes for an id, and what `socket`,
-- `connect` and `getsockname` return.
pub record Given : Type 0 where
  pub has_messages : Bool
  pub method_name : Text
  pub serialized : Option (List ℕ)
  pub random : List ℕ
  pub socket : ℤ
  pub connected : Option ℕ
  pub name : Option SockAddr

unfoldable pub decimal_ℤ : ℤ → Text
decimal_ℤ (pos n) = decimal n
decimal_ℤ (negsuc n) = b'-' ∷ decimal (n + 1)

-- Once `connect` has returned.
abbrev pub go_on : Next → Call → Outcome Call
go_on call_done s = connect_done s
go_on await_event s = ok s

-- What may happen to a call: the timeout, the event that `connect` waits for, and events of the
-- connection, which may run callbacks.
pub data Event : Type 0 where
  timeout : Event
  connectable : Option ℕ → Option SockAddr → ℤ → Event
  writable : List WriteResult → Event
  readable : ℕ → List ReadResult → Event

module _ (net : Inet) (strerror : ℕ → Text) (parse_response : List ℕ → Bool) where
  -- The request is serialized, or has failed to be: arm the timeout and connect.
  unfoldable pub start_call : ℕ → Given → Option (List ℕ) → Call → Outcome Call
  start_call p g none s = fail p error_failed_serialize (codes "failde to serialize") s
  start_call p g (some bytes) s =
      let s' = record s { request = record (s.request) { pb_data = bytes }; timer = some p } in
      or_fault s'.channel.client >>= λ c. connect net strerror g.connected g.name c >>= λ r.
      go_on r.0 (record s' { channel = record (s'.channel) { client = some r.1 } })

  -- The part of `CallMethod` behind the test of the address.
  unfoldable pub call_peer : ℕ → Given → Option IpNetAddr → Call → Outcome Call
  unfolding start_call choose_id
  call_peer p g none s = fail p error_rpc_peer_addr (codes "peer addr nullptr") s
  call_peer p g (some a) s =
      choose_id p g.random
        (record s { channel = record (s.channel) { client = some (make_client g.socket a) } })
      >>= λ r.
          let s' = record (r.1) {
            request = record empty_protocol { msg_id = r.0; method_name = g.method_name };
          } in
          if s'.channel.is_init
          then start_call p g g.serialized s'
          else fail p error_rpc_channel_init (codes "RpcChannel not call init()") s'

  unfoldable pub call_method : Option ℕ → Given → Call → Outcome Call
  unfolding call_peer
  call_method controller g s = or_fault controller >>= λ p.
      if g.has_messages
      then call_peer p g s.channel.peer_addr s
      else fail p error_rpc_channel_init (codes "controller or request or response NULL") s

  -- The callback of `readMessage`.
  unfoldable pub response_done : TinyPbProtocol → Call → Outcome Call
  unfolding call_back
  response_done m s = or_fault s.channel.controller >>= λ p.
      if not (parse_response m.pb_data)
      then fail p error_failed_serialize (codes "serialize error") s
      else if is_zero m.err_code
      then call_back s
      else fail p m.err_code m.err_info s

  -- The callback of `writeMessage`, with the request as `encode` left it, and any callback of the
  -- connection.
  abbrev pub sent_done : TinyPbProtocol → Call → Outcome Call
  sent_done m s = on_client (read_message m.msg_id response_callback) s

  unfoldable pub run_callback : ℕ → TinyPbProtocol → Call → Outcome Call
  unfolding response_done
  run_callback f m s = if f == sent_callback then sent_done m s else response_done m s

  unfoldable pub run_callbacks : List (ℕ × TinyPbProtocol) → Call → Outcome Call
  run_callbacks [] s = ok s
  run_callbacks ((f, m) ∷ fs) s = run_callback f m s >>= run_callbacks fs

  -- The timeout of the call.
  unfoldable pub time_out : Call → Outcome Call
  unfolding call_back
  time_out s = elim s.timer [
    | none ↦ ok s
    | some p ↦
        let c = s.controllers p in
        if c.is_finished
        then ok (record s { timer = none })
        else fail p error_rpc_call_timeout (codes "rpc call timeout " ++ decimal_ℤ c.timeout)
            (change p start_cancel (record s { timer = none }))
  ]

  abbrev pub with_connection :
      (TcpConnection → Outcome (List (ℕ × TinyPbProtocol) × TcpConnection)) → Call → Outcome Call
  unfolding run_callbacks
  with_connection f s = or_fault s.channel.client >>= λ c. or_fault c.connection >>= λ k.
      f k >>= λ r. run_callbacks r.0 (record s {
        channel = record (s.channel) { client = some (record c { connection = some r.1 }) };
      })

  unfoldable pub step : Event → Call → Outcome Call
  unfolding time_out connect_done with_connection
  step timeout s = time_out s
  step (connectable errno name socket) s =
      on_client (connect_event net strerror errno name socket) s >>= connect_done
  step (writable rs) s = with_connection (λ k. on_write rs k >>= λ w. ok (w.called, w.after)) s
  step (readable fuel rs) s = with_connection (on_read (λ m k. k) fuel rs) s

  unfoldable pub run_events : List Event → Call → Outcome Call
  run_events [] s = ok s
  run_events (e ∷ es) s = step e s >>= run_events es
