-- ===== src/Rpc/EndToEnd/Whole.antt =====
-- A whole call: from `CallMethod` of rpc_channel.cc over both connections and the dispatcher to the
-- user's closure.
use my_rocket.Base.{
  ℕ, ◌+◌, ◌<◌, ◌≤◌, ◌≡◌, ◌^◌, ap, ◌∙◌, Bool, true, not, List, [], ◌∷◌, length, All, if◌then◌else◌,
  ℤ, pos, some, none, Option, Text, Outcome, ok, ◌>>=◌,
}
use my_rocket.Tcp.NetAddr.{Inet, IpNetAddr, SockAddr}
use my_rocket.Tcp.Buffer.{write_able, init}
use my_rocket.Tcp.Buffer.Contents.{contents}
use my_rocket.Tcp.Client.{TcpClient, e_in_progress}
use my_rocket.Tcp.Connection.{TcpConnection, bytes, wrote, on_write, Written}
use my_rocket.Tcp.Connection.Send.{IsServing}
use my_rocket.Tcp.Connection.Stream.{Part, IsCut, messages_of, left_of, on_reads, serve}
use my_rocket.Coder.TinyPb.Parse.{IsSendable, named, received}
use my_rocket.Coder.TinyPb.RoundTrip.{packets}
use my_rocket.Coder.TinyPb.Partial.{IsReady}
use my_rocket.Rpc.ErrorCode.{error_failed_serialize}
use my_rocket.Rpc.Controller.{RpcController, set_msg_id}
use my_rocket.Rpc.Dispatcher.{RunTime, Ends, ServiceMap}
use my_rocket.Rpc.Dispatcher.Routing.{IsAnswered}
use my_rocket.Rpc.Dispatcher.Serving.{dispatched, answers}
use my_rocket.Rpc.Channel.{
  Call, Given, call_method, connectable, readable, writable, is_zero, run_events,
}
use my_rocket.Rpc.Channel.Progress.{IsFinished}
use my_rocket.Rpc.EndToEnd.{taken_of, call-answered}
use my_rocket.Rpc.EndToEnd.Begin.{IsFresh, request_of, call_method-connects}

module _ {Method Req Rsp : Type 0} (services : ServiceMap Method Req Rsp) (ends : Ends)
    (run_time : RunTime) (net : Inet) (strerror : ℕ → Text) (parse_response : List ℕ → Bool) where
  -- A call on a fresh channel with its messages, whose request is serialized, whose socket is made,
  -- whose `connect` is in progress and then succeeds, and which has the id of its controller, of
  -- the request that its thread serves, or a new one; and a server whose connection has empty
  -- buffers. If the sockets take the two packets whole, the server gets the bytes of the request in
  -- reads that it can wait between, with all that waits below two thirds of its buffer, its
  -- dispatcher knows the method and gets an answer from it, and the client gets the packet of the
  -- response in one read, then the call ends: the closure has run once, and the controller is
  -- finished, with an error exactly as the data and the code of the response say. The connection
  -- that the call has come to hands its socket exactly the bytes that the server's reads took, the
  -- packet of the request, and the server's socket is handed the packet of that one response. Both
  -- are sendable, and there is room for them.
  pub call_method-answered :
      (p fd n n' fuel fuel' size : ℕ) (a : IpNetAddr) (data_bytes : List ℕ) (id : Text) (g : Given)
      (name : Option SockAddr) (socket : ℤ) (ps : List Part) (s : Call) (served : TcpConnection)
      → IsFresh p a g.random id s
      → g.has_messages ≡ true
      → g.serialized ≡ some data_bytes
      → g.socket ≡ pos fd
      → g.connected ≡ some e_in_progress
      → let q = request_of g data_bytes id in
        length (packets (named q ∷ [])) ≤ n
        → IsServing served
        → IsReady size served.in_buffer
        → size < 2 ^ 30
        → contents served.in_buffer ≡ []
        → contents served.out_buffer ≡ []
        → IsCut size [] ps
        → All (λ r. length r.messages < fuel) ps
        → messages_of ps ≡ named q ∷ []
        → left_of [] ps ≡ []
        → IsAnswered services ends (received (named q))
        → let m = (dispatched services ends run_time (received (named q))).response in
          IsSendable m
          → length (packets (m ∷ [])) ≤ n'
          → length (packets (m ∷ [])) < write_able (init 128)
          → 1 < fuel'
          → (begun : Call) × (c : TcpClient) × (k : TcpConnection) × (w : Written)
            × (served' : TcpConnection) × (w' : Written) × (t : Call) × (call_method net strerror
                    parse_response
                    (some p)
                    g
                    s
                  >>= run_events net strerror parse_response (connectable none name socket ∷ [])
                ≡ ok begun)
            × (begun.channel.client ≡ some c)
            × (c.connection ≡ some k)
            × (on_write (wrote n ∷ []) k ≡ ok w)
            × (w.writes ≡ taken_of ps ∷ [])
            × (on_reads (serve (answers services ends run_time)) fuel ps served ≡ ok served')
            × (on_write (wrote n' ∷ []) served' ≡ ok w')
            × (w'.writes ≡ packets (m ∷ []) ∷ [])
            × (call_method net strerror parse_response (some p) g s
                  >>= run_events net strerror parse_response (connectable none name socket ∷ [])
                  >>= run_events net strerror parse_response (
                      writable (wrote n ∷ []) ∷ readable fuel' (bytes (packets (m ∷ [])) ∷ []) ∷ [])
                ≡ ok t)
            × (t.runs ≡ s.runs + 1)
            × IsFinished p t
            × ((t.controllers p).error_code ≡ (
                if not (parse_response m.pb_data)
                then error_failed_serialize
                else if is_zero m.err_code
                then (s.controllers p).error_code
                else m.err_code))
  call_method-answered p fd n n' fuel fuel' size a data_bytes id g name socket ps s served f
        messages serialized made later taken sv r small empty nothing cut enough one none_left hit
        sendable fits room rounds =
      let m =
        (dispatched services ends run_time
          (received (named (request_of g data_bytes id)))).response in
      let (t1, c, k, begun, asking, in_, runs, _, same) =
        (call_method-connects net strerror parse_response p fd a data_bytes id g name socket s f
            messages serialized made).1
          later in
      let (w, served', w', t, asked, stream, run, put, wired, ended, ran, done, code) =
        call-answered services ends run_time net strerror parse_response p n n' fuel fuel' size
          (request_of g data_bytes id) ps t1 c k served asking taken sv r small empty nothing cut
          enough one none_left hit sendable fits (rw in_ room) rounds in
      (
        t1,
        c,
        k,
        w,
        served',
        w',
        t,
        begun,
        asking.client,
        asking.conn,
        asked,
        stream,
        run,
        put,
        wired,
        ap
              (λ (o : Outcome Call).
                o
                >>= run_events net strerror parse_response
                    (writable (wrote n ∷ []) ∷ readable fuel' (bytes (packets (m ∷ [])) ∷ []) ∷ []))
              begun
            ∙ ended,
        ran ∙ ap (λ i. i + 1) runs,
        done,
        code
            ∙ unfold set_msg_id in
              ap
                (λ (o : RpcController).
                  if not (parse_response m.pb_data)
                  then error_failed_serialize
                  else if is_zero m.err_code
                  then o.error_code
                  else m.err_code)
                same,
      )
