-- ===== src/Rpc/EndToEnd.antt =====
-- A call from end to end: rpc_channel.cc and tcp_connection.cc on the side of the client,
-- tcp_connection.cc and rpc_dispatcher.cc on the side of the server, tinypb_coder.cc on both.
pub mod Begin
pub mod Whole
mod Tests
use my_rocket.Base.{
  ℕ, ◌+◌, ◌<◌, ◌≤◌, ◌≡◌, ◌≢◌, ◌^◌, refl, sym, ap, ◌∙◌, Bool, true, false, not, List, [], ◌∷◌, ◌++◌,
  length, map, All, inl, inr, if◌then◌else◌, some, none, Text, Outcome, ok, append-nil,
  append_assoc, Option-cases,
}
use mathlib.Core.List.{map-append}
use my_rocket.Tcp.NetAddr.{Inet}
use my_rocket.Tcp.Buffer.{write_able}
use my_rocket.Tcp.Buffer.Invariant.{IsValid}
use my_rocket.Tcp.Buffer.Contents.{contents}
use my_rocket.Tcp.Client.{TcpClient}
use my_rocket.Tcp.Connection.{
  TcpConnection, connected, by_client, bytes, wrote, on_write, Written, unlisten,
}
use my_rocket.Tcp.Connection.Send.{IsServing, on_write_lem, on_write_client}
use my_rocket.Tcp.Connection.Stream.{
  Part, IsCut, messages_of, left_of, on_reads, serve, wire, on_reads_lem, answered, joined,
}
use my_rocket.Coder.TinyPb.{TinyPbProtocol, empty_protocol, id_or_default}
use my_rocket.Coder.TinyPb.Parse.{IsSendable, packet, named, received}
use my_rocket.Coder.TinyPb.RoundTrip.{IsOpen, packets}
use my_rocket.Coder.TinyPb.Partial.{IsReady}
use my_rocket.Rpc.ErrorCode.{error_failed_serialize}
use my_rocket.Rpc.Dispatcher.{
  Service, RunTime, Ends, ServiceMap, dispatch, finish, set_tiny_pb_error,
}
use my_rocket.Rpc.Dispatcher.Routing.{IsAnswered, dispatch_replies}
use my_rocket.Rpc.Dispatcher.Serving.{dispatched, answers}
use my_rocket.Rpc.Channel.{Call, readable, writable, sent_callback, is_zero, run_events}
use my_rocket.Rpc.Channel.Progress.{IsFinished}
use my_rocket.Rpc.Channel.Exchange.{run_events-exchange}

-- The bytes of all reads.
unfoldable pub taken_of : List Part → List ℕ
taken_of [] = []
taken_of (p ∷ ps) = p.taken ++ taken_of ps

packets-append : (xs ys : List TinyPbProtocol) → packets (xs ++ ys) ≡ packets xs ++ packets ys
packets-append [] ys = refl
packets-append (x ∷ xs) ys =
    ap (λ zs. packet x [] ++ zs) (packets-append xs ys)
    ∙ sym (append_assoc (packet x []) (packets xs) (packets ys))

-- The reads of a stream are its packets and what is left.
taken_of_lem :
    (size : ℕ) (xs : List ℕ) (ps : List Part)
    → IsCut size xs ps
    → xs ++ taken_of ps ≡ packets (messages_of ps) ++ left_of xs ps
unfolding taken_of messages_of left_of
taken_of_lem size xs [] cut = append-nil xs
taken_of_lem size xs (p ∷ ps) (whole, _, _, _, cuts) =
    sym (append_assoc xs p.taken (taken_of ps))
    ∙ (ap (λ ys. ys ++ taken_of ps) whole
        ∙ (append_assoc (packets p.messages) p.left (taken_of ps)
            ∙ (ap (λ ys. packets p.messages ++ ys) (taken_of_lem size p.left ps cuts)
                ∙ (sym (
                      append_assoc (packets p.messages) (packets (messages_of ps))
                        (left_of p.left ps))
                    ∙ ap (λ ys. ys ++ left_of p.left ps)
                        (sym (packets-append p.messages (messages_of ps)))))))

-- A call that is connected: its controller waits, and its connection has the request to send and
-- nothing else.
pub record IsAsking (p : ℕ) (q : TinyPbProtocol) (s : Call) (c : TcpClient) (k : TcpConnection)
    : Type 0 where
  pub own : s.channel.controller ≡ some p
  pub closure : s.channel.has_closure ≡ true
  pub waits : (s.controllers p).is_finished ≡ false
  pub client : s.channel.client ≡ some c
  pub conn : c.connection ≡ some k
  pub state : k.state ≡ connected
  pub by : k.connection_type ≡ by_client
  pub out : IsValid k.out_buffer
  pub nothing_out : contents k.out_buffer ≡ []
  pub one : k.write_dones ≡ (q, sent_callback) ∷ []
  pub opened : IsOpen k.in_buffer
  pub nothing_in : contents k.in_buffer ≡ []
  pub nothing_awaited : k.read_dones ≡ []

module _ {Method Req Rsp : Type 0} (services : ServiceMap Method Req Rsp) (ends : Ends)
    (run_time : RunTime) where
  msg_id-finish :
      (service : Service Method Req Rsp) (answer : Rsp) (rsp : TinyPbProtocol) (rt : RunTime)
      → (finish service (some answer) rsp rt).response.msg_id ≡ rsp.msg_id
  unfolding finish set_tiny_pb_error
  msg_id-finish service answer rsp rt = elim (Option-cases (service.serialize answer)) [
    | inl e ↦ rw (e, finish) refl
    | inr (out, e) ↦ rw (e, finish) refl
  ]

  msg_id-dispatch :
      (req : TinyPbProtocol)
      → IsAnswered services ends req
      → (dispatched services ends run_time req).response.msg_id ≡ req.msg_id
  unfolding dispatch
  msg_id-dispatch req a =
      rw (dispatch, a.parts)
        (rw (a.stored, a.found, a.parsed, a.called) (msg_id-finish a.service a.answer _ _))

  named_again : (q m : TinyPbProtocol) → m.msg_id ≡ (named q).msg_id → named m ≡ m
  named_again q m e =
      ap (λ t. record m { msg_id = t }) (ap id_or_default e ∙ (again q.msg_id ∙ sym e))
    where
      again : (t : List ℕ) → id_or_default (id_or_default t) ≡ id_or_default t
      again [] = refl
      again (x ∷ t) = refl

  answered_one :
      (req : TinyPbProtocol)
      → IsAnswered services ends req
      → answered (answers services ends run_time) (req ∷ [])
        ≡ (dispatched services ends run_time req).response ∷ []
  unfolding answered joined
  answered_one req hit = elim (dispatch_replies services ends req empty_protocol run_time) [
    | inl (_, once) ↦ rw once refl
    | inr (miss, _) ↦ absurd (miss hit)
  ]

  -- What a server with its dispatcher does with a stream that is one request.
  served_once :
      (size fuel n : ℕ) (req : TinyPbProtocol) (ps : List Part) (k : TcpConnection)
      → IsServing k
      → IsReady size k.in_buffer
      → size < 2 ^ 30
      → contents k.in_buffer ≡ []
      → contents k.out_buffer ≡ []
      → IsCut size [] ps
      → All (λ r. length r.messages < fuel) ps
      → messages_of ps ≡ req ∷ []
      → IsAnswered services ends (received req)
      → let m = (dispatched services ends run_time (received req)).response in
        named m ≡ m
        → length (packets (m ∷ [])) ≤ n
        → (k' : TcpConnection) × (w : Written) × (on_reads
              (serve (answers services ends run_time))
              fuel
              ps
              k
            ≡ ok k')
          × (on_write (wrote n ∷ []) k' ≡ ok w)
          × (w.writes ≡ packets (m ∷ []) ∷ [])
  served_once size fuel n req ps k s r small empty nothing cut enough one hit same fits =
      let m = (dispatched services ends run_time (received req)).response in
      let send = answers services ends run_time in
      let (k', run, sent, _, s', _) =
        on_reads_lem send size fuel [] ps k s r small empty cut enough in
      let replies : answered send (map received (messages_of ps)) ≡ m ∷ [] =
        ap (λ ms. answered send (map received ms)) one ∙ answered_one (received req) hit in
      let held : contents k'.out_buffer ≡ packets (m ∷ []) =
        sent
        ∙ (ap (λ ys. ys ++ wire (answered send (map received (messages_of ps)))) nothing
            ∙ (ap wire replies ∙ ap (λ x. packets (x ∷ [])) same)) in
      let put = on_write_lem k' n s' (λ e. cc (e, held)) (rw held fits) in
      (
        k',
        record { writes = contents k'.out_buffer ∷ []; called = []; after = unlisten true k' },
        run,
        put,
        rw held refl,
      )

  -- A connected call whose socket takes the packet of its request, a server that gets these bytes in
  -- any reads that it can wait between, and a dispatcher that knows the method and gets an answer from
  -- it: the server's connection hands its socket exactly the packet of one response, and with a read of
  -- this packet the call ends. The closure has run once more and the controller is finished, with an
  -- error exactly as the data and the code of the response say. The request and the response are
  -- sendable, and there is room for them in the receive buffers.
  pub call-answered :
      (net : Inet) (strerror : ℕ → Text) (parse_response : List ℕ → Bool)
      (p n n' fuel fuel' size : ℕ) (q : TinyPbProtocol) (ps : List Part) (s : Call) (c : TcpClient)
      (k served : TcpConnection)
      → IsAsking p q s c k
      → length (packets (named q ∷ [])) ≤ n
      → IsServing served
      → IsReady size served.in_buffer
      → size < 2 ^ 30
      → contents served.in_buffer ≡ []
      → contents served.out_buffer ≡ []
      → IsCut size [] ps
      → All (λ r. length r.messages < fuel) ps
      → messages_of ps ≡ named q ∷ []
      → left_of [] ps ≡ []
      → IsAnswered services ends (received (named q))
      → let m = (dispatched services ends run_time (received (named q))).response in
        IsSendable m
        → length (packets (m ∷ [])) ≤ n'
        → length (packets (m ∷ [])) < write_able k.in_buffer
        → 1 < fuel'
        → (w : Written) × (served' : TcpConnection) × (w' : Written) × (t : Call) × (on_write
              (wrote n ∷ [])
              k
            ≡ ok w)
          × (w.writes ≡ taken_of ps ∷ [])
          × (on_reads (serve (answers services ends run_time)) fuel ps served ≡ ok served')
          × (on_write (wrote n' ∷ []) served' ≡ ok w')
          × (w'.writes ≡ packets (m ∷ []) ∷ [])
          × (run_events net strerror parse_response
                (writable (wrote n ∷ []) ∷ readable fuel' (bytes (packets (m ∷ [])) ∷ []) ∷ [])
                s
              ≡ ok t)
          × (t.runs ≡ s.runs + 1)
          × IsFinished p t
          × ((t.controllers p).error_code ≡ (
              if not (parse_response m.pb_data)
              then error_failed_serialize
              else if is_zero m.err_code
              then (s.controllers p).error_code
              else m.err_code))
  call-answered net strerror parse p n n' fuel fuel' size q ps s c k served a taken sv r small empty
        nothing cut enough one none_left hit sendable fits room rounds =
      let m = (dispatched services ends run_time (received (named q))).response in
      let (b, asked) =
        on_write_client k q sent_callback n a.state a.by a.out a.nothing_out a.one taken in
      let id : m.msg_id ≡ (named q).msg_id = msg_id-dispatch (received (named q)) hit in
      let (served', w', run, put, wired) =
        served_once size fuel n' (named q) ps served sv r small empty nothing cut enough one hit
          (named_again q m id) fits in
      let (t, ended, ran, done, code) =
        run_events-exchange net strerror parse p n fuel' q m [] s c k a.own a.closure a.waits
          a.client a.conn a.state a.by a.out a.nothing_out a.one taken a.opened a.nothing_in
          a.nothing_awaited id sendable room rounds in
      let stream : taken_of ps ≡ packets (named q ∷ []) =
        taken_of_lem size [] ps cut ∙ (rw (one, none_left) (append-nil (packets (named q ∷ [])))) in
      (
        _,
        served',
        w',
        t,
        asked,
        ap (λ xs. xs ∷ []) (sym stream),
        run,
        put,
        wired,
        ended,
        ran,
        done,
        code,
      )
