-- ===== src/Rpc/Channel/Exchange.antt =====
-- A request and its answer, from the connection of a client to the closure of a call of
-- rpc_channel.cc.
use my_rocket.Base.{
  ℕ, ◌+◌, ◌<◌, ◌≡◌, refl, ap, ◌∙◌, Bool, false, List, [], ◌∷◌, if◌then◌else◌, length, not, some,
  Text, ok, ◌>>=◌, true, Outcome,
}
use my_rocket.Base.Assoc.{lookup}
use my_rocket.Tcp.NetAddr.{Inet}
use my_rocket.Tcp.Buffer.{write_able}
use my_rocket.Tcp.Buffer.Contents.{contents}
use my_rocket.Tcp.Client.{TcpClient}
use my_rocket.Tcp.Connection.{TcpConnection, connected, by_client, ReadResult, bytes}
use my_rocket.Coder.TinyPb.{TinyPbProtocol}
use my_rocket.Coder.TinyPb.Parse.{IsSendable}
use my_rocket.Coder.TinyPb.RoundTrip.{IsOpen, packets}
use my_rocket.Rpc.ErrorCode.{error_failed_serialize}
use my_rocket.Rpc.Channel.{
  Call, step, readable, response_callback, is_zero, run_callbacks, run_callback,
}
use my_rocket.Rpc.Channel.Progress.{IsFinished}
use my_rocket.Rpc.Channel.Ending.{there}
use my_rocket.Base.{same_self, [], ◌≤◌, refl}
use my_rocket.Base.Assoc.{insert}
use my_rocket.Tcp.Buffer.{TcpBuffer}
use my_rocket.Tcp.Buffer.Invariant.{IsValid}
use my_rocket.Tcp.Client.{read_message}
use my_rocket.Tcp.Connection.{Written, wrote, unlisten, listen_read, push_read_message}
use my_rocket.Tcp.Connection.Send.{on_write_client}
use my_rocket.Coder.TinyPb.Parse.{named}
use my_rocket.Rpc.Channel.{writable, sent_callback, run_callback, run_events}
use my_rocket.Rpc.Channel.Answer.{step-answer}

module _ (net : Inet) (strerror : ℕ → Text) (parse_response : List ℕ → Bool) where
  -- What a connection is once its only request is sent: it waits for the answer.
  abbrev asked : TcpBuffer → Text → TcpConnection → TcpConnection
  asked b id k = listen_read (
      push_read_message id response_callback
        (record (unlisten true k) { out_buffer = b; write_dones = [] }))

  abbrev with_client : TcpClient → TcpConnection → Call → Call
  with_client c k s = record s {
    channel = record (s.channel) { client = some (record c { connection = some k }) };
  }

  abbrev told : Written → Outcome (List (ℕ × TinyPbProtocol) × TcpConnection)
  told w = ok (w.called, w.after)

  step-sent :
      (n : ℕ) (q : TinyPbProtocol) (s : Call) (c : TcpClient) (k : TcpConnection)
      → s.channel.client ≡ some c
      → c.connection ≡ some k
      → k.state ≡ connected
      → k.connection_type ≡ by_client
      → IsValid k.out_buffer
      → contents k.out_buffer ≡ []
      → k.write_dones ≡ (q, sent_callback) ∷ []
      → length (packets (named q ∷ [])) ≤ n
      → (b : TcpBuffer) × (step net strerror parse_response (writable (wrote n ∷ [])) s
          ≡ ok (with_client c (asked b (named q).msg_id k) s))
  unfolding step run_callbacks run_callback read_message
  step-sent n q s c k client conn state by v bare one h =
      let (b, written) = on_write_client k q sent_callback n state by v bare one h in
      (
        b,
        there _ client
            ∙ (there _ conn
                ∙ ap
                    (λ (o : Outcome Written). (o >>= told) >>= λ u.
                      run_callbacks net strerror parse_response u.0 (with_client c u.1 s))
                    written),
      )

  awaited_id :
      (id id' : Text) (b : TcpBuffer) (k : TcpConnection)
      → k.read_dones ≡ []
      → id' ≡ id
      → lookup id' (asked b id k).read_dones ≡ some response_callback
  unfolding push_read_message listen_read insert lookup
  awaited_id id id' b k nothing e = simp (nothing, e, same_self id)

  -- When the connection of a client has one request to send, with nothing in its buffers and no answer
  -- awaited, its socket takes the whole packet, and one `read` then gives the packet of a sendable
  -- answer with the id that was sent, the two steps end: the closure has run once more and the
  -- controller is finished, with an error exactly as the answer's data and error code say.
  pub run_events-exchange :
      (p n fuel : ℕ) (q m : TinyPbProtocol) (rs : List ReadResult) (s : Call) (c : TcpClient)
      (k : TcpConnection)
      → s.channel.controller ≡ some p
      → s.channel.has_closure ≡ true
      → (s.controllers p).is_finished ≡ false
      → s.channel.client ≡ some c
      → c.connection ≡ some k
      → k.state ≡ connected
      → k.connection_type ≡ by_client
      → IsValid k.out_buffer
      → contents k.out_buffer ≡ []
      → k.write_dones ≡ (q, sent_callback) ∷ []
      → length (packets (named q ∷ [])) ≤ n
      → IsOpen k.in_buffer
      → contents k.in_buffer ≡ []
      → k.read_dones ≡ []
      → m.msg_id ≡ (named q).msg_id
      → IsSendable m
      → length (packets (m ∷ [])) < write_able k.in_buffer
      → 1 < fuel
      → (t : Call) × (run_events net strerror parse_response
            (writable (wrote n ∷ []) ∷ readable fuel (bytes (packets (m ∷ [])) ∷ rs) ∷ [])
            s
          ≡ ok t)
        × (t.runs ≡ s.runs + 1)
        × IsFinished p t
        × ((t.controllers p).error_code ≡ (
            if not (parse_response m.pb_data)
            then error_failed_serialize
            else if is_zero m.err_code
            then (s.controllers p).error_code
            else m.err_code))
  unfolding run_events push_read_message listen_read
  run_events-exchange p n fuel q m rs s c k own closure waiting client conn state by v bare one
        taken o empty nothing e sendable fits enough =
      let (b, sent) = step-sent n q s c k client conn state by v bare one taken in
      let k' = asked b (named q).msg_id k in
      let (t, run, ran, done, code) =
        step-answer net strerror parse_response p fuel m rs (with_client c k' s)
          (record c { connection = some k' }) k' own closure waiting refl refl state by o empty
          (awaited_id (named q).msg_id m.msg_id b k nothing e) sendable fits enough in
      (
        t,
        ap
              (λ (r : Outcome Call).
                r
                >>= run_events net strerror parse_response
                    (readable fuel (bytes (packets (m ∷ [])) ∷ rs) ∷ []))
              sent
            ∙ ap (λ (r : Outcome Call). r >>= λ u. ok u) run,
        ran,
        done,
        code,
      )
