-- ===== src/Rpc/Channel/Answer.antt =====
-- The answer of a server, from its bytes to the closure of a call of rpc_channel.cc.
use my_rocket.Base.{
  ℕ, ◌+◌, ◌<◌, ◌≡◌, refl, ap, ◌∙◌, Bool, false, List, [], ◌∷◌, if◌then◌else◌, length, not, some,
  Text, ok, ◌>>=◌, true, Outcome,
}
use my_rocket.Base.Assoc.{lookup}
use my_rocket.Tcp.NetAddr.{Inet}
use my_rocket.Tcp.Buffer.{write_able}
use my_rocket.Tcp.Buffer.Contents.{contents}
use my_rocket.Tcp.Client.{TcpClient}
use my_rocket.Tcp.Connection.{TcpConnection, connected, by_client, ReadResult, bytes, complete}
use my_rocket.Tcp.Connection.Serve.{on_read-answers}
use my_rocket.Coder.TinyPb.{TinyPbProtocol}
use my_rocket.Coder.TinyPb.Parse.{IsSendable, received}
use my_rocket.Coder.TinyPb.RoundTrip.{IsOpen, packets}
use my_rocket.Rpc.ErrorCode.{error_failed_serialize}
use my_rocket.Rpc.Channel.{
  Call, step, readable, response_callback, response_done, is_zero, run_callbacks, run_callback,
}
use my_rocket.Rpc.Channel.Progress.{IsFinished}
use my_rocket.Rpc.Channel.Ending.{response_done_lem, there}

-- A message that is waited for.
complete_one :
    (m : TinyPbProtocol) (waiting : List (Text × ℕ)) (done : ℕ)
    → lookup m.msg_id waiting ≡ some done
    → (complete (m ∷ []) waiting).0 ≡ (done, m) ∷ []
unfolding complete
complete_one m waiting done h = rw (h, complete) refl

module _ (net : Inet) (strerror : ℕ → Text) (parse_response : List ℕ → Bool) where
  run_response :
      (m : TinyPbProtocol) (s : Call)
      → run_callbacks net strerror parse_response ((response_callback, m) ∷ []) s
        ≡ (response_done net strerror parse_response m s >>= λ t. ok t)
  unfolding run_callbacks run_callback
  run_response m s = refl

  -- When one `read` gives the packet of a sendable answer to a client that waits for its id, with an
  -- empty receive buffer with more room than that, the step ends: the closure has run once more, the
  -- controller is finished, and it has an error exactly if the data cannot be parsed or the answer has
  -- an error code, which is then the controller's.
  pub step-answer :
      (p fuel : ℕ) (m : TinyPbProtocol) (rs : List ReadResult) (s : Call) (c : TcpClient)
      (k : TcpConnection)
      → s.channel.controller ≡ some p
      → s.channel.has_closure ≡ true
      → (s.controllers p).is_finished ≡ false
      → s.channel.client ≡ some c
      → c.connection ≡ some k
      → k.state ≡ connected
      → k.connection_type ≡ by_client
      → IsOpen k.in_buffer
      → contents k.in_buffer ≡ []
      → lookup m.msg_id k.read_dones ≡ some response_callback
      → IsSendable m
      → length (packets (m ∷ [])) < write_able k.in_buffer
      → 1 < fuel
      → (t : Call) × (step net strerror parse_response
            (readable fuel (bytes (packets (m ∷ [])) ∷ rs))
            s
          ≡ ok t)
        × (t.runs ≡ s.runs + 1)
        × IsFinished p t
        × ((t.controllers p).error_code ≡ (
            if not (parse_response m.pb_data)
            then error_failed_serialize
            else if is_zero m.err_code
            then (s.controllers p).error_code
            else m.err_code))
  unfolding step
  step-answer p fuel m rs s c k own closure waiting client conn state by o empty awaited sendable
        fits enough =
      let (b, read, left) =
        on_read-answers (λ m k. k) k (m ∷ []) rs fuel state by o empty (sendable, tt) fits enough in
      let heard = complete (received m ∷ []) k.read_dones in
      let k' : TcpConnection = record k { in_buffer = b; read_dones = heard.1 } in
      let s' = record s {
        channel = record (s.channel) { client = some (record c { connection = some k' }) };
      } in
      let one = complete_one (received m) k.read_dones response_callback awaited in
      let (t, run, ran, done, code) =
        response_done_lem net strerror parse_response p (received m) s' own closure waiting in
      (
        t,
        there _ client
            ∙ (there _ conn
                ∙ (ap
                      (λ (r : Outcome (List (ℕ × TinyPbProtocol) × TcpConnection)). r >>= λ u.
                        run_callbacks net strerror parse_response u.0 (record s {
                          channel = record (s.channel) {
                            client = some (record c { connection = some u.1 });
                          };
                        }))
                      read
                    ∙ (ap (λ called. run_callbacks net strerror parse_response called s') one
                        ∙ (run_response (received m) s'
                            ∙ ap (λ (r : Outcome Call). r >>= λ v. ok v) run)))),
        ran,
        done,
        code,
      )
