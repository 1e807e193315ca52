-- ===== src/Rpc/Dispatcher/Serving.antt =====
-- A server's connection with the dispatcher behind it: tcp_connection.cc hands each request to
-- `RpcDispatcher::dispatch` of rpc_dispatcher.cc with a new response object, and the dispatcher calls
-- `reply` of the connection. `RunTime` is left as it is from request to request: no reply reads it.
use my_rocket.Base.{ℕ, ◌<◌, ◌≡◌, ◌^◌, refl, List, [], ◌∷◌, ◌++◌, length, map, All, inl, inr, ok}
use my_rocket.Tcp.Buffer.Contents.{contents}
use my_rocket.Coder.TinyPb.{TinyPbProtocol, empty_protocol}
use my_rocket.Coder.TinyPb.Parse.{received}
use my_rocket.Coder.TinyPb.Partial.{IsReady}
use my_rocket.Tcp.Connection.{TcpConnection}
use my_rocket.Tcp.Connection.Send.{IsServing}
use my_rocket.Tcp.Connection.Stream.{
  Part, IsCut, messages_of, left_of, on_reads, serve, answered, joined, wire, on_reads_lem,
}
use my_rocket.Rpc.Dispatcher.{RunTime, Ends, ServiceMap, dispatch, Dispatched}
use my_rocket.Rpc.Dispatcher.Routing.{IsAnswered, dispatch_replies}

module _ {Method Req Rsp : Type 0} (services : ServiceMap Method Req Rsp) (ends : Ends)
    (run_time : RunTime) where
  abbrev pub dispatched : TinyPbProtocol → Dispatched
  dispatched req = dispatch services ends req empty_protocol run_time

  -- What the connection gets from the dispatcher for a request.
  abbrev pub answers : TinyPbProtocol → List (List TinyPbProtocol)
  answers req = (dispatched req).replies

  -- The responses to some requests, in order: one for each request that reaches a method that answers.
  pub data Responses : List TinyPbProtocol → List TinyPbProtocol → Type 0 where
    done : Responses [] []
    replied :
        {req : TinyPbProtocol} {reqs rsps : List TinyPbProtocol}
        → IsAnswered services ends req
        → Responses reqs rsps
        → Responses (req ∷ reqs) ((dispatched req).response ∷ rsps)
    silent :
        {req : TinyPbProtocol} {reqs rsps : List TinyPbProtocol}
        → ¬ IsAnswered services ends req
        → Responses reqs rsps
        → Responses (req ∷ reqs) rsps

  answered-Responses : (reqs : List TinyPbProtocol) → Responses reqs (answered answers reqs)
  unfolding answered joined
  answered-Responses [] = done
  answered-Responses (req ∷ reqs) =
      elim (dispatch_replies services ends req empty_protocol run_time) [
        | inl (hit, once) ↦ rw once (replied hit (answered-Responses reqs))
        | inr (miss, never) ↦ rw never (silent miss (answered-Responses reqs))
      ]

  -- However a stream of requests is cut into reads, up to a cut within a length and a start byte within
  -- what waits, a connected server with its dispatcher reads every part to its end, and its send buffer
  -- grows by exactly the packets of these responses: one for each request that reaches a method that
  -- answers, in order, and none for any other. Bytes that wait and those of the next read together are
  -- fewer than two thirds of the receive buffer, and `decode` has more rounds than messages.
  pub on_reads-dispatch :
      (size fuel : ℕ) (ps : List Part) (c : TcpConnection)
      → IsServing c
      → IsReady size c.in_buffer
      → size < 2 ^ 30
      → IsCut size (contents c.in_buffer) ps
      → All (λ p. length p.messages < fuel) ps
      → (c' : TcpConnection) × (rsps : List TinyPbProtocol) × (on_reads (serve answers) fuel ps c
          ≡ ok c')
        × Responses (map received (messages_of ps)) rsps
        × (contents c'.out_buffer ≡ contents c.out_buffer ++ wire rsps)
        × (contents c'.in_buffer ≡ left_of (contents c.in_buffer) ps)
  on_reads-dispatch size fuel ps c s r small cut enough =
      let reqs = map received (messages_of ps) in
      let (c', run, sent, left, _, _) =
        on_reads_lem answers size fuel (contents c.in_buffer) ps c s r small refl cut enough in
      (c', answered answers reqs, run, answered-Responses reqs, sent, left)
