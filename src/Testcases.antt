-- ===== src/Testcases.antt =====
-- The server of testcases/test_rpc_server.cc: the service `Order` of order.proto. Its messages are
-- records; how protobuf parses and serializes them is an argument.
mod Tests
use mathlib.Core.Option.{some-injective}
use my_rocket.Base.{
  ℕ, ◌≡◌, ◌<◌, ◌^◌, length, All, map, ok, refl, ap, ◌∙◌, Bool, true, false, List, [], ◌∷◌, ◌++◌,
  ltb, if◌then◌else◌, ℤ, pos, negsuc, Option, none, some, Text, same, find_first_of, Bool-cases,
  inl, inr, Option-cases, Without,
}
use my_rocket.Base.Assoc.{lookup, assign}
use my_rocket.Coder.TinyPb.{TinyPbProtocol, empty_protocol}
use my_rocket.Rpc.Controller.{RpcController}
use my_rocket.Rpc.Dispatcher.{
  Service, ServiceMap, RunTime, Ends, register_service, get_rpc_dispatcher, dispatch, finish,
  parse_service_full_name, codes, controller_for,
}
use my_rocket.Tcp.Connection.Stream.{
  Part, IsCut, messages_of, on_reads, serve, answered, joined, wire, on_reads_lem,
}
use my_rocket.Tcp.Buffer.Contents.{contents}
use my_rocket.Tcp.Connection.{TcpConnection}
use my_rocket.Tcp.Connection.Send.{IsServing}
use my_rocket.Coder.TinyPb.Partial.{IsReady}
use my_rocket.Coder.TinyPb.Parse.{received}
use my_rocket.Rpc.Dispatcher.Serving.{answers, dispatched}
use my_rocket.Rpc.Dispatcher.Routing.{dispatch-register_service, dispatch_replies, IsAnswered}

pub record MakeOrderRequest : Type 0 where
  pub price : ℤ
  pub goods : Text

pub record MakeOrderResponse : Type 0 where
  pub ret_code : ℤ
  pub res_info : Text
  pub order_id : Text

-- What `New` gives for the response.
abbrev pub new_response : MakeOrderResponse
new_response = record { ret_code = pos 0; res_info = []; order_id = [] }

-- `request->price() < 10`
unfoldable pub is_cheap : ℤ → Bool
is_cheap (pos n) = ltb n 10
is_cheap (negsuc n) = true

-- `makeOrder` of `OrderImpl`: the response it fills in, and whether it runs `done`.
unfoldable pub make_order : MakeOrderRequest → Bool → MakeOrderResponse → MakeOrderResponse × Bool
make_order request done response =
    if is_cheap request.price
    then (record response { ret_code = negsuc 0; res_info = codes "short balance" }, false)
    else (record response { order_id = codes "20230514" }, done)

-- The response behind a closure that has run.
abbrev answer_of : MakeOrderResponse × Bool → Option MakeOrderResponse
answer_of (r, ran) = if ran then some r else none

module _ (parse : List ℕ → Option MakeOrderRequest)
    (serialize : MakeOrderResponse → Option (List ℕ)) where
  unfoldable pub order_impl : Service Text MakeOrderRequest MakeOrderResponse
  order_impl = record {
    full_name = codes "Order";
    find_method = λ m. if same m (codes "makeOrder") then some m else none;
    parse_request = λ m bytes. parse bytes;
    call_method = λ m controller request. answer_of (make_order request true new_response);
    serialize = serialize;
  }

  -- The services of the server.
  unfoldable pub services : ServiceMap Text MakeOrderRequest MakeOrderResponse
  services = register_service order_impl (get_rpc_dispatcher none)

  -- The request is for `Order.makeOrder`.
  abbrev pub IsOrder : TinyPbProtocol → Type 0
  IsOrder req = req.method_name ≡ codes "Order.makeOrder"

  abbrev pub reply_of : List ℕ → TinyPbProtocol → TinyPbProtocol
  reply_of bytes req = record empty_protocol {
    msg_id = req.msg_id;
    method_name = req.method_name;
    pb_data = bytes;
  }

  -- The replies to some orders, if an order that is placed is answered with these bytes: one for
  -- each order that can be read and is not cheap.
  unfoldable pub placed : List ℕ → List TinyPbProtocol → List TinyPbProtocol
  placed bytes [] = []
  placed bytes (req ∷ reqs) = elim (parse req.pb_data) [
    | none ↦ placed bytes reqs
    | some m ↦
        if is_cheap m.price then placed bytes reqs else reply_of bytes req ∷ placed bytes reqs
  ]

  parts_of_order :
      parse_service_full_name (codes "Order.makeOrder") ≡ some (codes "Order", codes "makeOrder")
  unfolding parse_service_full_name find_first_of
  parts_of_order = refl

  stored_order : lookup (codes "Order") services ≡ some order_impl
  unfolding services get_rpc_dispatcher register_service assign lookup same order_impl
  stored_order = refl

  -- The replies to one order.
  abbrev replies_of : List ℕ → TinyPbProtocol → Option MakeOrderRequest → List (List TinyPbProtocol)
  replies_of bytes req none = []
  replies_of bytes req (some m) = if is_cheap m.price then [] else (reply_of bytes req ∷ []) ∷ []

  replies-dispatch :
      (ends : Ends) (rt : RunTime) (bytes : List ℕ) (req : TinyPbProtocol)
      → IsOrder req
      → serialize (record new_response { order_id = codes "20230514" }) ≡ some bytes
      → answers services ends rt req ≡ replies_of bytes req (parse req.pb_data)
  unfolding dispatch finish order_impl make_order same
  replies-dispatch ends rt bytes req order e =
      let parts : parse_service_full_name req.method_name
          ≡ some (codes "Order", codes "makeOrder") =
        ap parse_service_full_name order ∙ parts_of_order in
      elim (Option-cases (parse req.pb_data)) [
        | inl f ↦ rw (answers, dispatch, parts) (rw (stored_order, f) refl)
        | inr (m, f) ↦ elim (Bool-cases (is_cheap m.price)) [
          | inl c ↦ rw (answers, dispatch, parts) (rw (stored_order, f, c) refl)
          | inr c ↦ rw (answers, dispatch, parts) (rw (stored_order, f, c, e) refl)
        ]
      ]

  answered-placed :
      (ends : Ends) (rt : RunTime) (bytes : List ℕ) (reqs : List TinyPbProtocol)
      → All IsOrder reqs
      → serialize (record new_response { order_id = codes "20230514" }) ≡ some bytes
      → answered (answers services ends rt) reqs ≡ placed bytes reqs
  unfolding answered placed
  answered-placed ends rt bytes [] orders e = refl
  answered-placed ends rt bytes (req ∷ reqs) orders e =
      let rest = answered-placed ends rt bytes reqs orders.1 e in
      let one = replies-dispatch ends rt bytes req orders.0 e in
      elim (Option-cases (parse req.pb_data)) [
        | inl f ↦ rw (one, rest, placed, f) (unfold joined in refl)
        | inr (m, f) ↦ elim (Bool-cases (is_cheap m.price)) [
          | inl c ↦ rw (one, rest, placed, f, c) (unfold joined in refl)
          | inr c ↦ rw (one, rest, placed, f, c) (unfold joined in refl)
        ]
      ]

  received-IsOrder : (ms : List TinyPbProtocol) → All IsOrder ms → All IsOrder (map received ms)
  received-IsOrder [] h = tt
  received-IsOrder (m ∷ ms) h = (h.0, received-IsOrder ms h.1)

  -- However a stream of orders is cut into reads, up to a cut within a length and a start byte
  -- within what waits, the server's connection reads every part to its end, and its send buffer
  -- grows by exactly the replies to the orders that can be read and are not cheap, in order, each
  -- with the bytes of the placed order: a cheap order gets no reply at all. Bytes that wait and
  -- those of the next read together are fewer than two thirds of the receive buffer, `decode` has
  -- more rounds than messages, and a placed order can be serialized.
  pub on_reads-placed :
      (ends : Ends) (rt : RunTime) (bytes : List ℕ) (size fuel : ℕ) (ps : List Part)
      (c : TcpConnection)
      → IsServing c
      → IsReady size c.in_buffer
      → size < 2 ^ 30
      → IsCut size (contents c.in_buffer) ps
      → All (λ p. length p.messages < fuel) ps
      → All IsOrder (messages_of ps)
      → serialize (record new_response { order_id = codes "20230514" }) ≡ some bytes
      → (c' : TcpConnection) × (on_reads (serve (answers services ends rt)) fuel ps c ≡ ok c')
        × (contents c'.out_buffer
            ≡ contents c.out_buffer ++ wire (placed bytes (map received (messages_of ps))))
  on_reads-placed ends rt bytes size fuel ps c s r small cut enough orders e =
      let (c', run, sent, _, _, _) =
        on_reads_lem (answers services ends rt) size fuel (contents c.in_buffer) ps c s r small refl
          cut enough in
      (
        c',
        run,
        sent
            ∙ ap (λ ms. contents c.out_buffer ++ wire ms)
                (answered-placed ends rt bytes _ (received-IsOrder (messages_of ps) orders) e),
      )
