-- ===== src/Rpc/EndToEnd/Begin.antt =====
-- The beginning of a call: `CallMethod` of rpc_channel.cc with `connect` of tcp_client.cc, up to a
-- request that waits to be sent.
use my_rocket.Base.{
  ℕ, ◌≡◌, refl, sym, ap, ◌∙◌, ◌⊎◌, inl, inr, ==_iff, Bool, true, false, List, [], ◌∷◌, pos, ℤ, none,
  some, Option, Text, Outcome, ok, ◌>>=◌, arith, length-replicate,
}
use my_rocket.Tcp.NetAddr.{Inet, IpNetAddr, SockAddr, is_empty}
use my_rocket.Tcp.Buffer.{init}
use my_rocket.Tcp.Buffer.Invariant.{init-IsValid}
use my_rocket.Tcp.Buffer.Contents.{contents}
use my_rocket.Tcp.Client.{
  TcpClient, Next, call_done, await_event, make_client, connect, connect_event, write_message,
  e_in_progress,
}
use my_rocket.Tcp.Connection.{
  TcpConnection, make_connection, set_connection_type, by_client, connected, set_state,
  listen_write, push_send_message,
}
use my_rocket.Coder.TinyPb.{TinyPbProtocol, empty_protocol}
use my_rocket.Coder.TinyPb.RoundTrip.{IsOpen}
use my_rocket.Common.MsgId.{MsgId, gen_msg_id}
use my_rocket.Rpc.Controller.{RpcController, set_msg_id}
use my_rocket.Rpc.Channel.{
  Controllers, change, go_on, Call, Given, connectable, call_method, call_peer, start_call,
  choose_id, connect_done, step, run_events, sent_callback,
}
use my_rocket.Rpc.EndToEnd.{IsAsking}

init-IsOpen : IsOpen (init 128)
unfolding init
init-IsOpen = record {
  valid = init-IsValid 128;
  room = omega (arith, length-replicate {A = ℕ} 128 0);
  small = omega (arith, length-replicate {A = ℕ} 128 0);
}

-- The message id of a call: that of its controller, or else of the request that the thread serves,
-- or else a new one.
abbrev pub IsNamed : ℕ → List ℕ → Text → Call → Type 0
IsNamed p random id s =
    ((is_empty (s.controllers p).msg_id ≡ false) × (id ≡ (s.controllers p).msg_id))
    ⊎ (((is_empty (s.controllers p).msg_id ≡ true)
          × (is_empty s.run_time.msgid ≡ false)
          × (id ≡ s.run_time.msgid))
        ⊎ ((ids : MsgId) × (is_empty (s.controllers p).msg_id ≡ true)
            × (is_empty s.run_time.msgid ≡ true)
            × (gen_msg_id s.msg_ids random ≡ ok (id, ids))))

-- `choose_id` gives the controller its id, and leaves the rest of it alone.
choose_id-IsNamed :
    (p : ℕ) (random : List ℕ) (id : Text) (s : Call)
    → IsNamed p random id s
    → (cs : Controllers) × (ids : MsgId) × (choose_id p random s
        ≡ ok (id, record s { controllers = cs; msg_ids = ids }))
      × (cs p ≡ set_msg_id id (s.controllers p))
unfolding choose_id set_msg_id
choose_id-IsNamed p random id s (inl (has, e)) =
    (s.controllers, s.msg_ids, rw has (ap (λ i. ok (i, s)) (sym e)), rw e refl)
choose_id-IsNamed p random id s (inr (inl (has, serves, e))) = (
  (change p (set_msg_id id) s).controllers,
  s.msg_ids,
  rw has (rw serves (rw e refl)),
  rw ((==_iff p p).1 refl) refl,
)
choose_id-IsNamed p random id s (inr (inr (ids, has, serves, made))) = (
  (change p (set_msg_id id) s).controllers,
  ids,
  rw has (rw serves (rw made refl)),
  rw ((==_iff p p).1 refl) refl,
)

-- A channel that is ready for a call, with its message id.
pub record IsFresh (p : ℕ) (a : IpNetAddr) (random : List ℕ) (id : Text) (s : Call) : Type 0 where
  pub own : s.channel.controller ≡ some p
  pub closure : s.channel.has_closure ≡ true
  pub is_init : s.channel.is_init ≡ true
  pub addr : s.channel.peer_addr ≡ some a
  pub waits : (s.controllers p).is_finished ≡ false
  pub is_named : IsNamed p random id s

-- The request of a call.
abbrev pub request_of : Given → List ℕ → Text → TinyPbProtocol
request_of g bytes id = record empty_protocol {
  msg_id = id;
  method_name = g.method_name;
  pb_data = bytes;
}

-- A new connection of a client that is connected, and with a request to send.
abbrev new_connection : TcpConnection
new_connection = set_state connected (set_connection_type by_client (make_connection 128 by_client))

abbrev sending : TcpClient → TcpConnection → TinyPbProtocol → Call → Call
sending c k q s = record s {
  channel = record (s.channel) {
    client =
        some (record c { connection = some (listen_write (push_send_message q sent_callback k)) });
  };
}

-- `done` of a client that is connected.
connect_done-sends :
    (p : ℕ) (c : TcpClient) (k : TcpConnection) (s : Call)
    → s.channel.controller ≡ some p
    → s.channel.client ≡ some c
    → c.connect_error_code ≡ pos 0
    → c.connection ≡ some k
    → connect_done s ≡ ok (sending c k s.request s)
unfolding connect_done write_message
connect_done-sends p c k s own client code conn = simp (own, client, code, conn)

module _ (net : Inet) (strerror : ℕ → Text) (parse_response : List ℕ → Bool) where
  connect_now :
      (fd : ℕ) (a : IpNetAddr) (name : Option SockAddr)
      → (c : TcpClient) × (connect net strerror none name (make_client (pos fd) a)
          ≡ ok (call_done, c))
        × (c.connect_error_code ≡ pos 0)
        × (c.connection ≡ some new_connection)
  unfolding connect make_client
  connect_now fd a none = (_, refl, refl, refl)
  connect_now fd a (some n) = (_, refl, refl, refl)

  call_peer-starts :
      (p : ℕ) (a : IpNetAddr) (bytes : List ℕ) (id : Text) (g : Given) (s : Call)
      → IsFresh p a g.random id s
      → g.serialized ≡ some bytes
      → (cs : Controllers) × (ids : MsgId) × (call_peer net strerror parse_response p g (some a) s
          ≡ (connect net strerror g.connected g.name (make_client g.socket a) >>= λ r.
              go_on r.0 (record s {
                channel = record (s.channel) { client = some r.1 };
                controllers = cs;
                msg_ids = ids;
                request = request_of g bytes id;
                timer = some p;
              })))
        × (cs p ≡ set_msg_id id (s.controllers p))
  unfolding call_peer start_call
  call_peer-starts p a bytes id g s f serialized =
      let s' = record s {
        channel = record (s.channel) { client = some (make_client g.socket a) };
      } in
      let (cs, ids, chosen, same) = choose_id-IsNamed p g.random id s' f.is_named in
      (cs, ids, rw chosen (rw f.is_init (rw serialized refl)), same)

  pub call_method_given :
      (p : ℕ) (g : Given) (s : Call)
      → g.has_messages ≡ true
      → call_method net strerror parse_response (some p) g s
        ≡ call_peer net strerror parse_response p g s.channel.peer_addr s
  unfolding call_method
  call_method_given p g s messages = rw messages refl

  -- The call up to its `connect`.
  call_method-starts :
      (p : ℕ) (a : IpNetAddr) (bytes : List ℕ) (id : Text) (g : Given) (s : Call)
      → IsFresh p a g.random id s
      → g.has_messages ≡ true
      → g.serialized ≡ some bytes
      → (cs : Controllers) × (ids : MsgId) × (call_method net strerror parse_response (some p) g s
          ≡ (connect net strerror g.connected g.name (make_client g.socket a) >>= λ r.
              go_on r.0 (record s {
                channel = record (s.channel) { client = some r.1 };
                controllers = cs;
                msg_ids = ids;
                request = request_of g bytes id;
                timer = some p;
              })))
        × (cs p ≡ set_msg_id id (s.controllers p))
  call_method-starts p a bytes id g s f messages serialized =
      let (cs, ids, starts, same) = call_peer-starts p a bytes id g s f serialized in
      (
        cs,
        ids,
        call_method_given p g s messages
            ∙ ap (λ peer. call_peer net strerror parse_response p g peer s) f.addr
            ∙ starts,
        same,
      )

  sending-IsAsking :
      (p : ℕ) (q : TinyPbProtocol) (c : TcpClient) (k : TcpConnection) (s : Call)
      → s.channel.controller ≡ some p
      → s.channel.has_closure ≡ true
      → (s.controllers p).is_finished ≡ false
      → k.state ≡ connected
      → k.connection_type ≡ by_client
      → k.out_buffer ≡ init 128
      → k.in_buffer ≡ init 128
      → k.write_dones ≡ []
      → k.read_dones ≡ []
      → let k' = listen_write (push_send_message q sent_callback k) in
        IsAsking p q (sending c k q s) (record c { connection = some k' }) k'
  unfolding listen_write push_send_message
  sending-IsAsking p q c k s own closure waits state by out in_ writes reads = record {
    own = own;
    closure = closure;
    waits = waits;
    client = refl;
    conn = refl;
    state = state;
    by = by;
    out = rw out (init-IsValid 128);
    nothing_out = rw out (unfold init contents in refl);
    one = rw writes refl;
    opened = rw in_ init-IsOpen;
    nothing_in = rw in_ (unfold init contents in refl);
    nothing_awaited = reads;
  }

  -- `connect` that has to wait, and the event that it waits for.
  connect_later :
      (fd : ℕ) (a : IpNetAddr) (given name : Option SockAddr) (socket : ℤ)
      → (c : TcpClient) × (c' : TcpClient) × (k : TcpConnection) × (connect net strerror
            (some e_in_progress)
            given
            (make_client (pos fd) a)
          ≡ ok (await_event, c))
        × (connect_event net strerror none name socket c ≡ ok c')
        × (c'.connect_error_code ≡ pos 0)
        × (c'.connection ≡ some k)
        × (k.state ≡ connected)
        × (k.connection_type ≡ by_client)
        × (k.out_buffer ≡ init 128)
        × (k.in_buffer ≡ init 128)
        × (k.write_dones ≡ [])
        × (k.read_dones ≡ [])
  unfolding connect connect_event make_client make_connection set_state listen_write
  connect_later fd a given none socket =
      (_, _, _, refl, refl, refl, refl, refl, refl, refl, refl, refl, refl)
  connect_later fd a given (some n) socket =
      (_, _, _, refl, refl, refl, refl, refl, refl, refl, refl, refl, refl)

  -- A call on a fresh channel with its messages, whose request is serialized and whose socket is
  -- made, comes to a connection that has exactly this request to send, with the id of the call,
  -- empty buffers of 128 bytes and no answer awaited: at once if `connect` succeeds at once, and
  -- with the event of its descriptor if `connect` is in progress. The timeout is armed, the closure
  -- has not run, and the controller is as it was but for its id.
  pub call_method-connects :
      (p fd : ℕ) (a : IpNetAddr) (bytes : List ℕ) (id : Text) (g : Given) (name : Option SockAddr)
      (socket : ℤ) (s : Call)
      → IsFresh p a g.random id s
      → g.has_messages ≡ true
      → g.serialized ≡ some bytes
      → g.socket ≡ pos fd
      → let Begun = λ (m : Outcome Call).
        (t : Call) × (c : TcpClient) × (k : TcpConnection) × (m ≡ ok t)
        × IsAsking p (request_of g bytes id) t c k
        × (k.in_buffer ≡ init 128)
        × (t.runs ≡ s.runs)
        × (t.timer ≡ some p)
        × (t.controllers p ≡ set_msg_id id (s.controllers p)) in
        (g.connected ≡ none → Begun (call_method net strerror parse_response (some p) g s))
        × (g.connected ≡ some e_in_progress
            → Begun (
                call_method net strerror parse_response (some p) g s
                >>= run_events net strerror parse_response (connectable none name socket ∷ [])))
  unfolding make_connection set_state listen_write push_send_message step run_events
  call_method-connects p fd a bytes id g name socket s f messages serialized made =
      let q = request_of g bytes id in
      let (cs, ids, start, same) = call_method-starts p a bytes id g s f messages serialized in
      let waits : (cs p).is_finished ≡ false =
        ap (λ (c : RpcController). c.is_finished) same ∙ (unfold set_msg_id in f.waits) in
      let given = λ (c : TcpClient). record s {
        channel = record (s.channel) { client = some c };
        controllers = cs;
        msg_ids = ids;
        request = q;
        timer = some p;
      } in
      let next = λ (r : Next × TcpClient). go_on r.0 (given r.1) in
      let goes =
        λ (c : TcpClient) (nx : Next) (o : Option ℕ) (e : g.connected ≡ o)
            (run : connect net strerror o g.name (make_client (pos fd) a) ≡ ok (nx, c)).
          start
          ∙ (ap (λ u. connect net strerror u g.name (make_client g.socket a) >>= next) e
              ∙ (ap (λ z. connect net strerror o g.name (make_client z a) >>= next) made
                  ∙ ap (λ (m : Outcome (Next × TcpClient)). m >>= next) run)) in
      let events = λ (m : Outcome Call).
        m >>= run_events net strerror parse_response (connectable none name socket ∷ []) in
      (
        λ e.
            let (c, run, code, conn) = connect_now fd a g.name in
            (
              sending c new_connection q (given c),
              _,
              _,
              goes c call_done none e run
                  ∙ connect_done-sends p c new_connection (given c) f.own refl code conn,
              sending-IsAsking p q c new_connection (given c) f.own f.closure waits refl refl refl
                  refl refl refl,
              refl,
              refl,
              refl,
              same,
            ),
        λ e.
            let (c, c', k, run, run', code, conn, state, by, out, in_, writes, reads) =
              connect_later fd a g.name name socket in
            (
              sending c' k q (given c'),
              _,
              _,
              ap events (goes c await_event (some e_in_progress) e run)
                  ∙ ap (λ (m : Outcome Call). m >>= run_events net strerror parse_response [])
                      (ap (λ (m : Outcome TcpClient). (m >>= λ d. ok (given d)) >>= connect_done)
                          run'
                        ∙ connect_done-sends p c' k (given c') f.own refl code conn),
              sending-IsAsking p q c' k (given c') f.own f.closure waits state by out in_ writes
                  reads,
              in_,
              refl,
              refl,
              same,
            ),
      )
