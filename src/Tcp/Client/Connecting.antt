-- ===== src/Tcp/Client/Connecting.antt =====
-- Connecting by rocket/net/tcp/tcp_client.cc, with the event that it may wait for.
use my_rocket.Base.{
  ℕ, ◌≡◌, ◌⊎◌, inl, inr, refl, ◌∙◌, ◌++◌, ◌==◌, ℤ, pos, Option, none, some, Text, Outcome, ok,
  ◌>>=◌, arith, Bool-cases,
}
use my_rocket.Tcp.NetAddr.{Inet, SockAddr}
use my_rocket.Tcp.Connection.{TcpConnection, connected, set_state, listen_write}
use my_rocket.Rpc.Dispatcher.{codes}
use my_rocket.Rpc.ErrorCode.{error_peer_closed, error_failed_connect}
use my_rocket.Tcp.Client.{
  TcpClient, call_done, await_event, connect, connect_event, connect_failed, init_local_addr,
  unlist, e_in_progress, e_is_conn, e_conn_refused,
}

module _ (net : Inet) (strerror : ℕ → Text) where
  -- `connect` and, if it waits, its event.
  unfoldable pub connect_all :
      Option ℕ → Option ℕ → Option SockAddr → ℤ → TcpClient → Outcome TcpClient
  unfolding connect connect_event
  connect_all first later name socket c = connect net strerror first name c >>= λ r. elim r.0 [
    | call_done ↦ ok r.1
    | await_event ↦ connect_event net strerror later name socket r.1
  ]

  -- Connected at once, or found connected when the descriptor is ready.
  abbrev pub Succeeds : Option ℕ → Option ℕ → Type 0
  Succeeds first later =
      (first ≡ none) ⊎ ((first ≡ some e_in_progress) × ((later ≡ none) ⊎ (later ≡ some e_is_conn)))

  init_local_addr_keeps :
      (name : Option SockAddr) (c : TcpClient)
      → ((init_local_addr net strerror name c).connection ≡ c.connection)
        × ((init_local_addr net strerror name c).connect_error_code ≡ c.connect_error_code)
  init_local_addr_keeps none c = (refl, refl)
  init_local_addr_keeps (some a) c = (refl, refl)

  -- What the event of a client with a connection leaves.
  connect_event_lem :
      (later : Option ℕ) (name : Option SockAddr) (socket : ℤ) (c : TcpClient) (k : TcpConnection)
      → c.connection ≡ some k
      → (c' : TcpClient) × (k' : TcpConnection) × (connect_event net strerror later name socket c
          ≡ ok c')
        × (c'.connection ≡ some k')
        × ((((later ≡ none) ⊎ (later ≡ some e_is_conn))
              × (c'.connect_error_code ≡ c.connect_error_code)
              × (k'.state ≡ connected))
            ⊎ ((¬ ((later ≡ none) ⊎ (later ≡ some e_is_conn)))
                × ((c'.connect_error_code ≡ error_peer_closed)
                    ⊎ (c'.connect_error_code ≡ error_failed_connect))
                × (k'.state ≡ k.state)))
  unfolding connect_event set_state
  connect_event_lem none name socket c k has =
      let (kept, code) = init_local_addr_keeps name c in
      let there = kept ∙ has in
      (
        record (init_local_addr net strerror name c) {
          connection = some (unlist (set_state connected k));
        },
        unlist (set_state connected k),
        simp there,
        refl,
        inl (inl refl, code, refl),
      )
  connect_event_lem (some n) name socket c k has = elim (Bool-cases (n == e_is_conn)) [
    | inl found ↦
        let (kept, code) = init_local_addr_keeps name c in
        let there = kept ∙ has in
        (
          record (init_local_addr net strerror name c) {
            connection = some (unlist (set_state connected k));
          },
          unlist (set_state connected k),
          simp (found, there),
          refl,
          inl (inr (ground (arith, found)), code, refl),
        )
    | inr failed ↦ elim (Bool-cases (n == e_conn_refused)) [
      | inl refused ↦ (
        record (connect_failed error_peer_closed
            (codes "connect refused, sys error = " ++ strerror n) c) {
              fd = socket;
              connection = some (unlist k);
            },
        unlist k,
        simp (failed, refused, has),
        refl,
        inr ((λ s. ground (arith, s, failed)), inl refl, refl),
      )
      | inr other ↦ (
        record (connect_failed error_failed_connect
            (codes "connect unkonwn error, sys error = " ++ strerror n) c) {
              fd = socket;
              connection = some (unlist k);
            },
        unlist k,
        simp (failed, other, has),
        refl,
        inr ((λ s. ground (arith, s, failed)), inr refl, refl),
      )
    ]
  ]

  -- Connecting a client that has a socket and no error yet ends. If it succeeds, the error code stays 0
  -- and the connection is in state `Connected`; if not, the code is one of the two that the source
  -- sets, none of them 0, and the state of the connection is as before.
  pub connect_all_lem :
      (first later : Option ℕ) (name : Option SockAddr) (socket : ℤ) (c : TcpClient)
      (k : TcpConnection)
      → c.connection ≡ some k
      → c.connect_error_code ≡ pos 0
      → (c' : TcpClient) × (k' : TcpConnection) × (connect_all first later name socket c ≡ ok c')
        × (c'.connection ≡ some k')
        × ((Succeeds first later × (c'.connect_error_code ≡ pos 0) × (k'.state ≡ connected))
            ⊎ ((¬ Succeeds first later)
                × ((c'.connect_error_code ≡ error_peer_closed)
                    ⊎ (c'.connect_error_code ≡ error_failed_connect))
                × (k'.state ≡ k.state)))
  unfolding connect_all set_state listen_write
  connect_all_lem none later name socket c k has e = (
    init_local_addr net strerror name (record c { connection = some (set_state connected k) }),
    set_state connected k,
    simp has,
    (init_local_addr_keeps name _).0,
    inl (inl refl, (init_local_addr_keeps name _).1 ∙ e, refl),
  )
  connect_all_lem (some n) later name socket c k has e = elim (Bool-cases (n == e_in_progress)) [
    | inl waits ↦
        let waiting = record c { connection = some (listen_write k) } in
        let (c', k', runs, there, ending) =
          connect_event_lem later name socket waiting (listen_write k) refl in
        (
          c',
          k',
          simp (waits, has, runs),
          there,
          elim ending [
            | inl (found, code, state) ↦ inl (inr (ground (arith, waits), found), code ∙ e, state)
            | inr (lost, codes, state) ↦ inr ((λ s. ground (arith, s, lost)), codes, state)
          ],
        )
    | inr fails ↦ (
      connect_failed error_failed_connect (codes "connect error, sys error = " ++ strerror n) c,
      k,
      rw fails refl,
      has,
      inr ((λ s. ground (arith, s, fails)), inr refl, refl),
    )
  ]
