-- ===== src/Tcp/Client/Tests.antt =====
-- Connecting by rocket/net/tcp/tcp_client.cc.
use my_rocket.Base.{ℕ, ◌≡◌, ◌⊎◌, refl, [], ◌∷◌, none, some, Text, ok, pos}
use my_rocket.Tcp.NetAddr.{Inet}
use my_rocket.Tcp.Connection.{TcpConnection, connected, by_client, make_connection}
use my_rocket.Rpc.ErrorCode.{error_peer_closed, error_failed_connect}
use my_rocket.Tcp.Client.{TcpClient, make_client, e_in_progress, e_conn_refused}
use my_rocket.Tcp.Client.Connecting.{connect_all, connect_all_lem, Succeeds}

abbrev some_net : Inet
some_net = record { inet_addr = λ s. 7; inet_ntoa = λ n. b'h' ∷ [] }

abbrev no_text : ℕ → Text
no_text n = []

abbrev client : TcpClient
client = make_client (pos 5) (record { ip = b'h' ∷ []; port = 80; sock = none })

-- In progress, then refused.
connect_all_lem_example :
    (c' : TcpClient) × (k' : TcpConnection) × (connect_all some_net no_text
        (some e_in_progress)
        (some e_conn_refused)
        none
        (pos 6)
        client
      ≡ ok c')
    × (c'.connection ≡ some k')
    × ((Succeeds some_net no_text (some e_in_progress) (some e_conn_refused)
          × (c'.connect_error_code ≡ pos 0)
          × (k'.state ≡ connected))
        ⊎ ((¬ Succeeds some_net no_text (some e_in_progress) (some e_conn_refused))
            × ((c'.connect_error_code ≡ error_peer_closed)
                ⊎ (c'.connect_error_code ≡ error_failed_connect))
            × (k'.state ≡ (make_connection 128 by_client).state)))
unfolding make_connection
connect_all_lem_example =
    connect_all_lem some_net no_text (some e_in_progress) (some e_conn_refused) none (pos 6) client
      (make_connection 128 by_client) (unfold make_client in refl) (unfold make_client in refl)
