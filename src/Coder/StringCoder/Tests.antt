-- ===== src/Coder/StringCoder/Tests.antt =====
-- Texts through rocket/net/coder/string_coder.h.
use my_rocket.Base.{List, [], ◌∷◌}
use my_rocket.Tcp.Buffer.{TcpBuffer}
use my_rocket.Rpc.Dispatcher.{codes}
use my_rocket.Coder.StringCoder.{StringProtocol}

abbrev texts : List StringProtocol
texts = record { msg_id = []; info = codes "ab" } ∷ record { msg_id = []; info = codes "c" } ∷ []

abbrev small_buffer : TcpBuffer
small_buffer = record { read_index = 0; write_index = 0; size = 2; buffer = 0 ∷ 0 ∷ [] }
