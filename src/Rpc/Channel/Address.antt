-- ===== src/Rpc/Channel/Address.antt =====
-- Where `FindAddr` of rpc_channel.cc finds an address.
use my_rocket.Base.{◌≡◌, refl, ap, false, some, Text, Without, find_first_of-none}
use my_rocket.Tcp.NetAddr.{Inet, check_valid}
use my_rocket.Common.Config.{
  Xml, Config, load, loaded, first_child, first_named, stub_nodes, load-stubs,
}
use my_rocket.Rpc.Dispatcher.{codes}
use my_rocket.Rpc.Channel.{find_addr, addr_of}

no_colon : (s : Text) → Without b':' s → check_valid s ≡ false
unfolding check_valid
no_colon s w = rw (find_first_of-none b':' s w, check_valid) refl

-- A name without a colon, looked up in a configuration that was loaded, leads to the address of the first
-- stub of the document that has this name, and to none if no stub has it.
pub find_addr-load :
    {Node : Type 0} (net : Inet) (xml : Xml Node) (document root : Node) (c : Config) (name : Text)
    → Without b':' name
    → load net xml document ≡ loaded c
    → first_child net xml document (codes "root") ≡ some root
    → find_addr net c.rpc_stubs name ≡ addr_of (first_named net xml name (stub_nodes net xml root))
unfolding find_addr
find_addr-load net xml document root c name w h r =
    rw (no_colon name w) (ap addr_of (load-stubs net xml document root c name h r))
