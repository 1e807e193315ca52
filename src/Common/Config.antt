-- ===== src/Common/Config.antt =====
-- rocket/common/config.h and config.cc. An XML document is tinyxml's: the parameter `Xml` gives, for a
-- node and a name, the children of that name in order (`FirstChildElement` is the first of them,
-- `NextSiblingElement` the next), and a node's text. A missing node ends the program, except below a
-- stub, where it is a null pointer.
use my_rocket.Base.{
  ◌≡◌, refl, sym, ap, ◌∙◌, List, [], ◌∷◌, if◌then◌else◌, ℤ, pos, Option, none, some, Text, atoi,
  same, arith,
}
use my_rocket.Base.Assoc.{lookup, insert, lookup-insert}
use my_rocket.Tcp.NetAddr.{Inet, IpNetAddr, of_ip_port, to_u16}
use my_rocket.Rpc.Dispatcher.{codes}

pub record Xml (Node : Type 0) : Type 0 where
  pub children : Node → Text → List Node
  pub get_text : Node → Option Text

-- A configuration, the exit with the name of the node that is not there, or a null pointer.
pub data Loading {ℓ} (A : Type ℓ) : Type ℓ where
  loaded : A → Loading A
  exits : Text → Loading A
  crashed : Loading A

infixl 5 ◌>>=◌
abbrev pub ◌>>=◌ {ℓ κ} : {A : Type ℓ} {B : Type κ} → Loading A → (A → Loading B) → Loading B
loaded a >>= f = f a
exits name >>= f = exits name
crashed >>= f = crashed

abbrev pub or_exit {ℓ} : {A : Type ℓ} → Text → Option A → Loading A
or_exit name none = exits name
or_exit name (some a) = loaded a

abbrev loaded_or {ℓ} : {A : Type ℓ} → A → Loading A → A
loaded_or d (loaded a) = a
loaded_or d (exits name) = d
loaded_or d crashed = d

>>=-eq-loaded {ℓ κ} :
    {X : Type ℓ} {Y : Type κ} (first : Loading X) (next : X → Loading Y) {end : Y}
    → (first >>= next) ≡ loaded end
    → (x : X) × (first ≡ loaded x) × (next x ≡ loaded end)
>>=-eq-loaded (loaded x) next e = (x, refl, e)
>>=-eq-loaded (exits name) next e = cc
>>=-eq-loaded crashed next e = cc

-- The first of two that is there.
abbrev pub prefer {ℓ} : {A : Type ℓ} → Option A → Option A → Option A
prefer none b = b
prefer (some a) b = some a

pub record RpcStub : Type 0 where
  pub name : Text
  pub addr : IpNetAddr
  pub timeout : ℤ

pub record Config : Type 0 where
  pub log_level : Text
  pub log_file_name : Text
  pub log_file_path : Text
  pub log_max_file_size : ℤ
  pub log_sync_interval : ℤ
  pub port : ℤ
  pub io_threads : ℤ
  pub rpc_stubs : List (Text × RpcStub)

-- The constructor with no file.
unfoldable pub default_config : Config
default_config = record {
  log_level = codes "DEBUG";
  log_file_name = [];
  log_file_path = [];
  log_max_file_size = pos 0;
  log_sync_interval = pos 0;
  port = pos 0;
  io_threads = pos 0;
  rpc_stubs = [];
}

module _ {Node : Type 0} (net : Inet) (xml : Xml Node) where
  abbrev pub first_child : Node → Text → Option Node
  first_child n name = elim (xml.children n name) [ [] ↦ none | c ∷ cs ↦ some c ]

  -- The macro READ_XML_NODE.
  abbrev pub read_node : Text → Node → Loading Node
  read_node name parent = or_exit name (first_child parent name)

  -- The macro READ_STR_FROM_XML_NODE.
  abbrev pub child_text : Text → Node → Option Text
  child_text name parent = elim (first_child parent name) [ none ↦ none | some c ↦ xml.get_text c ]

  unfoldable pub read_str : Text → Node → Loading Text
  read_str name parent = or_exit name (child_text name parent)

  -- `FirstChildElement(name)->GetText()`, for a `std::string` or `atoi`.
  unfoldable pub text_of : Text → Node → Loading Text
  text_of name parent = elim (child_text name parent) [ none ↦ crashed | some t ↦ loaded t ]

  unfoldable pub read_stub : Node → Loading RpcStub
  unfolding text_of
  read_stub node = text_of (codes "name") node >>= λ name.
      text_of (codes "timeout") node >>= λ timeout. text_of (codes "ip") node >>= λ ip.
      text_of (codes "port") node >>= λ port. loaded (record {
        name = name;
        addr = of_ip_port net ip (to_u16 (atoi port));
        timeout = atoi timeout;
      })

  unfoldable pub read_stubs : List Node → List (Text × RpcStub) → Loading (List (Text × RpcStub))
  unfolding read_stub
  read_stubs [] m = loaded m
  read_stubs (n ∷ ns) m = read_stub n >>= λ stub. read_stubs ns (insert stub.name stub m)

  -- The stubs of a document, if it has any.
  abbrev pub stub_nodes : Node → List Node
  stub_nodes root = elim (first_child root (codes "stubs")) [
    | none ↦ []
    | some stubs ↦ xml.children stubs (codes "rpc_server")
  ]

  -- The texts that the constructor reads, with no stubs yet.
  unfoldable pub read_settings : Node → Node → Loading Config
  unfolding read_str
  read_settings log server = read_str (codes "log_level") log >>= λ log_level.
      read_str (codes "log_file_name") log >>= λ log_file_name.
      read_str (codes "log_file_path") log >>= λ log_file_path.
      read_str (codes "log_max_file_size") log >>= λ log_max_file_size.
      read_str (codes "log_sync_interval") log >>= λ log_sync_interval.
      read_str (codes "port") server >>= λ port.
      read_str (codes "io_threads") server >>= λ io_threads. loaded (record {
        log_level = log_level;
        log_file_name = log_file_name;
        log_file_path = log_file_path;
        log_max_file_size = atoi log_max_file_size;
        log_sync_interval = atoi log_sync_interval;
        port = atoi port;
        io_threads = atoi io_threads;
        rpc_stubs = [];
      })

  -- The constructor, below the root of a document that was read.
  unfoldable pub load_root : Node → Loading Config
  unfolding read_settings read_stubs
  load_root root = read_node (codes "log") root >>= λ log.
      read_node (codes "server") root >>= λ server. read_settings log server >>= λ c.
      read_stubs (stub_nodes root) [] >>= λ rpc_stubs. loaded (record c { rpc_stubs = rpc_stubs })

  unfoldable pub load : Node → Loading Config
  unfolding load_root
  load document = read_node (codes "root") document >>= load_root

  -- The constructor with a file, which is read into a document or, with an exit, is not.
  unfoldable pub load_file : Option Node → Loading Config
  unfolding load
  load_file none = exits []
  load_file (some document) = load document

  -- `SetGlobalConfig`, with a file or without: the first call counts.
  unfoldable pub set_global_config : Option (Option Node) → Option Config → Loading Config
  unfolding load_file default_config
  set_global_config xmlfile (some c) = loaded c
  set_global_config none none = loaded default_config
  set_global_config (some file) none = load_file file

  -- The first stub of a name among some nodes.
  unfoldable pub first_named : Text → List Node → Option RpcStub
  first_named name [] = none
  first_named name (n ∷ ns) = elim (read_stub n) [
    | loaded stub ↦ if same stub.name name then some stub else first_named name ns
    | exits e ↦ none
    | crashed ↦ none
  ]

  lookup-read_stubs :
      (k : Text) (ns : List Node) (m m' : List (Text × RpcStub))
      → read_stubs ns m ≡ loaded m'
      → lookup k m' ≡ prefer (lookup k m) (first_named k ns)
  unfolding read_stubs first_named
  lookup-read_stubs k [] m m' h = ground (arith, h)
  lookup-read_stubs k (n ∷ ns) m m' h =
      let (stub, e, rest) =
        >>=-eq-loaded (read_stub n) (λ stub. read_stubs ns (insert stub.name stub m)) h in
      let later = lookup-read_stubs k ns (insert stub.name stub m) m' rest in
      ground (arith, later, e, lookup-insert stub.name k stub m)

  -- What `load` does behind the root.
  load_root-stubs :
      (root : Node) (c : Config) (k : Text)
      → load_root root ≡ loaded c
      → lookup k c.rpc_stubs ≡ first_named k (stub_nodes root)
  unfolding load_root
  load_root-stubs root c k h =
      let (log, e1, h1) = >>=-eq-loaded (read_node (codes "log") root) _ {end = c} h in
      let (server, e2, h2) = >>=-eq-loaded (read_node (codes "server") root) _ {end = c} h1 in
      let (c', e3, h3) = >>=-eq-loaded (read_settings log server) _ {end = c} h2 in
      let (stubs, e4, h4) = >>=-eq-loaded (read_stubs (stub_nodes root) []) _ {end = c} h3 in
      let kept : c.rpc_stubs ≡ stubs = ap (λ l. (loaded_or c l).rpc_stubs) (sym h4) in
      rw kept (unfold lookup in lookup-read_stubs k (stub_nodes root) [] stubs e4)

  -- When a configuration is loaded, a name leads to the first stub of the document that has it: later
  -- stubs of the same name are ignored, and a name that no stub has is not found.
  pub load-stubs :
      (document root : Node) (c : Config) (k : Text)
      → load document ≡ loaded c
      → first_child document (codes "root") ≡ some root
      → lookup k c.rpc_stubs ≡ first_named k (stub_nodes root)
  unfolding load
  load-stubs document root c k h r =
      load_root-stubs root c k (ap (λ o. or_exit (codes "root") o >>= load_root) (sym r) ∙ h)
