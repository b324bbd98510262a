-- ===== src/Agent/WireGuard.antt =====
-- services/vpn-agent/src/nebula_agent/drivers/config_store.py: the peers of a WireGuard interface, the
-- text of its configuration, and the files. A text is the list of its lines, each split at its first
-- `=`: the names before it are texts, the values behind it stand for their texts, which are outside of
-- the model. Keys are numbers.
pub mod RoundTrip
pub mod Driver
pub mod Refines
use Prim.Native.String.{String}
use text.Mathlib.Text.{◌==◌ as same_text, starts_with}
use vpn.Prelude.{ℕ, Bool, true, false, Option, none, some, List, [], ◌∷◌, ◌++◌, ◌==◌, if◌then◌else◌}

pub data IpAddress : Type 0 where
  v4 v6 : ℕ → IpAddress

-- The prefix of `_host_cidr`.
abbrev pub host_prefix : IpAddress → ℕ
host_prefix (v4 value) = 32
host_prefix (v6 value) = 128

pub record RenderedPeer : Type 0 where
  pub public_key : ℕ
  pub assigned_address : IpAddress
  pub persistent_keepalive_seconds : Option ℕ
  pub generation : ℕ

-- `DesiredInterfaceState`, by its one field.
abbrev pub DesiredInterfaceState : Type 0
DesiredInterfaceState = List RenderedPeer

abbrev pub without_peer : ℕ → DesiredInterfaceState → DesiredInterfaceState
without_peer key [] = []
without_peer key (p ∷ peers) =
    let rest = without_peer key peers in if p.public_key == key then rest else p ∷ rest

abbrev pub with_peer : RenderedPeer → DesiredInterfaceState → DesiredInterfaceState
with_peer new peers = without_peer new.public_key peers ++ (new ∷ [])

abbrev pub peer : ℕ → DesiredInterfaceState → Option RenderedPeer
peer key [] = none
peer key (p ∷ peers) = if p.public_key == key then some p else peer key peers

pub record WireGuardInterfaceIdentity : Type 0 where
  pub private_key : ℕ
  pub listen_port : ℕ

-- The text behind a `=`, stripped, by what it is the text of: a base64 key, `str` of a number, or an
-- address with its prefix.
pub data Value : Type 0 where
  key_text number_text : ℕ → Value
  cidr_text : IpAddress → ℕ → Value

-- A line that was stripped: one without `=`, or the two sides of the first `=`, stripped too.
pub data Line : Type 0 where
  plain : String → Line
  assigned : String → Value → Line

abbrev pub keepalive_lines : Option ℕ → List Line
keepalive_lines none = []
keepalive_lines (some seconds) = assigned "PersistentKeepalive" (number_text seconds) ∷ []

abbrev pub interface_lines : Option WireGuardInterfaceIdentity → List Line
interface_lines none = []
interface_lines (some identity) =
    plain "[Interface]"
    ∷ assigned "PrivateKey" (key_text identity.private_key)
    ∷ assigned "ListenPort" (number_text identity.listen_port)
    ∷ plain ""
    ∷ []

abbrev pub peer_lines : DesiredInterfaceState → List Line
peer_lines [] = []
peer_lines (p ∷ peers) =
    plain "[Peer]"
    ∷ assigned "PublicKey" (key_text p.public_key)
    ∷ assigned "AllowedIPs" (cidr_text p.assigned_address (host_prefix p.assigned_address))
    ∷ (keepalive_lines p.persistent_keepalive_seconds
        ++ (assigned "# Generation" (number_text p.generation) ∷ plain "" ∷ peer_lines peers))

-- `render_wireguard_config`
unfoldable pub render_wireguard_config :
    DesiredInterfaceState → Option WireGuardInterfaceIdentity → List Line
render_wireguard_config desired interface = interface_lines interface ++ peer_lines desired

-- The parser's variables.
pub record Parser : Type 0 where
  pub peers : List RenderedPeer
  pub public_key : Option ℕ
  pub address : Option IpAddress
  pub keepalive : Option ℕ
  pub generation : ℕ

abbrev pub flushed_peers : Option ℕ → Option IpAddress → Parser → List RenderedPeer
flushed_peers none address st = st.peers
flushed_peers (some key) none st = st.peers
flushed_peers (some key) (some address) st =
    st.peers
    ++ (record {
      public_key = key;
      assigned_address = address;
      persistent_keepalive_seconds = st.keepalive;
      generation = st.generation;
    }
        ∷ [])

-- `flush`
abbrev pub flush : Parser → Parser
flush st = record {
  peers = flushed_peers st.public_key st.address st;
  public_key = none;
  address = none;
  keepalive = none;
  generation = 0;
}

-- What a value is read as. A value of another kind than its name calls for, which nothing renders, is
-- passed over here.
abbrev pub read_generation : Value → Parser → Parser
read_generation (number_text n) st = record st { generation = n }
read_generation (key_text k) st = st
read_generation (cidr_text address prefix) st = st

abbrev pub read_public_key : Value → Parser → Parser
read_public_key (key_text k) st = record st { public_key = some k }
read_public_key (number_text n) st = st
read_public_key (cidr_text address prefix) st = st

-- `ip_address(value.split("/", 1)[0])`
abbrev pub read_address : Value → Parser → Parser
read_address (cidr_text address prefix) st = record st { address = some address }
read_address (key_text k) st = st
read_address (number_text n) st = st

abbrev pub read_keepalive : Value → Parser → Parser
read_keepalive (number_text n) st = record st { keepalive = some n }
read_keepalive (key_text k) st = st
read_keepalive (cidr_text address prefix) st = st

-- One turn of the loop.
abbrev pub parse_line : Line → Parser → Parser
parse_line (plain text) st = if same_text text "[Peer]" then flush st else st
parse_line (assigned name value) st =
    if starts_with name "# Generation"
    then read_generation value st
    else if starts_with name "#"
    then st
    else if same_text name "PublicKey"
    then read_public_key value st
    else if same_text name "AllowedIPs"
    then read_address value st
    else if same_text name "PersistentKeepalive"
    then read_keepalive value st
    else st

abbrev pub parse_lines : List Line → Parser → Parser
parse_lines [] st = st
parse_lines (line ∷ lines) st = parse_lines lines (parse_line line st)

abbrev pub no_peers : Parser
no_peers = record {
  peers = [];
  public_key = none;
  address = none;
  keepalive = none;
  generation = 0;
}

-- `parse_wireguard_config`
unfoldable pub parse_wireguard_config : List Line → DesiredInterfaceState
parse_wireguard_config text = (flush (parse_lines text no_peers)).peers

-- The interface's configuration in the kernel, and the two files.
pub record Host : Type 0 where
  pub interface : List Line
  pub last_known_good : Option (List Line)
  pub candidate : Option (List Line)

abbrev pub read_file : Option (List Line) → DesiredInterfaceState
read_file none = []
read_file (some text) = parse_wireguard_config text

-- `read_last_known_good`
unfoldable pub read_last_known_good : Host → DesiredInterfaceState
read_last_known_good h = read_file h.last_known_good

-- `write_candidate_atomically`, where the file system does not fail.
abbrev pub write_candidate_atomically : List Line → Host → Host
write_candidate_atomically text h = record h { candidate = some text }

-- `promote_candidate_to_last_known_good`
abbrev pub promote_candidate_to_last_known_good : Host → Host
promote_candidate_to_last_known_good h = record h {
  last_known_good = h.candidate;
  candidate = none;
}

abbrev pub file_or_rendered : WireGuardInterfaceIdentity → Option (List Line) → List Line
file_or_rendered identity none = render_wireguard_config [] (some identity)
file_or_rendered identity (some text) = text

-- `rollback_text`
unfoldable pub rollback_text : WireGuardInterfaceIdentity → Host → List Line
rollback_text identity h = file_or_rendered identity h.last_known_good
