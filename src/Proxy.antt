-- ===== src/Proxy.antt =====
-- The proxy, proxy/: what its modules make of a packet (proxybase.hpp, pdproxy.cpp, amd64proxy.cpp,
-- netbsdvaxproxy.cpp). The library that writes JSON is not in the repository: an object is the list of
-- the fields that are set, in order.
pub mod Hex
pub mod Panels
pub mod Accept
pub mod Loop
pub mod EndToEnd
pub mod FromX64
pub mod FromVax
pub mod FromPdp
pub mod Main
use Prim.Native.String.{String}
use udproxy.Base.{ℕ, ◌+◌, Bool, true, List, [], ◌∷◌, length, if◌then◌else◌, ltb, ◌==◌, not}
use udproxy.Base.Bytes.{window}
use udproxy.Layout.{CType, u16, load, struct_size}
use udproxy.Packet.{header_size}
use udproxy.PanelState.{host}

-- A field's value.
pub data Value : Type 0 where
  number : ℕ → Value
  truth : Bool → Value
  text : List ℕ → Value

abbrev pub Object : Type 0
Object = List (String × Value)

-- What `get_panel_state` leaves: the panel's bytes, or the message that it logs, with its numbers.
pub data Parsed : Type 0 where
  panel_state : List ℕ → Parsed
  small_header : (size : ℕ) → Parsed
  small_packet : (size total : ℕ) → Parsed
  invalid_size : (pp_byte_count expected : ℕ) → Parsed

-- `members` is the panel's struct, which is packed as the header is.
unfoldable pub get_panel_state : (members : List CType) → List ℕ → Parsed
get_panel_state members data_bytes =
    let size = length data_bytes in
    let pp_byte_count = load host u16 data_bytes 0 in
    let expected_total_size = header_size host + pp_byte_count in
    let panel_size = struct_size host true members in
    if ltb size (header_size host)
    then small_header size
    else if ltb size expected_total_size
    then small_packet size expected_total_size
    else if not (pp_byte_count == panel_size)
    then invalid_size pp_byte_count panel_size
    else panel_state (window data_bytes (header_size host) panel_size)
