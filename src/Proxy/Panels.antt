-- ===== src/Proxy/Panels.antt =====
-- The three panels as JSON objects: `udp_packet_to_json` of pdproxy.cpp, amd64proxy.cpp and
-- netbsdvaxproxy.cpp.
pub mod Modes
use Prim.Native.String.{String}
use udproxy.Base.{
  ℕ, ◌+◌, ◌/◌, ◌%◌, ◌^◌, Bool, true, false, ◌&&◌, ◌||◌, not, Option, none, some, List, [], ◌∷◌,
  replicate, if◌then◌else◌, ◌==◌,
}
use udproxy.Layout.{CType, u16, u32, u64}
use udproxy.PanelState.{
  member, PdpPanelState, VaxPanelState, read_vax_panel, Clockframe, read_clockframe,
}
use udproxy.Proxy.{Value, number, truth, text, Object, Parsed, panel_state, get_panel_state}
use udproxy.Proxy.Hex.{Hex, digits, to_hex}

abbrev pub pdp_members : List CType
pdp_members = u32 ∷ replicate 6 u16

-- The packed struct at the start of the bytes.
unfoldable pub read_pdp : List ℕ → PdpPanelState
unfolding member
read_pdp bytes = record {
  ps_address = member true [] u32 bytes 0;
  ps_data = member true (u32 ∷ replicate 0 u16) u16 bytes 0;
  ps_psw = member true (u32 ∷ replicate 1 u16) u16 bytes 0;
  ps_mser = member true (u32 ∷ replicate 2 u16) u16 bytes 0;
  ps_cpu_err = member true (u32 ∷ replicate 3 u16) u16 bytes 0;
  ps_mmr0 = member true (u32 ∷ replicate 4 u16) u16 bytes 0;
  ps_mmr3 = member true (u32 ∷ replicate 5 u16) u16 bytes 0;
}

-- The bits of the mask 0xF0 of `ps_mser`, and of the mask 0x60 of `ps_cpu_err`, are one field each.
unfoldable pub pdp_json : PdpPanelState → Object
pdp_json p =
    let mode = p.ps_psw / 2 ^ 14 % 4 in
    let addr22 = not (p.ps_mmr3 / 2 ^ 4 % 2 == 0) in
    let addr18 = not (p.ps_mmr0 % 2 == 0) && not addr22 in
    ("address", number (p.ps_address % 2 ^ 22))
    ∷ ("data", number p.ps_data)
    ∷ ("parity_error", truth (not (p.ps_mser / 2 ^ 4 % 2 ^ 4 == 0)))
    ∷ ("address_error", truth (not (p.ps_cpu_err / 2 ^ 5 % 2 ^ 2 == 0)))
    ∷ ("user_mode", truth (mode == 3))
    ∷ ("super_mode", truth (mode == 1))
    ∷ ("kernel_mode", truth (mode == 0))
    ∷ ("addr16", truth (not (addr18 || addr22)))
    ∷ ("addr18", truth addr18)
    ∷ ("addr22", truth addr22)
    ∷ []

abbrev pub clockframe_members : List CType
clockframe_members = replicate 26 u64

-- A `uint64_t` as the text of 16 digits; a `to_hex` that does not end well leaves none.
unfoldable pub hex_value : ℕ → Option Value
hex_value v = elim (to_hex 16 (v % 2 ^ 64)) [ digits ds ↦ some (text ds) | _ ↦ none ]

-- The object with one more field in front.
abbrev pub field : String → Option Value → Option Object → Option Object
field name none rest = none
field name (some v) none = none
field name (some v) (some o) = some ((name, v) ∷ o)

unfoldable pub amd64_json : Clockframe → Option Object
unfolding hex_value
amd64_json f = field "rax" (hex_value f.cf_rax) (
    field "rbx" (hex_value f.cf_rbx) (
      field "rcx" (hex_value f.cf_rcx) (
        field "rdx" (hex_value f.cf_rdx) (
          field "rdi" (hex_value f.cf_rdi) (
            field "rsi" (hex_value f.cf_rsi) (
              field "rbp" (hex_value f.cf_rbp) (
                field "rsp" (hex_value f.cf_rsp) (
                  field "rip" (hex_value f.cf_rip)
                    (field "rflags" (hex_value f.cf_rflags) (some []))))))))))

abbrev pub vax_members : List CType
vax_members = u32 ∷ u32 ∷ []

unfoldable pub vax_json : VaxPanelState → Object
vax_json p = ("address", number p.ps_address) ∷ ("data", number p.ps_data) ∷ []

-- `udp_packet_to_json` of the three modules; `none` is the empty text.
unfoldable pub pdp_packet_to_json : List ℕ → Option Object
pdp_packet_to_json data_bytes = elim (get_panel_state pdp_members data_bytes) [
  | panel_state bytes ↦ some (pdp_json (read_pdp bytes))
  | _ ↦ none
]

unfoldable pub amd64_packet_to_json : List ℕ → Option Object
amd64_packet_to_json data_bytes = elim (get_panel_state clockframe_members data_bytes) [
  | panel_state bytes ↦ amd64_json (read_clockframe bytes 0)
  | _ ↦ none
]

unfoldable pub vax_packet_to_json : List ℕ → Option Object
vax_packet_to_json data_bytes = elim (get_panel_state vax_members data_bytes) [
  | panel_state bytes ↦ some (vax_json (read_vax_panel bytes 0))
  | _ ↦ none
]
