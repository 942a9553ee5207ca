-- ===== src/Pdp.antt =====
-- The client of socket/arch/211BSD/client.c. The kernel's memory and the socket answer from outside.
pub mod Trace
pub mod Main
use Prim.Native.String.{String}
use udproxy.Base.{
  ℕ, ◌+◌, ◌%◌, Bool, true, false, ◌&&◌, Option, none, some, List, [], ◌∷◌, ◌++◌, length, take,
  if◌then◌else◌, ◌==◌, ltb, not,
}
use udproxy.Base.Bytes.{put, window}
use udproxy.Layout.{pdp11}
use udproxy.Packet.{pdp_shape, panel_pdp1170, populate}
use udproxy.Client.{Output, sent, note, waited, Step, go, stop, Result, loop}
use udproxy.Symbols.{same_text}

-- What the kernel's memory answers: whether `lseek` succeeds, and what `read` delivers, at most 16
-- bytes, `none` if it fails.
pub record Memory : Type 0 where
  pub lseek_ok : Bool
  pub read : Option (List ℕ)

-- The panel and the static `read_count`.
pub record Reader : Type 0 where
  pub panel : List ℕ
  pub read_count : ℕ

-- Whether it returns 0, the panel and the count behind it, and what it prints.
pub record Read : Type 0 where
  pub ok : Bool
  pub reader : Reader
  pub notes : List Output

-- `ps_address` and `ps_data` of two panels agree.
unfoldable pub is_static : List ℕ → List ℕ → Bool
is_static panel prev_panel =
    same_text (window panel 0 4) (window prev_panel 0 4)
    && same_text (window panel 4 2) (window prev_panel 4 2)

-- A whole read, of 16 bytes.
unfoldable pub count_read : (prev_panel panel : List ℕ) (read_count : ℕ) → Read
count_read prev_panel panel read_count = record {
  ok = true;
  reader = record { panel = panel; read_count = read_count };
  notes =
      if (read_count % 100 == 0 && ltb 1 read_count) && is_static panel prev_panel
      then note "WARNING: Panel data has been static for last 100 reads (read #%d)\n"
          (read_count ∷ [])
        ∷ []
      else [];
}

unfoldable pub read_panel_from_kmem : Reader → Memory → Read
read_panel_from_kmem s m =
    if not m.lseek_ok
    then record { ok = false; reader = s; notes = note "lseek" [] ∷ [] }
    else elim m.read [
      | none ↦ record {
        ok = false;
        reader = s;
        notes = note "read" [] ∷ note "Expected %d bytes, got -1 bytes\n" (16 ∷ []) ∷ [];
      }
      | some bytes ↦
          let panel = put s.panel 0 (take 16 bytes) in
          let bytes_read = length (take 16 bytes) in
          if not (bytes_read == 16)
          then record {
            ok = false;
            reader = record { panel = panel; read_count = s.read_count };
            notes =
                note "read" []
                ∷ note "Expected %d bytes, got %d bytes\n" (16 ∷ bytes_read ∷ [])
                ∷ [];
          }
          else count_read s.panel panel (s.read_count + 1)
    ]

-- One of the two trial reads of `send_frames`: the array, and whether its bytes are printed.
unfoldable pub trial_read : String → List ℕ → Memory → List ℕ × List Output
trial_read text test_buf m = elim m.read [
  | none ↦ (test_buf, [])
  | some bytes ↦
      let read = put test_buf 0 (take 16 bytes) in
      if not m.lseek_ok
      then (test_buf, [])
      else if length (take 16 bytes) == 16
      then (read, note text (take 8 read) ∷ [])
      else (read, [])
]

-- The trial reads at the panel and 32 bytes behind it, into arrays that hold what the stack held.
unfoldable pub test_memory : (test_buf1 test_buf2 : List ℕ) → Memory → Memory → List Output
test_memory test_buf1 test_buf2 m1 m2 =
    let (buf1, notes1) =
      trial_read "  Test read 1 (panel addr): %02x %02x %02x %02x %02x %02x %02x %02x\n" test_buf1
        m1 in
    let (buf2, notes2) =
      trial_read "  Test read 2 (+32 bytes): %02x %02x %02x %02x %02x %02x %02x %02x\n" test_buf2
        m2 in
    note "Testing memory read mechanism...\n" []
    ∷ (notes1
        ++ (notes2
            ++ ((if same_text buf1 buf2
                  then note "  WARNING: Both memory locations contain identical data!\n" []
                  else note "  Good: Memory locations contain different data\n" [])
                ∷ [])))

-- The variables of the loop.
pub record Sender : Type 0 where
  pub reader : Reader
  pub packet : List ℕ
  pub frame_count : ℕ

-- The answers of one round: the memory, and the error of `sendto`, `none` if it succeeds.
pub record Round : Type 0 where
  pub memory : Memory
  pub errno : Option ℕ

unfoldable pub send_frame : Sender → Reader → Option ℕ → List Output → Step Sender
send_frame s reader errno notes =
    let packet = populate pdp11 pdp_shape panel_pdp1170 reader.panel s.packet in
    elim errno [
      | none ↦
          go (record { reader = reader; packet = packet; frame_count = s.frame_count + 1 })
            (notes ++ (sent packet ∷ waited ∷ []))
      | some e ↦
          stop (record { reader = reader; packet = packet; frame_count = s.frame_count })
            (notes
              ++ (note "sendto failed after %d packets (errno=%d): " (s.frame_count ∷ e ∷ []) ∷ []))
    ]

unfoldable pub send_round : Sender → Round → Step Sender
send_round s r =
    let got = read_panel_from_kmem s.reader r.memory in
    if not got.ok
    then stop (record s { reader = got.reader })
        (got.notes ++ (note "Failed to read panel data from kernel\n" [] ∷ []))
    else send_frame s got.reader r.errno got.notes

-- The loop of `send_frames`.
unfoldable pub send_frames_loop : Sender → List Round → Result Sender
send_frames_loop s rounds = loop send_round s rounds
