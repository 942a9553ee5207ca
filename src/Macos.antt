-- ===== src/Macos.antt =====
-- The client of socket/arch/macOS/client.c. The Mach calls, `getloadavg` and `proc_pidinfo` answer
-- from outside.
pub mod Stats
pub mod Main
use Prim.Native.String.{String}
use udproxy.Base.{
  ℕ, ◌+◌, ◌-◌, ◌*◌, ◌/◌, ◌%◌, ◌^◌, Bool, true, false, Option, none, some, List, [], ◌∷◌, ◌++◌,
  length, get_or, if◌then◌else◌, ltb, leb, ◌==◌, not,
}
use udproxy.Base.Bytes.{le_bytes}
use udproxy.Layout.{lp64}
use udproxy.Packet.{macos_shape, panel_macos, packet_size, populate}
use udproxy.PanelState.{MacosPanelState}
use udproxy.Client.{
  Output, sent, note, Step, go, stop, Result, loop, precise_delay, frames_per_second,
  usec_per_frame,
}

-- The registers of a thread that the client takes.
pub record ThreadState : Type 0 where
  pub pc : ℕ
  pub sp : ℕ
  pub fp : ℕ
  pub lr : ℕ
  pub x0 : ℕ
  pub x1 : ℕ

-- `task_threads` gives the threads, `none` if it fails; a thread is what `thread_get_state` makes of
-- it, `none` if that fails. `absolute_time` is what `mach_absolute_time` returns.
pub record Threads : Type 0 where
  pub list : Option (List (Option ThreadState))
  pub absolute_time : ℕ

-- The panel, the static `counter`, and whether the result is 0.
pub record Captured : Type 0 where
  pub panel : MacosPanelState
  pub counter : ℕ
  pub ok : Bool

-- The thread taken: the first of one, and else the one that the counter stands at.
unfoldable pub target_thread : ℕ → List (Option ThreadState) → Option ThreadState
target_thread counter threads =
    if ltb 1 (length threads)
    then get_or threads (counter % length threads) none
    else get_or threads 0 none

unfoldable pub capture_cpu_state : MacosPanelState → ℕ → Threads → Captured
capture_cpu_state panel counter t =
    let failed : Captured = record { panel = panel; counter = counter; ok = false } in
    elim t.list [
      | none ↦ failed
      | some threads ↦
          if length threads == 0 then failed else elim (target_thread counter threads) [
            | none ↦ failed
            | some s ↦ record {
              panel = record panel {
                pc = s.pc;
                sp = s.sp;
                fp = s.fp;
                lr = s.lr;
                x0 = s.x0;
                x1 = s.x1;
                architecture = 1;
                timestamp = t.absolute_time % 2 ^ 32;
              };
              counter = (counter + 1) % 2 ^ 64;
              ok = true;
            }
          ]
    ]

-- `cpu_ticks`, each a `natural_t` of 32 bits.
pub record Ticks : Type 0 where
  pub user : ℕ
  pub system : ℕ
  pub idle : ℕ
  pub nice : ℕ

-- The counts of `vm_statistics64`, each a `natural_t`, and the page size.
pub record Pages : Type 0 where
  pub free_count : ℕ
  pub active_count : ℕ
  pub inactive_count : ℕ
  pub wire_count : ℕ
  pub page_size : ℕ

-- What the calls of `get_system_stats` answer, `none` for a failure: the ticks, the pages, the load in
-- hundredths as it is truncated, and the number of threads.
pub record SystemInfo : Type 0 where
  pub ticks : Option Ticks
  pub pages : Option Pages
  pub load : Option ℕ
  pub threads : Option ℕ

-- Subtraction on 32 bits.
unfoldable pub minus32 : ℕ → ℕ → ℕ
minus32 a b = (a + 2 ^ 32 - b % 2 ^ 32) % 2 ^ 32

-- The usage of a number of ticks, if there are any.
unfoldable pub usage_of : (old user system idle nice : ℕ) → ℕ
usage_of old user system idle nice =
    let all = (user + system + idle + nice) % 2 ^ 32 in
    if ltb 0 all then (100 * ((user + system) % 2 ^ 32)) % 2 ^ 32 / all else old

-- The static `prev_cpuinfo` and `first_call`: `none` before the first success.
unfoldable pub cpu_usage : ℕ → Option Ticks → Ticks → ℕ
cpu_usage old none t = usage_of old t.user t.system t.idle t.nice
cpu_usage old (some prev) t =
    usage_of old (minus32 t.user prev.user) (minus32 t.system prev.system)
      (minus32 t.idle prev.idle) (minus32 t.nice prev.nice)

-- The sums of pages are taken on 32 bits, and their products with the page size on 64.
unfoldable pub memory_usage : ℕ → Pages → ℕ
memory_usage old p =
    let total_mem =
      ((p.free_count + p.active_count + p.inactive_count + p.wire_count) % 2 ^ 32 * p.page_size)
      % 2 ^ 64 in
    let used_mem =
      ((p.active_count + p.inactive_count + p.wire_count) % 2 ^ 32 * p.page_size) % 2 ^ 64 in
    if ltb 0 total_mem then (100 * used_mem) % 2 ^ 64 / total_mem % 2 ^ 32 else old

unfoldable pub or_kept {ℓ} : {A : Type ℓ} → Option A → A → A
or_kept none old = old
or_kept (some new) old = new

unfoldable pub get_system_stats :
    MacosPanelState → Option Ticks → SystemInfo → MacosPanelState × Option Ticks
get_system_stats panel prev_cpuinfo i = (
  record panel {
    cpu_usage = elim i.ticks [
      | none ↦ panel.cpu_usage
      | some t ↦ cpu_usage panel.cpu_usage prev_cpuinfo t
    ];
    memory_usage = elim i.pages [
      | none ↦ panel.memory_usage
      | some p ↦ memory_usage panel.memory_usage p
    ];
    load_average = or_kept i.load panel.load_average;
    thread_count = or_kept i.threads panel.thread_count;
  },
  elim i.ticks [ none ↦ prev_cpuinfo | some t ↦ some t ],
)

-- The variables of `send_frames` and the statics of the two functions.
pub record Sender : Type 0 where
  pub panel : MacosPanelState
  pub counter : ℕ
  pub prev_cpuinfo : Option Ticks
  pub packet : List ℕ
  pub frame_count : ℕ

pub record Round : Type 0 where
  pub threads : Threads
  pub system_info : SystemInfo
  pub send_ok : Bool

-- The panel's bytes: six registers of 8 bytes and six numbers of 4.
unfoldable pub panel_bytes : MacosPanelState → List ℕ
unfolding le_bytes
panel_bytes p =
    le_bytes 8 p.pc
    ++ (le_bytes 8 p.sp
        ++ (le_bytes 8 p.fp
            ++ (le_bytes 8 p.lr
                ++ (le_bytes 8 p.x0
                    ++ (le_bytes 8 p.x1
                        ++ (le_bytes 4 p.cpu_usage
                            ++ (le_bytes 4 p.memory_usage
                                ++ (le_bytes 4 p.load_average
                                    ++ (le_bytes 4 p.thread_count
                                        ++ (le_bytes 4 p.architecture
                                            ++ le_bytes 4 p.timestamp))))))))))

-- The reports after a send.
unfoldable pub reports : ℕ → MacosPanelState → List Output
unfolding packet_size
reports n p =
    (if n % (frames_per_second * 2) == 0
      then note "Frame %d: PC=0x%llx, SP=0x%llx, X0=0x%llx, X1=0x%llx\n"
          (n ∷ p.pc ∷ p.sp ∷ p.x0 ∷ p.x1 ∷ [])
        ∷ note "  CPU: %d%%, MEM: %d%%, LOAD: %.2f, THREADS: %d\n"
            (p.cpu_usage ∷ p.memory_usage ∷ p.load_average ∷ p.thread_count ∷ [])
        ∷ []
      else [])
    ++ (if leb n 5
        then note "DEBUG: Sent packet #%d, size=%d bytes\n" (n ∷ packet_size lp64 macos_shape ∷ [])
          ∷ note "DEBUG: PC=0x%llx, X0=0x%llx, X1=0x%llx, timestamp=0x%x\n"
              (p.pc ∷ p.x0 ∷ p.x1 ∷ p.timestamp ∷ [])
          ∷ []
        else [])

unfoldable pub send_round : Sender → Round → Step Sender
send_round s r =
    let got = capture_cpu_state s.panel s.counter r.threads in
    let (panel, prev) = get_system_stats got.panel s.prev_cpuinfo r.system_info in
    let packet = populate lp64 macos_shape panel_macos (panel_bytes panel) s.packet in
    let n = s.frame_count + 1 in
    let notes : List Output = if got.ok then [] else note "Failed to capture CPU state\n" [] ∷ [] in
    if not r.send_ok
    then stop
        (record {
          panel = panel;
          counter = got.counter;
          prev_cpuinfo = prev;
          packet = packet;
          frame_count = s.frame_count;
        })
        (notes ++ (note "sendto" [] ∷ []))
    else go
        (record {
          panel = panel;
          counter = got.counter;
          prev_cpuinfo = prev;
          packet = packet;
          frame_count = n;
        })
        (notes ++ (sent packet ∷ (reports n panel ++ (precise_delay usec_per_frame ∷ []))))

unfoldable pub send_frames : Sender → List Round → Result Sender
send_frames s rounds = loop send_round s rounds
