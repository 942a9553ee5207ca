-- ===== src/Symbols.antt =====
-- Finding the panel in the kernel's symbol table, and opening the kernel's memory:
-- `open_kmem_and_find_panel` of socket/client.c, socket/arch/211BSD/client.c and
-- socket/arch/NetBSDVAX/client.c. `nm` and the files answer from outside.
pub mod Lookup
pub mod Held
use Prim.Native.String.{String}
use udproxy.Base.{
  ℕ, zero, suc, ◌+◌, Bool, true, false, ◌&&◌, ◌||◌, Option, none, some, List, [], ◌∷◌, ◌++◌, length,
  if◌then◌else◌, ltb, ◌==◌, not, take,
}
use udproxy.Base.Text.{codes}
use udproxy.Scan.{skip_space, scan_ulong, scan_word}
use udproxy.Client.{Output}
use udproxy.Startup.{Call, opens, closes, says, overruns, Made, kmem, pipe}

abbrev onto : ℕ → List (List ℕ) → List (List ℕ)
onto c [] = (c ∷ []) ∷ []
onto c (l ∷ ls) = (c ∷ l) ∷ ls

-- What `fgets` delivers of the lines: pieces of at most 255 characters, `room` being left in the
-- first.
unfoldable pub pieces : (room : ℕ) → List ℕ → List (List ℕ)
pieces room [] = []
pieces zero (c ∷ cs) = [] ∷ onto c (pieces 254 cs)
pieces (suc room) (c ∷ cs) = onto c (pieces room cs)

unfoldable pub fgets_all : List (List ℕ) → List (List ℕ)
unfolding pieces
fgets_all [] = []
fgets_all (line ∷ lines) = pieces 255 line ++ fgets_all lines

-- What a `sscanf` comes to: not all three converted, the address and the symbol, or a symbol that does
-- not fit into `symbol[64]` with its NUL.
pub data Scanned : Type 0 where
  mismatch : Scanned
  scanned : (addr : ℕ) (symbol : List ℕ) → Scanned
  too_long : Scanned

-- `sscanf` with "%lo %c %s" (base 8) or "%lx %c %s" (base 16).
unfoldable pub sscanf_symbol : (base limit : ℕ) → List ℕ → Scanned
sscanf_symbol base limit line = elim (scan_ulong base limit line) [
  | none ↦ mismatch
  | some (addr, rest) ↦ elim (skip_space rest) [
    | [] ↦ mismatch
    | type ∷ rest' ↦ elim (scan_word rest') [
      | none ↦ mismatch
      | some (symbol, end) ↦ if ltb 63 (length symbol) then too_long else scanned addr symbol
    ]
  ]
]

-- Octal first, then hexadecimal.
unfoldable pub parse_line : ℕ → List ℕ → Scanned
parse_line limit line = elim (sscanf_symbol 8 limit line) [
  | scanned addr symbol ↦ scanned addr symbol
  | too_long ↦ too_long
  | mismatch ↦ sscanf_symbol 16 limit line
]

-- `strcmp` with result 0.
unfoldable pub same_text : List ℕ → List ℕ → Bool
same_text [] [] = true
same_text [] (b ∷ bs) = false
same_text (a ∷ cs) [] = false
same_text (a ∷ cs) (b ∷ bs) = (a == b) && same_text cs bs

unfoldable pub is_panel : List ℕ → Bool
unfolding same_text
is_panel symbol = same_text symbol (codes "panel") || same_text symbol (codes "_panel")

-- How the loop over the lines ends: with an address, 0 for NULL, or with a symbol written beyond its
-- array, where the behaviour is undefined.
pub data Search : Type 0 where
  address : ℕ → Search
  beyond : Search

unfoldable pub search : ℕ → List (List ℕ) → Search
search limit [] = address 0
search limit (line ∷ lines) =
    let rest = search limit lines in
    elim (parse_line limit line) [
      | mismatch ↦ rest
      | scanned addr symbol ↦ if is_panel symbol then address addr else rest
      | too_long ↦ beyond
    ]

-- The first panel in the lines of `nm`.
unfoldable pub find_panel : ℕ → List (List ℕ) → Search
unfolding fgets_all search
find_panel limit lines = search limit (fgets_all lines)

-- The answers: whether `popen` gives a pipe to `nm` on /unix, /vmunix and /netbsd, the lines of
-- `nm | grep panel`, with their ends, and whether /dev/kmem and /dev/mem open.
pub record Files : Type 0 where
  pub unix : Bool
  pub vmunix : Bool
  pub netbsd : Bool
  pub lines : List (List ℕ)
  pub kmem_ok : Bool
  pub mem_ok : Bool

module _ {ℓ} {A : Type ℓ} where
  abbrev failure : List (Call A) → Made A ℕ
  failure cs = record { result = none; calls = cs }

  -- socket/arch/211BSD/client.c: /unix or /vmunix, and /dev/kmem only. A `long` has 32 bits.
  unfoldable pub pdp_open_kmem : Files → Made A ℕ
  pdp_open_kmem f =
      if not (f.unix || f.vmunix)
      then failure (says "Cannot run nm to find panel symbol\n" ∷ [])
      else elim (find_panel 4294967296 f.lines) [
        | beyond ↦ failure (opens pipe ∷ overruns ∷ [])
        | address panel_addr ↦
            if panel_addr == 0
            then failure (
                opens pipe
                ∷ closes pipe
                ∷ says "Panel symbol not found in kernel symbol table\n"
                ∷ [])
            else if not f.kmem_ok
            then failure (opens pipe ∷ closes pipe ∷ says "open /dev/kmem" ∷ [])
            else record {
              result = some panel_addr;
              calls = opens pipe ∷ closes pipe ∷ opens kmem ∷ [];
            }
      ]

  -- Opening /dev/kmem with /dev/mem as fallback.
  unfoldable pub open_memory : Files → ℕ → List (Call A) → Made A ℕ
  open_memory f panel_addr before =
      if f.kmem_ok
      then record { result = some panel_addr; calls = before ++ (opens kmem ∷ []) }
      else if f.mem_ok
      then record {
        result = some panel_addr;
        calls =
            before
            ++ (says "open /dev/kmem"
                ∷ opens kmem
                ∷ says "Using /dev/mem instead of /dev/kmem\n"
                ∷ []);
      }
      else failure (before ++ (says "open /dev/kmem" ∷ says "open /dev/mem" ∷ []))

  -- socket/client.c, on a system that is neither a PDP-11 nor NetBSD x64, for a `long` of `limit`
  -- values: /unix, /vmunix or /netbsd.
  unfoldable pub open_kmem : ℕ → Files → Made A ℕ
  open_kmem limit f =
      if not (f.unix || (f.vmunix || f.netbsd))
      then failure (says "Cannot run nm to find panel symbol\n" ∷ [])
      else elim (find_panel limit f.lines) [
        | beyond ↦ failure (opens pipe ∷ overruns ∷ [])
        | address panel_addr ↦
            if panel_addr == 0
            then failure (
                opens pipe
                ∷ closes pipe
                ∷ says "Panel symbol not found in kernel symbol table\n"
                ∷ [])
            else open_memory f panel_addr (opens pipe ∷ closes pipe ∷ [])
      ]

-- What the VAX client's loop over the lines prints, and the number of lines that it takes.
unfoldable pub report : ℕ → List (List ℕ) → List String × ℕ
report limit [] = ([], 0)
report limit (line ∷ lines) =
    let (texts, n) = report limit lines in
    elim (parse_line limit line) [
      | mismatch ↦ ("Found panel-related symbol: %s" ∷ "  -> Failed to parse line\n" ∷ texts, n + 1)
      | too_long ↦ ("Found panel-related symbol: %s" ∷ [], 1)
      | scanned addr symbol ↦
          if is_panel symbol
          then (
            "Found panel-related symbol: %s" ∷ "  -> Parsed: addr=0x%lx, type='%c', symbol='%s'\n"
                ∷ "  -> MATCH! Using symbol '%s' at address 0x%lx\n" ∷ [],
            1,
          )
          else (
            "Found panel-related symbol: %s" ∷ "  -> Parsed: addr=0x%lx, type='%c', symbol='%s'\n"
                ∷ texts,
            n + 1,
          )
    ]

module _ {ℓ} {A : Type ℓ} where
  unfoldable pub say_all : List String → List (Call A)
  say_all [] = []
  say_all (t ∷ ts) = says t ∷ say_all ts

  -- The first five lines of `nm`.
  unfoldable pub say_lines : List (List ℕ) → List (Call A)
  say_lines [] = []
  say_lines (l ∷ ls) = says "  %s" ∷ say_lines ls

  -- socket/arch/NetBSDVAX/client.c: a trial run of `nm`, whose first lines are `trial` if it runs,
  -- then the search; what `system` prints in between is left out. `f.netbsd` tells whether the second `nm` runs. A `long` has 32 bits.
  unfoldable pub vax_open_kmem : Option (List (List ℕ)) → Files → Made A ℕ
  vax_open_kmem none f = failure (
      says "Testing nm command on /netbsd...\n"
      ∷ says "Kernel info: "
      ∷ says "Kernel file: "
      ∷ says "Cannot run nm on /netbsd\n"
      ∷ [])
  vax_open_kmem (some trial) f =
      let shown : List (List ℕ) = take 5 (fgets_all trial) in
      let (texts, found) = report 4294967296 (fgets_all f.lines) in
      let tested : List (Call A) =
        says "Testing nm command on /netbsd...\n"
        ∷ says "Kernel info: "
        ∷ says "Kernel file: "
        ∷ opens pipe
        ∷ says "First 5 symbols from nm:\n"
        ∷ (say_lines shown ++ (closes pipe ∷ [])) in
      let searched : List (Call A) =
        tested ++ (says "\nSearching for panel symbol...\n" ∷ opens pipe ∷ say_all texts) in
      let summed : List (Call A) =
        searched ++ (closes pipe ∷ says "Total panel-related symbols found: %d\n" ∷ []) in
      if length shown == 0
      then failure (
          tested
          ++ (says "nm command returned no output - kernel symbol table may not be available\n"
              ∷ []))
      else if not f.netbsd
      then failure (
          tested
          ++ (says "\nSearching for panel symbol...\n"
              ∷ says "Cannot run nm on /netbsd to find panel symbol\n"
              ∷ []))
      else elim (find_panel 4294967296 f.lines) [
        | beyond ↦ failure (searched ++ (overruns ∷ []))
        | address panel_addr ↦
            if panel_addr == 0
            then failure (
                summed
                ++ ((if found == 0
                      then says
                          "No panel symbols found in kernel - the kernel may not have panel support compiled in\n"
                      else says "Panel symbol not found in kernel symbol table\n")
                    ∷ []))
            else open_memory f panel_addr summed
      ]
