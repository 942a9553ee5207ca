-- ===== src/Startup.antt =====
-- Starting and ending the programs: the options, the sockets of socket/common.c, socket/client.c and
-- socket/server.c, and the calls that open and close what a program holds.
pub mod Held
use Prim.Native.String.{String}
use udproxy.Base.Text.{codes}
use udproxy.Base.{
  ℕ, Bool, true, false, Option, none, some, List, [], ◌∷◌, ◌++◌, if◌then◌else◌, not, ◌==◌,
}

-- What a program holds while it runs.
pub data Resource : Type 0 where
  socket kmem kvm queue pipe : Resource

-- What a program does: it opens or closes a resource, prints a text, or runs its loop, whose trace is
-- of type `A`; or it writes outside of an array, and what a trace has behind that says nothing of the
-- code.
pub data Call {ℓ} (A : Type ℓ) : Type ℓ where
  opens closes : Resource → Call A
  says : String → Call A
  runs : A → Call A
  overruns : Call A

-- A program that has left with an exit code, or goes on in its loop.
pub data Program {ℓ} (A : Type ℓ) : Type ℓ where
  exits : (code : ℕ) → List (Call A) → Program A
  loops : List (Call A) → Program A

-- The results of `getopt` with "s:h": -s and its argument, -h, or `?`.
pub data Opt : Type 0 where
  s : List ℕ → Opt
  h question : Opt

-- The server's address, `none` if the usage is printed instead.
unfoldable pub parse_options : List ℕ → List Opt → Option (List ℕ)
parse_options server_ip [] = some server_ip
parse_options server_ip (s optarg ∷ os) = parse_options optarg os
parse_options server_ip (h ∷ os) = none
parse_options server_ip (question ∷ os) = none

-- The answers of the network: whether `socket` gives a descriptor, and what `inet_addr` and
-- `gethostbyname` make of a text, `none` for INADDR_NONE and for NULL.
pub record Network : Type 0 where
  pub socket_ok : Bool
  pub inet_addr : List ℕ → Option ℕ
  pub gethostbyname : List ℕ → Option ℕ

-- `sin_addr` and `sin_port`.
pub record Address : Type 0 where
  pub addr : ℕ
  pub port : ℕ

-- The result of a set-up: `none` for -1.
pub record Made {ℓ κ} (A : Type ℓ) (R : Type κ) : Type (ℓ ⊔ κ) where
  pub result : Option R
  pub calls : List (Call A)

module _ {ℓ} {A : Type ℓ} where
  unfoldable pub create_udp_socket : Network → ℕ → List ℕ → Made A Address
  create_udp_socket n server_port server_ip =
      let made : ℕ → Made A Address = λ a. record {
        result = some (record { addr = a; port = server_port });
        calls = opens socket ∷ [];
      } in
      if not n.socket_ok
      then record { result = none; calls = says "socket" ∷ [] }
      else elim (n.inet_addr server_ip) [
        | some a ↦ made a
        | none ↦ elim (n.gethostbyname server_ip) [
          | some a ↦ made a
          | none ↦ record {
            result = none;
            calls = opens socket ∷ says "Invalid server address: %s\n" ∷ closes socket ∷ [];
          }
        ]
      ]

  -- The part that the clients' mains share: options, then the client's work with the address.
  abbrev pub with_options : List Opt → (List ℕ → Program A) → Program A
  with_options os work = elim (parse_options (codes "127.0.0.1") os) [
    | none ↦ exits 1 (says "Usage: %s [-s server_ip]\n" ∷ [])
    | some server_ip ↦ work server_ip
  ]

  -- What comes before and after a loop that may end, or leave the program with code 1.
  abbrev pub around : List (Call A) → A → (ended exited : Bool) → List (Call A) → Program A
  around before trace ended exited after =
      if exited
      then exits 1 (before ++ (runs trace ∷ []))
      else if ended
      then exits 0 (before ++ (runs trace ∷ after))
      else loops (before ++ (runs trace ∷ []))
