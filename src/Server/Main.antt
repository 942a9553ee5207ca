-- ===== src/Server/Main.antt =====
-- The start and the end of socket/server.c: its socket, its signals and `main`.
use udproxy.Base.{
  ℕ, zero, suc, arith, ◌≡◌, ◌&&◌, ◌||◌, ◌==◌, ltb, length, take, Option, none, some, Bool, true,
  false, List, [], ◌∷◌, ◌++◌, if◌then◌else◌, not,
}
use udproxy.Display.{Line}
use udproxy.Server.{Server, Recv, handle_udp_clients}
use udproxy.Startup.{Resource, socket, Call, opens, closes, says, runs, Program, exits, loops}
use udproxy.Startup.Held.{same, held, leaks}

-- Whether `socket`, `setsockopt` and `bind` succeed.
pub record Binding : Type 0 where
  pub socket_ok : Bool
  pub setsockopt_ok : Bool
  pub bind_ok : Bool

-- What the program does: a call, or the assignment to `server_sockfd` of a descriptor or of -1.
pub data Action : Type 0 where
  does : Call (List Line) → Action
  assigns : Bool → Action

-- The state of the program: the descriptor in `server_sockfd`, or -1, and the calls so far.
pub record Bound : Type 0 where
  pub server_sockfd : Bool
  pub calls : List (Call (List Line))

-- The calls, and whether a descriptor is returned.
unfoldable pub create_udp_server_socket : Binding → List (Call (List Line)) × Bool
create_udp_server_socket b =
    if not b.socket_ok
    then (says "socket" ∷ [], false)
    else if not b.setsockopt_ok
    then (opens socket ∷ says "setsockopt" ∷ closes socket ∷ [], false)
    else if not b.bind_ok
    then (opens socket ∷ says "bind" ∷ closes socket ∷ [], false)
    else (opens socket ∷ says "UDP socket successfully bound to port %d\n" ∷ [], true)

-- What SIGINT and SIGTERM do.
unfoldable pub signal_handler : Bound → Program (List Line)
signal_handler b = exits 0 (
    b.calls
    ++ (says "\nReceived signal %d, shutting down...\n"
        ∷ (if b.server_sockfd then closes socket ∷ [] else [])))

-- The state behind actions; `server_sockfd` starts as -1.
abbrev pub behind : Bound → List Action → Bound
behind b [] = b
behind b (does c ∷ rest) = behind (record b { calls = b.calls ++ (c ∷ []) }) rest
behind b (assigns fd ∷ rest) = behind (record b { server_sockfd = fd }) rest

abbrev calls_made : List (Call (List Line)) → List Action
calls_made [] = []
calls_made (c ∷ cs) = does c ∷ calls_made cs

-- The actions of `main` behind `setup_signal_handlers`, over the events of its socket; where `ended` is
-- false, the loop goes on behind them.
unfoldable pub actions : Binding → (frames : List Line) → (ended : Bool) → List Action
unfolding create_udp_server_socket
actions b frames ended =
    let (calls, fd) = create_udp_server_socket b in
    calls_made calls
    ++ (assigns fd
        ∷ (if not fd
            then does (says "Failed to create UDP server socket\n") ∷ []
            else does (says "UDP server listening on port %d\n")
              ∷ does (says "Waiting for frames...\n")
              ∷ does (runs frames)
              ∷ (if ended then does (closes socket) ∷ [] else [])))

abbrev started : Bound
started = record { server_sockfd = false; calls = says "Starting UDP server on port %d...\n" ∷ [] }

-- The end of `main` without a signal.
unfoldable pub left_alone : Binding → (frames : List Line) → (ended : Bool) → Program (List Line)
unfolding actions create_udp_server_socket
left_alone b frames ended =
    let done = behind started (actions b frames ended) in
    let fd = (create_udp_server_socket b).1 in
    if fd && not ended then loops done.calls else exits (if fd then 0 else 1) done.calls

-- `main`. A signal comes behind `n` of its actions, at the latest when all are done and the loop still
-- goes on, or not at all; a signal before the handlers are there is outside.
unfoldable pub main : Binding → Server → List Recv → (signal : Option ℕ) → Program (List Line)
unfolding create_udp_server_socket actions left_alone
main b s es signal =
    let o = handle_udp_clients s es in
    let todo = actions b o.lines o.ended in
    let goes_on = (create_udp_server_socket b).1 && not o.ended in
    elim signal [
      | none ↦ left_alone b o.lines o.ended
      | some n ↦
          if goes_on || ltb n (length todo)
          then signal_handler (behind started (take n todo))
          else left_alone b o.lines o.ended
    ]

-- Whether a signal comes between `socket` and the assignment to `server_sockfd`.
abbrev pub is_early : Option ℕ → Bool
is_early none = false
is_early (some n) = n == 1 || n == 2

-- What is held where the handler is done.
handled :
    (b : Binding) (frames : List Line) (ended : Bool) (n : ℕ) (r : Resource)
    → leaks r (signal_handler (behind started (take n (actions b frames ended))))
      ≡ (same r socket && (b.socket_ok && (n == 1 || n == 2)))
unfolding leaks held signal_handler actions create_udp_server_socket
handled b frames ended zero r = ground arith
handled b frames ended (suc zero) r = ground arith
handled b frames ended (suc (suc zero)) r = ground arith
handled b frames ended (suc (suc (suc zero))) r = ground arith
handled b frames ended (suc (suc (suc (suc zero)))) r = ground arith
handled b frames ended (suc (suc (suc (suc (suc zero))))) r = ground arith
handled b frames ended (suc (suc (suc (suc (suc (suc zero)))))) r = ground arith
handled b frames ended (suc (suc (suc (suc (suc (suc (suc zero))))))) r = ground arith
handled b frames ended (suc (suc (suc (suc (suc (suc (suc (suc n)))))))) r = ground arith

unsignalled :
    (b : Binding) (frames : List Line) (ended : Bool) (r : Resource)
    → leaks r (left_alone b frames ended) ≡ false
unfolding leaks held left_alone actions create_udp_server_socket
unsignalled b frames ended r = ground arith

late :
    (b : Binding) (frames : List Line) (ended : Bool) (n : ℕ)
    → ((create_udp_server_socket b).1 && not ended || ltb n (length (actions b frames ended)))
      ≡ false
    → (n == 1 || n == 2) ≡ false
unfolding actions create_udp_server_socket
late b frames ended n h = ground arith

-- However the server leaves, by a failed set-up, an error of its socket or a signal at any point behind
-- the set-up of the handlers, it holds nothing that it opened but for one case: if `socket` succeeds
-- and the signal comes behind it and before its descriptor is assigned to `server_sockfd`, or in a
-- failed set-up before it is closed, the handler does not close it.
pub main-leaks_server :
    (b : Binding) (s : Server) (es : List Recv) (signal : Option ℕ) (r : Resource)
    → leaks r (main b s es signal) ≡ (same r socket && b.socket_ok && is_early signal)
unfolding main
main-leaks_server b s es none r =
    let o = handle_udp_clients s es in ground (arith, unsignalled b o.lines o.ended r)
main-leaks_server b s es (some n) r =
    let o = handle_udp_clients s es in
    ground (
      arith,
      unsignalled b o.lines o.ended r,
      handled b o.lines o.ended n r,
      late b o.lines o.ended n,
    )
