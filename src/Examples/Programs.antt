-- ===== src/Examples/Programs.antt =====
-- Runs of the three proxies together.
use udproxy.Base.{◌≡◌, refl, true, false, List, All, [], ◌∷◌}
use udproxy.Proxy.Panels.{pdp_packet_to_json, amd64_packet_to_json, vax_packet_to_json}
use udproxy.Proxy.Loop.{
  State, created, join, joined, json_text, receiving, returned, server_ended, socket, start,
  started, wait,
}
use udproxy.Proxy.Main.{
  Proxy, Program, made, set_up, add_proxy, signal_handler, inside, web_ended, thread_joined,
  main_left, proxy_turn, web_ends, joins_next, leaves, Execution, at_end, step_to,
}
use udproxy.Proxy.Main.Return.{HasReturned, Execution-closed}
use udproxy.Examples.Web.{whole, waiting, no_socket}
use udproxy.Examples.Browsers.{braces}

-- A proxy whose server did not start.
abbrev unstarted : State
unstarted = record made { main = returned }

abbrev three : State → State → State → List Proxy
three a b c =
    record { text_of = json_text pdp_packet_to_json braces; state = a }
    ∷ record { text_of = json_text amd64_packet_to_json braces; state = b }
    ∷ record { text_of = json_text vax_packet_to_json braces; state = c }
    ∷ []

abbrev left_behind : Program
left_behind = record {
  proxies = three no_socket unstarted unstarted;
  webserver_ended = true;
  joins = 3;
  main_returned = true;
}

-- The first proxy finds no socket and is interrupted, the others do not start.
one_day :
    Execution
      (set_up braces)
      (inside (started true)
        ∷ inside (created false)
        ∷ inside server_ended
        ∷ inside joined
        ∷ inside (started false)
        ∷ inside (started false)
        ∷ web_ended
        ∷ thread_joined
        ∷ thread_joined
        ∷ thread_joined
        ∷ main_left
        ∷ [])
      left_behind
unfolding set_up add_proxy
one_day = step_to (proxy_turn [] _ _ refl (start true refl refl)) (
    step_to (proxy_turn [] _ _ refl (socket false refl)) (
      step_to (proxy_turn [] _ _ refl (wait refl)) (
        step_to (proxy_turn [] _ _ refl (join refl refl)) (
          step_to (proxy_turn (_ ∷ []) _ _ refl (start false refl refl)) (
            step_to (proxy_turn (_ ∷ _ ∷ []) _ _ refl (start false refl refl)) (
              step_to web_ends (
                step_to (joins_next [] _ _ refl refl refl) (
                  step_to (joins_next (_ ∷ []) _ _ refl refl refl) (
                    step_to (joins_next (_ ∷ _ ∷ []) _ _ refl refl refl)
                      (step_to (leaves refl refl) at_end))))))))))

Execution-closed_example :
    All (λ p. (p.state.sock_open ≡ false) × HasReturned p.state) left_behind.proxies
Execution-closed_example = Execution-closed braces one_day refl

-- One proxy with a packet on its way, and the file server.
abbrev busy : Program
busy = record {
  proxies = record { text_of = whole; state = record waiting { thread = receiving } } ∷ [];
  webserver_ended = false;
  joins = 0;
  main_returned = false;
}

abbrev signalled : Program
signalled = record busy { proxies = signal_handler busy.proxies }
