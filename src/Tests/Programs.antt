-- ===== src/Tests/Programs.antt =====
-- The runs of mplstest, the pipe of the WireGuard transport and the port forwards at small inputs.
use gouter.Base.{
  string_eq, nat_eq, ℕ, ◌≤◌, ◌≡◌, refl, true, false, List, [], ◌∷◌, some, String, arith, ◌==◌, ◌||◌,
  All,
}
use gouter.Netip.{v4}
use gouter.Mpls.Label.{push_label}
use gouter.Mpls.Udp.{datagram}
use gouter.Netstack.Manager.{Manager, Calls, Endpoint}
use gouter.Netstack.Forward.{
  ForwardRule, ActiveFwd, ForwardManager, in_table, add_forward, remove_forward, close_forwards,
  panicked,
}
use gouter.Netstack.Forward.Listeners
use gouter.Netstack.Forward.Listeners.{IsTidy}
use gouter.Mpls.Udp.{new_udp_transport}
use gouter.Cmd.Mplstest.{
  mpls_listen, mpls_peer, main_router, through, local_prefix, swap_frame, double_frame, passed,
}
use gouter.Cmd.Mplstest.Runs
use gouter.Cmd.Mplstest.Trials.{exchange}
use gouter.Wg.Transport.{Pipe, start, Moves, Reach, takes, device_writes, next, here}
use gouter.Wg.Transport.Pipeline
use gouter.Wg.Transport.Pipeline.{IsOrdered, IsOf, contents}
use gouter.Wg.Transport.Delivery
use gouter.Wg.Transport.Delivery.{Run, stay, then, rank}

-- A stack that has 10.200.0.1, and the NIC of that address.
abbrev calls : Calls (Unit {0})
calls = record {
  create_nic = λ id ep s. some s;
  add_protocol_address = λ id p a n s. some s;
  new_subnet = λ a n. true;
  add_route = λ a n g id s. s;
  remove_nic = λ id s. s;
  protocol_addresses = λ s. (v4 0x0ac80001, 32) ∷ [];
}

abbrev endpoint : Endpoint
endpoint = record { nic = 1; mtu = 1500; link_addr = [] }

abbrev manager : Manager (Unit {0})
manager = record {
  stack = tt;
  nics = ("mpls-udp", endpoint) ∷ [];
  nic_names = (1, "mpls-udp") ∷ [];
  nic_by_addr = (local_prefix, "mpls-udp") ∷ [];
  next_nic_id = 2;
  enable_ipv6 = true;
}

abbrev payload : List ℕ
payload = 83 ∷ 87 ∷ 65 ∷ 80 ∷ []

through-push_label_example :
    (through (main_router calls manager) (λ peer bytes. true) (datagram (swap_frame payload) ∷ [])
      ≡ (mpls_peer, push_label payload 200) ∷ [])
    × (through
          (main_router calls manager)
          (λ peer bytes. true)
          (datagram (double_frame payload) ∷ [])
        ≡ (mpls_peer, push_label payload 200) ∷ [])
    × (exchange (Runs.routed calls manager (λ peer bytes. true)) (swap_frame payload) payload
        ≡ passed)
    × (exchange (Runs.routed calls manager (λ peer bytes. true)) (double_frame payload) payload
        ≡ passed)
through-push_label_example = Runs.through-push_label calls manager (λ peer bytes. true) payload refl

opened :
    new_udp_transport "mpls-udp" mpls_listen true
    ≡ some (record { name = "mpls-udp"; local_addr = mpls_listen; peers = []; closed = false })
unfolding new_udp_transport
opened = refl

-- One packet is on the way.
abbrev pipe : Pipe
pipe = record (start "wg0") { inbound = (69 ∷ []) ∷ []; accepted = (69 ∷ []) ∷ [] }

pipe-Reach : Reach (start "wg0") pipe
unfolding start
pipe-Reach = next here (device_writes (69 ∷ []) (omega arith) refl)

Reach-IsOrdered_example : (pipe.name ≡ "wg0") × IsOrdered pipe
Reach-IsOrdered_example = Pipeline.Reach-IsOrdered "wg0" pipe-Reach

pipe-IsOrdered : IsOrdered pipe
pipe-IsOrdered = (Pipeline.Reach-IsOrdered "wg0" pipe-Reach).1

abbrev taken : Pipe
taken = record pipe { inbound = []; in_hand = some (69 ∷ []) }

pipe-Run : Run pipe 1 taken
unfolding start
pipe-Run = then stay (takes (69 ∷ []) [] refl refl refl refl)

Run-delivers_example :
    (1 ≤ rank pipe)
    × (((u : Pipe) → ¬ Moves taken u)
        → (contents taken.delivered ≡ (69 ∷ []) ∷ []) × All (IsOf "wg0") taken.delivered)
unfolding start
Run-delivers_example = Delivery.Run-delivers pipe pipe-IsOrdered refl refl pipe-Run

abbrev rule : ForwardRule
rule = record { name = "web"; listen_port = 80; target = "127.0.0.1:8080" }

abbrev other_rule : ForwardRule
other_rule = record { name = "dns"; listen_port = 53; target = "127.0.0.1:53" }

abbrev forwards : List (String × ActiveFwd)
forwards = ("web", record { rule = rule; listener = 7 }) ∷ []

abbrev forward_manager : ForwardManager
forward_manager = record { fwd = some forwards; is_open = λ k. k == 7 || false }

forward_manager-IsTidy : IsTidy forward_manager
unfolding in_table
forward_manager-IsTidy = record { apart = (tt, tt); exact = λ k. refl }

forwards-IsTidy_example :
    IsTidy (add_forward forward_manager other_rule (some 8)).0
    × IsTidy (remove_forward forward_manager "web")
    × IsTidy (close_forwards forward_manager)
forwards-IsTidy_example =
    Listeners.forwards-IsTidy forward_manager forwards other_rule (some 8) "web"
      forward_manager-IsTidy refl (λ ln e. ground (arith, e))

close_forwards-add_example :
    let m' = (add_forward (close_forwards forward_manager) other_rule (some 8)).0 in
    ((add_forward (close_forwards forward_manager) other_rule (some 8)).1 ≡ panicked)
    × ((remove_forward m' "web").is_open 8 ≡ true)
    × ((close_forwards m').is_open 8 ≡ true)
close_forwards-add_example = Listeners.close_forwards-add forward_manager other_rule 8 "web"
