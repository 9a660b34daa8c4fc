-- ===== src/Appctx/Program/Labelled.antt =====
-- What the program at work does with a labelled packet.
use gouter.Base.{
  string_eq, ℕ, ◌≡◌, sym, ap, ◌∙◌, inl, inr, List, Option, none, some, String, Bool, Option-cases,
}
use gouter.Config.{Config}
use gouter.Netip.{Addr}
use gouter.Transport.{Packet}
use gouter.Mpls.Label.{pop_label}
use gouter.Mpls.Lfib.{LfibEntry}
use gouter.Netstack.Manager.{Calls}
use gouter.Router.Header.{detect_packet_type}
use gouter.Router.Packets.{Router, Outcome, dropped, null_process, handle}
use gouter.Router.Packets.Pops.{labelled, handle_pop, handle_unbound}
use gouter.Bgp.Paths.Bindings.{bound_at}
use gouter.Appctx.Program.{Program, start, Event, run}
use gouter.Appctx.Program.Steps.{paths_of}
use gouter.Appctx.Program.Convergence.{ended}

-- What becomes of a packet whose label has this entry, which pops, or none.
abbrev pub unwrapped : {S : Type 0} → Router S → Packet → List ℕ → Option LfibEntry → Outcome
unwrapped r pkt payload none = dropped
unwrapped r pkt payload (some e) =
    handle r (record pkt { kind = detect_packet_type payload; bytes = payload })

-- After any run of a program whose own router id parses: a packet under a label that an announcement
-- of the router itself has bound in the run, whatever was withdrawn since, is handled as what is
-- inside it, IP or labelled in turn; under any other label it is dropped.
pub handle-bound_at :
    {S : Type 0} (calls : Calls S) (stack : S) (cfg : Config) (router_id : String)
    (resolve_nh : Option (Addr → String × Bool)) (parse_addr : String → Option Addr) (self : Addr)
    (es : List Event) (p : Program S) (outs : List Outcome) (pkt : Packet) (bytes : List ℕ)
    (label : ℕ) (payload : List ℕ)
    → parse_addr router_id ≡ some self
    → run calls parse_addr (start calls stack cfg router_id resolve_nh) es ≡ some (p, outs)
    → pop_label bytes ≡ some (label, payload)
    → handle p.router (labelled pkt bytes)
      ≡ unwrapped p.router pkt payload (bound_at self label none (paths_of es))
unfolding null_process
handle-bound_at calls stack cfg router_id resolve_nh parse_addr self es p outs pkt bytes label
      payload known e popped =
    let (s, _, bound) =
      ended calls stack cfg router_id resolve_nh parse_addr self es p outs known e in
    let passes : (b : List ℕ) → p.router.processor b ≡ some b = λ b. ap (λ f. f b) s.null in
    elim (Option-cases (bound_at self label none (paths_of es))) [
      | inl gone ↦
          handle_unbound p.router p.speaker.lfib s.same_lfib passes pkt bytes label payload popped
            (bound label ∙ gone)
          ∙ ap (unwrapped p.router pkt payload) (sym gone)
      | inr (entry, there) ↦
          let at = bound label ∙ there in
          handle_pop p.router p.speaker.lfib s.same_lfib passes pkt bytes label payload entry popped
            at (inl (s.pops label entry at))
          ∙ ap (unwrapped p.router pkt payload) (sym there)
    ]
