-- ===== src/Appctx/Program/Forwards.antt =====
-- Where the program at work sends an IP packet.
use gouter.Base.{
  string_eq, nat_eq, ℕ, ◌≡◌, ◌≢◌, sym, subst, ◌∙◌, false, List, Option, some, String, Bool, IsBytes,
}
use gouter.Config.{Config}
use gouter.Netip.{Addr}
use gouter.Transport.{Packet, packet_ip}
use gouter.Netstack.Manager.{Calls}
use gouter.Router.Fib.{FibEntry, has_exact}
use gouter.Router.Fib.Chosen.{IsChosen, IsChosen-same, lookup-IsChosen}
use gouter.Router.Header.{byte_at}
use gouter.Router.Packets.{Outcome, handle}
use gouter.Router.Packets.Sent.{IsHeader, IsSentOn}
use gouter.Router.Packets.Ip.{handle-ip, handle_ip_packet_other}
use gouter.Router.Packets.Routed.{IsRouted, route-IsRouted}
use gouter.Appctx.Program.{Program, start, Event, run}
use gouter.Appctx.Program.Steps.{fib-IsValid}
use gouter.Appctx.Program.Convergence.{left_by, ended}

-- After any run of a program whose own router id parses: an IP packet of bytes with a whole header,
-- not for this router and not at its last hop, goes on with its TTL one less (255 for 0) and all else
-- unchanged but the IPv4 checksum. It goes by the entry of the one longest prefix containing its
-- destination for which the best paths of the run left an entry: given whole to a NIC (refused if
-- the NIC is not there), or to a transport as it is, or to a transport with the labels of the entry
-- pushed, the first on top and none over the largest (dropped if the transport is not there). The
-- transport is the entry's, else the one of its next hop, else the one it came from; the NIC is the
-- one the entry names, else the one of its next hop, else the one of the transport it came from.
-- Where they left no entry for a prefix that contains it, it is dropped.
pub handle-run :
    {S : Type 0} (calls : Calls S) (stack : S) (cfg : Config) (router_id : String)
    (resolve_nh : Option (Addr → String × Bool)) (parse_addr : String → Option Addr) (self : Addr)
    (es : List Event) (p : Program S) (outs : List Outcome) (pkt : Packet) (version ttl_idx : ℕ)
    (dst : Addr) (found : Option FibEntry)
    → parse_addr router_id ≡ some self
    → run calls parse_addr (start calls stack cfg router_id resolve_nh) es ≡ some (p, outs)
    → pkt.kind ≡ packet_ip
    → IsBytes pkt.bytes
    → IsHeader pkt.bytes version dst ttl_idx
    → p.router.is_local dst ≡ false
    → byte_at pkt.bytes ttl_idx ≢ 1
    → IsChosen (left_by calls stack cfg router_id resolve_nh parse_addr self es) dst found
    → (sent : Packet) × IsSentOn pkt version ttl_idx sent
      × IsRouted p.router sent found (handle p.router pkt)
handle-run calls stack cfg router_id resolve_nh parse_addr self es p outs pkt version ttl_idx dst
      found known e kind b head other hops chosen =
    let (s, at, _) = ended calls stack cfg router_id resolve_nh parse_addr self es p outs known e in
    let (sent, is, out) = handle_ip_packet_other p.router pkt b head other hops in
    let finds = lookup-IsChosen p.router.fib dst found (fib-IsValid p s) (
      IsChosen-same (left_by calls stack cfg router_id resolve_nh parse_addr self es)
        (has_exact p.router.fib) dst found (λ q. sym (at q)) chosen) in
    (
      sent,
      is,
      subst (IsRouted p.router sent found) (sym (handle-ip p.router pkt s.null kind ∙ out))
          (route-IsRouted p.router sent dst found finds),
    )
