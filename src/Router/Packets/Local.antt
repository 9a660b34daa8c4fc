-- ===== src/Router/Packets/Local.antt =====
-- Delivery to this router's own stack, on the maps of the netstack manager.
use gouter.Base.{
  string_eq, some, true, false, arith, ◌≤◌, ltb, length, ◌≡◌, ◌≢◌, refl, ap, String, none, ℕ, List,
  if◌then◌else◌, Option-cases, Bool-cases, inl, inr,
}
use gouter.Netip.{Addr}
use gouter.Transport.{Packet, packet_ip}
use gouter.Router.Header.{read_header}
use gouter.Netstack.Manager.{nic_name_for_address, inject_inbound}
use gouter.Netstack.Manager.Names.{IsConsistent, inject_inbound-name_for_address}
use gouter.Router.Packets.{
  Router, dropped, injected, inject, deliver_local, handle, handle_packet, handle_ip_packet,
}

module _ {S : Type 0} (r : Router S) where
  inject_taken :
      (name : String) (bytes : List ℕ)
      → inject_inbound r.netstack name bytes ≢ none
      → inject r name bytes ≡ injected name bytes
  unfolding inject
  inject_taken name bytes h = elim (Option-cases (inject_inbound r.netstack name bytes)) [
    | inl e ↦ absurd (h e)
    | inr (x, e) ↦ rw (e, inject)
  ]

  -- With the manager's own address lookup, where the manager's addresses belong to NICs that are
  -- there, a packet for this router is given whole to the NIC of its destination, and dropped only
  -- if no NIC has the destination; the netstack never refuses it.
  pub deliver_local-injected :
      (pkt : Packet) (dst : Addr)
      → IsConsistent r.netstack
      → r.nic_for_addr dst ≡ nic_name_for_address r.netstack dst
      → deliver_local r pkt dst ≡ (
          if (nic_name_for_address r.netstack dst).1
          then injected (nic_name_for_address r.netstack dst).0 pkt.bytes
          else dropped)
  unfolding deliver_local
  deliver_local-injected pkt dst c same =
      elim (Bool-cases (nic_name_for_address r.netstack dst).1) [
        | inl ok ↦
            rw (same, deliver_local, ok)
              (inject_taken (nic_name_for_address r.netstack dst).0 pkt.bytes (
                inject_inbound-name_for_address r.netstack dst _ pkt.bytes c
                  (ap (λ b. ((nic_name_for_address r.netstack dst).0, b)) ok)))
        | inr ko ↦ rw (same, deliver_local, ko) refl
      ]

  -- Where the processor lets an IP packet for this router pass, it is delivered.
  pub handle_local :
      (pkt : Packet) (version : ℕ) (dst : Addr) (ttl_idx : ℕ)
      → pkt.kind ≡ packet_ip
      → r.processor pkt.bytes ≡ some pkt.bytes
      → 20 ≤ length pkt.bytes
      → read_header pkt.bytes ≡ some (some (version, dst, ttl_idx))
      → r.is_local dst ≡ true
      → handle r pkt ≡ deliver_local r pkt dst
  unfolding handle handle_packet handle_ip_packet deliver_local
  handle_local pkt version dst ttl_idx ip passes long read ours =
      let enough : ltb (length pkt.bytes) 20 ≡ false = ground arith in
      rw (passes, ip, handle, handle_packet, handle_ip_packet, enough, read, ours) refl
