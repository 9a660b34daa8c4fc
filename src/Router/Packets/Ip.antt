-- ===== src/Router/Packets/Ip.antt =====
-- What happens to an IP packet: its TTL, its checksum, its route.
use gouter.Base.{
  string_eq, nat_eq, ℕ, ◌≤◌, ◌≡◌, ◌≢◌, ◌⊎◌, refl, true, false, some, arith, length, Bool-cases, inl,
  inr, IsBytes, ltb, ltb→lt, ltb→le, ap, ◌==◌, IsBytes,
}
use gouter.Transport.{Packet, packet_ip}
use gouter.Netip.{Addr}
use gouter.Router.Header.{byte_at, read_header, decrement_at}
use gouter.Router.Packets.{
  Router, Outcome, dropped, route, forward_ip, handle_ip_packet, handle_packet, handle,
  null_process,
}
use gouter.Router.Packets.Sent.{
  sent_on, IsHeader, HasNoHeader, read_header_total, read_header-IsHeader, IsHeader-bound, byte-lt,
  decrement_at_self, sent_on-header, IsSentOn,
}
use gouter.Router.Packets.InRange.{forward_ip_in_range, handle_short, handle_unread, handle_read}
use gouter.Router.Packets.Routed.{IsDelivered, deliver_local-IsDelivered, IsRouted, route-IsRouted}
use gouter.Router.Fib.{lookup}

-- The null processor leaves the packet as it is.
pub handle-ip :
    {S : Type 0} (r : Router S) (pkt : Packet)
    → r.processor ≡ null_process
    → pkt.kind ≡ packet_ip
    → handle r pkt ≡ handle_ip_packet r pkt
unfolding handle handle_packet null_process handle_ip_packet
handle-ip r pkt null kind =
    let passes : r.processor pkt.bytes ≡ some pkt.bytes = ap (λ f. f pkt.bytes) null in
    rw (passes, kind, handle, handle_packet) refl

-- The ways an IP packet is handled.
module _ {S : Type 0} (r : Router S) (pkt : Packet) (out : Outcome) where
  pub record IsMalformed : Type 0 where
    pub reason : HasNoHeader pkt.bytes
    pub result : out ≡ dropped

  pub record IsForUs : Type 0 where
    pub version : ℕ
    pub dst : Addr
    pub ttl_idx : ℕ
    pub header : IsHeader pkt.bytes version dst ttl_idx
    pub ours : r.is_local dst ≡ true
    pub result : IsDelivered r pkt dst out

  -- Not for this router: at its last hop it is dropped, else it goes on by the entry that is found
  -- for its destination.
  pub record IsForwarded : Type 0 where
    pub version : ℕ
    pub dst : Addr
    pub ttl_idx : ℕ
    pub header : IsHeader pkt.bytes version dst ttl_idx
    pub not_ours : r.is_local dst ≡ false
    pub result :
        ((byte_at pkt.bytes ttl_idx ≡ 1) × (out ≡ dropped))
        ⊎ ((byte_at pkt.bytes ttl_idx ≢ 1)
            × ((sent : Packet) × IsSentOn pkt version ttl_idx sent
                × IsRouted r sent (lookup r.fib dst) out))

module _ {S : Type 0} (r : Router S) (pkt : Packet) (bytes : IsBytes pkt.bytes) where
  -- Not for this router: dropped at its last hop, else routed on.
  pub forward_ip_cases :
      {version ttl_idx : ℕ} {dst : Addr}
      → IsHeader pkt.bytes version dst ttl_idx
      → ((byte_at pkt.bytes ttl_idx ≡ 1) × (forward_ip r pkt version dst ttl_idx ≡ dropped))
        ⊎ ((byte_at pkt.bytes ttl_idx ≢ 1)
            × ((sent : Packet) × IsSentOn pkt version ttl_idx sent
                × (forward_ip r pkt version dst ttl_idx ≡ route r sent dst)))
  forward_ip_cases {version} {ttl_idx} {dst} head =
      let (l, t) = IsHeader-bound pkt.bytes head in
      let small = byte-lt pkt.bytes ttl_idx bytes in
      let at = decrement_at_self pkt.bytes ttl_idx (omega arith) in
      let on = forward_ip_in_range r pkt version dst ttl_idx l t in
      elim (Bool-cases (byte_at (decrement_at ttl_idx pkt.bytes) ttl_idx == 0)) [
        | inl z ↦ inl (ground arith, rw (on, z) refl)
        | inr n ↦
            inr (
              ground arith,
              (sent_on pkt version ttl_idx, sent_on-header pkt head, rw (on, n) refl),
            )
      ]

  handled_header :
      {version ttl_idx : ℕ} {dst : Addr}
      → IsHeader pkt.bytes version dst ttl_idx
      → read_header pkt.bytes ≡ some (some (version, dst, ttl_idx))
      → IsForUs r pkt (handle_ip_packet r pkt) ⊎ IsForwarded r pkt (handle_ip_packet r pkt)
  handled_header {version} {ttl_idx} {dst} head e =
      let read = handle_read r pkt version ttl_idx dst (IsHeader-bound pkt.bytes head).0 e in
      elim (Bool-cases (r.is_local dst)) [
        | inl ours ↦ inl (record {
          version = version;
          dst = dst;
          ttl_idx = ttl_idx;
          header = head;
          ours = ours;
          result = rw (read, ours) (deliver_local-IsDelivered r pkt dst);
        })
        | inr other ↦ inr (record {
          version = version;
          dst = dst;
          ttl_idx = ttl_idx;
          header = head;
          not_ours = other;
          result = elim (forward_ip_cases head) [
            | inl (last, out) ↦ inl (last, rw (read, other) out)
            | inr (hops, (sent, is, out)) ↦ inr (
              hops,
              (sent, is, rw (read, other, out) (route-IsRouted r sent dst (lookup r.fib dst) refl)),
            )
          ];
        })
      ]

-- Every IP packet of bytes is dropped, where it is shorter than 20 bytes, of version 6 and shorter
-- than 40, or of another version than 4 and 6; or its destination is the router's own, and it is
-- given whole to the NIC of the destination, refused where that NIC is gone, or dropped where there
-- is none; or it is forwarded: dropped if its TTL is 1, and else, with a TTL one less (255 for 0) and
-- all else unchanged but the IPv4 checksum, dropped where no entry is found for its destination, or
-- given to a NIC, written to a transport or written under labels as the entry says.
pub handle_ip_packet_cases :
    {S : Type 0} (r : Router S) (pkt : Packet)
    → IsBytes pkt.bytes
    → IsMalformed r pkt (handle_ip_packet r pkt)
      ⊎ (IsForUs r pkt (handle_ip_packet r pkt) ⊎ IsForwarded r pkt (handle_ip_packet r pkt))
handle_ip_packet_cases r pkt b = elim (Bool-cases (ltb (length pkt.bytes) 20)) [
  | inl short ↦
      let h = ltb→lt _ _ short in inl (record { reason = inl h; result = handle_short r pkt h })
  | inr long ↦
      let l : 20 ≤ length pkt.bytes = ltb→le _ _ long in
      elim (read_header_total pkt.bytes l) [
        | inl (bad, e) ↦ inl (record { reason = bad; result = handle_unread r pkt l e })
        | inr (version, dst, ttl_idx, head, e) ↦ inr (handled_header r pkt b head e)
      ]
]

-- The packet is not for this router and has hops left: it is routed on.
pub handle_ip_packet_other :
    {S : Type 0} (r : Router S) (pkt : Packet) {version ttl_idx : ℕ} {dst : Addr}
    → IsBytes pkt.bytes
    → IsHeader pkt.bytes version dst ttl_idx
    → r.is_local dst ≡ false
    → byte_at pkt.bytes ttl_idx ≢ 1
    → (sent : Packet) × IsSentOn pkt version ttl_idx sent
      × (handle_ip_packet r pkt ≡ route r sent dst)
handle_ip_packet_other r pkt {version} {ttl_idx} {dst} b head other hops =
    let e = read_header-IsHeader pkt.bytes head in
    let read = handle_read r pkt version ttl_idx dst (IsHeader-bound pkt.bytes head).0 e in
    elim (forward_ip_cases r pkt b head) [
      | inl (last, _) ↦ absurd (hops last)
      | inr (_, (sent, is, out)) ↦ (sent, is, rw (read, other) out)
    ]

-- A packet that comes with a TTL of 0 and is not for this router is not dropped: it is routed on
-- with a TTL of 255.
handle_ip_packet-zero_ttl :
    {S : Type 0} (r : Router S) (pkt : Packet) {version ttl_idx : ℕ} {dst : Addr}
    → IsBytes pkt.bytes
    → IsHeader pkt.bytes version dst ttl_idx
    → r.is_local dst ≡ false
    → byte_at pkt.bytes ttl_idx ≡ 0
    → (sent : Packet) × (byte_at sent.bytes ttl_idx ≡ 255)
      × (handle_ip_packet r pkt ≡ route r sent dst)
handle_ip_packet-zero_ttl r pkt b head other zero_ttl =
    let (sent, is, out) = handle_ip_packet_other r pkt b head other (λ h. omega arith) in
    (sent, omega (arith, is.hop), out)
