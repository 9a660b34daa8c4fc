-- ===== src/Router/Packets/InRange.antt =====
-- The handler of an IP packet by its branches: behind its guards no index is out of range.
use gouter.Base.{
  string_eq, nat_eq, ℕ, ◌≤◌, ◌<◌, ◌≡◌, refl, true, false, none, some, arith, length, ltb, lt→ltb,
  if◌then◌else◌, ◌==◌, Bool-cases, inl, inr,
}
use gouter.Transport.{Packet}
use gouter.Netip.{Addr}
use gouter.Router.Header.{byte_at, read_header, decrement_at, decrement, refresh}
use gouter.Router.Packets.{Router, dropped, route, forward_ip, deliver_local, handle_ip_packet}
use gouter.Router.Packets.Sent.{sent_on, length-decrement_at}

module _ {S : Type 0} (r : Router S) (pkt : Packet) where
  pub forward_ip_in_range :
      (version : ℕ) (dst : Addr) (ttl_idx : ℕ)
      → 20 ≤ length pkt.bytes
      → ttl_idx < 20
      → forward_ip r pkt version dst ttl_idx ≡ (
          if byte_at (decrement_at ttl_idx pkt.bytes) ttl_idx == 0
          then dropped
          else route r (sent_on pkt version ttl_idx) dst)
  unfolding forward_ip decrement refresh sent_on
  forward_ip_in_range version dst ttl_idx l t =
      let there : ltb ttl_idx (length pkt.bytes) ≡ true = ground arith in
      let bytes = decrement_at ttl_idx pkt.bytes in
      let long : ltb (length bytes) 20 ≡ false =
        ground (arith, length-decrement_at pkt.bytes ttl_idx) in
      elim (Bool-cases (byte_at bytes ttl_idx == 0)) [
        | inl z ↦ rw (there, forward_ip, decrement, z) refl
        | inr n ↦ elim (Bool-cases (version == 4)) [
          | inl v ↦ rw (there, forward_ip, decrement, n, v, refresh, long, sent_on) refl
          | inr v ↦ rw (there, forward_ip, decrement, n, v, sent_on) refl
        ]
      ]

  pub handle_short : length pkt.bytes < 20 → handle_ip_packet r pkt ≡ dropped
  unfolding handle_ip_packet
  handle_short h = rw (lt→ltb _ _ h, handle_ip_packet)

  pub handle_unread :
      20 ≤ length pkt.bytes → read_header pkt.bytes ≡ some none → handle_ip_packet r pkt ≡ dropped
  unfolding handle_ip_packet
  handle_unread l e =
      let h : ltb (length pkt.bytes) 20 ≡ false = ground arith in rw (h, e, handle_ip_packet)

  pub handle_read :
      (version ttl_idx : ℕ) (dst : Addr)
      → 20 ≤ length pkt.bytes
      → read_header pkt.bytes ≡ some (some (version, dst, ttl_idx))
      → handle_ip_packet r pkt
        ≡ (if r.is_local dst then deliver_local r pkt dst else forward_ip r pkt version dst ttl_idx)
  unfolding handle_ip_packet
  handle_read version ttl_idx dst l e =
      let h : ltb (length pkt.bytes) 20 ≡ false = ground arith in rw (h, e, handle_ip_packet)
