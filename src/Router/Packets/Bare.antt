-- ===== src/Router/Packets/Bare.antt =====
-- A router that knows no route and no label.
use gouter.Base.{
  string_eq, nat_eq, ℕ, ◌≡◌, ◌⊎◌, inl, inr, refl, ap, sym, subst, true, List, none, some,
  Bool-cases, Option-cases, ltb, ltb→lt, ltb→le, ◌≤◌, length, ◌==◌,
}
use gouter.Base.Dict
use gouter.Netip.{Addr}
use gouter.Transport.{Packet, PacketType, packet_ip, packet_mpls}
use gouter.Mpls.Label.{pop_label}
use gouter.Mpls.Lfib.{Lfib, new_lfib, lookup_label}
use gouter.Router.Header.{byte_at, decrement_at}
use gouter.Router.Fib.{new_fib, lookup, lookup_from}
use gouter.Router.Packets.Ip.{handle-ip}
use gouter.Router.Packets.Sent.{IsHeader, IsHeader-bound, read_header_total}
use gouter.Router.Packets.InRange.{forward_ip_in_range, handle_short, handle_unread, handle_read}
use gouter.Router.Packets.{
  Router, Outcome, dropped, null_process, route, forward_ip, deliver_local, handle_ip_packet,
  handle_mpls_packet, handle_packet, handle,
}

-- No route, no label, and the null processor.
pub record IsBare {S : Type 0} (r : Router S) : Type 0 where
  pub no_routes : r.fib ≡ new_fib
  pub no_labels : (r.lfib ≡ none) ⊎ (r.lfib ≡ some new_lfib)
  pub null : r.processor ≡ null_process

-- An IP packet for this router, with its destination.
pub record IsOurs {S : Type 0} (r : Router S) (pkt : Packet) (dst : Addr) : Type 0 where
  pub ip : pkt.kind ≡ packet_ip
  pub version : ℕ
  pub ttl_idx : ℕ
  pub header : IsHeader pkt.bytes version dst ttl_idx
  pub local : r.is_local dst ≡ true

module _ {S : Type 0} (r : Router S) (bare : IsBare r) where
  route-bare : (pkt : Packet) (dst : Addr) → route r pkt dst ≡ dropped
  unfolding route new_fib lookup lookup_from
  route-bare pkt dst = rw (bare.no_routes, route) refl

  forward_ip-bare :
      (pkt : Packet) (version : ℕ) (dst : Addr) (ttl_idx : ℕ)
      → IsHeader pkt.bytes version dst ttl_idx
      → forward_ip r pkt version dst ttl_idx ≡ dropped
  forward_ip-bare pkt version dst ttl_idx head =
      let (l, t) = IsHeader-bound pkt.bytes head in
      let on = forward_ip_in_range r pkt version dst ttl_idx l t in
      elim (Bool-cases (byte_at (decrement_at ttl_idx pkt.bytes) ttl_idx == 0)) [
        | inl z ↦ rw (on, z) refl
        | inr n ↦ rw (on, n) (route-bare _ dst)
      ]

  lookup_label-bare :
      (lfib : Lfib) (label : ℕ) → r.lfib ≡ some lfib → lookup_label lfib label ≡ none
  unfolding lookup_label new_lfib Dict.lookup
  lookup_label-bare lfib label e = elim bare.no_labels [
    | inl none_there ↦ absurd (cc (e, none_there))
    | inr empty ↦ let same : lfib ≡ new_lfib = cc (e, empty) in rw same refl
  ]

  handle_mpls-bare :
      (again : Packet → Outcome) (pkt : Packet) → handle_mpls_packet r again pkt ≡ dropped
  unfolding handle_mpls_packet
  handle_mpls-bare again pkt = elim (Option-cases r.lfib) [
    | inl e ↦ rw (e, handle_mpls_packet) refl
    | inr (lfib, e) ↦ elim (Option-cases (pop_label pkt.bytes)) [
      | inl p ↦ rw (e, p, handle_mpls_packet) refl
      | inr ((label, payload), p) ↦
          rw (e, p, handle_mpls_packet, lookup_label-bare lfib label e) refl
    ]
  ]

  handle_ip-bare :
      (pkt : Packet)
      → pkt.kind ≡ packet_ip
      → (handle_ip_packet r pkt ≡ dropped)
        ⊎ ((dst : Addr) × IsOurs r pkt dst × (handle_ip_packet r pkt ≡ deliver_local r pkt dst))
  handle_ip-bare pkt ip = elim (Bool-cases (ltb (length pkt.bytes) 20)) [
    | inl short ↦ inl (handle_short r pkt (ltb→lt _ _ short))
    | inr long ↦
        let l : 20 ≤ length pkt.bytes = ltb→le _ _ long in
        elim (read_header_total pkt.bytes l) [
          | inl (bad, e) ↦ inl (handle_unread r pkt l e)
          | inr (version, dst, ttl_idx, head, e) ↦
              let read = handle_read r pkt version ttl_idx dst l e in
              elim (Bool-cases (r.is_local dst)) [
                | inl ours ↦ inr (
                  dst,
                  record {
                    ip = ip;
                    version = version;
                    ttl_idx = ttl_idx;
                    header = head;
                    local = ours;
                  },
                  rw (read, ours) refl,
                )
                | inr other ↦ inl (rw (read, other) (forward_ip-bare pkt version dst ttl_idx head))
              ]
        ]
  ]

  abbrev Bare : Packet → Outcome → Type 0
  Bare pkt out =
      (out ≡ dropped) ⊎ ((dst : Addr) × IsOurs r pkt dst × (out ≡ deliver_local r pkt dst))

  passes : (bytes : List ℕ) → r.processor bytes ≡ some bytes
  unfolding null_process
  passes bytes = ap (λ f. f bytes) bare.null

  handle-mpls : (pkt : Packet) → pkt.kind ≡ packet_mpls → handle r pkt ≡ dropped
  unfolding handle handle_packet
  handle-mpls pkt e =
      rw (passes pkt.bytes, e, handle, handle_packet) (handle_mpls-bare (handle_packet r _) _)

  -- What such a router does with a packet: it drops it, or it is an IP packet for this router and is
  -- delivered.
  pub handle-Bare : (pkt : Packet) → Bare pkt (handle r pkt)
  handle-Bare pkt = by_kind pkt.kind refl
    where
      by_kind : (kind : PacketType) → pkt.kind ≡ kind → Bare pkt (handle r pkt)
      by_kind packet_ip e =
          subst (Bare pkt) (sym (handle-ip r pkt bare.null e)) (handle_ip-bare pkt e)
      by_kind packet_mpls e = inl (handle-mpls pkt e)
