-- ===== src/Bgp/Export/Delivered.antt =====
-- What becomes of a packet that follows an exported route from one router to another.
use gouter.Base.{
  string_eq, nat_eq, ℕ, ◌≤◌, ◌<◌, ◌≡◌, ◌≢◌, refl, sym, ap, subst, ◌∙◌, true, false, List, [], ◌∷◌,
  Option, some, String, arith, inl, inr, min, ◌==◌, IsBytes, beq_self, Bool-cases, if◌then◌else◌,
  beq→eq,
}
use gouter.Netip.{Addr, is_valid, Prefix, prefix_eq, contains}
use gouter.Transport.{Packet, packet_ip}
use gouter.Mpls.Label.{label_max, pop_label}
use gouter.Mpls.Label.Stack.{pop_times_one}
use gouter.Mpls.Lfib.{Lfib, lookup_label}
use gouter.Router.Fib.{Fib, FibEntry, has_exact, lookup}
use gouter.Router.Fib.Table.{IsValid}
use gouter.Router.Fib.Chosen.{IsChosen, lookup-IsChosen}
use gouter.Router.Header.{byte_at, detect_packet_type}
use gouter.Router.Packets.{Router, null_process, handle}
use gouter.Router.Packets.Sent.{IsHeader, IsSentOn}
use gouter.Router.Packets.Ip.{handle-ip, handle_ip_packet_other}
use gouter.Router.Packets.Pops.{handle_pop, labelled, plain}
use gouter.Router.Packets.Routed.{IsPushed, IsRouted, IsWritten, out_name, route-IsRouted}
use gouter.Bgp.Paths.{Speaker, handle_path, push_entry, pop_entry, resolve_transport}
use gouter.Bgp.Export.{exported_path}
use gouter.Bgp.Export.Learnt.{exported_path-own, exported_path-other}

-- A packet under one label pops to that label and the packet.
pop_label-IsPushed :
    (pkt : Packet) (l : ℕ) (q : Packet)
    → IsPushed pkt (l ∷ []) q
    → pop_label q.bytes ≡ some (min l label_max, pkt.bytes)
pop_label-IsPushed pkt l q p = pop_times_one q.bytes (min l label_max) pkt.bytes p.stack

-- A packet that is sent on still looks like an IP packet.
detect-IsSentOn :
    (pkt sent : Packet) {version ttl_idx : ℕ} {dst : Addr}
    → IsHeader pkt.bytes version dst ttl_idx
    → IsSentOn pkt version ttl_idx sent
    → detect_packet_type sent.bytes ≡ packet_ip
unfolding detect_packet_type
detect-IsSentOn pkt sent (inl (v, e, t, l, _)) is =
    let same = is.frame 0 (omega arith) (inr (omega arith, omega arith)) in
    ground (arith, is.same_length, same)
detect-IsSentOn pkt sent (inr (v, e, t, l, _)) is =
    let same = is.frame 0 (omega arith) (inl e) in ground (arith, is.same_length, same)

module _ {S : Type 0} (here_with : Lfib → Router S) (there_with : Fib → Router S)
    (parse_addr : String → Option Addr) (prefix : Prefix) (nh : Addr) where
  -- A route that a router exports with a label of its own, and itself as the next hop, both its own
  -- speaker and that of another router take. Then the other router, with the null processor around
  -- its new table, which was valid, sends every IP packet of bytes with a whole header for an address
  -- in the prefix, not its own and in no longer prefix that it has an entry for, and not at its last
  -- hop, with its TTL one less and the label on top, to the transport of the route, if it is there.
  -- What it sends, the first router, with the null processor around its new label table, handles as
  -- the packet that was labelled, whatever transport it comes from.
  pub exported_path-delivered :
      ((f : Lfib) → (here_with f).lfib ≡ some f)
      → ((f : Lfib) (bytes : List ℕ) → (here_with f).processor bytes ≡ some bytes)
      → ((f : Fib) → (there_with f).fib ≡ f)
      → ((f : Fib) → (there_with f).processor ≡ null_process)
      → (s t : Speaker) (l : ℕ) (other : Addr) (pkt arriving : Packet) (version ttl_idx : ℕ)
        (dst : Addr)
      → 0 < l
      → l ≤ label_max
      → is_valid nh ≡ true
      → parse_addr s.router_id ≡ some nh
      → parse_addr t.router_id ≡ some other
      → nh ≢ other
      → IsValid t.fib
      → pkt.kind ≡ packet_ip
      → IsBytes pkt.bytes
      → IsHeader pkt.bytes version dst ttl_idx
      → byte_at pkt.bytes ttl_idx ≢ 1
      → ((f : Fib) → (there_with f).is_local dst ≡ false)
      → contains prefix dst ≡ true
      → ((q : Prefix) (e : FibEntry)
          → has_exact t.fib q ≡ some e
          → contains q dst ≡ true
          → q ≢ prefix
          → q.bits_plus_one < prefix.bits_plus_one)
      → (s' t' : Speaker) × (e : FibEntry) × (sent q : Packet) × (handle_path parse_addr s
            (exported_path prefix nh l)
          ≡ some s')
        × (handle_path parse_addr t (exported_path prefix nh l) ≡ some t')
        × (has_exact t'.fib prefix ≡ some e)
        × IsSentOn pkt version ttl_idx sent
        × IsPushed sent (l ∷ []) q
        × IsWritten
            (there_with t'.fib)
            (out_name (there_with t'.fib) sent e)
            q
            (handle (there_with t'.fib) pkt)
        × (handle (here_with s'.lfib) (labelled arriving q.bytes)
            ≡ handle (here_with s'.lfib) (plain arriving sent.bytes))
  unfolding IsChosen
  exported_path-delivered has null has_fib null_there s t l other pkt arriving version ttl_idx dst
        pos small valid own known ne v ip bytes head hops away holds longest =
      let (s', learnt, popped) = exported_path-own parse_addr prefix nh s l pos valid own in
      let (t', learnt', v', at) =
        exported_path-other parse_addr prefix nh t l other pos valid known ne v in
      let e = push_entry prefix nh (l ∷ []) (resolve_transport t nh) in
      let r = there_with t'.fib in
      let at_prefix : has_exact t'.fib prefix ≡ some e =
        at prefix ∙ ap (λ b. if b then some e else has_exact t.fib prefix) (beq_self prefix) in
      let chosen : IsChosen (has_exact t'.fib) dst (some e) = (
        at_prefix,
        holds,
        λ q e' found c apart.
            longest q e'
              (elim (Bool-cases (prefix == q)) [
                | inl same ↦ absurd (apart (sym (beq→eq prefix q same)))
                | inr other_q ↦
                    sym (ap (λ b. if b then some e else has_exact t.fib q) other_q)
                    ∙ sym (at q)
                    ∙ found
              ])
              c apart,
      ) in
      let finds : lookup r.fib dst ≡ some e =
        ap (λ f. lookup f dst) (has_fib t'.fib) ∙ lookup-IsChosen t'.fib dst (some e) v' chosen in
      let (sent, is, out) = handle_ip_packet_other r pkt bytes head (away t'.fib) hops in
      let (q, pushed, written) : IsRouted r sent (some e) (handle r pkt) =
        subst (IsRouted r sent (some e)) (sym (handle-ip r pkt (null_there t'.fib) ip ∙ out))
          (route-IsRouted r sent dst (some e) finds) in
      let same : min l label_max ≡ l = omega arith in
      let k = here_with s'.lfib in
      let found_label : lookup_label s'.lfib (min l label_max) ≡ some (pop_entry l nh) =
        ap (lookup_label s'.lfib) same ∙ popped in
      (
        s',
        t',
        e,
        sent,
        q,
        learnt,
        learnt',
        at_prefix,
        is,
        pushed,
        written,
        handle_pop k s'.lfib (has s'.lfib) (null s'.lfib) arriving q.bytes (min l label_max)
              sent.bytes (pop_entry l nh) (pop_label-IsPushed sent l q pushed) found_label
              (inl refl)
            ∙ ap (λ kind. handle k (record arriving { kind = kind; bytes = sent.bytes }))
                (detect-IsSentOn pkt sent head is),
      )
