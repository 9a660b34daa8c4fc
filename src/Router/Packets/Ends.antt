-- ===== src/Router/Packets/Ends.antt =====
-- Handling a packet always ends, and when it can index out of range.
use gouter.Base.{
  string_eq, ℕ, zero, suc, ◌≤◌, ◌<◌, ◌≡◌, ◌≢◌, refl, List, [], ◌∷◌, some, String, arith, length,
  inl, inr, ltb, ltb→lt, ltb→le, Bool-cases,
}
use gouter.Transport.{Packet, PacketType}
use gouter.Netip.{Addr}
use gouter.Mpls.Label.{pop_label}
use gouter.Mpls.Label.Codec.{length-pop_label}
use gouter.Mpls.Lfib.{Lfib, LfibEntry, LabelOp, op_pop, op_swap, op_push, op_php, lookup_label}
use gouter.Router.Fib.{FibEntry, FibAction, action_forward, action_push, action_local}
use gouter.Router.Packets.Sent.{read_header_total, IsHeader-bound}
use gouter.Router.Packets.InRange.{forward_ip_in_range, handle_short, handle_unread, handle_read}
use gouter.Router.Packets.Outcomes.{on_option, on_if, on_kind}
use gouter.Router.Packets.{
  Router, Outcome, dropped, injected, inject_failed, wrote, panicked, out_of_fuel, write_to, inject,
  forward_by_fib, route, forward_ip, deliver_local, handle_ip_packet, swap_and_write, apply_entry,
  handle_mpls_packet, handle_packet, handle,
}

-- The outcomes of a handler that ran to its end.
abbrev pub Ends : Outcome → Type 0
Ends dropped = Unit
Ends (injected nic bytes) = Unit
Ends (inject_failed nic) = Unit
Ends (wrote name pkt) = Unit
Ends panicked = ⊥
Ends out_of_fuel = ⊥

module _ {S : Type 0} (r : Router S) where
  write_to-Ends : (name : String) (pkt : Packet) → Ends (write_to r name pkt)
  unfolding write_to
  write_to-Ends name pkt = on_option Ends _ dropped (λ _. wrote name pkt) tt (λ _ _. tt)

  inject-Ends : (name : String) (bytes : List ℕ) → Ends (inject r name bytes)
  unfolding inject
  inject-Ends name bytes =
      on_option Ends _ (inject_failed name) (λ _. injected name bytes) tt (λ _ _. tt)

  forward_by_fib-Ends :
      (pkt : Packet) (entry : FibEntry) (action : FibAction)
      → entry.action ≡ action
      → Ends (forward_by_fib r pkt entry)
  unfolding forward_by_fib
  forward_by_fib-Ends pkt entry action_forward e = rw (e, forward_by_fib) (write_to-Ends _ _)
  forward_by_fib-Ends pkt entry action_push e = rw (e, forward_by_fib) (write_to-Ends _ _)
  forward_by_fib-Ends pkt entry action_local e = rw (e, forward_by_fib) (inject-Ends _ _)

  route-Ends : (pkt : Packet) (dst : Addr) → Ends (route r pkt dst)
  unfolding route
  route-Ends pkt dst =
      on_option Ends _ dropped (forward_by_fib r pkt) tt
        (λ entry _. forward_by_fib-Ends pkt entry entry.action refl)

  forward_ip-Ends :
      (pkt : Packet) (version : ℕ) (dst : Addr) (ttl_idx : ℕ)
      → 20 ≤ length pkt.bytes
      → ttl_idx < 20
      → Ends (forward_ip r pkt version dst ttl_idx)
  forward_ip-Ends pkt version dst ttl_idx l t =
      rw (forward_ip_in_range r pkt version dst ttl_idx l t)
        (on_if Ends _ dropped _ tt (route-Ends _ dst))

  deliver_local-Ends : (pkt : Packet) (dst : Addr) → Ends (deliver_local r pkt dst)
  unfolding deliver_local
  deliver_local-Ends pkt dst = on_if Ends (r.nic_for_addr dst).1 _ dropped (inject-Ends _ _) tt

  -- An IP packet is always handled to the end, whatever its bytes.
  handle_ip_packet-Ends : (pkt : Packet) → Ends (handle_ip_packet r pkt)
  handle_ip_packet-Ends pkt = elim (Bool-cases (ltb (length pkt.bytes) 20)) [
    | inl short ↦ rw (handle_short r pkt (ltb→lt _ _ short)) tt
    | inr long ↦
        let l : 20 ≤ length pkt.bytes = ltb→le _ _ long in
        elim (read_header_total pkt.bytes l) [
          | inl (bad, e) ↦ rw (handle_unread r pkt l e) tt
          | inr (version, dst, ttl_idx, head, e) ↦ rw (handle_read r pkt version ttl_idx dst l e) (
              on_if Ends (r.is_local dst) _ _ (deliver_local-Ends pkt dst)
                (forward_ip-Ends pkt version dst ttl_idx l (IsHeader-bound pkt.bytes head).1))
        ]
  ]

  -- Every swap in the label table has a label to swap to.
  abbrev pub HasSwapLabels : Lfib → Type 0
  HasSwapLabels l =
      (label : ℕ) (e : LfibEntry)
      → lookup_label l label ≡ some e
      → e.op ≡ op_swap
      → e.out_labels ≢ []

  swap_and_write-Ends :
      (pkt : Packet) (entry : LfibEntry) (labels : List ℕ)
      → entry.out_labels ≡ labels
      → labels ≢ []
      → Ends (swap_and_write r pkt entry)
  unfolding swap_and_write
  swap_and_write-Ends pkt entry [] e h = absurd (h refl)
  swap_and_write-Ends pkt entry (l ∷ ls) e h =
      rw (e, swap_and_write)
        (on_option Ends _ dropped
          (λ bytes. write_to r entry.transport (record pkt { bytes = bytes })) tt
          (λ bytes _. write_to-Ends _ _))

  module _ (again : Packet → Outcome) (pkt : Packet) where
    apply_entry-Ends :
        (payload : List ℕ) (entry : LfibEntry) (op : LabelOp)
        → entry.op ≡ op
        → (op ≡ op_swap → entry.out_labels ≢ [])
        → ((k : PacketType) → Ends (again (record pkt { kind = k; bytes = payload })))
        → Ends (apply_entry r again pkt payload entry)
    unfolding apply_entry
    apply_entry-Ends payload entry op_pop e h inner = rw (e, apply_entry) (inner _)
    apply_entry-Ends payload entry op_php e h inner = rw (e, apply_entry) (inner _)
    apply_entry-Ends payload entry op_push e h inner = rw (e, apply_entry) (write_to-Ends _ _)
    apply_entry-Ends payload entry op_swap e h inner =
        rw (e, apply_entry) (swap_and_write-Ends pkt entry entry.out_labels refl (h refl))

    handle_mpls_packet-Ends :
        ((l : Lfib) → r.lfib ≡ some l → HasSwapLabels l)
        → ((k : PacketType) (bytes : List ℕ)
            → length bytes < length pkt.bytes
            → Ends (again (record pkt { kind = k; bytes = bytes })))
        → Ends (handle_mpls_packet r again pkt)
    unfolding handle_mpls_packet
    handle_mpls_packet-Ends swaps inner = on_option Ends r.lfib dropped _ tt λ lfib found.
        on_option Ends (pop_label pkt.bytes) dropped _ tt λ (label, payload) popped.
          on_option Ends (lookup_label lfib label) dropped _ tt λ entry at.
            apply_entry-Ends payload entry entry.op refl (swaps lfib found label entry at)
              (λ k. inner k payload (omega (arith, length-pop_label pkt.bytes popped)))

  -- A processor that makes no packet longer, as `NullProcessor`.
  abbrev pub KeepsLength : Type 0
  KeepsLength = (bytes out : List ℕ) → r.processor bytes ≡ some out → length out ≤ length bytes

  handle_packet-Ends :
      KeepsLength
      → ((l : Lfib) → r.lfib ≡ some l → HasSwapLabels l)
      → (n : ℕ) (pkt : Packet) → length pkt.bytes < n
      → Ends (handle_packet r n pkt)
  unfolding handle_packet
  handle_packet-Ends keeps swaps zero pkt h = absurd (omega arith)
  handle_packet-Ends keeps swaps (suc n) pkt h =
      on_option Ends (r.processor pkt.bytes) dropped _ tt λ bytes got.
        on_kind Ends pkt.kind _ _ (handle_ip_packet-Ends _) (
          handle_mpls_packet-Ends (handle_packet r n) (record pkt { bytes = bytes }) swaps
            λ k b lt.
              handle_packet-Ends keeps swaps n (record pkt { kind = k; bytes = b })
                (omega (arith, keeps pkt.bytes bytes got)))

  -- With a processor that makes no packet longer and a label for every swap in the label table, the
  -- handler of every packet, whatever its bytes, runs to its end, through every packet inside the
  -- packet. Neither reading an IP header, nor the decrement of the TTL, nor the new checksum, nor the
  -- first label of a swap is out of range.
  pub handle-Ends :
      KeepsLength
      → ((l : Lfib) → r.lfib ≡ some l → HasSwapLabels l)
      → (pkt : Packet) → Ends (handle r pkt)
  unfolding handle
  handle-Ends keeps swaps pkt =
      handle_packet-Ends keeps swaps (suc (length pkt.bytes)) pkt (omega arith)
