-- ===== src/Cmd/Pingtest/Outbound.antt =====
-- The order of what the outbound loop hands to the tunnel.
use mathlib.Core.List.{append_assoc}
use gouter.Base.{
  string_eq, nat_eq, ℕ, ◌≤◌, ◌≡◌, ◌⊎◌, inl, inr, refl, sym, subst, ◌∙◌, Bool, true, false, List, [],
  ◌∷◌, ◌++◌, arith, Bool-cases, ltb, length, length-append, ltb→lt, ltb→le,
}
use gouter.Transport.{Packet}
use gouter.Wg.Tun.{channel_size}
use gouter.Wg.Transport.{WgTransport, Sent, write_out, sent, too_many_segments, waits_for_room}
use gouter.Cmd.Pingtest.{outbound_loop}

-- The bytes of what the stack sent.
pub as_sent : List (Bool × Packet) → List (List ℕ)
as_sent [] = []
as_sent ((picks, pkt) ∷ rest) = pkt.bytes ∷ as_sent rest

queued : WgTransport → Packet → WgTransport
queued t pkt = record t { tun = record t.tun { outbound = t.tun.outbound ++ (pkt.bytes ∷ []) } }

write_out-room :
    (t : WgTransport) (picks : Bool) (pkt : Packet)
    → t.tun.closed ≡ false
    → ltb (length t.tun.outbound) channel_size ≡ true
    → write_out t picks pkt ≡ (queued t pkt, sent)
unfolding write_out queued
write_out-room t picks pkt o room = ground (arith, o, room)

write_out-full :
    (t : WgTransport) (picks : Bool) (pkt : Packet)
    → t.tun.closed ≡ false
    → ltb (length t.tun.outbound) channel_size ≡ false
    → write_out t picks pkt ≡ (t, waits_for_room)
unfolding write_out
write_out-full t picks pkt o full = ground (arith, o, full)

-- What the loop leaves: the transport, and what it has not taken.
abbrev IsInOrder : WgTransport → List (Bool × Packet) → WgTransport × List (Bool × Packet) → Type 0
IsInOrder t pkts (t', rest) =
    (t'.tun.outbound ++ as_sent rest ≡ t.tun.outbound ++ as_sent pkts)
    × (length t'.tun.outbound ≤ channel_size)
    × ((rest ≡ []) ⊎ (length t'.tun.outbound ≡ channel_size))

-- The loop after a `Write`.
abbrev after :
    WgTransport
    → Bool × Packet
    → List (Bool × Packet)
    → WgTransport × Sent
    → WgTransport × List (Bool × Packet)
after t p rest w = elim w.1 [
  | sent ↦ outbound_loop w.0 rest
  | too_many_segments ↦ outbound_loop w.0 rest
  | waits_for_room ↦ (t, p ∷ rest)
]

-- While the TUN is open: what waits in it after the loop, and then what the loop has not taken, is
-- what waited before and then all that the stack sent, in order; the TUN stays within its bound; and
-- the loop has taken everything, or waits since the TUN is full.
outbound_loop-IsInOrder :
    (t : WgTransport) (pkts : List (Bool × Packet))
    → t.tun.closed ≡ false
    → length t.tun.outbound ≤ channel_size
    → IsInOrder t pkts (outbound_loop t pkts)
unfolding outbound_loop as_sent queued
outbound_loop-IsInOrder t [] o small = (refl, small, inl refl)
outbound_loop-IsInOrder t ((picks, pkt) ∷ rest) o small =
    elim (Bool-cases (ltb (length t.tun.outbound) channel_size)) [
      | inl room ↦
          let (same, bound, ending) =
            outbound_loop-IsInOrder (queued t pkt) rest o
              (omega (arith, ltb→lt _ _ room, length-append t.tun.outbound (pkt.bytes ∷ []))) in
          subst (λ w. IsInOrder t ((picks, pkt) ∷ rest) (after t (picks, pkt) rest w))
            (sym (write_out-room t picks pkt o room))
            (same ∙ append_assoc t.tun.outbound (pkt.bytes ∷ []) (as_sent rest), bound, ending)
      | inr full ↦
          subst (λ w. IsInOrder t ((picks, pkt) ∷ rest) (after t (picks, pkt) rest w))
            (sym (write_out-full t picks pkt o full))
            (refl, small, inr (omega (arith, small, ltb→le _ _ full)))
    ]
