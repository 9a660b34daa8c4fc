-- ===== src/Mpls/Udp/Laws.antt =====
-- Where a written packet goes, and what the reader passes on.
use gouter.Base.{
  ℕ, Bool, true, false, ◌≡◌, ◌⊎◌, inl, inr, refl, List, [], ◌∷◌, Option, none, some, String, arith,
  length, All, leb, map, suc, Bool-cases, get_elem?, take, if◌then◌else◌,
}
use gouter.Netip.{Addr}
use gouter.Transport.{Packet, PacketType, packet_ip, packet_mpls}
use gouter.Mpls.Label.{has_label}
use gouter.Mpls.Udp.{
  AddrPort, WriteError, UdpTransport, send_raw, write, Event, datagram, failed, closed, read_loop,
}

module _ (accepts : AddrPort → List ℕ → Bool) where
  abbrev pub Refuses : List ℕ → Addr × AddrPort → Type 0
  Refuses bytes p = accepts p.1 bytes ≡ false

  -- With no error: every peer refuses and nothing is sent, or one datagram goes to the first peer that takes it.
  abbrev pub SentOnce :
      List (Addr × AddrPort) → List ℕ → List (AddrPort × List ℕ) × Option WriteError → Type 0
  SentOnce peers bytes out =
      (All (Refuses bytes) peers × (out ≡ ([], none)))
      ⊎ ((i : ℕ) × (a : Addr) × (p : AddrPort) × (get_elem? peers i ≡ some (a, p))
          × All (Refuses bytes) (take i peers)
          × (accepts p bytes ≡ true)
          × (out ≡ ((p, bytes) ∷ [], none)))

  SentOnce-cons :
      (a : Addr) (p : AddrPort) (peers : List (Addr × AddrPort)) (bytes : List ℕ)
      (out : List (AddrPort × List ℕ) × Option WriteError)
      → accepts p bytes ≡ false
      → SentOnce peers bytes out
      → SentOnce ((a, p) ∷ peers) bytes out
  SentOnce-cons a p peers bytes out r (inl (all, e)) = inl ((r, all), e)
  SentOnce-cons a p peers bytes out r (inr (i, b, q, at, all, ok, e)) =
      inr (suc i, b, q, at, (r, all), ok, e)

  send_raw_accepted :
      (a : Addr) (p : AddrPort) (peers : List (Addr × AddrPort)) (bytes : List ℕ)
      → accepts p bytes ≡ true
      → send_raw accepts ((a, p) ∷ peers) bytes ≡ ((p, bytes) ∷ [], none)
  unfolding send_raw
  send_raw_accepted a p peers bytes ok = rw (ok, send_raw)

  send_raw_refused :
      (a : Addr) (p : AddrPort) (peers : List (Addr × AddrPort)) (bytes : List ℕ)
      → accepts p bytes ≡ false
      → send_raw accepts ((a, p) ∷ peers) bytes ≡ send_raw accepts peers bytes
  unfolding send_raw
  send_raw_refused a p peers bytes r = rw (r, send_raw)

  send_raw-SentOnce :
      (peers : List (Addr × AddrPort)) (bytes : List ℕ)
      → SentOnce peers bytes (send_raw accepts peers bytes)
  send_raw-SentOnce [] bytes = inl (tt, unfold send_raw in refl)
  send_raw-SentOnce ((a, p) ∷ peers) bytes = elim (Bool-cases (accepts p bytes)) [
    | inl ok ↦ inr (0, a, p, refl, tt, ok, send_raw_accepted a p peers bytes ok)
    | inr r ↦
        SentOnce-cons a p peers bytes _ r
          (rw (send_raw_refused a p peers bytes r) (send_raw-SentOnce peers bytes))
  ]

  -- `Write` sends an IP packet, and one shorter than a label entry, to nobody. Any
  -- other packet goes whole to the first peer that takes it, and to nobody if all refuse. The error
  -- that it returns is nil in every case.
  pub write-SentOnce :
      (t : UdpTransport) (pkt : Packet)
      → ((pkt.kind ≡ packet_mpls)
          × (has_label pkt.bytes ≡ true)
          × SentOnce t.peers pkt.bytes (write accepts t pkt))
        ⊎ (((pkt.kind ≡ packet_ip) ⊎ (has_label pkt.bytes ≡ false))
            × (write accepts t pkt ≡ ([], none)))
  write-SentOnce t pkt = go pkt.kind refl (Bool-cases (has_label pkt.bytes))
    where
      go :
          (k : PacketType)
          → pkt.kind ≡ k
          → (has_label pkt.bytes ≡ true) ⊎ (has_label pkt.bytes ≡ false)
          → ((pkt.kind ≡ packet_mpls)
              × (has_label pkt.bytes ≡ true)
              × SentOnce t.peers pkt.bytes (write accepts t pkt))
            ⊎ (((pkt.kind ≡ packet_ip) ⊎ (has_label pkt.bytes ≡ false))
                × (write accepts t pkt ≡ ([], none)))
      go packet_ip e h = inr (inl e, unfold write in rw e)
      go packet_mpls e (inl h) =
          inl (e, h, unfold write in rw (e, h) (send_raw-SentOnce t.peers pkt.bytes))
      go packet_mpls e (inr h) = inr (inr h, unfold write in rw (e, h))

-- What the reader is given: the datagrams before the close that are as long as a label entry.
abbrev pub received : List Event → List (List ℕ)
received [] = []
received (datagram bytes ∷ es) =
    let rest = received es in if leb 4 (length bytes) then bytes ∷ rest else rest
received (failed ∷ es) = received es
received (closed ∷ es) = []

-- The reader hands on, in order, each datagram before the close that can hold a label entry, as an
-- MPLS packet of this transport; read errors and short datagrams do not end the loop.
read_loop-eq :
    (name : String) (es : List Event)
    → read_loop name es
      ≡ map (λ b. record { kind = packet_mpls; bytes = b; transport = name }) (received es)
unfolding read_loop
read_loop-eq name [] = refl
read_loop-eq name (datagram bytes ∷ es) = ground (arith, read_loop-eq name es)
read_loop-eq name (failed ∷ es) = read_loop-eq name es
read_loop-eq name (closed ∷ es) = refl
