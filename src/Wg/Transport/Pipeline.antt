-- ===== src/Wg/Transport/Pipeline.antt =====
-- No packet is lost, made up or put out of order between the device and the router.
use mathlib.Core.List.{append_assoc, map-append}
use gouter.Base.{
  nat_eq, ℕ, ◌≤◌, ◌≡◌, refl, sym, ap, ap₂, subst, ◌∙◌, List, [], ◌∷◌, ◌++◌, Option, none, some,
  String, length, arith, length-append, map, All, All-append,
}
use gouter.Transport.{Packet, packet_ip}
use gouter.Wg.Tun.{channel_size}
use gouter.Wg.Transport.{
  Pipe, Moves, takes, hands_over, quits, router_reads, Step, moves, device_writes, closes, Reach,
  here, next, start, as_packet,
}

unfoldable pub held : Option (List ℕ) → List (List ℕ)
held none = []
held (some b) = b ∷ []

abbrev pub contents : List Packet → List (List ℕ)
contents = map (λ p. p.bytes)

-- An IP packet of the transport of this name.
abbrev pub IsOf : String → Packet → Type 0
IsOf name p = (p.kind ≡ packet_ip) × (p.transport ≡ name)

-- What the router read, what waits for it, what `readLoop` holds and what is in the TUN is, byte for
-- byte and in order, all that the device wrote; every packet is an IP packet of this transport, and
-- both channels are within their bounds.
pub record IsOrdered (s : Pipe) : Type 0 where
  pub order :
      contents s.delivered ++ (contents s.reader ++ (held s.in_hand ++ s.inbound)) ≡ s.accepted
  pub delivered_of : All (IsOf s.name) s.delivered
  pub reader_of : All (IsOf s.name) s.reader
  pub inbound_bound : length s.inbound ≤ channel_size
  pub reader_bound : length s.reader ≤ channel_size

contents_snoc :
    (ps : List Packet) (p : Packet) (rest : List (List ℕ))
    → contents (ps ++ (p ∷ [])) ++ rest ≡ contents ps ++ (p.bytes ∷ rest)
contents_snoc ps p rest =
    ap (λ c. c ++ rest) (map-append (λ q. q.bytes) ps (p ∷ []))
    ∙ append_assoc (contents ps) (p.bytes ∷ []) rest

pub Moves-IsOrdered : {s t : Pipe} → Moves s t → IsOrdered s → IsOrdered t
unfolding held as_packet
Moves-IsOrdered {s} (takes bytes rest run empty queue e) o =
    let same : (bytes ∷ []) ++ rest ≡ held s.in_hand ++ s.inbound =
      sym (ap₂ (λ h q. held h ++ q) empty queue) in
    subst IsOrdered (sym e) (record {
      order = ap (λ w. contents s.delivered ++ (contents s.reader ++ w)) same ∙ o.order;
      delivered_of = o.delivered_of;
      reader_of = o.reader_of;
      inbound_bound = omega (arith, ap length queue, o.inbound_bound);
      reader_bound = o.reader_bound;
    })
Moves-IsOrdered {s} (hands_over bytes hand room e) o =
    let p = as_packet s.name bytes in
    subst IsOrdered (sym e) (record {
      order =
          ap (λ w. contents s.delivered ++ w) (contents_snoc s.reader p s.inbound)
          ∙ ap (λ h. contents s.delivered ++ (contents s.reader ++ (held h ++ s.inbound)))
              (sym hand)
          ∙ o.order;
      delivered_of = o.delivered_of;
      reader_of = All-append (IsOf s.name) s.reader (p ∷ []) o.reader_of ((refl, refl), tt);
      inbound_bound = o.inbound_bound;
      reader_bound = omega (arith, length-append s.reader (p ∷ []));
    })
Moves-IsOrdered {s} (quits run h c e) o = subst IsOrdered (sym e) (record {
  order = o.order;
  delivered_of = o.delivered_of;
  reader_of = o.reader_of;
  inbound_bound = o.inbound_bound;
  reader_bound = o.reader_bound;
})
Moves-IsOrdered {s} (router_reads pkt rest queue e) o =
    let waiting = held s.in_hand ++ s.inbound in
    let (of, others) : All (IsOf s.name) (pkt ∷ rest) =
      subst (All (IsOf s.name)) queue o.reader_of in
    subst IsOrdered (sym e) (record {
      order =
          contents_snoc s.delivered pkt (contents rest ++ waiting)
          ∙ ap (λ r. contents s.delivered ++ (contents r ++ waiting)) (sym queue)
          ∙ o.order;
      delivered_of = All-append (IsOf s.name) s.delivered (pkt ∷ []) o.delivered_of (of, tt);
      reader_of = others;
      inbound_bound = o.inbound_bound;
      reader_bound = omega (arith, ap length queue, o.reader_bound);
    })

Step-IsOrdered : {s t : Pipe} → Step s t → IsOrdered s → IsOrdered t
Step-IsOrdered (moves m) o = Moves-IsOrdered m o
Step-IsOrdered {s} (device_writes bytes room e) o =
    let h = held s.in_hand in
    subst IsOrdered (sym e) (record {
      order =
          ap (λ w. contents s.delivered ++ (contents s.reader ++ w))
            (sym (append_assoc h s.inbound (bytes ∷ [])))
          ∙ ap (λ w. contents s.delivered ++ w)
              (sym (append_assoc (contents s.reader) (h ++ s.inbound) (bytes ∷ [])))
          ∙ sym (
              append_assoc (contents s.delivered) (contents s.reader ++ (h ++ s.inbound))
                (bytes ∷ []))
          ∙ ap (λ w. w ++ (bytes ∷ [])) o.order;
      delivered_of = o.delivered_of;
      reader_of = o.reader_of;
      inbound_bound = omega (arith, length-append s.inbound (bytes ∷ []));
      reader_bound = o.reader_bound;
    })
Step-IsOrdered {s} (closes e) o = subst IsOrdered (sym e) (record {
  order = o.order;
  delivered_of = o.delivered_of;
  reader_of = o.reader_of;
  inbound_bound = o.inbound_bound;
  reader_bound = o.reader_bound;
})

Step-name : {s t : Pipe} → Step s t → t.name ≡ s.name
Step-name (moves (takes bytes rest run empty queue e)) = ap (λ p. p.name) e
Step-name (moves (hands_over bytes hand room e)) = ap (λ p. p.name) e
Step-name (moves (quits run h c e)) = ap (λ p. p.name) e
Step-name (moves (router_reads pkt rest queue e)) = ap (λ p. p.name) e
Step-name (device_writes bytes room e) = ap (λ p. p.name) e
Step-name (closes e) = ap (λ p. p.name) e

-- From the start on, whatever the goroutines do and whenever the TUN is closed, the transport keeps
-- its name, and what the router has read, what waits for it, what `readLoop` holds and what is in
-- the TUN is, byte for byte and in order, all that the device wrote; each packet read or waiting is
-- an IP packet of this transport, and neither channel goes past its bound.
pub Reach-IsOrdered :
    (name : String) {s : Pipe} → Reach (start name) s → (s.name ≡ name) × IsOrdered s
unfolding held start
Reach-IsOrdered name here = (
  refl,
  record {
    order = refl;
    delivered_of = tt;
    reader_of = tt;
    inbound_bound = omega arith;
    reader_bound = omega arith;
  },
)
Reach-IsOrdered name (next r st) =
    let (same, o) = Reach-IsOrdered name r in (Step-name st ∙ same, Step-IsOrdered st o)
