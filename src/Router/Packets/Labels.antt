-- ===== src/Router/Packets/Labels.antt =====
-- What happens to a labelled packet.
use gouter.Base.{
  string_eq, nat_eq, ℕ, zero, suc, ◌/◌, ◌<◌, ◌≡◌, refl, Bool, ◌||◌, List, Option, none, some, arith,
  length, if◌then◌else◌, min, ◌==◌,
}
use gouter.Transport.{Packet, PacketType, packet_ip, packet_mpls}
use gouter.Mpls.Label.{label_max, push_label, pop_label}
use gouter.Mpls.Label.Codec.{push_label_bytes, has_label-push_label, length-pop_label}
use gouter.Mpls.Lfib.{LfibEntry, LabelOp, op_pop, op_swap, op_push, op_php, lookup_label}
use gouter.Router.Header.{detect_packet_type}
use gouter.Router.Packets.Ends.{KeepsLength}
use gouter.Router.Packets.{Router, Outcome, dropped, apply_entry, handle_mpls_packet, handle_packet}

-- The first four bits of a label are 4 or 6, the versions of IP.
abbrev pub looks_like_ip : ℕ → Bool
looks_like_ip l = min l label_max / 65536 == 4 || min l label_max / 65536 == 6

-- A packet under a label is taken for IP exactly where the first four bits of the label read as a
-- version of IP, though what stands there is a label: it is decided by the label alone.
pub detect-push_label :
    (pkt : List ℕ) (l : ℕ)
    → detect_packet_type (push_label pkt l) ≡ (if looks_like_ip l then packet_ip else packet_mpls)
unfolding detect_packet_type
detect-push_label pkt l = ground (arith, push_label_bytes pkt l, has_label-push_label pkt l)

same_option {ℓ} :
    {A : Type ℓ} (o : Option A) (f g : A → Outcome)
    → ((a : A) → o ≡ some a → f a ≡ g a)
    → elim o [ none ↦ dropped | some a ↦ f a ] ≡ elim o [ none ↦ dropped | some a ↦ g a ]
same_option none f g h = refl
same_option (some a) f g h = h a refl

same_kind :
    (k : PacketType) (x y z : Outcome)
    → y ≡ z
    → elim k [ packet_ip ↦ x | packet_mpls ↦ y ] ≡ elim k [ packet_ip ↦ x | packet_mpls ↦ z ]
same_kind packet_ip x y z e = refl
same_kind packet_mpls x y z e = e

module _ {S : Type 0} (r : Router S) where
  apply_entry-cong :
      (f g : Packet → Outcome) (pkt : Packet) (payload : List ℕ) (entry : LfibEntry) (op : LabelOp)
      → entry.op ≡ op
      → ((k : PacketType)
          → f (record pkt { kind = k; bytes = payload })
            ≡ g (record pkt { kind = k; bytes = payload }))
      → apply_entry r f pkt payload entry ≡ apply_entry r g pkt payload entry
  unfolding apply_entry
  apply_entry-cong f g pkt payload entry op_pop e h = rw (e, apply_entry) (h _)
  apply_entry-cong f g pkt payload entry op_php e h = rw (e, apply_entry) (h _)
  apply_entry-cong f g pkt payload entry op_swap e h = rw (e, apply_entry) refl
  apply_entry-cong f g pkt payload entry op_push e h = rw (e, apply_entry) refl

  handle_mpls_packet-cong :
      (f g : Packet → Outcome) (pkt : Packet)
      → ((k : PacketType) (bytes : List ℕ)
          → length bytes < length pkt.bytes
          → f (record pkt { kind = k; bytes = bytes }) ≡ g (record pkt { kind = k; bytes = bytes }))
      → handle_mpls_packet r f pkt ≡ handle_mpls_packet r g pkt
  unfolding handle_mpls_packet
  handle_mpls_packet-cong f g pkt h = same_option r.lfib _ _ λ lfib _.
      same_option (pop_label pkt.bytes) _ _ λ (label, payload) popped.
        same_option (lookup_label lfib label) _ _ λ entry _.
          apply_entry-cong f g pkt payload entry entry.op refl
            (λ k. h k payload (omega (arith, length-pop_label pkt.bytes popped)))

  -- Any fuel above the packet's length gives the same outcome.
  pub handle_packet_fuel :
      KeepsLength r
      → (n m : ℕ) (pkt : Packet) → length pkt.bytes < n
      → length pkt.bytes < m
      → handle_packet r n pkt ≡ handle_packet r m pkt
  unfolding handle_packet
  handle_packet_fuel keeps zero m pkt h k = absurd (omega arith)
  handle_packet_fuel keeps (suc n) zero pkt h k = absurd (omega arith)
  handle_packet_fuel keeps (suc n) (suc m) pkt h k =
      same_option (r.processor pkt.bytes) _ _ λ bytes got. same_kind pkt.kind _ _ _ (
        handle_mpls_packet-cong (handle_packet r n) (handle_packet r m)
          (record pkt { bytes = bytes })
          λ kind b lt.
            handle_packet_fuel keeps n m (record pkt { kind = kind; bytes = b })
              (omega (arith, keeps pkt.bytes bytes got)) (omega (arith, keeps pkt.bytes bytes got)))
