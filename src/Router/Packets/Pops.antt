-- ===== src/Router/Packets/Pops.antt =====
-- A stack of labels that are all popped, and a label that is swapped.
use gouter.Base.{
  none, refl, string_eq, nat_eq, ℕ, suc, ◌≡◌, ◌∙◌, ap, true, false, List, [], ◌∷◌, some, String,
  arith, length, ◌⊎◌, inl, inr, All, min, drop, if◌then◌else◌,
}
use gouter.Base.Dict
use gouter.Transport.{Packet, packet_ip, packet_mpls}
use gouter.Mpls.Label.{
  Entry, label_max, parse_label, push_label, pop_label, swap_label, push_labels,
}
use gouter.Mpls.Label.Codec.{
  length-pop_label, pop_label-push_label, parse_label-push_label, pop_label-parse_label,
  swap_label-parse_label,
}
use gouter.Mpls.Label.Stack.{push_all, push_labels-eq}
use gouter.Mpls.Lfib.{Lfib, LfibEntry, op_pop, op_swap, op_php, lookup_label}
use gouter.Router.Header.{detect_packet_type}
use gouter.Router.Packets.{
  dropped, Router, Transport, Outcome, wrote, write_to, swap_and_write, apply_entry,
  handle_mpls_packet, handle_packet, handle,
}
use gouter.Router.Packets.Ends.{KeepsLength}
use gouter.Router.Packets.Labels.{looks_like_ip, detect-push_label, handle_packet_fuel}

abbrev pub labelled : Packet → List ℕ → Packet
labelled pkt bytes = record pkt { kind = packet_mpls; bytes = bytes }

abbrev pub plain : Packet → List ℕ → Packet
plain pkt bytes = record pkt { kind = packet_ip; bytes = bytes }

module _ {S : Type 0} (r : Router S) where
  write_to_lem :
      (name : String) (pkt : Packet) (t : Transport)
      → Dict.lookup name r.transports ≡ some t
      → write_to r name pkt ≡ wrote name pkt
  unfolding write_to
  write_to_lem name pkt t h = rw (h, write_to)

  swap_and_write_lem :
      (pkt : Packet) (e : LfibEntry) (new : ℕ) (more bytes : List ℕ) (t : Transport)
      → e.out_labels ≡ new ∷ more
      → swap_label pkt.bytes new ≡ some bytes
      → Dict.lookup e.transport r.transports ≡ some t
      → swap_and_write r pkt e ≡ wrote e.transport (record pkt { bytes = bytes })
  unfolding swap_and_write
  swap_and_write_lem pkt e new more bytes t labels swapped there =
      rw (labels, swap_and_write, swapped)
        (write_to_lem e.transport (record pkt { bytes = bytes }) t there)

module _ {S : Type 0} (r : Router S) (lfib : Lfib) (has : r.lfib ≡ some lfib)
    (null : (bytes : List ℕ) → r.processor bytes ≡ some bytes) where
  -- The label is in the table with an operation that pops it.
  abbrev pub IsPopped : ℕ → Type 0
  IsPopped l =
      (e : LfibEntry) × (lookup_label lfib (min l label_max) ≡ some e)
      × ((e.op ≡ op_pop) ⊎ (e.op ≡ op_php))

  apply_entry-pop :
      (again : Packet → Outcome) (pkt : Packet) (payload : List ℕ) (e : LfibEntry)
      → (e.op ≡ op_pop) ⊎ (e.op ≡ op_php)
      → apply_entry r again pkt payload e
        ≡ again (record pkt { kind = detect_packet_type payload; bytes = payload })
  unfolding apply_entry
  apply_entry-pop again pkt payload e (inl h) = rw (h, apply_entry)
  apply_entry-pop again pkt payload e (inr h) = rw (h, apply_entry)

  -- A labelled packet whose label the table knows.
  handle_mpls_packet_found :
      (again : Packet → Outcome) (pkt : Packet) (label : ℕ) (payload : List ℕ) (e : LfibEntry)
      → pop_label pkt.bytes ≡ some (label, payload)
      → lookup_label lfib label ≡ some e
      → handle_mpls_packet r again pkt ≡ apply_entry r again pkt payload e
  unfolding handle_mpls_packet
  handle_mpls_packet_found again pkt label payload e popped at = ground (arith, has, popped, at)

  handle_found :
      (pkt : Packet) (bytes : List ℕ) (label : ℕ) (payload : List ℕ) (e : LfibEntry)
      → pop_label bytes ≡ some (label, payload)
      → lookup_label lfib label ≡ some e
      → handle r (labelled pkt bytes)
        ≡ apply_entry r (handle_packet r (length bytes)) (labelled pkt bytes) payload e
  unfolding handle handle_packet
  handle_found pkt bytes label payload e popped at =
      rw (null bytes, handle, handle_packet)
        (handle_mpls_packet_found (handle_packet r (length bytes)) (labelled pkt bytes) label
          payload e popped at)

  apply_entry-swap :
      (again : Packet → Outcome) (pkt : Packet) (payload : List ℕ) (e : LfibEntry)
      → e.op ≡ op_swap
      → apply_entry r again pkt payload e ≡ swap_and_write r pkt e
  unfolding apply_entry
  apply_entry-swap again pkt payload e h = simp (h, apply_entry)

  KeepsLength-null : KeepsLength r
  KeepsLength-null bytes out h = let e : out ≡ bytes = cc (null bytes) in rw e (omega arith)

  -- A label that pops is taken off, and what is inside is handled.
  pub handle_pop :
      (pkt : Packet) (bytes : List ℕ) (label : ℕ) (payload : List ℕ) (e : LfibEntry)
      → pop_label bytes ≡ some (label, payload)
      → lookup_label lfib label ≡ some e
      → (e.op ≡ op_pop) ⊎ (e.op ≡ op_php)
      → handle r (labelled pkt bytes)
        ≡ handle r (record pkt { kind = detect_packet_type payload; bytes = payload })
  unfolding handle
  handle_pop pkt bytes label payload e popped at pops =
      let shorter = length-pop_label bytes popped in
      handle_found pkt bytes label payload e popped at
      ∙ (apply_entry-pop (handle_packet r (length bytes)) _ payload e pops
          ∙ handle_packet_fuel r KeepsLength-null (length bytes) (suc (length payload))
              (record pkt { kind = detect_packet_type payload; bytes = payload })
              (omega (arith, shorter)) (omega arith))

  -- A packet under a label that the table does not have is dropped.
  pub handle_unbound :
      (pkt : Packet) (bytes : List ℕ) (label : ℕ) (payload : List ℕ)
      → pop_label bytes ≡ some (label, payload)
      → lookup_label lfib label ≡ none
      → handle r (labelled pkt bytes) ≡ dropped
  unfolding handle handle_packet handle_mpls_packet
  handle_unbound pkt bytes label payload popped at =
      rw (null bytes, handle, handle_packet, has, handle_mpls_packet, popped, at) refl

  pub handle_popped :
      (l : ℕ) (pkt : Packet) (payload : List ℕ)
      → IsPopped l
      → handle r (labelled pkt (push_label payload l))
        ≡ handle r (record pkt { kind = detect_packet_type payload; bytes = payload })
  handle_popped l pkt payload (e, at, pops) =
      handle_pop pkt (push_label payload l) (min l label_max) payload e
        (pop_label-push_label payload l) at pops

  handle_pops-All :
      (l : ℕ) (ls : List ℕ) (pkt : Packet) (payload : List ℕ)
      → All IsPopped (l ∷ ls)
      → All (λ k. looks_like_ip k ≡ false) ls
      → detect_packet_type payload ≡ packet_ip
      → handle r (labelled pkt (push_all payload (l ∷ ls))) ≡ handle r (plain pkt payload)
  handle_pops-All l [] pkt payload (p, _) _ ip =
      handle_popped l pkt payload p
      ∙ ap (λ k. handle r (record pkt { kind = k; bytes = payload })) ip
  handle_pops-All l (k ∷ ks) pkt payload (p, ps) (n, ns) ip =
      handle_popped l pkt (push_all payload (k ∷ ks)) p
      ∙ (ap (λ t. handle r (record pkt { kind = t; bytes = push_all payload (k ∷ ks) }))
            (detected (push_all payload ks) k n)
          ∙ handle_pops-All k ks pkt payload ps ns ip)
    where
      detected :
          (bytes : List ℕ) (m : ℕ)
          → looks_like_ip m ≡ false
          → detect_packet_type (push_label bytes m) ≡ packet_mpls
      detected bytes m h =
          detect-push_label bytes m ∙ ap (λ b. if b then packet_ip else packet_mpls) h

-- With the null processor, a packet under any stack of labels that the table pops, none of them but
-- the first one looking like IP, and a payload that looks like IP, is handled exactly as its payload.
pub handle-push_labels :
    {S : Type 0} (r : Router S) (lfib : Lfib)
    → r.lfib ≡ some lfib
    → ((bytes : List ℕ) → r.processor bytes ≡ some bytes)
    → (l : ℕ) (ls : List ℕ) (pkt : Packet) (payload : List ℕ)
    → All
        (λ k.
          (e : LfibEntry) × (lookup_label lfib (min k label_max) ≡ some e)
          × ((e.op ≡ op_pop) ⊎ (e.op ≡ op_php)))
        (l ∷ ls)
    → All (λ k. looks_like_ip k ≡ false) ls
    → detect_packet_type payload ≡ packet_ip
    → handle r (labelled pkt (push_labels payload (l ∷ ls))) ≡ handle r (plain pkt payload)
handle-push_labels r lfib has null l ls pkt payload pops plain_labels ip =
    rw (push_labels-eq payload (l ∷ ls))
      (handle_pops-All r lfib has null l ls pkt payload pops plain_labels ip)

-- A label that looks like IP under a popped label: the packet is handled as IP, the label's bytes
-- read as a header.
pub handle-push_label_misread :
    {S : Type 0} (r : Router S) (lfib : Lfib)
    → r.lfib ≡ some lfib
    → ((bytes : List ℕ) → r.processor bytes ≡ some bytes)
    → (l k : ℕ) (pkt : Packet) (payload : List ℕ)
    → ((e : LfibEntry) × (lookup_label lfib (min l label_max) ≡ some e)
        × ((e.op ≡ op_pop) ⊎ (e.op ≡ op_php)))
    → looks_like_ip k ≡ true
    → handle r (labelled pkt (push_label (push_label payload k) l))
      ≡ handle r (plain pkt (push_label payload k))
handle-push_label_misread r lfib has null l k pkt payload pops ip =
    handle_popped r lfib has null l pkt (push_label payload k) pops
    ∙ ap (λ t. handle r (record pkt { kind = t; bytes = push_label payload k }))
        (detect-push_label payload k ∙ ap (λ b. if b then packet_ip else packet_mpls) ip)

-- Where the table swaps a label and its transport is there, the packet is written with the first
-- new label in place of the old, and its payload as it was. The new entry is the last of its stack
-- and has a TTL of 64, whatever entry came.
pub handle-swap :
    {S : Type 0} (r : Router S) (lfib : Lfib)
    → r.lfib ≡ some lfib
    → ((bytes : List ℕ) → r.processor bytes ≡ some bytes)
    → (bytes : List ℕ) (old : Entry) (pkt : Packet) (e : LfibEntry) (new : ℕ) (more : List ℕ)
    → parse_label bytes ≡ some old
    → lookup_label lfib old.label ≡ some e
    → e.op ≡ op_swap
    → e.out_labels ≡ new ∷ more
    → (t : Transport) → Dict.lookup e.transport r.transports ≡ some t
    → handle r (labelled pkt bytes)
        ≡ wrote e.transport (labelled pkt (push_label (drop 4 bytes) new))
      × (parse_label (push_label (drop 4 bytes) new)
          ≡ some (record { label = min new label_max; tc = 0; bottom = true; ttl = 64 }))
handle-swap r lfib has null bytes old pkt e new more parsed at op labels t there = (
  handle_found r lfib has null pkt bytes old.label (drop 4 bytes) e
        (pop_label-parse_label bytes parsed) at
      ∙ (apply_entry-swap r lfib has null _ (labelled pkt bytes) (drop 4 bytes) e op
          ∙ swap_and_write_lem r (labelled pkt bytes) e new more _ t labels
              (swap_label-parse_label bytes parsed new) there),
  parse_label-push_label (drop 4 bytes) new,
)
