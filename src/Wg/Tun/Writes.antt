-- ===== src/Wg/Tun/Writes.antt =====
-- What a write leaves in the channel to the router.
use gouter.Base.{
  nat_eq, ℕ, suc, ◌+◌, ◌≤◌, ◌<◌, ◌≡◌, refl, sym, ap, ◌∙◌, false, List, [], ◌∷◌, ◌++◌, ltb, length,
  drop, take, arith, Bool-cases, inl, inr, ◌⊎◌, length-append, get_or,
}
use mathlib.Core.List.{append-nil, append_assoc}
use gouter.Wg.Tun.{
  MemTun, channel_size, Written, wrote, waits_after, panics, write_loop, after_write, write,
}

-- The packets of buffers: what stands after the offset.
pub packets : ℕ → List (List ℕ) → List (List ℕ)
packets offset [] = []
packets offset (buf ∷ bufs) = drop offset buf ∷ packets offset bufs

-- The first `k` buffers came to the channel, in order, and it is within its bound; all of them did
-- where the write reports that it is done.
pub record IsPrefixOf (offset n : ℕ) (before bufs : List (List ℕ)) (r : List (List ℕ) × Written)
    : Type 0 where
  pub written : ℕ
  pub within : written ≤ length bufs
  pub queue : r.0 ≡ before ++ packets offset (take written bufs)
  pub bound : length r.0 ≤ channel_size
  pub outcome :
      ((r.1 ≡ wrote (n + length bufs)) × (written ≡ length bufs))
      ⊎ (((r.1 ≡ waits_after (n + written)) × (channel_size ≤ length r.0))
          ⊎ ((r.1 ≡ panics) × (length (get_or bufs written []) < offset)))

stopped :
    (offset n : ℕ) (before bufs : List (List ℕ)) (w : Written)
    → length before ≤ channel_size
    → ((w ≡ waits_after n) × (channel_size ≤ length before))
      ⊎ ((w ≡ panics) × (length (get_or bufs 0 []) < offset))
    → IsPrefixOf offset n before bufs (before, w)
unfolding packets
stopped offset n before bufs w small e = record {
  written = 0;
  within = omega arith;
  queue = sym (append-nil before);
  bound = small;
  outcome = elim e [
    | inl (h, full) ↦ inr (inl (h ∙ ap waits_after (omega arith), full))
    | inr h ↦ inr (inr h)
  ];
}

one_more :
    (offset n : ℕ) (before : List (List ℕ)) (buf : List ℕ) (bufs : List (List ℕ))
    {r : List (List ℕ) × Written}
    → IsPrefixOf offset (n + 1) (before ++ (drop offset buf ∷ [])) bufs r
    → IsPrefixOf offset n before (buf ∷ bufs) r
unfolding packets
one_more offset n before buf bufs {r} i = record {
  written = suc i.written;
  within = omega (arith, i.within);
  queue =
      i.queue ∙ append_assoc before (drop offset buf ∷ []) (packets offset (take i.written bufs));
  bound = i.bound;
  outcome = elim i.outcome [
    | inl (w, k) ↦ inl (w ∙ ap wrote (omega arith), ap suc k)
    | inr (inl (w, full)) ↦ inr (inl (w ∙ ap waits_after (omega arith), full))
    | inr (inr w) ↦ inr (inr w)
  ];
}

write_loop-IsPrefixOf :
    (offset n : ℕ) (before bufs : List (List ℕ))
    → length before ≤ channel_size
    → IsPrefixOf offset n before bufs (write_loop offset n before bufs)
unfolding write_loop packets
write_loop-IsPrefixOf offset n before [] small = record {
  written = 0;
  within = omega arith;
  queue = sym (append-nil before);
  bound = small;
  outcome = inl (ap wrote (omega arith), refl);
}
write_loop-IsPrefixOf offset n before (buf ∷ bufs) small =
    elim (Bool-cases (ltb (length buf) offset)) [
      | inl past ↦
          rw (past, write_loop)
            (stopped offset n before (buf ∷ bufs) panics small (inr (refl, ground (arith, past))))
      | inr fits ↦ elim (Bool-cases (ltb (length before) channel_size)) [
        | inl room ↦
            rw (fits, write_loop, room)
              (one_more offset n before buf bufs (
                write_loop-IsPrefixOf offset (n + 1) (before ++ (drop offset buf ∷ [])) bufs
                  (ground (arith, room, length-append before (drop offset buf ∷ [])))))
        | inr full ↦
            rw (fits, write_loop, full)
              (stopped offset n before (buf ∷ bufs) (waits_after n) small
                (inl (refl, ground (arith, full))))
      ]
    ]

-- Where the channel is within its bound and the device is open, a write puts the packets of the
-- first buffers, in order, behind those that wait, and the channel stays within its bound. If it is
-- done it wrote every buffer; else it waits after those that it wrote, with the channel full, or
-- panics at a buffer that is shorter than the offset.
pub write-IsPrefixOf :
    (t : MemTun) (bufs : List (List ℕ)) (offset : ℕ)
    → t.closed ≡ false
    → length t.inbound ≤ channel_size
    → IsPrefixOf offset 0 t.inbound bufs ((write t bufs offset).0.inbound, (write t bufs offset).1)
unfolding write after_write
write-IsPrefixOf t bufs offset is_open small =
    rw (is_open, write) (write_loop-IsPrefixOf offset 0 t.inbound bufs small)
