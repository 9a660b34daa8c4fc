-- ===== src/Mpls/Lfib/Laws.antt =====
-- The label table is a finite map, and its allocator never gives a reserved label.
use gouter.Base.{nat_eq, ℕ, ◌≤◌, ◌<◌, ◌≡◌, refl, none, some, eqb, if◌then◌else◌}
use gouter.Base.Dict.{lookup-insert, lookup-delete}
use gouter.Mpls.Label.{label_max, label_reserved_max}
use gouter.Mpls.Allocator.Cycle.{allocate_total}
use gouter.Mpls.Lfib.{LfibEntry, Lfib, lookup_label, add, remove, allocate_label, release_label}

-- What the operations of a finite map do to the lookup of a key.
pub record IsMapStep (l : Lfib) (k : ℕ) : Type 0 where
  pub added :
      (e : LfibEntry)
      → lookup_label (add l e) k ≡ (if eqb e.in_label k then some e else lookup_label l k)
  pub removed : (j : ℕ) → lookup_label (remove l j) k ≡ (if eqb j k then none else lookup_label l k)
  pub released : (j : ℕ) → lookup_label (release_label l j) k ≡ lookup_label l k

-- The lookups after an addition, a removal and a release: an addition replaces the entry
-- of its label alone, a removal takes it out, and a release changes no entry.
pub lookup_label-IsMapStep : (l : Lfib) (k : ℕ) → IsMapStep l k
unfolding lookup_label add remove release_label
lookup_label-IsMapStep l k = record {
  added = λ e. lookup-insert e.in_label k e l.entries;
  removed = λ j. lookup-delete j k l.entries;
  released = λ j. refl;
}

-- An allocation returns a label that is not reserved and fits 20 bits, and keeps every entry.
allocate_label_total :
    (l : Lfib)
    → (label : ℕ) × (l' : Lfib) × (allocate_label l ≡ some (label, l'))
      × (label_reserved_max < label)
      × (label ≤ label_max)
      × ((k : ℕ) → lookup_label l' k ≡ lookup_label l k)
unfolding allocate_label lookup_label
allocate_label_total l =
    let (label, a, r, lo, hi) = allocate_total l.alloc in
    (label, record l { alloc = a }, rw (r, allocate_label), lo, hi, λ k. refl)
