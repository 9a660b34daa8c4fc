-- ===== src/Mpls/Lfib.antt =====
-- internal/mpls/lfib.go: the label table. The locks make each operation one step.
pub mod Laws
use gouter.Base.{nat_eq, ℕ, Option, none, some, List, [], ◌∷◌, map, String}
use gouter.Base.Dict.{lookup, insert, delete}
use gouter.Netip.{Addr}
use gouter.Mpls.Allocator.{Allocator, new_allocator, allocate, release}

pub data LabelOp : Type 0 where
  op_pop op_swap op_push op_php : LabelOp

pub record LfibEntry : Type 0 where
  pub in_label : ℕ
  pub op : LabelOp
  pub out_labels : List ℕ
  pub next_hop : Addr
  pub transport : String

pub record Lfib : Type 0 where
  pub entries : List (ℕ × LfibEntry)
  pub alloc : Allocator

unfoldable pub new_lfib : Lfib
new_lfib = record { entries = []; alloc = new_allocator }

unfoldable pub lookup_label : Lfib → ℕ → Option LfibEntry
lookup_label l label = lookup label l.entries

unfoldable pub add : Lfib → LfibEntry → Lfib
add l entry = record l { entries = insert entry.in_label entry l.entries }

pub remove : Lfib → ℕ → Lfib
remove l in_label = record l { entries = delete in_label l.entries }

-- `none` is a call that does not return.
pub allocate_label : Lfib → Option (ℕ × Lfib)
allocate_label l = elim (allocate l.alloc) [
  | none ↦ none
  | some (label, a) ↦ some (label, record l { alloc = a })
]

pub release_label : Lfib → ℕ → Lfib
release_label l label = record l { alloc = release label l.alloc }

pub list : Lfib → List LfibEntry
list l = map (λ e. e.1) l.entries
