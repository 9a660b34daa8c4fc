-- ===== src/Tests/Stores.antt =====
-- The forwarding table in its array at small inputs, and a pointer that goes stale.
use gouter.Base.{
  nat_eq, suc, ◌≡◌, refl, List, [], ◌∷◌, some, arith, length, leb, get_elem?, if◌then◌else◌,
}
use gouter.Netip.{Addr, v4, Prefix, prefix_eq, contains}
use gouter.Router.Fib.{place, cut, sort, lookup}
use gouter.Router.Fib.Store.{
  Store, Pointer, IsStore, slots, view, read, store_add, store_remove, store_lookup, slot_from,
}
use gouter.Router.Fib.Store.Refines as Refines
use gouter.Router.Fib.Store.Refines.{adds, removes, stored, table, entry_at}
use gouter.Router.Fib.Store.Stale as Stale
use gouter.Router.Fib.Store.Stale.{position, slot_after}
use gouter.Tests.Tables.{wide, narrow, host, route_to}

abbrev changes : List Refines.Change
changes = adds (route_to narrow "wg1") ∷ removes narrow ∷ adds (route_to wide "wg0") ∷ []

stored-Refines_example :
    (view (stored suc changes) ≡ table changes)
    × IsStore (stored suc changes)
    × (entry_at (stored suc changes) (store_lookup (stored suc changes) host)
        ≡ lookup (table changes) host)
stored-Refines_example = Refines.stored-Refines suc changes host

-- Three routes in an array of three slots.
abbrev everywhere : Prefix
everywhere = record { addr = v4 0; bits_plus_one = 1 }

abbrev full : Store
full = record {
  arrays = λ k. route_to narrow "wg1" ∷ route_to wide "wg0" ∷ route_to everywhere "wan" ∷ [];
  current = 0;
  len = 3;
}

abbrev to_wide : Pointer
to_wide = record { array = 0; index = 1 }

abbrev outside : Addr
outside = v4 0x0a020304

lookup-outside : store_lookup full outside ≡ some to_wide
unfolding store_lookup slot_from contains
lookup-outside = refl

-- The reader of 10.2.3.4 is sent to `wan` after another's removal of 10.1.0.0/16.
stale-outside : read (store_remove full narrow) to_wide ≡ some (route_to everywhere "wan")
unfolding store_remove cut
stale-outside = refl

read-store_changed_example :
    (read (store_remove full narrow) to_wide
      ≡ read full
          (record { array = 0; index = slot_after (position narrow (view full).routes) 3 1 }))
    × (read (store_add suc full (route_to narrow "wg2")) to_wide ≡ (
        if leb (length (place (route_to narrow "wg2") (view full).routes)) (length (slots full))
        then get_elem? (sort (place (route_to narrow "wg2") (view full).routes)) 1
        else read full to_wide))
read-store_changed_example =
    Stale.read-store_changed suc full narrow (route_to narrow "wg2") 1 (omega arith) (omega arith)
