-- ===== src/Netstack/Manager/Names.antt =====
-- The manager's maps: every address belongs to a NIC that is there, and what a shared address does.
use gouter.Base.{
  nat_eq, string_eq, ℕ, ◌+◌, ◌≡◌, ◌≢◌, refl, subst, Bool, true, false, List, [], ◌∷◌, Option, none,
  some, String, arith, All, AllPairs, All-imp, ◌==◌, Bool-cases, Option-cases, inl, inr,
  if◌then◌else◌, beq→eq, beq→ne,
}
use gouter.Base.Dict.{lookup, insert, delete, lookup-insert, lookup-delete, All-insert}
use gouter.Netip.{Addr, Prefix, prefix_eq, contains}
use gouter.Netstack.Manager.{
  Endpoint, NicConfig, Manager, Calls, register, new_endpoint, after_assign, after_create, add_nic,
  remove_nic, without_name, name_containing, nic_name_for_address, inject_inbound, has_prefix,
}

-- The NIC of a name is there.
abbrev pub IsThere : List (String × Endpoint) → String → Type 0
IsThere nics name = (ep : Endpoint) × (lookup name nics ≡ some ep)

-- Every address that the manager knows is one of a NIC that is there.
abbrev pub IsConsistent : {S : Type 0} → Manager S → Type 0
IsConsistent m = All (λ e. IsThere m.nics e.1) m.nic_by_addr

IsThere-insert :
    (nics : List (String × Endpoint)) (name : String) (ep : Endpoint) (n : String)
    → IsThere nics n
    → IsThere (insert name ep nics) n
IsThere-insert nics name ep n (old, h) = elim (Bool-cases (name == n)) [
  | inl e ↦ (ep, ground (arith, lookup-insert name n ep nics, e))
  | inr e ↦ (old, ground (arith, lookup-insert name n ep nics, e, h))
]

IsThere-inserted :
    (nics : List (String × Endpoint)) (name : String) (ep : Endpoint)
    → IsThere (insert name ep nics) name
IsThere-inserted nics name ep =
    (ep, ground (arith, lookup-insert name name ep nics, string_eq.beq_iff name name))

IsThere-delete :
    (nics : List (String × Endpoint)) (name n : String)
    → n ≢ name
    → IsThere nics n
    → IsThere (delete name nics) n
IsThere-delete nics name n ne (ep, h) =
    (ep, ground (arith, lookup-delete name n nics, string_eq.beq_iff name n, h))

without_name-All :
    (nics : List (String × Endpoint)) (name : String) (l : List (Prefix × String))
    → All (λ e. IsThere nics e.1) l
    → All (λ e. IsThere (delete name nics) e.1) (without_name name l)
unfolding without_name
without_name-All nics name [] h = tt
without_name-All nics name ((p, n) ∷ l) (h, hs) = elim (Bool-cases (n == name)) [
  | inl e ↦ rw (e, without_name) (without_name-All nics name l hs)
  | inr e ↦
      rw (e, without_name)
        (IsThere-delete nics name n (beq→ne n name e) h, without_name-All nics name l hs)
]

module _ {S : Type 0} (calls : Calls S) where
  register-IsConsistent :
      (m : Manager S) (cfg : NicConfig) (ep : Endpoint)
      → IsConsistent m
      → IsConsistent (register calls m cfg ep)
  unfolding register
  register-IsConsistent m cfg ep h =
      All-insert (λ e. IsThere (insert cfg.name ep m.nics) e.1) cfg.address cfg.name m.nic_by_addr
        (IsThere-inserted m.nics cfg.name ep)
        (All-imp m.nic_by_addr (λ e t. IsThere-insert m.nics cfg.name ep e.1 t) h)

  after_assign-IsConsistent :
      (m : Manager S) (cfg : NicConfig) (ep : Endpoint) (result : S × Bool)
      → IsConsistent m
      → IsConsistent (after_assign calls m cfg ep result).0
  unfolding after_assign
  after_assign-IsConsistent m cfg ep (s, true) h =
      register-IsConsistent (record m { stack = s }) cfg ep h
  after_assign-IsConsistent m cfg ep (s, false) h = h

  after_create-IsConsistent :
      (m : Manager S) (cfg : NicConfig) (ep : Endpoint) (created : Option S)
      → IsConsistent m
      → IsConsistent (after_create calls m cfg ep created).0
  unfolding after_create
  after_create-IsConsistent m cfg ep none h = h
  after_create-IsConsistent m cfg ep (some s) h = after_assign-IsConsistent m cfg ep _ h

  remove_nic-IsConsistent :
      (m : Manager S) (name : String) → IsConsistent m → IsConsistent (remove_nic calls m name)
  unfolding remove_nic
  remove_nic-IsConsistent m name h = elim (Option-cases (lookup name m.nics)) [
    | inl e ↦ rw (e, remove_nic) h
    | inr (ep, e) ↦ rw (e, remove_nic) (without_name-All m.nics name m.nic_by_addr h)
  ]

  -- Where every address that the manager knows belongs to a NIC that is there, `AddNIC`, whether it
  -- succeeds or fails, and `RemoveNIC` keep it so.
  pub manager-IsConsistent :
      (m : Manager S) (cfg : NicConfig) (name : String)
      → IsConsistent m
      → IsConsistent (add_nic calls m cfg).0 × IsConsistent (remove_nic calls m name)
  unfolding add_nic
  manager-IsConsistent m cfg name h =
      (after_create-IsConsistent _ cfg _ _ h, remove_nic-IsConsistent m name h)

name_containing-IsThere :
    (nics : List (String × Endpoint)) (a : Addr) (l : List (Prefix × String)) {name : String}
    → All (λ e. IsThere nics e.1) l
    → name_containing a l ≡ (name, true)
    → IsThere nics name
unfolding name_containing
name_containing-IsThere nics a [] h e = cc
name_containing-IsThere nics a ((p, n) ∷ l) {name} (h, hs) e = elim (Bool-cases (contains p a)) [
  | inl c ↦ let same : n ≡ name = ground (arith, c, e) in subst (IsThere nics) same h
  | inr c ↦ name_containing-IsThere nics a l hs (ground (arith, c, e))
]

-- In a consistent manager the NIC that is found for an address takes the packet.
pub inject_inbound-name_for_address :
    {S : Type 0} (m : Manager S) (a : Addr) (name : String) (bytes : List ℕ)
    → IsConsistent m
    → nic_name_for_address m a ≡ (name, true)
    → inject_inbound m name bytes ≢ none
unfolding inject_inbound nic_name_for_address
inject_inbound-name_for_address m a name bytes h e =
    let (ep, there) = name_containing-IsThere m.nics a m.nic_by_addr h e in
    λ f. ground (arith, there, f)

-- The keys of a map are distinct.
abbrev pub IsMap : List (Prefix × String) → Type 0
IsMap l = AllPairs (λ a b. a.0 ≢ b.0) l

lookup-without_name_absent :
    (p : Prefix) (name : String) (l : List (Prefix × String))
    → All (λ e. p ≢ e.0) l
    → lookup p (without_name name l) ≡ none
unfolding lookup without_name
lookup-without_name_absent p name [] h = refl
lookup-without_name_absent p name ((q, n) ∷ l) (h, hs) =
    ground (arith, prefix_eq.beq_iff q p, lookup-without_name_absent p name l hs)

lookup-without_name-insert :
    (p : Prefix) (name : String) (l : List (Prefix × String))
    → IsMap l
    → lookup p (without_name name (insert p name l)) ≡ none
unfolding lookup without_name insert
lookup-without_name-insert p name [] u = ground (arith, string_eq.beq_iff name name)
lookup-without_name-insert p name ((q, n) ∷ l) (h, u) = elim (Bool-cases (q == p)) [
  | inl e ↦
      let gone =
        lookup-without_name_absent p name l (subst (λ k. All (λ b. k ≢ b.0) l) (beq→eq q p e) h) in
      ground (arith, e, gone, string_eq.beq_iff name name)
  | inr e ↦ ground (arith, e, lookup-without_name-insert p name l u)
]

module _ {S : Type 0} (calls : Calls S) where
  add_nic_shared :
      (m : Manager S) (cfg : NicConfig) (s : S)
      → has_prefix cfg.address m.nic_by_addr ≡ true
      → calls.create_nic m.next_nic_id (new_endpoint calls m cfg) m.stack ≡ some s
      → add_nic calls m cfg ≡ (
        register calls
            (record m { next_nic_id = m.next_nic_id + 1; stack = s })
            cfg
            (new_endpoint calls m cfg),
        true,
      )
  unfolding add_nic after_create after_assign
  add_nic_shared m cfg s dup made = ground (arith, dup, made)

  remove_nic-lookup :
      (m : Manager S) (name : String) (ep : Endpoint)
      → lookup name m.nics ≡ some ep
      → ((remove_nic calls m name).nic_by_addr ≡ without_name name m.nic_by_addr)
        × ((remove_nic calls m name).nics ≡ delete name m.nics)
  unfolding remove_nic
  remove_nic-lookup m name ep e = (ground (arith, e), ground (arith, e))

  -- Where a NIC shares an address that another NIC already has, and is then removed, the address
  -- belongs to no NIC any more, though every NIC of another name is still there.
  pub remove_nic-shared_address :
      (m : Manager S) (cfg : NicConfig) (s : S)
      → IsMap m.nic_by_addr
      → has_prefix cfg.address m.nic_by_addr ≡ true
      → calls.create_nic m.next_nic_id (new_endpoint calls m cfg) m.stack ≡ some s
      → let m' = remove_nic calls (add_nic calls m cfg).0 cfg.name in
        (lookup cfg.address m'.nic_by_addr ≡ none)
        × ((n : String) → lookup n m'.nics ≡ (if cfg.name == n then none else lookup n m.nics))
  unfolding register
  remove_nic-shared_address m cfg s u dup made =
      let ep = new_endpoint calls m cfg in
      let m1 : Manager S =
        register calls (record m { next_nic_id = m.next_nic_id + 1; stack = s }) cfg ep in
      let (addrs, nics) = remove_nic-lookup m1 cfg.name ep (
        ground (
          arith,
          lookup-insert cfg.name cfg.name ep m.nics,
          string_eq.beq_iff cfg.name cfg.name,
        )) in
      rw (add_nic_shared m cfg s dup made) (
        rw addrs (lookup-without_name-insert cfg.address cfg.name m.nic_by_addr u),
        λ n. rw nics (
            ground (
              arith,
              lookup-delete cfg.name n (insert cfg.name ep m.nics),
              lookup-insert cfg.name n ep m.nics,
              string_eq.beq_iff cfg.name n,
            )),
      )
