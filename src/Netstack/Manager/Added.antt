-- ===== src/Netstack/Manager/Added.antt =====
-- The addresses of the manager after a NIC was added.
use gouter.Base.{nat_eq, string_eq, ◌≡◌, refl, sym, ap, ◌∙◌, Bool, true, false, Option, none, some}
use gouter.Base.Dict.{insert}
use gouter.Netip.{prefix_eq}
use gouter.Netstack.Manager.{
  NicConfig, Manager, Endpoint, Calls, register, after_assign, after_create, add_nic,
}

module _ {S : Type 0} (calls : Calls S) where
  after_assign-added :
      (m : Manager S) (cfg : NicConfig) (ep : Endpoint) (result : S × Bool)
      → (after_assign calls m cfg ep result).1 ≡ true
      → (after_assign calls m cfg ep result).0.nic_by_addr
        ≡ insert cfg.address cfg.name m.nic_by_addr
  unfolding after_assign register
  after_assign-added m cfg ep (s, true) ok = refl
  after_assign-added m cfg ep (s, false) ok = cc ok

  after_create-added :
      (m : Manager S) (cfg : NicConfig) (ep : Endpoint) (created : Option S)
      → (after_create calls m cfg ep created).1 ≡ true
      → (after_create calls m cfg ep created).0.nic_by_addr
        ≡ insert cfg.address cfg.name m.nic_by_addr
  unfolding after_create
  after_create-added m cfg ep none ok = cc ok
  after_create-added m cfg ep (some s) ok = after_assign-added m cfg ep _ ok

  -- An `AddNIC` with no error gives the address to the NIC.
  pub add_nic-added :
      (m : Manager S) (cfg : NicConfig) {m' : Manager S}
      → add_nic calls m cfg ≡ (m', true)
      → m'.nic_by_addr ≡ insert cfg.address cfg.name m.nic_by_addr
  unfolding add_nic
  add_nic-added m cfg e =
      sym (ap (λ p. p.0.nic_by_addr) e) ∙ after_create-added _ cfg _ _ (ap (λ p. p.1) e)
