-- ===== src/Cmd/Pingtest/Echoes.antt =====
-- What the program does with what comes in by the tunnel.
use gouter.Base.{
  string_eq, nat_eq, ℕ, ◌≡◌, ◌⊎◌, inl, inr, refl, sym, ap, subst, ◌∙◌, Bool, true, false, Option,
  some, String, Option-cases, List, [], ◌∷◌, arith, Bool-cases, if◌then◌else◌,
}
use gouter.Base.Dict
use gouter.Netip.{Addr, Prefix, contains}
use gouter.Transport.{Packet}
use gouter.Netstack.Manager.{
  Manager, Calls, new_manager, add_nic, nic_name_for_address, name_containing,
}
use gouter.Netstack.Manager.Added.{add_nic-added}
use gouter.Netstack.Manager.Names.{IsConsistent, manager-IsConsistent}
use gouter.Router.Packets.{Router, new_router, add_transport, dropped, injected, handle}
use gouter.Router.Packets.Bare.{IsBare, IsOurs, handle-Bare}
use gouter.Router.Packets.Local
use gouter.Cmd.Pingtest.{ping_config, ping_router}
use gouter.Cmd.Pingtest.Main.{
  copied_b64_to_hex, PingEnv, UapiConfig, PingStart, bad_sk, bad_pk, bad_ip, runs, ping_main,
  is_missing, after_nic,
}

module _ {S : Type 0} (calls : Calls S) (stack : S) (prefix : Prefix) (m : Manager S)
    (added : add_nic calls (new_manager stack true) (ping_config prefix) ≡ (m, true)) where
  abbrev r : Router S
  r = ping_router calls m prefix

  one_address : m.nic_by_addr ≡ (prefix, "wg-gouter") ∷ []
  unfolding new_manager Dict.insert
  one_address = add_nic-added calls (new_manager stack true) (ping_config prefix) added

  tidy : IsConsistent m
  unfolding new_manager
  tidy =
      subst IsConsistent (ap (λ p. p.0) added)
        (manager-IsConsistent calls (new_manager stack true) (ping_config prefix) "" tt).0

  nic_of :
      (dst : Addr)
      → nic_name_for_address m dst
        ≡ (if contains prefix dst then ("wg-gouter", true) else ("", false))
  unfolding nic_name_for_address name_containing
  nic_of dst = rw one_address refl

  ping_router-IsBare : IsBare r
  unfolding ping_router new_router add_transport
  ping_router-IsBare = record { no_routes = refl; no_labels = inl refl; null = refl }

  -- Where `AddNIC` succeeds, every packet is either dropped, or it is an IP packet for an address of
  -- the router within the NIC's prefix and is given whole to that NIC. Nothing is forwarded.
  handle-ping_router :
      (pkt : Packet)
      → (handle r pkt ≡ dropped)
        ⊎ ((dst : Addr) × IsOurs r pkt dst
            × (contains prefix dst ≡ true)
            × (handle r pkt ≡ injected "wg-gouter" pkt.bytes))
  unfolding ping_router new_router add_transport
  handle-ping_router pkt = elim (handle-Bare r ping_router-IsBare pkt) [
    | inl out ↦ inl out
    | inr (dst, ours, out) ↦
        let delivered = out ∙ Local.deliver_local-injected r pkt dst tidy refl in
        elim (Bool-cases (contains prefix dst)) [
          | inl within ↦ inr (dst, ours, within, delivered ∙ rw (nic_of dst, within) refl)
          | inr outside ↦ inl (delivered ∙ rw (nic_of dst, outside) refl)
        ]
  ]

module _ {S : Type 0} (calls : Calls S) (stack : S) (decode : String → Option (List ℕ))
    (encode : List ℕ → String) (parse_prefix : String → Option Prefix) (single : String → String)
    (comes_up : Bool) (uapi : UapiConfig) (r : Router S) where
  abbrev main : PingEnv → PingStart S
  main = ping_main calls stack decode encode parse_prefix single comes_up

  after_nic-runs :
      (u : UapiConfig) (prefix : Prefix) (result : Manager S × Bool)
      → after_nic calls stack decode encode parse_prefix single comes_up u prefix result
        ≡ runs uapi r
      → (ns : Manager S) × (result ≡ (ns, true)) × (ping_router calls ns prefix ≡ r)
  unfolding after_nic
  after_nic-runs u prefix (ns, false) e = absurd (cc e)
  after_nic-runs u prefix (ns, true) e = elim (Bool-cases comes_up) [
    | inl up ↦ (ns, refl, ground (arith, e, up))
    | inr down ↦ absurd (ground (arith, e, down))
  ]

  -- Where `main` runs, the prefix parsed and `AddNIC` succeeded.
  ping_main-runs :
      (env : PingEnv)
      → main env ≡ runs uapi r
      → (prefix : Prefix) × (parse_prefix env.gouter_ip ≡ some prefix)
        × ((ns : Manager S) × (add_nic calls (new_manager stack true) (ping_config prefix)
              ≡ (ns, true))
            × (ping_router calls ns prefix ≡ r))
  unfolding ping_main
  ping_main-runs env e = elim (Bool-cases (is_missing env)) [
    | inl t ↦ absurd (ground (arith, e, t))
    | inr n ↦ elim (Option-cases (copied_b64_to_hex decode encode env.gouter_sk)) [
      | inl bad ↦ let out : main env ≡ bad_sk = rw (n, bad, ping_main) refl in absurd (cc (e, out))
      | inr (sk, sk_ok) ↦ elim (Option-cases (copied_b64_to_hex decode encode env.kernel_pk)) [
        | inl bad ↦
            let out : main env ≡ bad_pk = rw (n, sk_ok, bad, ping_main) refl in absurd (cc (e, out))
        | inr (pk, pk_ok) ↦ elim (Option-cases (parse_prefix env.gouter_ip)) [
          | inl bad ↦
              let out : main env ≡ bad_ip = rw (n, sk_ok, pk_ok, bad, ping_main) refl in
              absurd (cc (e, out))
          | inr (prefix, ip_ok) ↦
              let uapi' : UapiConfig = record {
                private_key = sk;
                listen_port = env.listen_port;
                public_key = pk;
                allowed_ip = single env.kernel_ip;
              } in
              let result = add_nic calls (new_manager stack true) (ping_config prefix) in
              let out : main env
                  ≡ after_nic calls stack decode encode parse_prefix single comes_up uapi' prefix
                      result =
                rw (n, sk_ok, pk_ok, ip_ok, ping_main) refl in
              (prefix, ip_ok, after_nic-runs uapi' prefix result (sym out ∙ e))
        ]
      ]
    ]
  ]

-- Whenever `main` comes to run, from whatever environment, every packet is either dropped, or it is
-- an IP packet for an address of the router within the prefix of GOUTER_IP and is given whole to the
-- NIC. Nothing is forwarded.
pub handle-ping_main :
    {S : Type 0} (calls : Calls S) (stack : S) (decode : String → Option (List ℕ))
    (encode : List ℕ → String) (parse_prefix : String → Option Prefix) (single : String → String)
    (comes_up : Bool) (env : PingEnv) (uapi : UapiConfig) (r : Router S) (pkt : Packet)
    → ping_main calls stack decode encode parse_prefix single comes_up env ≡ runs uapi r
    → (handle r pkt ≡ dropped)
      ⊎ ((prefix : Prefix) × (parse_prefix env.gouter_ip ≡ some prefix)
          × ((dst : Addr) × IsOurs r pkt dst
              × (contains prefix dst ≡ true)
              × (handle r pkt ≡ injected "wg-gouter" pkt.bytes)))
unfolding ping_main after_nic
handle-ping_main calls stack decode encode parse_prefix single comes_up env uapi r pkt e =
    let (prefix, parsed, (ns, added, same)) =
      ping_main-runs calls stack decode encode parse_prefix single comes_up uapi r env e in
    subst
      (λ x.
        (handle x pkt ≡ dropped)
        ⊎ ((p : Prefix) × (parse_prefix env.gouter_ip ≡ some p)
            × ((dst : Addr) × IsOurs x pkt dst
                × (contains p dst ≡ true)
                × (handle x pkt ≡ injected "wg-gouter" pkt.bytes))))
      same
      (elim (handle-ping_router calls stack prefix ns added pkt) [
        | inl out ↦ inl out
        | inr given ↦ inr (prefix, parsed, given)
      ])
