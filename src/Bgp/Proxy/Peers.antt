-- ===== src/Bgp/Proxy/Peers.antt =====
-- Every peer has a loopback address of its own, by which the BGP server tells the peers apart.
use gouter.Base.{
  string_eq, nat_eq, ℕ, ◌+◌, ◌^◌, ◌≤◌, ◌<◌, ◌≡◌, ◌≢◌, refl, sym, ap, ◌∙◌, Bool, List, [], ◌∷◌,
  Option, some, String, ◌==◌, arith, length, All, AllPairs, All-imp, Option-cases, Bool-cases, inl,
  inr, beq→eq,
}
use gouter.Base.Dict
use gouter.Netip.{Addr, invalid, v4, addr_eq}
use gouter.Mpls.Udp.{AddrPort}
use gouter.Bgp.Proxy.{
  PeerProxy, ProxyManager, next_addr, new_proxy_manager, take_next, proxy_for, create_proxy,
  get_proxy, joined, handle_inbound,
}

-- The proxy that `CreateProxy` returns is the one that the peer has from then on; a peer that had one
-- keeps it, whatever is asked for, and so does every other peer.
pub create_proxy-get_proxy :
    (pm : ProxyManager) (name : String) (peer : Addr) (port : ℕ) (listened : Option ℕ)
    → let r = create_proxy pm name peer port listened in
      (r.1 ≡ get_proxy r.0 peer)
      × ((q : Addr) (p : PeerProxy) → get_proxy pm q ≡ some p → get_proxy r.0 q ≡ some p)
unfolding get_proxy create_proxy take_next
create_proxy-get_proxy pm name peer port listened =
    elim (Option-cases (Dict.lookup peer pm.proxies)) [
      | inr (p, e) ↦ rw (e, create_proxy) (sym e, λ q x h. h)
      | inl e ↦ elim (Option-cases listened) [
        | inl f ↦ rw (e, f, create_proxy) (sym e, λ q p h. h)
        | inr (ln, f) ↦
            rw (e, f, create_proxy)
              (
                sym (Dict.lookup-insert_self peer _ pm.proxies),
                λ q p h. Dict.lookup-insert_kept peer q _ p pm.proxies e h,
              )
      ]
    ]

-- The address of the next proxy is `k`, and every proxy has an earlier one, of no other proxy, where
-- the host listens for it.
pub record IsIssued (pm : ProxyManager) (k : ℕ) : Type 0 where
  pub at : pm.next_ip ≡ v4 k
  pub earlier : All (λ e. (n : ℕ) × (e.1.local_ip ≡ v4 n) × (n < k)) pm.proxies
  pub apart : AllPairs (λ a b. a.1.local_ip ≢ b.1.local_ip) pm.proxies
  pub listening : All (λ e. (ln : ℕ) × (Dict.lookup e.1.local_ip pm.listeners ≡ some ln)) pm.proxies

later : (k : ℕ) (a : Addr) → (n : ℕ) × (a ≡ v4 n) × (n < k) → a ≢ v4 k
later k a (n, e, lt) same = let eq : v4 n ≡ v4 k = sym e ∙ same in let m : n ≡ k = cc in omega arith

still_listening :
    (l : List (Addr × ℕ)) (ip : Addr) (ln : ℕ) (a : Addr)
    → (x : ℕ) × (Dict.lookup a l ≡ some x)
    → (x : ℕ) × (Dict.lookup a (Dict.insert ip ln l) ≡ some x)
still_listening l ip ln a (x, e) = elim (Bool-cases (ip == a)) [
  | inl same ↦ (ln, ground (arith, Dict.lookup-insert ip a ln l, same))
  | inr other ↦ (x, ground (arith, Dict.lookup-insert ip a ln l, other, e))
]

take_next-IsIssued :
    (pm : ProxyManager) (k : ℕ) → IsIssued pm k → k + 1 < 2 ^ 32 → IsIssued (take_next pm) (k + 1)
unfolding take_next next_addr
take_next-IsIssued pm k i room = record {
  at = ap next_addr i.at ∙ ground arith;
  earlier = All-imp pm.proxies (λ b (n, e, lt). (n, e, omega arith)) i.earlier;
  apart = i.apart;
  listening = i.listening;
}

create_proxy-IsIssued :
    (pm : ProxyManager) (k : ℕ) (name : String) (peer : Addr) (port : ℕ) (listened : Option ℕ)
    → IsIssued pm k
    → k + 1 < 2 ^ 32
    → (j : ℕ) × (j ≤ k + 1) × IsIssued (create_proxy pm name peer port listened).0 j
unfolding create_proxy take_next
create_proxy-IsIssued pm k name peer port listened i room =
    let taken = take_next-IsIssued pm k i room in
    elim (Option-cases (Dict.lookup peer pm.proxies)) [
      | inr (p, e) ↦ rw (e, create_proxy) (k, omega arith, i)
      | inl e ↦ elim (Option-cases listened) [
        | inl f ↦ rw (e, f, create_proxy) (k + 1, omega arith, taken)
        | inr (ln, f) ↦
            rw (e, f, create_proxy)
              (
                k + 1,
                omega arith,
                record {
                  at = taken.at;
                  earlier =
                      Dict.All-insert _ peer (proxy_for pm name peer port) pm.proxies
                        (k, i.at, omega arith) taken.earlier;
                  apart =
                      Dict.AllPairs-insert _ peer (proxy_for pm name peer port) pm.proxies e
                        (All-imp pm.proxies (λ b g same. later k b.1.local_ip g (same ∙ i.at))
                          i.earlier)
                        i.apart;
                  listening =
                      Dict.All-insert _ peer (proxy_for pm name peer port) pm.proxies
                        (ln, Dict.lookup-insert_self pm.next_ip ln pm.listeners)
                        (All-imp pm.proxies
                          (λ b g. still_listening pm.listeners pm.next_ip ln b.1.local_ip g)
                          i.listening);
                },
              )
      ]
    ]

-- A peer of the configuration, and what the listen for its proxy comes back with.
pub record Request : Type 0 where
  pub name : String
  pub peer : Addr
  pub port : ℕ
  pub listened : Option ℕ

unfoldable pub create_all : ProxyManager → List Request → ProxyManager
create_all pm [] = pm
create_all pm (q ∷ qs) = create_all (create_proxy pm q.name q.peer q.port q.listened).0 qs

create_all-IsIssued :
    (pm : ProxyManager) (k : ℕ) (qs : List Request)
    → IsIssued pm k
    → k + length qs < 2 ^ 32
    → (j : ℕ) × IsIssued (create_all pm qs) j
unfolding create_all
create_all-IsIssued pm k [] i room = (k, i)
create_all-IsIssued pm k (q ∷ qs) i room =
    let (j, le, i') = create_proxy-IsIssued pm k q.name q.peer q.port q.listened i (omega arith) in
    create_all-IsIssued (create_proxy pm q.name q.peer q.port q.listened).0 j qs i' (omega arith)

new_proxy_manager-IsIssued :
    (gobgp_port : ℕ) (free_port : Option ℕ)
    → IsIssued (new_proxy_manager gobgp_port invalid 0 free_port) 0x7f000002
unfolding new_proxy_manager
new_proxy_manager-IsIssued gobgp_port free_port = record {
  at = refl;
  earlier = tt;
  apart = tt;
  listening = tt;
}

-- Two different keys of a map hold values that stand apart.
lookup-apart :
    (a b : Addr) (p q : PeerProxy) (l : List (Addr × PeerProxy))
    → AllPairs (λ x y. x.1.local_ip ≢ y.1.local_ip) l
    → Dict.lookup a l ≡ some p
    → Dict.lookup b l ≡ some q
    → p.local_ip ≡ q.local_ip
    → a ≡ b
unfolding Dict.lookup
lookup-apart a b p q [] u e f same = cc
lookup-apart a b p q ((c, r) ∷ l) (h, u) e f same = elim (Bool-cases (c == a)) [
  | inl ca ↦ elim (Bool-cases (c == b)) [
    | inl cb ↦ sym (beq→eq c a ca) ∙ beq→eq c b cb
    | inr nb ↦
        let mine : r ≡ p = ground (arith, ca, e) in
        absurd (
          Dict.lookup-All (λ y. r.local_ip ≢ y.1.local_ip) b q l h (ground (arith, nb, f))
            (ap (λ x. x.local_ip) mine ∙ same))
  ]
  | inr na ↦ elim (Bool-cases (c == b)) [
    | inl cb ↦
        let mine : r ≡ q = ground (arith, cb, f) in
        absurd (
          Dict.lookup-All (λ y. r.local_ip ≢ y.1.local_ip) a p l h (ground (arith, na, e))
            (ap (λ x. x.local_ip) mine ∙ sym same))
    | inr nb ↦ lookup-apart a b p q l u (ground (arith, na, e)) (ground (arith, nb, f)) same
  ]
]

-- The peer of a connection that is joined.
handle_inbound_known :
    (pm : ProxyManager) (r : AddrPort) (dialled : Addr → Bool) (ip : Addr) (to : AddrPort)
    → handle_inbound pm (some r) dialled ≡ joined (some ip) to
    → (p : PeerProxy) × (Dict.lookup r.addr pm.proxies ≡ some p) × (p.local_ip ≡ ip)
unfolding handle_inbound
handle_inbound_known pm r dialled ip to e = elim (Option-cases (Dict.lookup r.addr pm.proxies)) [
  | inl f ↦ absurd (ground (arith, e, f))
  | inr (p, f) ↦ (p, f, ground (arith, e, f))
]

-- The manager that the speaker starts, after it made the proxies of some peers.
abbrev pub speaker_proxies : ℕ → Option ℕ → List Request → ProxyManager
speaker_proxies gobgp_port free_port qs =
    create_all (new_proxy_manager gobgp_port invalid 0 free_port) qs

-- With the manager that the speaker starts, whichever peers it makes proxies for, fewer than 2^24, and
-- whichever of the listens fail: two connections that reach the BGP server from one address come from
-- one peer.
pub handle_inbound-one_peer :
    (gobgp_port : ℕ) (free_port : Option ℕ) (qs : List Request) (r r' : AddrPort)
    (dialled dialled' : Addr → Bool) (ip : Addr) (to to' : AddrPort)
    → length qs < 2 ^ 24
    → handle_inbound (speaker_proxies gobgp_port free_port qs) (some r) dialled
      ≡ joined (some ip) to
    → handle_inbound (speaker_proxies gobgp_port free_port qs) (some r') dialled'
      ≡ joined (some ip) to'
    → r.addr ≡ r'.addr
handle_inbound-one_peer gobgp_port free_port qs r r' dialled dialled' ip to to' few e f =
    let start = new_proxy_manager gobgp_port invalid 0 free_port in
    let first = new_proxy_manager-IsIssued gobgp_port free_port in
    let (j, i) = create_all-IsIssued start 0x7f000002 qs first (omega arith) in
    let (p, found, own) = handle_inbound_known _ r dialled ip to e in
    let (q, found', own') = handle_inbound_known _ r' dialled' ip to' f in
    lookup-apart r.addr r'.addr p q _ i.apart found found' (own ∙ sym own')
