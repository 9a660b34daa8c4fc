-- ===== src/Bgp/Families.antt =====
-- internal/bgp/speaker.go: the address families of a peer.
use gouter.Base.{
  string_eq, Bool, true, false, List, [], ◌∷◌, Option, none, some, String, ◌==◌, ◌≡◌, refl, sym,
  if◌then◌else◌, ◌||◌, ◌⊎◌, ap₂, subst, beq→eq, arith, inl, inr, Option-cases,
}

pub data Afi : Type 0 where
  ip ip6 ls : Afi

pub data Safi : Type 0 where
  unicast mpls_label sr_policy ls_safi : Safi

pub record Family : Type 0 where
  pub afi : Afi
  pub safi : Safi

pub family_from_string : String → Option Family
family_from_string s =
    if s == "ipv4-unicast"
    then some (record { afi = ip; safi = unicast })
    else if s == "ipv6-unicast"
    then some (record { afi = ip6; safi = unicast })
    else if s == "ipv4-labelled-unicast"
    then some (record { afi = ip; safi = mpls_label })
    else if s == "ipv6-labelled-unicast"
    then some (record { afi = ip6; safi = mpls_label })
    else if s == "ipv4-srpolicy"
    then some (record { afi = ip; safi = sr_policy })
    else if s == "ls"
    then some (record { afi = ls; safi = ls_safi })
    else none

-- The loop of `buildAfiSafis`.
pub known_families : List String → List Family
known_families [] = []
known_families (s ∷ ss) = elim (family_from_string s) [
  | none ↦ known_families ss
  | some f ↦ f ∷ known_families ss
]

-- The default after the loop.
pub or_default : List Family → List Family
or_default [] = record { afi = ip; safi = unicast } ∷ []
or_default (f ∷ fs) = f ∷ fs

pub build_afi_safis : List String → List Family
build_afi_safis families = or_default (known_families families)

-- The name of a family in a configuration.
pub name_of : Family → String
name_of f = elim f.afi [
  | ip ↦ elim f.safi [
    | unicast ↦ "ipv4-unicast"
    | mpls_label ↦ "ipv4-labelled-unicast"
    | sr_policy ↦ "ipv4-srpolicy"
    | ls_safi ↦ ""
  ]
  | ip6 ↦ elim f.safi [
    | unicast ↦ "ipv6-unicast"
    | mpls_label ↦ "ipv6-labelled-unicast"
    | sr_policy ↦ ""
    | ls_safi ↦ ""
  ]
  | ls ↦ "ls"
]

pub names_of : List Family → List String
names_of [] = []
names_of (f ∷ fs) = name_of f ∷ names_of fs

pub is_known : String → Bool
is_known s =
    s == "ipv4-unicast"
    || (s == "ipv6-unicast"
        || (s == "ipv4-labelled-unicast"
            || (s == "ipv6-labelled-unicast" || (s == "ipv4-srpolicy" || s == "ls"))))

pub known_names : List String → List String
known_names [] = []
known_names (s ∷ ss) = if is_known s then s ∷ known_names ss else known_names ss

IsFamilyOf : String → Option Family → Type 0
IsFamilyOf s none = is_known s ≡ false
IsFamilyOf s (some f) = (is_known s ≡ true) × (name_of f ≡ s)

if_cases :
    {A : Type 0} (P : A → Type 0) (b : Bool) {x y : A}
    → (b ≡ true → P x)
    → (b ≡ false → P y)
    → P (if b then x else y)
if_cases P true h k = h refl
if_cases P false h k = k refl

family_from_string-IsFamilyOf : (s : String) → IsFamilyOf s (family_from_string s)
unfolding family_from_string IsFamilyOf is_known name_of
family_from_string-IsFamilyOf s =
    let P = IsFamilyOf s in
    if_cases P (s == "ipv4-unicast") (λ a. (ground arith, sym (beq→eq s "ipv4-unicast" a)))
      (λ a.
        if_cases P (s == "ipv6-unicast") (λ b. (ground arith, sym (beq→eq s "ipv6-unicast" b)))
          (λ b.
            if_cases P (s == "ipv4-labelled-unicast")
              (λ c. (ground arith, sym (beq→eq s "ipv4-labelled-unicast" c)))
              (λ c.
                if_cases P (s == "ipv6-labelled-unicast")
                  (λ d. (ground arith, sym (beq→eq s "ipv6-labelled-unicast" d)))
                  (λ d.
                    if_cases P (s == "ipv4-srpolicy")
                      (λ e. (ground arith, sym (beq→eq s "ipv4-srpolicy" e)))
                      (λ e.
                        if_cases P (s == "ls") (λ f. (ground arith, sym (beq→eq s "ls" f)))
                          (λ f. ground arith))))))

names_of-known_families : (ss : List String) → names_of (known_families ss) ≡ known_names ss
unfolding names_of known_families known_names IsFamilyOf
names_of-known_families [] = refl
names_of-known_families (s ∷ ss) = elim (Option-cases (family_from_string s)) [
  | inl e ↦
      let known : is_known s ≡ false = subst (IsFamilyOf s) e (family_from_string-IsFamilyOf s) in
      rw (e, known, known_families, known_names) (names_of-known_families ss)
  | inr (f, e) ↦
      let (known, name) : (is_known s ≡ true) × (name_of f ≡ s) =
        subst (IsFamilyOf s) e (family_from_string-IsFamilyOf s) in
      rw (e, known, known_families, known_names)
        (ap₂ (λ n ns. n ∷ ns) name (names_of-known_families ss))
]

or_default_names :
    (fs : List Family) (ks : List String)
    → names_of fs ≡ ks
    → (names_of (or_default fs) ≡ ks)
      ⊎ ((ks ≡ []) × (or_default fs ≡ record { afi = ip; safi = unicast } ∷ []))
unfolding or_default names_of
or_default_names [] ks e = inr (sym e, refl)
or_default_names (f ∷ fs) ks e = inl e

-- The families that a peer is enabled for are those that its configuration names, in order and
-- without the unknown names, or IPv4 unicast alone where it names no known one.
build_afi_safis-names :
    (ss : List String)
    → (names_of (build_afi_safis ss) ≡ known_names ss)
      ⊎ ((known_names ss ≡ []) × (build_afi_safis ss ≡ record { afi = ip; safi = unicast } ∷ []))
unfolding build_afi_safis
build_afi_safis-names ss =
    or_default_names (known_families ss) (known_names ss) (names_of-known_families ss)
