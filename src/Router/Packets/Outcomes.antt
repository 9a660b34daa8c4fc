-- ===== src/Router/Packets/Outcomes.antt =====
-- A statement about what became of a packet, through the branches of the handlers.
use gouter.Base.{◌≡◌, refl, Bool, true, false, Option, none, some, if◌then◌else◌}
use gouter.Transport.{PacketType, packet_ip, packet_mpls}
use gouter.Router.Packets.{Outcome}

module _ (P : Outcome → Type 0) where
  pub on_option {ℓ} :
      {A : Type ℓ} (o : Option A) (d : Outcome) (f : A → Outcome)
      → P d
      → ((a : A) → o ≡ some a → P (f a))
      → P (elim o [ none ↦ d | some a ↦ f a ])
  on_option none d f h k = h
  on_option (some a) d f h k = k a refl

  pub on_if : (b : Bool) (x y : Outcome) → P x → P y → P (if b then x else y)
  on_if true x y h k = h
  on_if false x y h k = k

  pub on_kind :
      (k : PacketType) (x y : Outcome) → P x → P y → P (elim k [ packet_ip ↦ x | packet_mpls ↦ y ])
  on_kind packet_ip x y h k = h
  on_kind packet_mpls x y h k = k
