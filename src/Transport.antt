-- ===== src/Transport.antt =====
-- internal/transport: the packets that transports and the router hand to each other.
use gouter.Base.{ℕ, String, List}

-- `PacketIP` and `PacketMPLS`. A byte of any other value is never made.
pub data PacketType : Type 0 where
  packet_ip packet_mpls : PacketType

pub record Packet : Type 0 where
  pub kind : PacketType
  pub bytes : List ℕ
  pub transport : String
