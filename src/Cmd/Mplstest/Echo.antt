-- ===== src/Cmd/Mplstest/Echo.antt =====
-- The echo request that the program sends: both of its checksums verify, and the router reads its
-- destination.
use gouter.Base.{
  string_eq, nat_eq, ℕ, ◌^◌, ◌<◌, ◌≡◌, refl, ap, ◌∙◌, [], some, arith, length, take, drop, IsBytes,
}
use gouter.Netip.{v4}
use gouter.Transport.{packet_ip}
use gouter.Checksum.{checksum, sum_words, fold_carries}
use gouter.Checksum.Fold.{words}
use gouter.Router.Header.{
  read_header, read_dst, checked_slice, refresh_checksum, detect_packet_type,
}
use gouter.Router.Header.Verify.{checksum-refresh_checksum}
use gouter.Cmd.Mplstest.{as_slice, echo_header, echo_request, build_icmp_echo}

echo_header-IsBytes :
    (a b : ℕ) → (length (echo_header (v4 a) (v4 b)) ≡ 20) × IsBytes (echo_header (v4 a) (v4 b))
unfolding echo_header as_slice
echo_header-IsBytes a b = (refl, omega arith)

echo_request-checksum : checksum echo_request ≡ 0
unfolding echo_request checksum sum_words fold_carries
echo_request-checksum = refl

echo_header-checksum : (a b : ℕ) → checksum (refresh_checksum (echo_header (v4 a) (v4 b))) ≡ 0
unfolding echo_header as_slice words
echo_header-checksum a b =
    let (len, bytes) = echo_header-IsBytes a b in
    let (hdr', same, _, ok) =
      checksum-refresh_checksum (echo_header (v4 a) (v4 b)) [] [] len bytes (omega arith) in
    ap checksum same ∙ ok.1 refl

-- The packet between any two IPv4 addresses is 28 bytes long, its header and its ICMP part both
-- verify, and the router reads its version, its destination and where its TTL stands.
pub build_icmp_echo-read_header :
    (a b : ℕ)
    → b < 2 ^ 32
    → let pkt = build_icmp_echo (v4 a) (v4 b) in
      (length pkt ≡ 28)
      × (checksum (take 20 pkt) ≡ 0)
      × (checksum (drop 20 pkt) ≡ 0)
      × (read_header pkt ≡ some (some (4, v4 b, 8)))
unfolding build_icmp_echo echo_header as_slice echo_request refresh_checksum read_header read_dst
    checked_slice
build_icmp_echo-read_header a b small = (
  refl,
  echo_header-checksum a b,
  echo_request-checksum,
  ap (λ (n : ℕ). some (some (4, v4 n, 8))) (omega arith),
)

pub detect-build_icmp_echo :
    (a b : ℕ) → detect_packet_type (build_icmp_echo (v4 a) (v4 b)) ≡ packet_ip
unfolding build_icmp_echo echo_header as_slice refresh_checksum detect_packet_type echo_request
detect-build_icmp_echo a b = refl
