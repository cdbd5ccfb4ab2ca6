-- ===== src/Net.antt =====
-- `std::net::IpAddr` as the code uses it: an address is the number `u32::from` or `u128::from` of it.
pub mod Parse
pub mod Endpoint
mod Tests
use edge_gateway.Prelude.{
  ℕ, ◌/◌, ◌%◌, ◌^◌, ◌<◌, ◌≡◌, refl, ◌↔◌, Bool, true, false, arith, if◌then◌else◌, Eq, ◌==◌, nat_eq,
}

pub data IpAddr : Type 0 where
  v4 v6 : ℕ → IpAddr

-- The range of each family.
abbrev pub IsAddr : IpAddr → Type 0
IsAddr (v4 a) = a < 2 ^ 32
IsAddr (v6 a) = a < 2 ^ 128

abbrev pub ip_beq : IpAddr → IpAddr → Bool
ip_beq (v4 a) (v4 b) = a == b
ip_beq (v4 a) (v6 b) = false
ip_beq (v6 a) (v4 b) = false
ip_beq (v6 a) (v6 b) = a == b

pub ip_beq_iff : (a b : IpAddr) → (ip_beq a b ≡ true) ↔ (a ≡ b)
ip_beq_iff (v4 a) (v4 b) = ground arith
ip_beq_iff (v4 a) (v6 b) = ground arith
ip_beq_iff (v6 a) (v4 b) = ground arith
ip_beq_iff (v6 a) (v6 b) = ground arith

instance abbrev pub ip_eq : Eq IpAddr
ip_eq = record { beq = ip_beq; beq_iff = ip_beq_iff }

abbrev pub is_ipv4 : IpAddr → Bool
is_ipv4 (v4 a) = true
is_ipv4 (v6 a) = false

-- `Ipv6Addr::to_ipv4_mapped` on `::ffff:a.b.c.d`, as a test.
unfoldable pub is_ipv4_mapped : ℕ → Bool
is_ipv4_mapped a = a / 2 ^ 32 == 0xffff

-- `IpAddr::is_loopback`: 127.0.0.0/8 and `::1`.
unfoldable pub is_loopback : IpAddr → Bool
is_loopback (v4 a) = a / 2 ^ 24 == 127
is_loopback (v6 a) = a == 1
