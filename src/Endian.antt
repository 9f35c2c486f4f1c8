-- ===== src/Endian.antt =====
-- networker/net/Endian.h: the conversions between host order and network order. An integer of
-- `n` bytes is its bit pattern, a number below 256 ^ n; the host is little-endian, as x86-64 is,
-- so its memory holds the least significant byte first and `htobe` and `betoh` swap the bytes.
pub mod Memory
pub mod Laws
use network_program_base_fra.Prelude.{ℕ, reverse}
use Memory.{to_memory, from_memory}

-- `htobe16`, `htobe32`, `htobe64` and their inverses on a little-endian host.
unfoldable pub swap_bytes : ℕ → ℕ → ℕ
swap_bytes n x = from_memory (reverse (to_memory n x))

unfoldable pub host_to_network64 : ℕ → ℕ
host_to_network64 host64 = swap_bytes 8 host64

unfoldable pub host_to_network32 : ℕ → ℕ
host_to_network32 host32 = swap_bytes 4 host32

unfoldable pub host_to_network16 : ℕ → ℕ
host_to_network16 host16 = swap_bytes 2 host16

unfoldable pub network_to_host64 : ℕ → ℕ
network_to_host64 net64 = swap_bytes 8 net64

unfoldable pub network_to_host32 : ℕ → ℕ
network_to_host32 net32 = swap_bytes 4 net32

unfoldable pub network_to_host16 : ℕ → ℕ
network_to_host16 net16 = swap_bytes 2 net16
