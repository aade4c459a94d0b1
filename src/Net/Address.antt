-- ===== src/Net/Address.antt =====
-- net_interface.cpp: set_hostname, and the choice of an address in on_dns_resolved. An address text is
-- a C string: a list of bytes that are not NUL.
pub mod Laws
use epic_miner.Common.{
  ℕ, zero, suc, ◌+◌, ◌-◌, ◌%◌, Bool, true, false, ◌&&◌, List, [], ◌∷◌, ◌++◌, Option, none, some,
  leb, ltb, ◌==◌, if◌then◌else◌, length, take, drop, set, get_or, codes, c_str, get_elem?,
}

-- The index of the last occurrence; `none` is the null pointer.
unfoldable pub strrchr : List ℕ → ℕ → Option ℕ
strrchr [] c = none
strrchr (x ∷ xs) c = elim (strrchr xs c) [
  | none ↦ if x == c then some 0 else none
  | some i ↦ some (suc i)
]

pub data Address : Type 0 where
  bad : List ℕ → Address
  address : List ℕ → List ℕ → Address

-- The memory of `ip_port` from `host` on, up to the NUL that was put over the colon. In the
-- bracketed case `host` is moved by one before host[len - 1] is cleared.
unfoldable pub host_of : List ℕ → List ℕ
host_of host =
    let len = length host in
    if get_or host 0 0 == b'[' && get_or host (len - 1) 0 == b']'
    then c_str (set (drop 1 (host ++ 0 ∷ [])) (len - 1) 0)
    else host

unfoldable pub set_hostname : List ℕ → Address
unfolding strrchr host_of
set_hostname ip_port =
    if leb 256 (length ip_port)
    then bad (codes "Hostname too long")
    else elim (strrchr ip_port b':') [
      | none ↦ bad (codes "Pool address format is hostname:port")
      | some cl ↦ address (host_of (take cl ip_port)) (drop (cl + 1) ip_port)
    ]

pub data Family : Type 0 where
  inet inet6 other : Family

-- An addrinfo: its family, and what stands for ai_addr.
pub record AddrInfo : Type 0 where
  pub family : Family
  pub addr : ℕ

unfoldable pub ipv4_of : List AddrInfo → List AddrInfo
ipv4_of [] = []
ipv4_of (a ∷ rest) =
    let others = ipv4_of rest in
    elim a.family [ inet ↦ a ∷ others | inet6 ↦ others | other ↦ others ]

unfoldable pub ipv6_of : List AddrInfo → List AddrInfo
ipv6_of [] = []
ipv6_of (a ∷ rest) =
    let others = ipv6_of rest in
    elim a.family [ inet6 ↦ a ∷ others | inet ↦ others | other ↦ others ]

unfoldable pub pick : List AddrInfo → ℕ → Option AddrInfo
pick xs r = get_elem? xs (r % length xs)

-- final_addr, with rand() = r; `none` is the error that there is no record.
unfoldable pub choose : List AddrInfo → ℕ → Option AddrInfo
unfolding ipv4_of ipv6_of pick
choose res r = elim (ipv4_of res) [
  | x ∷ xs ↦ pick (ipv4_of res) r
  | [] ↦ elim (ipv6_of res) [ [] ↦ none | y ∷ ys ↦ pick (ipv6_of res) r ]
]
