-- ===== src/Traverse/Address.antt =====
-- `core::net` as src/traverse/gather.rs uses it, and the classes of addresses of that file.
use fgtw.Base.{
  ℕ, ◌≡◌, ◌↔◌, Bool, true, false, not, ◌&&◌, ◌||◌, Option, none, some, arith, ◌==◌, leb,
  if◌then◌else◌, replicate,
}
use fgtw.Base.{[], ◌∷◌}
use fgtw.Base.Bytes.{Bytes, eqb, eqb_iff}

pub record Ipv4 : Type 0 where
  pub a : ℕ
  pub b : ℕ
  pub c : ℕ
  pub d : ℕ

-- A v6 address is its 16 octets.
pub data IpAddr : Type 0 where
  ip4 : Ipv4 → IpAddr
  ip6 : Bytes → IpAddr

-- A v6 socket address has a flow label and a scope beside its port.
pub data SocketAddr : Type 0 where
  sock4 : Ipv4 → ℕ → SocketAddr
  sock6 : Bytes → ℕ → ℕ → ℕ → SocketAddr

abbrev pub ip : SocketAddr → IpAddr
ip (sock4 v4 port) = ip4 v4
ip (sock6 v6 port flow scope) = ip6 v6

abbrev pub port_of : SocketAddr → ℕ
port_of (sock4 v4 port) = port
port_of (sock6 v6 port flow scope) = port

abbrev pub is_ipv6 : SocketAddr → Bool
is_ipv6 (sock4 v4 port) = false
is_ipv6 (sock6 v6 port flow scope) = true

-- `==`
unfoldable pub eqb_v4 : Ipv4 → Ipv4 → Bool
eqb_v4 x y = (x.a == y.a) && ((x.b == y.b) && ((x.c == y.c) && (x.d == y.d)))

eqb_v4_iff : (x y : Ipv4) → (eqb_v4 x y ≡ true) ↔ (x ≡ y)
unfolding eqb_v4
eqb_v4_iff x y = ground arith

unfoldable pub eqb_addr : SocketAddr → SocketAddr → Bool
eqb_addr (sock4 x p) (sock4 y q) = eqb_v4 x y && (p == q)
eqb_addr (sock6 x p f s) (sock6 y q g t) = eqb x y && ((p == q) && ((f == g) && (s == t)))
eqb_addr _ _ = false

pub eqb_addr_iff : (x y : SocketAddr) → (eqb_addr x y ≡ true) ↔ (x ≡ y)
unfolding eqb_addr
eqb_addr_iff (sock4 x p) (sock4 y q) = ground (arith, eqb_v4_iff x y)
eqb_addr_iff (sock6 x p f s) (sock6 y q g t) = ground (arith, eqb_iff x y)
eqb_addr_iff (sock4 x p) (sock6 y q g t) = ground arith
eqb_addr_iff (sock6 x p f s) (sock4 y q) = ground arith

-- The classes of `core::net`.
abbrev pub is_loopback : Ipv4 → Bool
is_loopback v = v.a == 127

abbrev pub is_link_local : Ipv4 → Bool
is_link_local v = (v.a == 169) && (v.b == 254)

abbrev pub is_unspecified4 : Ipv4 → Bool
is_unspecified4 v = (v.a == 0) && ((v.b == 0) && ((v.c == 0) && (v.d == 0)))

abbrev pub is_broadcast : Ipv4 → Bool
is_broadcast v = (v.a == 255) && ((v.b == 255) && ((v.c == 255) && (v.d == 255)))

abbrev within : ℕ → ℕ → ℕ → Bool
within low high n = leb low n && leb n high

abbrev first_octet : Bytes → ℕ
first_octet (x ∷ xs) = x
first_octet [] = 0

abbrev second_octet : Bytes → ℕ
second_octet (x ∷ y ∷ ys) = y
second_octet _ = 0

unfoldable pub is_unspecified : IpAddr → Bool
is_unspecified (ip4 v) = is_unspecified4 v
is_unspecified (ip6 v) = eqb v (replicate 16 0)

unfoldable pub is_multicast : IpAddr → Bool
is_multicast (ip4 v) = within 224 239 v.a
is_multicast (ip6 v) = first_octet v == 255

abbrev pub is_unique_local : Bytes → Bool
is_unique_local v = within 252 253 (first_octet v)

abbrev pub is_unicast_link_local : Bytes → Bool
is_unicast_link_local v = (first_octet v == 254) && within 128 191 (second_octet v)

-- The classes of gather.rs.
unfoldable pub is_usable_lan_ipv4 : Ipv4 → Bool
is_usable_lan_ipv4 v =
    not (is_loopback v)
    && (not (is_link_local v)
        && (not (is_unspecified4 v) && not ((v.a == 192) && ((v.b == 0) && (v.c == 0)))))

unfoldable pub is_private_ipv4 : Ipv4 → Bool
is_private_ipv4 v =
    (v.a == 10)
    || (((v.a == 172) && within 16 31 v.b)
        || (((v.a == 192) && (v.b == 168)) || ((v.a == 100) && within 64 127 v.b)))

abbrev broadcast_ip : IpAddr → Bool
broadcast_ip (ip4 v) = is_broadcast v
broadcast_ip (ip6 v) = false

unfoldable pub is_bogus_addr : SocketAddr → Bool
is_bogus_addr addr =
    is_unspecified (ip addr)
    || (is_multicast (ip addr) || (broadcast_ip (ip addr) || (port_of addr == 0)))

unfoldable pub is_wfd_subnet : Ipv4 → Bool
is_wfd_subnet v = (v.a == 192) && ((v.b == 168) && (v.c == 49))

unfoldable pub peer_lan_reachable : Ipv4 → Option Ipv4 → Bool
peer_lan_reachable peer none = false
peer_lan_reachable peer (some ours) =
    (peer.a == ours.a) && ((peer.b == ours.b) && (peer.c == ours.c))

unfoldable pub is_foreign_peer_lan : SocketAddr → Option Ipv4 → Bool
is_foreign_peer_lan (sock4 v port) our_v4 =
    if is_wfd_subnet v
    then false
    else if is_private_ipv4 v
    then not (peer_lan_reachable v our_v4)
    else false
is_foreign_peer_lan (sock6 v port flow scope) our_v4 = false

-- `ReflexiveState::is_lan_scope`
unfoldable pub is_lan_scope : SocketAddr → Bool
is_lan_scope (sock4 v port) = is_private_ipv4 v
is_lan_scope (sock6 v port flow scope) = is_unique_local v || is_unicast_link_local v
