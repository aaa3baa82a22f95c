-- ===== src/Mcpauth/Dial.antt =====
-- internal/mcpauth/cimd.go, `dialGuard` and `isPublicIP`: the addresses from which no metadata document
-- is fetched. `net.ParseIP` is a parameter. The predicates of `net.IP` are those of the Go library.
pub mod Ranges
use oidc_proxy.Base.{
  ℕ, ◌/◌, ◌%◌, Bool, true, false, not, ◌&&◌, ◌||◌, Option, none, some, List, [], ◌∷◌, Text, ◌==◌,
  leb, ltb, all, if◌then◌else◌, Message, message,
}
use oidc_proxy.Utils.{split_host}

-- An address: the four bytes of an IPv4 address (also one that is mapped into IPv6), or the first two,
-- the middle and the last byte of another IPv6 address.
pub data Ip : Type 0 where
  v4 : ℕ → ℕ → ℕ → ℕ → Ip
  v6 : ℕ → ℕ → List ℕ → ℕ → Ip

unfoldable pub is_loopback : Ip → Bool
is_loopback (v4 a b c d) = a == 127
is_loopback (v6 a b m z) = a == 0 && b == 0 && all (λ x. x == 0) m && z == 1

unfoldable pub is_private : Ip → Bool
is_private (v4 a b c d) = a == 10 || (a == 172 && b / 16 == 1) || (a == 192 && b == 168)
is_private (v6 a b m z) = a / 2 == 126

unfoldable pub is_unspecified : Ip → Bool
is_unspecified (v4 a b c d) = a == 0 && b == 0 && c == 0 && d == 0
is_unspecified (v6 a b m z) = a == 0 && b == 0 && all (λ x. x == 0) m && z == 0

unfoldable pub is_link_local_unicast : Ip → Bool
is_link_local_unicast (v4 a b c d) = a == 169 && b == 254
is_link_local_unicast (v6 a b m z) = a == 254 && b / 64 == 2

unfoldable pub is_link_local_multicast : Ip → Bool
is_link_local_multicast (v4 a b c d) = a == 224 && b == 0 && c == 0
is_link_local_multicast (v6 a b m z) = a == 255 && b % 16 == 2

unfoldable pub is_interface_local_multicast : Ip → Bool
is_interface_local_multicast (v4 a b c d) = false
is_interface_local_multicast (v6 a b m z) = a == 255 && b % 16 == 1

unfoldable pub is_multicast : Ip → Bool
is_multicast (v4 a b c d) = a / 16 == 14
is_multicast (v6 a b m z) = a == 255

-- `cgnat.Contains(ip)`
unfoldable pub in_cgnat : Ip → Bool
in_cgnat (v4 a b c d) = a == 100 && b / 64 == 1
in_cgnat (v6 a b m z) = false

unfoldable pub is_public_ip : Ip → Bool
is_public_ip ip =
    if is_loopback ip
      || is_private ip
      || is_unspecified ip
      || is_link_local_unicast ip
      || is_link_local_multicast ip
      || is_interface_local_multicast ip
      || is_multicast ip
    then false
    else not (in_cgnat ip)

-- `dialGuard(allowPrivate)` on an address: the error, if there is one
unfoldable pub dial_guard : (Text → Option Ip) → Bool → Text → Option Message
dial_guard parse_ip allow_private address =
    if allow_private then none else (elim (split_host address) [
      | none ↦ some (record { format = "cannot parse dial address %q"; args = address ∷ [] })
      | some host ↦ elim (parse_ip host) [
        | none ↦ some (record { format = "cannot parse dial address %q"; args = address ∷ [] })
        | some ip ↦
            if not (is_public_ip ip)
            then some (message "refusing to fetch client metadata from non-public address %s")
            else none
      ]
    ])
