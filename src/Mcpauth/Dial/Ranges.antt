-- ===== src/Mcpauth/Dial/Ranges.antt =====
-- The addresses that are dialled, as ranges.
use oidc_proxy.Base.{
  ℕ, ◌+◌, ◌*◌, ◌≤◌, ◌<◌, ◌≡◌, ◌↔◌, ◌⊎◌, inl, inr, refl, true, false, Option, none, some, Text,
  arith, Bool-cases,
}
use oidc_proxy.Utils.{split_host}
use oidc_proxy.Mcpauth.Dial.{
  Ip, v4, is_loopback, is_private, is_unspecified, is_link_local_unicast, is_link_local_multicast,
  is_interface_local_multicast, is_multicast, in_cgnat, is_public_ip, dial_guard,
}

-- The number that an IPv4 address is.
abbrev pub number : ℕ → ℕ → ℕ → ℕ → ℕ
number a b c d = ((a * 256 + b) * 256 + c) * 256 + d

-- From the first to the last address of a block.
abbrev pub Within : ℕ → ℕ × ℕ → Type 0
Within n range = (range.0 ≤ n) × (n ≤ range.1)

-- 0.0.0.0, 10.0.0.0/8, 100.64.0.0/10, 127.0.0.0/8, 169.254.0.0/16, 172.16.0.0/12, 192.168.0.0/16 and
-- 224.0.0.0/4.
abbrev pub IsReserved : ℕ → Type 0
IsReserved n =
    Within n (number 0 0 0 0, number 0 0 0 0)
    ⊎ Within n (number 10 0 0 0, number 10 255 255 255)
    ⊎ Within n (number 100 64 0 0, number 100 127 255 255)
    ⊎ Within n (number 127 0 0 0, number 127 255 255 255)
    ⊎ Within n (number 169 254 0 0, number 169 254 255 255)
    ⊎ Within n (number 172 16 0 0, number 172 31 255 255)
    ⊎ Within n (number 192 168 0 0, number 192 168 255 255)
    ⊎ Within n (number 224 0 0 0, number 239 255 255 255)

-- An IPv4 address is public exactly if its number is in none of the reserved blocks.
pub is_public_ip_iff :
    (a b c d : ℕ)
    → a < 256
    → b < 256
    → c < 256
    → d < 256
    → (is_public_ip (v4 a b c d) ≡ true) ↔ (¬ IsReserved (number a b c d))
unfolding is_public_ip is_loopback is_private is_unspecified is_link_local_unicast
    is_link_local_multicast is_interface_local_multicast is_multicast in_cgnat
is_public_ip_iff a b c d pa pb pc pd = (λ h k. ground arith, λ h. ground arith)

-- For an address whose host is the IPv4 address a.b.c.d, where private hosts are not allowed:
-- the guard lets the connection through exactly if the address is not in 0.0.0.0/32, 10.0.0.0/8,
-- 100.64.0.0/10, 127.0.0.0/8, 169.254.0.0/16, 172.16.0.0/12, 192.168.0.0/16 or 224.0.0.0/4.
pub dial_guard_iff :
    (parse_ip : Text → Option Ip) (address host : Text) (a b c d : ℕ)
    → split_host address ≡ some host
    → parse_ip host ≡ some (v4 a b c d)
    → a < 256
    → b < 256
    → c < 256
    → d < 256
    → (dial_guard parse_ip false address ≡ none) ↔ (¬ IsReserved (number a b c d))
unfolding dial_guard
dial_guard_iff parse_ip address host a b c d split parsed pa pb pc pd =
    let public = is_public_ip_iff a b c d pa pb pc pd in
    elim (Bool-cases (is_public_ip (v4 a b c d))) [
      | inl fine ↦ rw (split, parsed, fine, dial_guard) (λ h. public.0 fine, λ h. refl)
      | inr bad ↦
          rw (split, parsed, bad, dial_guard)
            (λ h. absurd (ground arith), λ h. absurd (ground (arith, public.1 h)))
    ]
