-- ===== src/Httpc/Ssrf.antt =====
-- httpc/ssrf.go: the address policies, the check at dial time and the shape of a URL. An address
-- is a number of 32 or 128 bits; the classes of net/netip are written out as documented. The
-- splitting and parsing of an address and of a URL belong to net, net/netip and net/url.
pub mod Guard
use neokit.Base.{
  ℕ, ◌/◌, Bool, Option, if◌then◌else◌, ◌==◌, ◌^◌, false, none, ◌||◌, ◌%◌, ◌*◌, ◌-◌, some, ◌&&◌, ◌+◌,
  not, [],
}
use neokit.Text.{Text, trim_space, text_eq, codes}

pub data Addr : Type 0 where
  v4 v6 : ℕ → Addr

-- The first `bits` bits of an address of `width` bits.
abbrev pub prefix : ℕ → ℕ → ℕ → ℕ
prefix width bits a = a / 2 ^ (width - bits)

-- Unmap: an IPv4-mapped IPv6 address is the IPv4 address.
unfoldable pub unmap : Addr → Addr
unmap (v4 a) = v4 a
unmap (v6 a) = if prefix 128 96 a == 0xffff then v4 (a % 2 ^ 32) else v6 a

-- 10.0.0.0/8, 172.16.0.0/12, 192.168.0.0/16, fc00::/7
abbrev pub is_private : Addr → Bool
is_private (v4 a) =
    prefix 32 8 a == 10 || prefix 32 12 a == 172 * 16 + 1 || prefix 32 16 a == 192 * 256 + 168
is_private (v6 a) = prefix 128 7 a == 0x7e

-- 127.0.0.0/8, ::1
abbrev pub is_loopback : Addr → Bool
is_loopback (v4 a) = prefix 32 8 a == 127
is_loopback (v6 a) = a == 1

-- 169.254.0.0/16, fe80::/10
abbrev pub is_link_local_unicast : Addr → Bool
is_link_local_unicast (v4 a) = prefix 32 16 a == 169 * 256 + 254
is_link_local_unicast (v6 a) = prefix 128 10 a == 0x3fa

-- 224.0.0.0/24, ffx2::/16
abbrev pub is_link_local_multicast : Addr → Bool
is_link_local_multicast (v4 a) = prefix 32 24 a == 224 * 65536
is_link_local_multicast (v6 a) = prefix 128 8 a == 0xff && prefix 128 16 a % 16 == 2

abbrev pub is_unspecified : Addr → Bool
is_unspecified (v4 a) = a == 0
is_unspecified (v6 a) = a == 0

-- 224.0.0.0/4, ff00::/8
abbrev pub is_multicast : Addr → Bool
is_multicast (v4 a) = prefix 32 4 a == 14
is_multicast (v6 a) = prefix 128 8 a == 0xff

-- IsInternalAddr
unfoldable pub is_internal_addr : Addr → Bool
is_internal_addr addr =
    let ip = unmap addr in
    is_loopback ip
    || is_link_local_unicast ip
    || is_link_local_multicast ip
    || is_unspecified ip
    || is_multicast ip

-- IsPrivateAddr
unfoldable pub is_private_addr : Addr → Bool
unfolding is_internal_addr
is_private_addr addr = let ip = unmap addr in is_private ip || is_internal_addr ip

pub data Refusal : Type 0 where
  unparsable : Refusal
  denied : Addr → Refusal

-- The policy of GuardedTransport: the strict one unless another is given.
unfoldable pub policy : Option (Addr → Bool) → Addr → Bool
unfolding is_private_addr
policy none = is_private_addr
policy (some deny) = deny

-- The dialer's Control callback of GuardedTransport: none lets the connection be made.
unfoldable pub control :
    (Text → Option Text) → (Text → Option Addr) → Option (Addr → Bool) → Text → Option Refusal
unfolding policy
control split parse deny address = elim (split address) [
  | none ↦ some unparsable
  | some host ↦ elim (parse host) [
    | none ↦ some unparsable
    | some ip ↦ if policy deny ip then some (denied ip) else none
  ]
]

-- What url.Parse gives.
pub record Url : Type 0 where
  pub scheme : Text
  pub has_user : Bool
  pub hostname : Text

-- SafeAbsoluteURL, of a text that url.Parse has read, or has not.
unfoldable pub safe_absolute_url : Option Url → Bool
unfolding text_eq
safe_absolute_url none = false
safe_absolute_url (some u) =
    if not (text_eq u.scheme (codes "http")) && not (text_eq u.scheme (codes "https"))
    then false
    else if u.has_user
    then false
    else not (text_eq (trim_space u.hostname) [])
