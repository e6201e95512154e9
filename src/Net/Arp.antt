-- ===== src/Net/Arp.antt =====
-- The ARP cache of net/arp.c. A hardware address is the list of its bytes. The loops that look for
-- an entry are `first`; messages to the network monitor are left out.
use coffee_os_aurora_refresh.Base.{
  ℕ, zero, suc, ◌-◌, Bool, true, false, not, ◌&&◌, Option, none, some, List, [], ◌∷◌, Array, update,
  ltb, ◌==◌, if◌then◌else◌,
}
use coffee_os_aurora_refresh.Base.Search.{first}
pub mod Cache

pub record ArpEntry : Type 0 where
  pub ip : ℕ
  pub mac : List ℕ
  pub ttl : ℕ
  pub valid : Bool

-- ARP_CACHE_SIZE and ARP_TTL_TICKS
abbrev pub arp_cache_size : ℕ
arp_cache_size = 16

abbrev pub arp_ttl_ticks : ℕ
arp_ttl_ticks = 30000

-- `arp_cache[i].valid && arp_cache[i].ip == ip`
abbrev pub arp_match : Array ArpEntry → ℕ → ℕ → Bool
arp_match cache ip i = (cache i).valid && (cache i).ip == ip

-- arp_cache_update: the first entry for the address is refreshed; without one, the first invalid
-- entry is filled in, or entry 0 if all are valid.
unfoldable pub arp_cache_update : Array ArpEntry → ℕ → List ℕ → Array ArpEntry
arp_cache_update cache ip mac = elim (first (arp_match cache ip) arp_cache_size 0) [
  | some i ↦ update cache i (record (cache i) { mac = mac; ttl = arp_ttl_ticks })
  | none ↦
      let slot : ℕ = elim (first (λ i. not (cache i).valid) arp_cache_size 0) [
        | some f ↦ f
        | none ↦ 0
      ] in
      update cache slot (record { ip = ip; mac = mac; ttl = arp_ttl_ticks; valid = true })
]

unfoldable pub arp_init : Array ArpEntry → Array ArpEntry
arp_init cache i = record (cache i) { valid = false; ttl = 0 }

unfoldable pub arp_lookup : Array ArpEntry → ℕ → Option (List ℕ)
arp_lookup cache ip = elim (first (arp_match cache ip) arp_cache_size 0) [
  | some i ↦ some (cache i).mac
  | none ↦ none
]

-- One entry of the loop of arp_tick.
unfoldable pub age : ArpEntry → ArpEntry
age e =
    let ttl' = if ltb 0 e.ttl then e.ttl - 1 else e.ttl in
    if e.valid then record e { ttl = ttl'; valid = not (ttl' == 0) } else e

unfoldable pub arp_tick : Array ArpEntry → Array ArpEntry
arp_tick cache i = age (cache i)

-- An ARP packet, its fields in host byte order.
pub record ArpPacket : Type 0 where
  pub htype : ℕ
  pub ptype : ℕ
  pub hlen : ℕ
  pub plen : ℕ
  pub oper : ℕ
  pub sha : List ℕ
  pub spa : ℕ
  pub tha : List ℕ
  pub tpa : ℕ

-- arp_request and arp_reply: the packet for an interface's own addresses.
unfoldable pub arp_request : List ℕ → ℕ → ℕ → ArpPacket
arp_request mac ip target_ip = record {
  htype = 1;
  ptype = 0x0800;
  hlen = 6;
  plen = 4;
  oper = 1;
  sha = mac;
  spa = ip;
  tha = 0 ∷ 0 ∷ 0 ∷ 0 ∷ 0 ∷ 0 ∷ [];
  tpa = target_ip;
}

unfoldable pub arp_reply : List ℕ → ℕ → List ℕ → ℕ → ArpPacket
arp_reply mac ip dst_mac dst_ip = record (arp_request mac ip dst_ip) { oper = 2; tha = dst_mac }

-- arp_receive for the interface with the given addresses, on a frame of `len` bytes with the
-- Ethernet type and the packet that it holds: the new cache and the reply sent, if there is one.
unfoldable pub arp_receive :
    List ℕ → ℕ → Array ArpEntry → ℕ → ℕ → ArpPacket → Array ArpEntry × Option ArpPacket
arp_receive mac ip cache len ethertype pkt =
    let cache' = arp_cache_update cache pkt.spa pkt.sha in
    let arp =
      ethertype == 0x0806
      && pkt.htype == 1
      && pkt.ptype == 0x0800
      && pkt.hlen == 6
      && pkt.plen == 4 in
    if ltb len 42
    then (cache, none)
    else if arp
    then (
      cache',
      if pkt.oper == 1 && pkt.tpa == ip then some (arp_reply mac ip pkt.sha pkt.spa) else none,
    )
    else (cache, none)
