-- ===== src/Net/Arp.antt =====
-- net.c: the ARP cache, the ARP request, and the settings of the interface.
use os_from_scratch_graphic.Prelude.{
  ℕ, Option, none, some, List, [], ◌∷◌, ◌++◌, map, replicate, set, ◌==◌, if◌then◌else◌,
}
use os_from_scratch_graphic.Endian.{Bytes, htons, htonl, le16, le32}
use os_from_scratch_graphic.Net.State.{NetIf, ArpEntry, Net, nic_tx}

-- `arp_lookup`: the address that goes out through `mac_out` if the call returns 1.
unfoldable pub arp_lookup : List ArpEntry → ℕ → Option Bytes
arp_lookup [] ip = none
arp_lookup (e ∷ cache) ip = if e.ip == ip then some e.mac else arp_lookup cache ip

-- The first loop of `arp_store`: the entry of `ip` gets the new address.
unfoldable pub arp_replace : List ArpEntry → ℕ → Bytes → Option (List ArpEntry)
arp_replace [] ip mac = none
arp_replace (e ∷ cache) ip mac =
    let rest = arp_replace cache ip mac in
    if e.ip == ip
    then some (record e { mac = mac } ∷ cache)
    else elim rest [ none ↦ none | some cache' ↦ some (e ∷ cache') ]

-- The second loop: the first free entry is taken.
unfoldable pub arp_claim : List ArpEntry → ℕ → Bytes → Option (List ArpEntry)
arp_claim [] ip mac = none
arp_claim (e ∷ cache) ip mac =
    let rest = arp_claim cache ip mac in
    if e.ip == 0
    then some (record { ip = ip; mac = mac } ∷ cache)
    else elim rest [ none ↦ none | some cache' ↦ some (e ∷ cache') ]

unfoldable pub arp_store : List ArpEntry → ℕ → Bytes → List ArpEntry
arp_store cache ip mac = elim (arp_replace cache ip mac) [
  | some replaced ↦ replaced
  | none ↦ elim (arp_claim cache ip mac) [
    | some claimed ↦ claimed
    | none ↦ set cache 0 (record { ip = ip; mac = mac })
  ]
]

-- `net_init`: the entries are marked free; the pending packets stay.
unfoldable pub net_init : Net → Bytes → Net
net_init n mac = record n {
  netif = record { mac = mac; ip = 0; gw_ip = 0; netmask = 0 };
  arp_cache = map (λ (e : ArpEntry). record e { ip = 0 }) n.arp_cache;
}

unfoldable pub net_set_ipv4 : Net → ℕ → ℕ → ℕ → Net
net_set_ipv4 n ip netmask gw = record n {
  netif = record (n.netif) { ip = ip; netmask = netmask; gw_ip = gw };
}

unfoldable pub net_get_ip : Net → ℕ
net_get_ip n = n.netif.ip

abbrev pub bcast : Bytes
bcast = replicate 6 0xff

abbrev pub eth_type_arp : ℕ
eth_type_arp = 0x0806

abbrev pub eth_type_ip : ℕ
eth_type_ip = 0x0800

-- `struct eth_hdr`
abbrev pub eth_header : Bytes → Bytes → ℕ → Bytes
eth_header dst src type = dst ++ (src ++ le16 (htons type))

-- `struct arp_ipv4` with the `oper` 1 of a request.
abbrev pub arp_request : NetIf → ℕ → Bytes
arp_request netif target_ip =
    le16 (htons 1)
    ++ (le16 (htons 0x0800)
        ++ (6 ∷ 4 ∷ le16 (htons 1)
            ++ (netif.mac ++ (le32 (htonl netif.ip) ++ (replicate 6 0 ++ le32 (htonl target_ip))))))

unfoldable pub send_arp_request : Net → ℕ → Net
send_arp_request n target_ip =
    nic_tx n (eth_header bcast n.netif.mac eth_type_arp ++ arp_request n.netif target_ip)
