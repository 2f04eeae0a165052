-- ===== src/Dns/Values.antt =====
-- dns_config_add_value of dns_config.c: the value of a DNS directive, a list with commas.
use network_manager_sidebar.Base.{
  ℕ, Bool, true, false, not, ◌||◌, Option, none, some, List, [], ◌∷◌, ◌++◌, ◌==◌, if◌then◌else◌,
  length, all, any, Bytes, is_digit, trim, split_all, replicate, ◌-◌,
}
use network_manager_sidebar.Dns.Domain.{value_is_domain}
use network_manager_sidebar.Dns.{Family, DnsConfig}

abbrev pub value_looks_like_ipv4 : Bytes → Bool
value_looks_like_ipv4 [] = false
value_looks_like_ipv4 (c ∷ cs) = all (λ b. is_digit b || b == b'.') (c ∷ cs)

-- `strchr (item, ':') != NULL ? AF_INET6 : AF_INET`.
abbrev pub item_family : Bytes → Family
item_family item = if any (λ b. b == b':') item then Family.inet6 else Family.inet

-- `sizeof(struct in_addr)` and `sizeof(struct in6_addr)`.
abbrev pub family_length : Family → ℕ
family_length Family.inet = 4
family_length _ = 16

-- g_ascii_isspace, and inet_pton: the bytes of an address, or `none` where it does not return 1.
module _ (is_space : ℕ → Bool) (inet_pton : Family → Bytes → Option Bytes) where
  abbrev is_address : Family → Bytes → Bool
  is_address family item = elim (inet_pton family item) [ none ↦ false | some address ↦ true ]

  -- One item of the list, not trimmed.
  unfoldable pub is_dns_item : Bytes → Bool
  is_dns_item span =
      let item = trim is_space span in
      if length item == 0
      then false
      else if is_address (item_family item) item
      then true
      else not (value_looks_like_ipv4 item || not (value_is_domain item))

  -- An empty item behind a comma at the end leaves the loop, which then returns FALSE.
  unfoldable pub value_is_dns_list : Bytes → Bool
  unfolding is_dns_item
  value_is_dns_list value = all is_dns_item (split_all b',' value)

  -- The address is written into a zeroed array of 16 bytes.
  abbrev add_address : DnsConfig → Family → Bytes → Option Bytes → DnsConfig
  add_address dns family item none = record dns { domains = dns.domains ++ item ∷ [] }
  add_address dns family item (some address) = record dns {
    servers =
        dns.servers
        ++ (record {
          family = family;
          length = family_length family;
          address = address ++ replicate (16 - length address) 0;
        })
          ∷ [];
  }

  -- One round of the second loop.
  unfoldable pub add_item : DnsConfig → Bytes → DnsConfig
  add_item dns span =
      let item = trim is_space span in
      add_address dns (item_family item) item (inet_pton (item_family item) item)

  unfoldable pub add_items : DnsConfig → List Bytes → DnsConfig
  unfolding add_item
  add_items dns [] = dns
  add_items dns (span ∷ spans) = add_items (add_item dns span) spans

  unfoldable pub add_value : DnsConfig → Bytes → Option DnsConfig
  unfolding value_is_dns_list add_items
  add_value dns value =
      if not (value_is_dns_list value) then none else some (add_items dns (split_all b',' value))
