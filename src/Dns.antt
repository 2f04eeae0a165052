-- ===== src/Dns.antt =====
-- dns_config.c: the DNS servers and search domains of a profile, and their binary payload. Arrays
-- that are NULL are not modelled.
pub mod Domain
pub mod Payload
pub mod Values
use network_manager_sidebar.Base.{
  ℕ, suc, ◌+◌, ◌-◌, Bool, true, false, not, ◌&&◌, ◌||◌, List, [], ◌∷◌, ltb, leb, ◌==◌,
  if◌then◌else◌, length, Bytes,
}
use Domain.{value_is_domain}

-- AF_INET, AF_INET6, and any other value.
pub data Family : Type 0 where
  unspecified inet inet6 : Family

-- `address` is an array of 16 bytes.
pub record DnsServer : Type 0 where
  pub family : Family
  pub length : ℕ
  pub address : Bytes

-- A domain is a C string.
pub record DnsConfig : Type 0 where
  pub servers : List DnsServer
  pub domains : List Bytes

-- dns_config_init.
abbrev pub init : DnsConfig
init = record { servers = []; domains = [] }

abbrev pub max_dns_payload : ℕ
max_dns_payload = 262144

abbrev pub dns_payload_header_size : ℕ
dns_payload_header_size = 16

abbrev pub dns_payload_max_records : ℕ
dns_payload_max_records = 52425

-- The result of dns_config_measure, with `*size` where it is OK.
pub data Measured : Type 0 where
  ok : ℕ → Measured
  invalid too_large : Measured

abbrev pub is_inet : Family → Bool
is_inet Family.inet = true
is_inet _ = false

abbrev pub is_inet6 : Family → Bool
is_inet6 Family.inet6 = true
is_inet6 _ = false

abbrev pub is_bad_server : DnsServer → Bool
is_bad_server server =
    (not (is_inet server.family) || not (server.length == 4))
    && (not (is_inet6 server.family) || not (server.length == 16))

-- The loop over the servers; it returns `measured`.
pub measure_servers : ℕ → List DnsServer → Measured
measure_servers measured [] = ok measured
measure_servers measured (server ∷ servers) =
    let encoded_length : ℕ = 1 + server.length in
    let rest = measure_servers (measured + encoded_length) servers in
    if is_bad_server server
    then invalid
    else if ltb (max_dns_payload - encoded_length) measured
    then too_large
    else rest

abbrev pub is_bad_domain : Bytes → Bool
is_bad_domain domain = length domain == 0 || ltb 253 (length domain) || not (value_is_domain domain)

-- The loop over the domains.
pub measure_domains : ℕ → List Bytes → Measured
measure_domains measured [] = ok measured
measure_domains measured (domain ∷ domains) =
    let encoded_length : ℕ = 4 + length domain in
    let rest = measure_domains (measured + encoded_length) domains in
    if is_bad_domain domain
    then invalid
    else if ltb (max_dns_payload - encoded_length) measured
    then too_large
    else rest

abbrev pub then_domains : Measured → List Bytes → Measured
then_domains (ok measured) domains = measure_domains measured domains
then_domains invalid domains = invalid
then_domains too_large domains = too_large

unfoldable pub measure : DnsConfig → Measured
unfolding measure_servers measure_domains
measure dns =
    if ltb dns_payload_max_records (length dns.servers + length dns.domains)
    then too_large
    else if ltb 0 (length dns.domains) && length dns.servers == 0
    then invalid
    else then_domains (measure_servers dns_payload_header_size dns.servers) dns.domains
