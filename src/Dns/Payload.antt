-- ===== src/Dns/Payload.antt =====
-- dns_config_serialize and dns_config_parse of dns_config.c.
pub mod Records
pub mod RoundTrip
use network_manager_sidebar.Base.{
  ℕ, zero, suc, ◌+◌, ◌-◌, ◌*◌, ◌/◌, ◌%◌, Bool, true, false, not, ◌&&◌, ◌||◌, Option, none, some,
  List, [], ◌∷◌, ◌++◌, ltb, leb, ◌==◌, if◌then◌else◌, ◌>>=◌, ◌>>◌, guard, length, take, drop,
  replicate, Bytes, equal,
}
use network_manager_sidebar.Dns.Domain.{value_is_domain}
use network_manager_sidebar.Dns.{
  Family, DnsServer, DnsConfig, Measured, ok, invalid, too_large, measure, max_dns_payload,
  dns_payload_header_size, is_inet,
}

-- "NMSDNS1" and a NUL.
abbrev pub magic : Bytes
magic = b'N' ∷ b'M' ∷ b'S' ∷ b'D' ∷ b'N' ∷ b'S' ∷ b'1' ∷ 0 ∷ []

unfoldable pub write_be32 : ℕ → Bytes
write_be32 value =
    value / 16777216 % 256 ∷ (value / 65536 % 256) ∷ (value / 256 % 256) ∷ (value % 256) ∷ []

-- The bits of the four bytes are disjoint, so `|` is `+`.
unfoldable pub read_be32 : Bytes → ℕ
read_be32 (a ∷ b ∷ c ∷ d ∷ rest) = a * 16777216 + b * 65536 + c * 256 + d
read_be32 _ = 0

pub server_bytes : DnsServer → Bytes
server_bytes server = (if is_inet server.family then 4 else 6) ∷ take server.length server.address

pub servers_bytes : List DnsServer → Bytes
servers_bytes [] = []
servers_bytes (server ∷ servers) = server_bytes server ++ servers_bytes servers

pub domain_bytes : Bytes → Bytes
domain_bytes domain = write_be32 (length domain) ++ domain

pub domains_bytes : List Bytes → Bytes
domains_bytes [] = []
domains_bytes (domain ∷ domains) = domain_bytes domain ++ domains_bytes domains

-- The bytes that the writer puts into its buffer.
pub payload : DnsConfig → Bytes
unfolding write_be32 servers_bytes server_bytes domains_bytes domain_bytes
payload dns =
    magic
    ++ (write_be32 (length dns.servers)
        ++ (write_be32 (length dns.domains)
            ++ (servers_bytes dns.servers ++ domains_bytes dns.domains)))

abbrev pub if_ok : Measured → Bytes → Option Bytes
if_ok (ok size) bytes = some bytes
if_ok invalid bytes = none
if_ok too_large bytes = none

unfoldable pub serialize : DnsConfig → Option Bytes
unfolding payload
serialize dns = if_ok (measure dns) (payload dns)

-- The family and the address length of a record, `none` for an unknown tag.
unfoldable pub tag_family : ℕ → Option (Family × ℕ)
tag_family tag =
    if tag == 4 then some (Family.inet, 4) else if tag == 6 then some (Family.inet6, 16) else none

-- `memcpy` into the zeroed array of 16 bytes.
abbrev padded : Bytes → Bytes
padded bytes = bytes ++ replicate (16 - length bytes) 0

unfoldable pub parse_server : Bytes → Option (DnsServer × Bytes)
unfolding tag_family
parse_server [] = none
parse_server (tag ∷ rest) = do
  (family, length') ← tag_family tag
  guard (not (ltb (length rest) length'))
  some (
    record { family = family; length = length'; address = padded (take length' rest) },
    drop length' rest,
  )

unfoldable pub parse_servers : ℕ → Bytes → Option (List DnsServer × Bytes)
unfolding parse_server
parse_servers zero bytes = some ([], bytes)
parse_servers (suc count) bytes = do
  (server, rest) ← parse_server bytes
  (servers, after) ← parse_servers count rest
  some (server ∷ servers, after)

unfoldable pub parse_domain : Bytes → Option (Bytes × Bytes)
unfolding read_be32
parse_domain bytes = do
  guard (not (ltb (length bytes) 4))
  let domain_length = read_be32 bytes
  let rest = drop 4 bytes
  guard (not (domain_length == 0 || ltb 253 domain_length || ltb (length rest) domain_length))
  guard (value_is_domain (take domain_length rest))
  some (take domain_length rest, drop domain_length rest)

unfoldable pub parse_domains : ℕ → Bytes → Option (List Bytes × Bytes)
unfolding parse_domain
parse_domains zero bytes = some ([], bytes)
parse_domains (suc count) bytes = do
  (domain, rest) ← parse_domain bytes
  (domains, after) ← parse_domains count rest
  some (domain ∷ domains, after)

unfoldable pub parse : Bytes → Option DnsConfig
unfolding read_be32 parse_servers parse_domains
parse bytes = do
  guard (not (ltb (length bytes) dns_payload_header_size))
  guard (not (ltb max_dns_payload (length bytes)))
  guard (equal (take 8 bytes) magic)
  let server_count = read_be32 (drop 8 bytes)
  let domain_count = read_be32 (drop 12 bytes)
  guard (not (ltb (length bytes) server_count || ltb (length bytes) domain_count))
  guard (not (ltb 0 domain_count && server_count == 0))
  (servers, after_servers) ← parse_servers server_count (drop 16 bytes)
  (domains, after_domains) ← parse_domains domain_count after_servers
  guard (length after_domains == 0)
  some (record { servers = servers; domains = domains })
