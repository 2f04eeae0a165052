-- ===== src/Dns/Payload/RoundTrip.antt =====
-- A payload that was written is read back.
use network_manager_sidebar.Base.{
  inr, inl, ◌⊎◌, ℕ, ◌+◌, ◌-◌, ◌≤◌, ◌<◌, ◌≡◌, refl, ap, ◌∙◌, arith, false, ◌&&◌, ◌||◌, some, List,
  [], ◌∷◌, ◌++◌, ltb, ◌==◌, length, take, drop, All, length-append, append-nil, Bytes, Bool-cases,
}
use network_manager_sidebar.Dns.{
  then_domains, DnsServer, DnsConfig, Measured, ok, invalid, too_large, measure, measure_servers,
  measure_domains, max_dns_payload, is_bad_server, is_bad_domain, dns_payload_header_size,
}
use network_manager_sidebar.Dns.Payload.{
  if_ok, magic, write_be32, server_bytes, servers_bytes, domain_bytes, domains_bytes, payload,
  serialize, parse_domains, parse,
}
use network_manager_sidebar.Dns.Payload.Records.{
  IsNormal, IsGoodServer, IsGoodDomain, read_be32-write_be32, good_length, length-server_bytes,
  parse_servers_lem, parse_domains_lem, length-servers_bytes, length-domain_bytes,
  length-domains_bytes,
}

-- What a measured list of servers tells.
measure_servers_ok :
    (m : ℕ) (ss : List DnsServer) {r : ℕ}
    → m ≤ max_dns_payload
    → All IsNormal ss
    → measure_servers m ss ≡ ok r
    → All IsGoodServer ss × (r ≡ m + length (servers_bytes ss)) × (r ≤ max_dns_payload)
unfolding measure_servers servers_bytes
measure_servers_ok m [] l n h = (tt, ground arith, ground arith)
measure_servers_ok m (s ∷ ss) {r} l n h = elim (Bool-cases (is_bad_server s)) [
  | inl bad ↦ absurd (ground arith)
  | inr good ↦ elim (Bool-cases (ltb (max_dns_payload - (1 + s.length)) m)) [
    | inl big ↦ absurd (ground arith)
    | inr fits ↦
        let later : measure_servers (m + (1 + s.length)) ss ≡ ok r = ground arith in
        let ih =
          measure_servers_ok (m + (1 + s.length)) ss (ground (arith, good_length s good)) n.1
            later in
        (
          (good, ih.0),
          omega (
            arith,
            ih.1,
            length-append (server_bytes s) (servers_bytes ss),
            length-server_bytes s good n.0,
          ),
          ih.2,
        )
  ]
]

measure_domains_ok :
    (m : ℕ) (ds : List Bytes) {r : ℕ}
    → m ≤ max_dns_payload
    → measure_domains m ds ≡ ok r
    → All IsGoodDomain ds × (r ≡ m + length (domains_bytes ds)) × (r ≤ max_dns_payload)
unfolding measure_domains domains_bytes
measure_domains_ok m [] l h = (tt, ground arith, ground arith)
measure_domains_ok m (d ∷ ds) {r} l h = elim (Bool-cases (is_bad_domain d)) [
  | inl bad ↦ absurd (ground arith)
  | inr good ↦ elim (Bool-cases (ltb (max_dns_payload - (4 + length d)) m)) [
    | inl big ↦ absurd (ground arith)
    | inr fits ↦
        let later : measure_domains (m + (4 + length d)) ds ≡ ok r = ground arith in
        let ih = measure_domains_ok (m + (4 + length d)) ds (ground arith) later in
        (
          (good, ih.0),
          omega (
            arith,
            ih.1,
            length-append (domain_bytes d) (domains_bytes ds),
            length-domain_bytes d,
          ),
          ih.2,
        )
  ]
]

payload_parts :
    (dns : DnsConfig)
    → (take 8 (payload dns) ≡ magic)
      × (drop 8 (payload dns)
          ≡ write_be32 (length dns.servers)
            ++ (write_be32 (length dns.domains)
                ++ (servers_bytes dns.servers ++ domains_bytes dns.domains)))
      × (drop 12 (payload dns)
          ≡ write_be32 (length dns.domains)
            ++ (servers_bytes dns.servers ++ domains_bytes dns.domains))
      × (drop 16 (payload dns) ≡ servers_bytes dns.servers ++ domains_bytes dns.domains)
unfolding payload
payload_parts dns = (refl, refl, refl, refl)

length-payload :
    (dns : DnsConfig)
    → length (payload dns)
      ≡ 16 + length (servers_bytes dns.servers) + length (domains_bytes dns.domains)
unfolding payload
length-payload dns =
    omega (arith, length-append (servers_bytes dns.servers) (domains_bytes dns.domains))

-- What a measured configuration is.
record IsMeasured (dns : DnsConfig) (size : ℕ) : Type 0 where
  good_servers : All IsGoodServer dns.servers
  good_domains : All IsGoodDomain dns.domains
  exact : size ≡ length (payload dns)
  bounded : size ≤ max_dns_payload
  has_server : (length dns.domains ≡ 0) ⊎ (0 < length dns.servers)

then_domains_ok :
    (first : Measured) (domains : List Bytes) {r : ℕ}
    → then_domains first domains ≡ ok r
    → (m : ℕ) × (first ≡ ok m) × (measure_domains m domains ≡ ok r)
then_domains_ok (ok m) domains h = (m, refl, h)
then_domains_ok invalid domains h = cc
then_domains_ok too_large domains h = cc

measure_tests :
    (dns : DnsConfig) {size : ℕ}
    → measure dns ≡ ok size
    → ((length dns.domains ≡ 0) ⊎ (0 < length dns.servers))
      × (then_domains (measure_servers dns_payload_header_size dns.servers) dns.domains ≡ ok size)
unfolding measure
measure_tests dns h = (ground arith, ground arith)

measure-IsMeasured :
    (dns : DnsConfig) {size : ℕ}
    → All IsNormal dns.servers
    → measure dns ≡ ok size
    → IsMeasured dns size
measure-IsMeasured dns n h =
    let (some_server, sums) = measure_tests dns h in
    let (m, first, second) = then_domains_ok (measure_servers 16 dns.servers) dns.domains sums in
    let (good_servers, e, l) = measure_servers_ok 16 dns.servers (omega arith) n first in
    let (good_domains, e', l') = measure_domains_ok m dns.domains l second in
    record {
      good_servers = good_servers;
      good_domains = good_domains;
      exact = omega (arith, e, e', length-payload dns);
      bounded = l';
      has_server = some_server;
    }

parse_domains_whole :
    (ds : List Bytes)
    → All IsGoodDomain ds
    → parse_domains (length ds) (domains_bytes ds) ≡ some (ds, [])
parse_domains_whole ds g = rw append-nil at (parse_domains_lem ds [] g)

from_if_ok :
    (m : Measured) {bytes payload : Bytes}
    → if_ok m payload ≡ some bytes
    → (size : ℕ) × (m ≡ ok size) × (bytes ≡ payload)
from_if_ok (ok size) h = (size, refl, ground arith)
from_if_ok invalid h = cc
from_if_ok too_large h = cc

parse-payload :
    (dns : DnsConfig) {size : ℕ}
    → All IsNormal dns.servers
    → IsMeasured dns size
    → parse (payload dns) ≡ some dns
unfolding parse
parse-payload dns n i =
    let (front, counts, domain_count, records) = payload_parts dns in
    let servers = dns.servers in
    let domains = dns.domains in
    let l = length-payload dns in
    let ls = length-servers_bytes servers i.good_servers n in
    let ld = length-domains_bytes domains in
    let long : ltb (length (payload dns)) 16 ≡ false = ground arith in
    let short : ltb 262144 (length (payload dns)) ≡ false = ground (arith, i.exact, i.bounded) in
    let few : (ltb (length (payload dns)) (length servers)
          || ltb (length (payload dns)) (length domains))
        ≡ false =
      ground arith in
    let rooted : ltb 0 (length domains) && length servers == 0 ≡ false =
      ground (arith, i.has_server) in
    let tail = servers_bytes servers ++ domains_bytes domains in
    rw (long, short, front, counts, domain_count, records)
      (rw
        (
          read_be32-write_be32 (length servers) (write_be32 (length domains) ++ tail)
              (omega (arith, i.exact, i.bounded)),
          read_be32-write_be32 (length domains) tail (omega (arith, i.exact, i.bounded)),
          few,
          rooted,
        )
        (rw (
          parse_servers_lem servers (domains_bytes domains) i.good_servers n,
          parse_domains_whole domains i.good_domains,
        )))

serialize-eq-some :
    (dns : DnsConfig) {bytes : Bytes}
    → serialize dns ≡ some bytes
    → (size : ℕ) × (measure dns ≡ ok size) × (bytes ≡ payload dns)
unfolding serialize
serialize-eq-some dns h = from_if_ok (measure dns) h

-- A payload that was written for servers with normal addresses is read back as the same
-- configuration; it has exactly the measured size, and at most 256 KiB.
pub parse-serialize :
    (dns : DnsConfig) {bytes : Bytes}
    → All IsNormal dns.servers
    → serialize dns ≡ some bytes
    → (parse bytes ≡ some dns)
      × (measure dns ≡ ok (length bytes))
      × (length bytes ≤ max_dns_payload)
parse-serialize dns n h =
    let (size, measured, e) = serialize-eq-some dns h in
    let i = measure-IsMeasured dns n measured in
    rw e (parse-payload dns n i, measured ∙ ap ok i.exact, omega (arith, i.exact, i.bounded))
