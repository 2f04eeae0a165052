-- ===== src/Dns/Payload/Records.antt =====
-- The servers and domains of a payload: the lengths of their records, and reading them back.
use network_manager_sidebar.Base.{
  drop_append, take_append, ◌⊎◌, ℕ, ◌+◌, ◌-◌, ◌*◌, ◌≤◌, ◌<◌, ◌≡◌, refl, arith, true, false, ◌||◌,
  some, List, [], ◌∷◌, ◌++◌, ltb, ◌==◌, if◌then◌else◌, length, take, drop, replicate, All,
  length-append, length-take, take-append-drop, take_append_length, drop_append_length,
  append_assoc, Bytes,
}
use network_manager_sidebar.Dns.Domain.{value_is_domain}
use network_manager_sidebar.Dns.{DnsServer, is_inet, is_bad_server, is_bad_domain}
use network_manager_sidebar.Dns.Payload.{
  write_be32, read_be32, server_bytes, servers_bytes, domain_bytes, domains_bytes, tag_family,
  parse_server, parse_servers, parse_domain, parse_domains,
}

-- The address array has 16 bytes, and zeros behind the address.
abbrev pub IsNormal : DnsServer → Type 0
IsNormal server =
    (length server.address ≡ 16)
    × (drop server.length server.address ≡ replicate (16 - server.length) 0)

abbrev pub IsGoodServer : DnsServer → Type 0
IsGoodServer server = is_bad_server server ≡ false

abbrev pub IsGoodDomain : Bytes → Type 0
IsGoodDomain domain = is_bad_domain domain ≡ false

pub read_be32-write_be32 :
    (value : ℕ) (rest : Bytes) → value < 4294967296 → read_be32 (write_be32 value ++ rest) ≡ value
unfolding read_be32 write_be32
read_be32-write_be32 value rest h = omega arith

pub length-write_be32 : (value : ℕ) → length (write_be32 value) ≡ 4
unfolding write_be32
length-write_be32 value = refl

pub good_length : (s : DnsServer) → IsGoodServer s → (s.length ≡ 4) ⊎ (s.length ≡ 16)
good_length s g = ground arith

pub tag_family-server :
    (s : DnsServer)
    → IsGoodServer s
    → tag_family (if is_inet s.family then 4 else 6) ≡ some (s.family, s.length)
unfolding tag_family
tag_family-server s g = ground arith

pub length-address :
    (s : DnsServer) → IsGoodServer s → IsNormal s → length (take s.length s.address) ≡ s.length
length-address s g n = ground (arith, length-take s.length s.address, good_length s g)

pub length-server_bytes :
    (s : DnsServer) → IsGoodServer s → IsNormal s → length (server_bytes s) ≡ 1 + s.length
unfolding server_bytes
length-server_bytes s g n = omega (arith, length-address s g n)

pub parse_server_lem :
    (s : DnsServer) (rest : Bytes)
    → IsGoodServer s
    → IsNormal s
    → parse_server (server_bytes s ++ rest) ≡ some (s, rest)
unfolding parse_server server_bytes
parse_server_lem s rest g n =
    let l = length-address s g n in
    let address = take s.length s.address in
    let long : ltb (length (address ++ rest)) s.length ≡ false =
      ground (arith, length-append address rest) in
    let whole : address ++ replicate (16 - s.length) 0 ≡ s.address =
      rw (← n.1) (take-append-drop s.length s.address) in
    rw (
      tag_family-server s g,
      long,
      take_append_length s.length address rest l,
      drop_append_length s.length address rest l,
      l,
      whole,
    )

pub parse_servers_lem :
    (ss : List DnsServer) (rest : Bytes)
    → All IsGoodServer ss
    → All IsNormal ss
    → parse_servers (length ss) (servers_bytes ss ++ rest) ≡ some (ss, rest)
unfolding parse_servers servers_bytes
parse_servers_lem [] rest g n = refl
parse_servers_lem (s ∷ ss) rest g n = rw (
  append_assoc (server_bytes s) (servers_bytes ss) rest,
  parse_server_lem s (servers_bytes ss ++ rest) g.0 n.0,
  parse_servers_lem ss rest g.1 n.1,
)

pub parse_domain_lem :
    (d rest : Bytes) → IsGoodDomain d → parse_domain (domain_bytes d ++ rest) ≡ some (d, rest)
unfolding parse_domain domain_bytes
parse_domain_lem d rest g =
    let header = write_be32 (length d) in
    let small : length d < 4294967296 = ground arith in
    let long : ltb (length (header ++ (d ++ rest))) 4 ≡ false =
      ground (arith, length-append header (d ++ rest), length-write_be32 (length d)) in
    let fits : ltb (length (d ++ rest)) (length d) ≡ false = ground (arith, length-append d rest) in
    let bounds : (length d == 0 || ltb 253 (length d) || false) ≡ false = ground arith in
    let valid : value_is_domain d ≡ true = ground arith in
    rw (
      append_assoc header d rest,
      long,
      read_be32-write_be32 (length d) (d ++ rest) small,
      drop_append_length 4 header (d ++ rest) (length-write_be32 (length d)),
      fits,
      bounds,
      take_append d rest,
      valid,
      drop_append d rest,
    )

pub parse_domains_lem :
    (ds : List Bytes) (rest : Bytes)
    → All IsGoodDomain ds
    → parse_domains (length ds) (domains_bytes ds ++ rest) ≡ some (ds, rest)
unfolding parse_domains domains_bytes
parse_domains_lem [] rest g = refl
parse_domains_lem (d ∷ ds) rest g = rw (
  append_assoc (domain_bytes d) (domains_bytes ds) rest,
  parse_domain_lem d (domains_bytes ds ++ rest) g.0,
  parse_domains_lem ds rest g.1,
)

pub length-servers_bytes :
    (ss : List DnsServer)
    → All IsGoodServer ss
    → All IsNormal ss
    → 5 * length ss ≤ length (servers_bytes ss)
unfolding servers_bytes
length-servers_bytes [] g n = omega arith
length-servers_bytes (s ∷ ss) g n = ground (
  arith,
  length-append (server_bytes s) (servers_bytes ss),
  length-server_bytes s g.0 n.0,
  good_length s g.0,
  length-servers_bytes ss g.1 n.1,
)

pub length-domain_bytes : (d : Bytes) → length (domain_bytes d) ≡ 4 + length d
unfolding domain_bytes
length-domain_bytes d =
    omega (arith, length-append (write_be32 (length d)) d, length-write_be32 (length d))

pub length-domains_bytes : (ds : List Bytes) → 4 * length ds ≤ length (domains_bytes ds)
unfolding domains_bytes
length-domains_bytes [] = omega arith
length-domains_bytes (d ∷ ds) = omega (
  arith,
  length-append (domain_bytes d) (domains_bytes ds),
  length-domain_bytes d,
  length-domains_bytes ds,
)
