-- ===== src/Examples/Profiles.antt =====
-- Configurations, DNS payloads and reports at concrete values.
use network_manager_sidebar.Base.{
  ends_with, split_at, ends_with, trim, decimal, ◌+◌, ◌≤◌, ◌≡◌, refl, Bool, true, false, ◌&&◌, ◌==◌,
  ltb, Option, none, some, [], ◌∷◌, ◌++◌, All, all, length, Bytes, codes, if◌then◌else◌,
}
use network_manager_sidebar.Dns.{Family, DnsServer, DnsConfig, init, ok, measure, max_dns_payload}
use network_manager_sidebar.Dns.Domain.{value_is_domain}
use network_manager_sidebar.Dns.Payload.{serialize, parse}
use network_manager_sidebar.Dns.Payload.RoundTrip.{parse-serialize}
use network_manager_sidebar.Config.Errors.{Result}
use network_manager_sidebar.Config.Lines.{lines}
use network_manager_sidebar.Config.{
  safe_quick_directive, is_unsafe_directive, token_is_safe, without_comment, Scan, Section,
  scan_config_envelope, max_config_size,
}
use network_manager_sidebar.Config.Safety.{RunsNoHook, scan_config_envelope-RunsNoHook}
use network_manager_sidebar.Config.Snapshot.{
  scan_config_envelope-bounds, runtime_snapshot_build-length, quick_add_link_claim-room,
}
use network_manager_sidebar.Config.Envelope.{
  build_snapshot, ConfigEnvelope, config_parse_envelope, runtime_snapshot_build,
  quick_build_snapshot, quick_add_link_claim, claim_lines, inserted, is_unended,
}
use network_manager_sidebar.Names.{profile_status_is_valid, name_is_valid, link_token_is_valid}
use network_manager_sidebar.Report.{ProfileReport, encode, decode}
use network_manager_sidebar.Report.RoundTrip.{decode-encode, exit_of}
use network_manager_sidebar.Examples.Data.{is_blank, token}

-- A table of one address.
abbrev one_address : Family → Bytes → Option Bytes
one_address Family.inet value = if length value == 7 then some (1 ∷ 1 ∷ 1 ∷ 1 ∷ []) else none
one_address _ value = none

abbrev contents : Bytes
contents = codes "[Interface]\nAddress = 10.0.0.2/32 # home\nPrivateKey = k\n[Peer]\n"

abbrev stripped_config : Bytes
stripped_config = codes "[Interface]\n[Peer]\n"

abbrev quick_config : Bytes
quick_config = codes "Address = 10.0.0.2/32\n"

abbrev scanned : Scan
scanned = record {
  section = Section.other;
  interface_seen = true;
  offset = 63;
  line_number = 4;
  quick_config = quick_config;
  dns = init;
  interface_line_end = 12;
}

test_scan : scan_config_envelope is_blank one_address contents ≡ Result.ok scanned
unfolding scan_config_envelope lines without_comment trim split_at ends_with token_is_safe
    is_unsafe_directive safe_quick_directive
test_scan = refl

scan_config_envelope-RunsNoHook_example : All (RunsNoHook is_blank one_address) (lines contents)
scan_config_envelope-RunsNoHook_example =
    scan_config_envelope-RunsNoHook is_blank one_address contents test_scan

scan_config_envelope-bounds_example : 12 ≤ length contents
scan_config_envelope-bounds_example =
    scan_config_envelope-bounds is_blank one_address contents test_scan

abbrev envelope : ConfigEnvelope
envelope = record { quick_config = quick_config; dns = init; interface_line_end = 12 }

abbrev snapshot : Bytes
snapshot = codes "[Interface]\nAddress = 10.0.0.2/32\n[Peer]\n"

test_snapshot :
    runtime_snapshot_build is_blank one_address stripped_config envelope 256 ≡ Result.ok snapshot
unfolding runtime_snapshot_build scan_config_envelope build_snapshot lines without_comment trim
    split_at ends_with token_is_safe is_unsafe_directive safe_quick_directive
test_snapshot = refl

runtime_snapshot_build-length_example :
    (length stripped_config + length quick_config ≤ length snapshot)
    × (length snapshot ≤ length stripped_config + length quick_config + 1)
    × (length snapshot + 256 ≤ max_config_size)
runtime_snapshot_build-length_example =
    runtime_snapshot_build-length is_blank one_address stripped_config envelope 256 test_snapshot

test_quick_snapshot :
    quick_build_snapshot is_blank one_address stripped_config envelope ≡ Result.ok snapshot
unfolding quick_build_snapshot
test_quick_snapshot = test_snapshot

test_parse : config_parse_envelope is_blank one_address snapshot ≡ Result.ok envelope
unfolding config_parse_envelope scan_config_envelope measure lines without_comment trim split_at
    ends_with token_is_safe is_unsafe_directive safe_quick_directive
test_parse = refl

test_token : link_token_is_valid (some token) ≡ true
unfolding link_token_is_valid
test_token = refl

quick_add_link_claim-room_example :
    quick_add_link_claim is_blank one_address snapshot (some token)
    ≡ Result.ok (inserted snapshot 12 (is_unended snapshot 12) (claim_lines token))
quick_add_link_claim-room_example =
    quick_add_link_claim-room is_blank one_address stripped_config envelope envelope token
      test_quick_snapshot test_parse test_token

abbrev server : DnsServer
server = record {
  family = Family.inet;
  length = 4;
  address = 1 ∷ 1 ∷ 1 ∷ 1 ∷ 0 ∷ 0 ∷ 0 ∷ 0 ∷ 0 ∷ 0 ∷ 0 ∷ 0 ∷ 0 ∷ 0 ∷ 0 ∷ 0 ∷ [];
}

abbrev dns : DnsConfig
dns = record { servers = server ∷ []; domains = codes "corp" ∷ [] }

abbrev dns_bytes : Bytes
dns_bytes =
    codes "NMSDNS1"
    ++ 0 ∷ 0 ∷ 0 ∷ 0 ∷ 1 ∷ 0 ∷ 0 ∷ 0 ∷ 1 ∷ 4 ∷ 1 ∷ 1 ∷ 1 ∷ 1 ∷ 0 ∷ 0 ∷ 0 ∷ 4 ∷ codes "corp"

test_serialize : serialize dns ≡ some dns_bytes
unfolding serialize measure value_is_domain
test_serialize = refl

parse-serialize_example :
    (parse dns_bytes ≡ some dns)
    × (measure dns ≡ ok (length dns_bytes))
    × (length dns_bytes ≤ max_dns_payload)
parse-serialize_example = parse-serialize dns ((refl, refl), tt) test_serialize

abbrev report : ProfileReport
report = record {
  records =
      record { name = codes "home"; status = 0 }
      ∷ record { name = codes "work-1"; status = 2 }
      ∷ [];
  complete = false;
}

abbrev output : Bytes
output = codes "NM-SIDEBAR-AWG-PROFILES\t1\t2\t0\n0\thome\n2\twork-1\n"

test_encode : encode report ≡ some output
unfolding encode name_is_valid profile_status_is_valid decimal
test_encode = refl

-- ASCII only.
abbrev is_ascii_text : Bytes → Bool
is_ascii_text text = all (λ c. ltb 0 c && ltb c 128) text

decode-encode_example : decode is_ascii_text output (exit_of false) ≡ some report
decode-encode_example = decode-encode is_ascii_text report (λ text h. h) test_encode
