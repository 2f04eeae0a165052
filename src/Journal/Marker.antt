-- ===== src/Journal/Marker.antt =====
-- The text form of the runtime marker in runtime_journal.c: the names of its enumerators, the test
-- of its fields, the writer and the parser. NULL arguments are not modelled.
mod Numbers
pub mod RoundTrip
use network_manager_sidebar.Base.{
  ℕ, ◌+◌, ◌-◌, ◌*◌, ◌≤◌, ◌/◌, Bool, true, false, not, ◌&&◌, ◌||◌, Option, none, some, [], ◌∷◌, ◌++◌,
  ltb, leb, ◌==◌, if◌then◌else◌, ◌>>=◌, ◌>>◌, guard, length, all, Bytes, codes, equal, is_digit,
  newline, take_field, trim, expect, read_digits, decimal, begins_with_zero, without_last,
  ends_with,
}
use network_manager_sidebar.Names.{link_token_is_valid, link_token_length}
use network_manager_sidebar.Journal.{JournalState, DnsBackend, JournalDnsState, RuntimeMarker}
use network_manager_sidebar.Journal.Classify.{
  is_absent, is_active, is_complete, is_firewall_pending,
}

abbrev pub max_runtime_marker_size : ℕ
max_runtime_marker_size = 256

unfoldable pub dns_backend_name : DnsBackend → Bytes
dns_backend_name DnsBackend.none = codes "none"
dns_backend_name DnsBackend.resolved = codes "resolved"
dns_backend_name DnsBackend.resolvconf = codes "resolvconf"

unfoldable pub journal_state_name : JournalState → Bytes
journal_state_name JournalState.activating = codes "activating"
journal_state_name JournalState.active = codes "active"
journal_state_name JournalState.cleanup_required = codes "cleanup-required"
journal_state_name JournalState.cleanup_unconfirmed = codes "cleanup-unconfirmed"
journal_state_name JournalState.cleanup_complete = codes "cleanup-complete"
journal_state_name JournalState.firewall_pending = codes "firewall-verification-pending"

unfoldable pub journal_dns_state_name : JournalDnsState → Bytes
journal_dns_state_name JournalDnsState.absent = codes "absent"
journal_dns_state_name JournalDnsState.applied = codes "applied"
journal_dns_state_name JournalDnsState.unknown = codes "unknown"

abbrev pub is_backend_none : DnsBackend → Bool
is_backend_none DnsBackend.none = true
is_backend_none _ = false

abbrev is_activating : JournalState → Bool
is_activating JournalState.activating = true
is_activating _ = false

abbrev pub is_applied : JournalDnsState → Bool
is_applied JournalDnsState.applied = true
is_applied _ = false

-- `scope & ~FIREWALL_ALL`: the bits above the fifth.
abbrev beyond_firewall_all : ℕ → ℕ
beyond_firewall_all scope = scope / 32

unfoldable pub runtime_marker_fields_are_valid : RuntimeMarker → Bool
runtime_marker_fields_are_valid marker =
    if not (beyond_firewall_all marker.firewall_scope == 0)
      || not (link_token_is_valid (some marker.link_token))
    then false
    else if is_backend_none marker.dns_backend && not (is_absent marker.dns_state)
    then false
    else if is_activating marker.state && marker.was_active
    then false
    else if is_active marker.state
        && (marker.ifindex == 0
            || not marker.was_active
            || (not (is_backend_none marker.dns_backend) && not (is_applied marker.dns_state)))
    then false
    else if (is_complete marker.state || is_firewall_pending marker.state)
        && (marker.was_active || not (is_absent marker.dns_state))
    then false
    else true

-- One line of the format string.
abbrev pub field_line : Bytes → Bytes → Bytes → Bytes
field_line prefix value rest = prefix ++ (value ++ newline ∷ rest)

-- What g_snprintf prints.
unfoldable pub runtime_marker_text : RuntimeMarker → Bytes
runtime_marker_text marker = field_line (codes "state=") (journal_state_name marker.state) (
    field_line (codes "token=") marker.link_token (
      field_line (codes "ifindex=") (decimal marker.ifindex) (
        field_line (codes "dns=") (dns_backend_name marker.dns_backend) (
          field_line (codes "was-active=") (decimal (if marker.was_active then 1 else 0)) (
            field_line (codes "dns-state=") (journal_dns_state_name marker.dns_state)
              (field_line (codes "firewall-scope=") (decimal marker.firewall_scope) []))))))

unfoldable pub runtime_marker_serialize : RuntimeMarker → Option Bytes
runtime_marker_serialize marker =
    if not (runtime_marker_fields_are_valid marker)
    then none
    else if leb max_runtime_marker_size (length (runtime_marker_text marker))
    then none
    else some (runtime_marker_text marker)

unfoldable pub journal_state_of_name : Bytes → Option JournalState
journal_state_of_name name =
    if equal name (codes "activating")
    then some JournalState.activating
    else if equal name (codes "active")
    then some JournalState.active
    else if equal name (codes "cleanup-required")
    then some JournalState.cleanup_required
    else if equal name (codes "cleanup-unconfirmed")
    then some JournalState.cleanup_unconfirmed
    else if equal name (codes "cleanup-complete")
    then some JournalState.cleanup_complete
    else if equal name (codes "firewall-verification-pending")
    then some JournalState.firewall_pending
    else none

unfoldable pub dns_backend_of_name : Bytes → Option DnsBackend
dns_backend_of_name name =
    if equal name (codes "none")
    then some DnsBackend.none
    else if equal name (codes "resolved")
    then some DnsBackend.resolved
    else if equal name (codes "resolvconf")
    then some DnsBackend.resolvconf
    else none

unfoldable pub dns_state_of_name : Bytes → Option JournalDnsState
dns_state_of_name name =
    if equal name (codes "absent")
    then some JournalDnsState.absent
    else if equal name (codes "applied")
    then some JournalDnsState.applied
    else if equal name (codes "unknown")
    then some JournalDnsState.unknown
    else none

-- `"0"` or `"1"`.
unfoldable pub was_active_of_text : Bytes → Option Bool
was_active_of_text (c ∷ []) = if not (c == b'0') && not (c == b'1') then none else some (c == b'1')
was_active_of_text _ = none

-- `firewall_scope = firewall_scope * 10 + (*cursor - '0')`, behind the test of the digit.
unfoldable pub firewall_digits : ℕ → Bytes → Option ℕ
firewall_digits scope [] = some scope
firewall_digits scope (c ∷ cs) =
    if not (is_digit c) then none else firewall_digits (scope * 10 + (c - b'0')) cs

unfoldable pub firewall_scope_of_text : Bytes → Option ℕ
unfolding firewall_digits
firewall_scope_of_text text =
    if ltb 2 (length text) || (ltb 1 (length text) && begins_with_zero text)
    then none
    else firewall_digits 0 text

-- GLib's g_ascii_isspace.
module _ (is_space : ℕ → Bool) where
  abbrev positive : ℕ → Option ℕ
  positive value = if value == 0 then none else some value

  abbrev parse_trimmed : Bytes → Option ℕ
  parse_trimmed [] = none
  parse_trimmed (c ∷ cs) = do value ← read_digits 0 (c ∷ cs); positive value

  unfoldable pub ifindex_parse : Bytes → Option ℕ
  ifindex_parse span = parse_trimmed (trim is_space span)

  -- The `ifindex=` value: `0`, or digits with no leading zero.
  unfoldable pub ifindex_of_text : Bytes → Option ℕ
  unfolding ifindex_parse
  ifindex_of_text [] = none
  ifindex_of_text (c ∷ []) =
      if c == b'0' then some 0 else if not (is_digit c) then none else ifindex_parse (c ∷ [])
  ifindex_of_text (c ∷ d ∷ ds) =
      if c == b'0'
      then none
      else if not (all is_digit (c ∷ d ∷ ds))
      then none
      else ifindex_parse (c ∷ d ∷ ds)

  -- The seven fields, each found behind the one before it.
  unfoldable pub runtime_marker_fields : Bytes → Option RuntimeMarker
  runtime_marker_fields span = do
    (state_text, after_state) ← take_field 6 (codes "state=") span
    state ← journal_state_of_name state_text
    (token, after_token) ← take_field 39 (codes "token=") after_state
    guard (length token == link_token_length)
    guard (link_token_is_valid (some token))
    (ifindex_text, after_ifindex) ← take_field 9 (codes "ifindex=") after_token
    ifindex ← ifindex_of_text ifindex_text
    (backend_text, after_backend) ← take_field 5 (codes "dns=") after_ifindex
    backend ← dns_backend_of_name backend_text
    (active_text, after_active) ← take_field 13 (codes "was-active=") after_backend
    was_active ← was_active_of_text active_text
    (dns_state_text, after_dns_state) ← take_field 12 (codes "dns-state=") after_active
    dns_state ← dns_state_of_name dns_state_text
    firewall ← expect 17 (codes "firewall-scope=") after_dns_state
    firewall_scope ← firewall_scope_of_text (without_last firewall)
    some (record {
      link_token = token;
      ifindex = ifindex;
      dns_backend = backend;
      state = state;
      dns_state = dns_state;
      was_active = was_active;
      firewall_scope = firewall_scope;
    })

  unfoldable pub runtime_marker_parse : Bytes → Option RuntimeMarker
  runtime_marker_parse contents = do
    guard (not (leb (length contents) 6) && ends_with newline contents)
    parsed ← runtime_marker_fields contents
    guard (runtime_marker_fields_are_valid parsed)
    some parsed
