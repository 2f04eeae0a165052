-- ===== src/Examples/Data.antt =====
-- Values that the tests and witnesses share.
use network_manager_sidebar.Base.{
  ℕ, Bool, true, false, ◌||◌, ◌==◌, ◌≡◌, Bytes, codes, is_digit, arith,
}
use network_manager_sidebar.Names.{available}
use network_manager_sidebar.Journal.{
  RuntimeState, JournalState, DnsBackend, JournalDnsState, RuntimeMarker, LinkObservation,
}
use network_manager_sidebar.Admission.{Dependencies, AdmissionContext, AdmissionTarget}

-- White space for the examples: space, tab, line feed, form feed, carriage return.
abbrev pub is_blank : ℕ → Bool
is_blank c = c == 32 || c == 9 || c == 10 || c == 12 || c == 13

pub digit_visible : (c : ℕ) → is_digit c ≡ true → is_blank c ≡ false
digit_visible c h = ground arith

abbrev pub token : Bytes
token = codes "0123456789abcdef0123456789abcdef"

abbrev pub active_marker : RuntimeMarker
active_marker = record {
  link_token = token;
  ifindex = 42;
  dns_backend = DnsBackend.resolved;
  state = JournalState.active;
  dns_state = JournalDnsState.applied;
  was_active = true;
  firewall_scope = 17;
}

abbrev pub pending_marker : RuntimeMarker
pending_marker = record {
  link_token = token;
  ifindex = 0;
  dns_backend = DnsBackend.none;
  state = JournalState.firewall_pending;
  dns_state = JournalDnsState.absent;
  was_active = false;
  firewall_scope = 1;
}

abbrev pub owned_link : LinkObservation
owned_link = record {
  named_exists = true;
  named_ifindex = 42;
  token_matches = 1;
  token_ifindex = 42;
  token_has_expected_name = true;
  token_ifname = codes "wg0";
}

abbrev pub no_link : LinkObservation
no_link = record {
  named_exists = false;
  named_ifindex = 0;
  token_matches = 0;
  token_ifindex = 0;
  token_has_expected_name = false;
  token_ifname = codes "";
}

abbrev pub all_present : Dependencies
all_present = record { helper = false; service = false; awg_quick = false }

abbrev pub no_awg_quick : Dependencies
no_awg_quick = record { helper = false; service = false; awg_quick = true }

abbrev pub idle : Dependencies → AdmissionContext
idle missing = record {
  authorized = true;
  busy = false;
  capabilities_known = true;
  missing_dependencies = missing;
}

abbrev pub saved : RuntimeState → Bool → AdmissionTarget
saved state exists = record {
  has_profile = true;
  profile_status = available;
  runtime_state = state;
  interface_exists = exists;
}
