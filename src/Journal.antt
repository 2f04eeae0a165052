-- ===== src/Journal.antt =====
-- runtime_journal.c: the runtime marker that the privileged helper journals for each session,
-- and the classification of a session from its marker and an observed link.
pub mod Classify
pub mod Marker
use network_manager_sidebar.Base.{ℕ, Bool, true, false, Bytes}

pub data RuntimeState : Type 0 where
  inactive active recovery_required manual_intervention : RuntimeState
  conflict unknown firewall_pending : RuntimeState

pub data JournalState : Type 0 where
  activating active cleanup_required cleanup_unconfirmed : JournalState
  cleanup_complete firewall_pending : JournalState

pub data DnsBackend : Type 0 where
  none resolved resolvconf : DnsBackend

pub data JournalDnsState : Type 0 where
  absent applied unknown : JournalDnsState

-- `link_token` is a C string in an array of 33 bytes; `ifindex` and `firewall_scope` are guint.
pub record RuntimeMarker : Type 0 where
  pub link_token : Bytes
  pub ifindex : ℕ
  pub dns_backend : DnsBackend
  pub state : JournalState
  pub dns_state : JournalDnsState
  pub was_active : Bool
  pub firewall_scope : ℕ

-- NetworkSidebarAmneziaWGLinkObservation of amneziawg.h.
pub record LinkObservation : Type 0 where
  pub named_exists : Bool
  pub named_ifindex : ℕ
  pub token_matches : ℕ
  pub token_ifindex : ℕ
  pub token_has_expected_name : Bool
  pub token_ifname : Bytes

unfoldable pub runtime_state_is_recoverable : RuntimeState → Bool
runtime_state_is_recoverable RuntimeState.recovery_required = true
runtime_state_is_recoverable RuntimeState.firewall_pending = true
runtime_state_is_recoverable _ = false
