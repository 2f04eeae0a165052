-- ===== src/Helper/Environment.antt =====
-- What the sessions of the helper use: the types that cross the interfaces of
-- amneziawg_helper_storage.h, amneziawg_helper_quick.h, amneziawg_dns.h and amneziawg_firewall.h,
-- and the operations behind them. Each operation takes the world and leaves a new one.
use network_manager_sidebar.Base.{ℕ, Bool, Option, List, Bytes, ℤ}
use network_manager_sidebar.Names.Exit.{HelperExit}
use network_manager_sidebar.Journal.{DnsBackend, RuntimeMarker, LinkObservation}
use network_manager_sidebar.Dns.{DnsConfig, Family}

-- AwgHelperEntryState.
pub data EntryState : Type 0 where
  missing valid invalid : EntryState

-- AwgHelperStorageArea.
pub data StorageArea : Type 0 where
  config staging runtime runtime_configs : StorageArea

pub data DnsChangeResult : Type 0 where
  ok unavailable failed uncertain : DnsChangeResult

pub record DnsChangeOutcome : Type 0 where
  pub result : DnsChangeResult
  pub may_have_changed : Bool

pub data FirewallState : Type 0 where
  absent present unknown : FirewallState

pub data QuickExecution : Type 0 where
  not_started may_have_run : QuickExecution

pub record QuickResult : Type 0 where
  pub status : HelperExit
  pub execution : QuickExecution
  pub failed_before_routes : Bool

-- NetworkSidebarAmneziaWGLinkIdentity of link_identity.h.
pub record LinkIdentity : Type 0 where
  pub name : Bytes
  pub link_token : Bytes
  pub ifindex : ℕ

-- The parts of a prepared profile that the tunnel reads.
pub record PreparedProfile : Type 0 where
  pub runtime_snapshot : Bytes
  pub dns : DnsConfig
  pub dns_payload : Bytes

pub record Environment (World : Type 0) : Type 0 where
  -- g_ascii_isspace and inet_pton.
  pub is_space : ℕ → Bool
  pub inet_pton : Family → Bytes → Option Bytes
  -- amneziawg_process.h: a termination request, after it was dispatched, and the clock.
  pub termination_requested : World → Bool × World
  pub monotonic_msec : World → ℤ × World
  pub set_cleanup_mode : Bool → World → World
  pub release_retained_group : ℤ → ℤ → World → Bool × World
  pub terminate_retained_group : ℤ → World → Bool × World
  -- getrandom, in a loop that goes on after EINTR: sixteen bytes, or a failure.
  pub random_bytes : World → Option Bytes × World
  -- link_identity.h; FALSE is `none`.
  pub link_observe : Bytes → Option Bytes → World → Option LinkObservation × World
  -- amneziawg_helper_storage.h. A marker comes with the answer that the entry is valid.
  pub read_runtime_marker : Bytes → World → (EntryState × RuntimeMarker) × World
  pub write_runtime_marker : Bytes → RuntimeMarker → World → Bool × World
  pub secure_file_state : StorageArea → Bytes → World → EntryState × World
  pub read_secure_file : StorageArea → Bytes → World → Option Bytes × World
  pub atomic_write : StorageArea → Bytes → Bytes → World → Bool × World
  pub remove_and_sync : StorageArea → Bytes → World → Bool × World
  pub list_runtime_names : ℤ → World → (HelperExit × List Bytes) × World
  -- amneziawg_helper_quick.h, for the commands up and down.
  pub quick_run : Bytes → Bytes → ℤ → World → QuickResult × World
  -- amneziawg_dns.h and amneziawg_firewall.h.
  pub select_backend : DnsConfig → ℤ → World → (DnsChangeResult × DnsBackend) × World
  pub apply_selected :
      LinkIdentity → Option DnsConfig → DnsBackend → ℤ → World → DnsChangeOutcome × World
  pub revert_selected : LinkIdentity → DnsBackend → ℤ → World → DnsChangeOutcome × World
  pub capture_scope : ℤ → World → (Bool × ℕ) × World
  pub probe : Bytes → ℕ → ℤ → World → FirewallState × World
  -- amneziawg_helper_profiles.h.
  pub prepare_runtime : Bytes → ℤ → World → (HelperExit × PreparedProfile) × World
  pub profiles_delete : Bytes → Bytes → ℤ → World → HelperExit × World
