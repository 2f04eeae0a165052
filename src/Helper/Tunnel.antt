-- ===== src/Helper/Tunnel.antt =====
-- amneziawg_helper_tunnel.c: the common types, the writes to the fields of a journal, and the names
-- of the runtime files.
pub mod Token
pub mod Dns
pub mod Cleanup
pub mod Interface
pub mod Rollback
pub mod Prepare
pub mod Activate
pub mod Admit
pub mod Down
use network_manager_sidebar.Base.{
  ◌||◌, ℕ, ◌+◌, Bool, true, false, Option, none, some, ◌++◌, ltb, leb, ◌==◌, if◌then◌else◌, length,
  Bytes, codes,
}
use network_manager_sidebar.Names.Exit.{HelperExit, is_success}
use network_manager_sidebar.Journal.{RuntimeMarker, JournalState, JournalDnsState}
use network_manager_sidebar.Helper.Environment.{QuickExecution}
use network_manager_sidebar.Helper.State.{Session, Action, pure, ◌>>=◌}

pub data DnsTransaction : Type 0 where
  ok change_failed uncertain journal_failed : DnsTransaction

unfoldable pub is_ok : DnsTransaction → Bool
is_ok DnsTransaction.ok = true
is_ok _ = false

unfoldable pub is_change_failed : DnsTransaction → Bool
is_change_failed DnsTransaction.change_failed = true
is_change_failed _ = false

pub data TeardownState : Type 0 where
  absent remains conflict unknown journal_failed : TeardownState

unfoldable pub is_absent_teardown : TeardownState → Bool
is_absent_teardown TeardownState.absent = true
is_absent_teardown _ = false

unfoldable pub is_remains : TeardownState → Bool
is_remains TeardownState.remains = true
is_remains _ = false

unfoldable pub is_conflict_teardown : TeardownState → Bool
is_conflict_teardown TeardownState.conflict = true
is_conflict_teardown _ = false

unfoldable pub is_unknown_teardown : TeardownState → Bool
is_unknown_teardown TeardownState.unknown = true
is_unknown_teardown _ = false

unfoldable pub is_journal_failed : TeardownState → Bool
is_journal_failed TeardownState.journal_failed = true
is_journal_failed _ = false

unfoldable pub is_not_started : QuickExecution → Bool
is_not_started QuickExecution.not_started = true
is_not_started QuickExecution.may_have_run = false

unfoldable pub is_activating : JournalState → Bool
is_activating JournalState.activating = true
is_activating _ = false

unfoldable pub is_cleanup_required : JournalState → Bool
is_cleanup_required JournalState.cleanup_required = true
is_cleanup_required _ = false

pub record Teardown : Type 0 where
  pub state : TeardownState
  pub command_result : HelperExit
  pub execution : QuickExecution

-- Assignments to the fields of `*journal`, and to `tunnel->dns_recovery_blocked`.
unfoldable pub set_state : JournalState → Session → Session
set_state state s = record s { journal = record s.journal { state = state } }

unfoldable pub set_dns_state : JournalDnsState → Session → Session
set_dns_state dns_state s = record s { journal = record s.journal { dns_state = dns_state } }

unfoldable pub set_was_active : Bool → Session → Session
set_was_active was_active s = record s { journal = record s.journal { was_active = was_active } }

unfoldable pub set_firewall_scope : ℕ → Session → Session
set_firewall_scope scope s = record s { journal = record s.journal { firewall_scope = scope } }

unfoldable pub block_dns_recovery : Session → Session
block_dns_recovery s = record s { dns_recovery_blocked = true }

-- snprintf into a buffer of `size` bytes, where the text and its NUL fit.
abbrev fitting : ℕ → Bytes → Option Bytes
fitting size text = if leb size (length text) || length text == 0 then none else some text

-- The buffers of the callers have MAX_INTERFACE_LENGTH + 6, + 5 and PATH_MAX bytes.
unfoldable pub make_config_filename : Bytes → Option Bytes
make_config_filename name = fitting 21 (name ++ codes ".conf")

unfoldable pub make_dns_filename : Bytes → Option Bytes
make_dns_filename name = fitting 20 (name ++ codes ".dns")

unfoldable pub make_runtime_config_path : Bytes → Option Bytes
make_runtime_config_path name =
    fitting 4096 (codes "/run/nm-sidebar/amneziawg/.configs/" ++ (name ++ codes ".conf"))

-- `option` or the empty string, behind a test for NULL.
abbrev pub text_in : Option Bytes → Bytes
text_in none = codes ""
text_in (some text) = text

abbrev pub is_made : Option Bytes → Bool
is_made none = false
is_made (some _) = true

module _ {World : Type 0} where
  -- A result other than success is returned at once.
  unfoldable pub on_success :
      Action World HelperExit → Action World HelperExit → Action World HelperExit
  unfolding ◌>>=◌ is_success
  on_success m rest = do result ← m; if is_success result then rest else pure result
