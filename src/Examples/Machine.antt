-- ===== src/Examples/Machine.antt =====
-- A machine that the helper can run on: one session with its journal, one link, and a resolver and
-- a firewall that do what they are asked.
use network_manager_sidebar.Base.{
  Bool, true, false, Option, none, some, [], ◌∷◌, ◌++◌, Bytes, codes, pos,
}
use network_manager_sidebar.Names.Exit.{HelperExit}
use network_manager_sidebar.Journal.{JournalState, DnsBackend, RuntimeMarker, LinkObservation}
use network_manager_sidebar.Deadline.{Deadlines}
use network_manager_sidebar.Dns.{DnsConfig}
use network_manager_sidebar.Helper.Environment.{
  Environment, EntryState, StorageArea, DnsChangeResult, FirewallState, QuickExecution,
  PreparedProfile,
}
use network_manager_sidebar.Helper.State.{State, no_marker}
use network_manager_sidebar.Helper.Tunnel.Prepare.{Activation}
use network_manager_sidebar.Examples.Data.{is_blank, token, active_marker, owned_link, no_link}

pub record Machine : Type 0 where
  pub journal : Option RuntimeMarker
  pub link_is_up : Bool

-- The DNS payload of one server, 1.1.1.1.
abbrev pub dns_bytes : Bytes
dns_bytes = codes "NMSDNS1" ++ 0 ∷ 0 ∷ 0 ∷ 0 ∷ 1 ∷ 0 ∷ 0 ∷ 0 ∷ 0 ∷ 4 ∷ 1 ∷ 1 ∷ 1 ∷ 1 ∷ []

abbrev entry_of : Option RuntimeMarker → EntryState × RuntimeMarker
entry_of none = (EntryState.missing, no_marker)
entry_of (some marker) = (EntryState.valid, marker)

abbrev observed : Bool → Option LinkObservation
observed true = some owned_link
observed false = some no_link

abbrev is_runtime : StorageArea → Bool
is_runtime StorageArea.runtime = true
is_runtime _ = false

-- The journal of a machine from which a file was removed.
abbrev without : Bool → Machine → Machine
without true machine = record machine { journal = none }
without false machine = machine

abbrev is_up_command : Bytes → Bool
is_up_command (_ ∷ _ ∷ []) = true
is_up_command _ = false

abbrev empty_dns : DnsConfig
empty_dns = record { servers = []; domains = [] }

abbrev profile : PreparedProfile
profile = record {
  runtime_snapshot = codes "[Interface]";
  dns = empty_dns;
  dns_payload = dns_bytes;
}

abbrev pub environment : Environment Machine
environment = record {
  is_space = is_blank;
  inet_pton = λ family text. none;
  termination_requested = λ w. (false, w);
  monotonic_msec = λ w. (pos 10, w);
  set_cleanup_mode = λ active w. w;
  release_retained_group = λ forward cleanup w. (true, w);
  terminate_retained_group = λ cleanup w. (true, w);
  random_bytes = λ w. (none, w);
  link_observe = λ name link_token w. (observed w.link_is_up, w);
  read_runtime_marker = λ name w. (entry_of w.journal, w);
  write_runtime_marker = λ name marker w. (true, record w { journal = some marker });
  secure_file_state = λ area name w. (EntryState.valid, w);
  read_secure_file = λ area name w. (some dns_bytes, w);
  atomic_write = λ area name contents w. (true, w);
  remove_and_sync = λ area name w. (true, without (is_runtime area) w);
  list_runtime_names = λ deadline w. ((HelperExit.success, []), w);
  quick_run = λ command path deadline w. (
    record {
      status = HelperExit.success;
      execution = QuickExecution.may_have_run;
      failed_before_routes = false;
    },
    record w { link_is_up = is_up_command command },
  );
  select_backend = λ dns deadline w. ((DnsChangeResult.ok, DnsBackend.none), w);
  apply_selected = λ identity dns backend deadline w.
      (record { result = DnsChangeResult.ok; may_have_changed = true }, w);
  revert_selected = λ identity backend deadline w.
      (record { result = DnsChangeResult.ok; may_have_changed = true }, w);
  capture_scope = λ deadline w. ((true, 1), w);
  probe = λ name scope deadline w. (FirewallState.absent, w);
  prepare_runtime = λ name deadline w. ((HelperExit.success, profile), w);
  profiles_delete = λ name config_name deadline w. (HelperExit.success, w);
}

abbrev pub deadlines : Deadlines
deadlines = record { forward_at = pos 100; cleanup_at = pos 200; hard_at = pos 205 }

abbrev pub started_with : Machine → State Machine
started_with machine = record {
  world = machine;
  session = record { dns_recovery_blocked = false; journal = no_marker; log = [] };
}

-- A session with a resolver that is up, and a machine without any.
abbrev pub running : State Machine
running = started_with (record { journal = some active_marker; link_is_up = true })

abbrev pub stopped : State Machine
stopped = started_with (record { journal = none; link_is_up = false })

-- A journal that cannot be settled.
abbrev pub broken : State Machine
broken = started_with (record {
  journal = some (record active_marker { state = JournalState.cleanup_unconfirmed });
  link_is_up = true;
})

abbrev pub activation : Activation
activation = record {
  name = codes "wg0";
  config_name = codes "wg0.conf";
  snapshot_path = codes "/run/nm-sidebar/amneziawg/.configs/wg0.conf";
  profile = profile;
  journal = record no_marker {
    link_token = token;
    dns_backend = DnsBackend.resolved;
    firewall_scope = 1;
  };
  consumed = false;
}
