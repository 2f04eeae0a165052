-- ===== src/Helper/Safe/Down.antt =====
-- Taking a session down keeps the order of the log.
use network_manager_sidebar.Base.{arith, Bool, Option, Bytes}
use network_manager_sidebar.Names.Exit.{HelperExit}
use network_manager_sidebar.Journal.{RuntimeMarker}
use network_manager_sidebar.Deadline.{Deadlines}
use network_manager_sidebar.Dns.{DnsConfig}
use network_manager_sidebar.Helper.Environment.{Environment}
use network_manager_sidebar.Helper.State.{Session, State, modify}
use network_manager_sidebar.Helper.Keeps.{Keeps, Leaves-modify, keeps_rules}
use network_manager_sidebar.Helper.Reads.{
  phase_stop_status-Keeps, phase_failure_or-Keeps, runtime_state-Keeps,
}
use network_manager_sidebar.Helper.Session.{set_journal}
use network_manager_sidebar.Helper.Tunnel.{block_dns_recovery}
use network_manager_sidebar.Helper.Tunnel.Admit.{runtime_files_agree}
use network_manager_sidebar.Helper.Tunnel.Down.{
  abort_down, take_down, revert_and_take_down, down_checked, down_identified, down_marked,
  down_settled, tunnel_down,
}
use network_manager_sidebar.Helper.Safe.{IsSafe, write_runtime_marker-IsSafe}
use network_manager_sidebar.Helper.Safe.Dns.{set_state-IsSafe, revert_dns_durably-IsSafe}
use network_manager_sidebar.Helper.Safe.Cleanup.{
  load_runtime_dns-Keeps, include_current_firewall_scope-IsSafe, refresh_owned_interface-IsSafe,
  finalize_runtime_entries-IsSafe, verify_runtime_cleanup-IsSafe,
}
use network_manager_sidebar.Helper.Safe.Interface.{
  teardown_owned_interface-IsSafe, abort_before_interface_teardown-IsSafe,
}

module _ {World : Type 0} (env : Environment World) where
  pub set_journal-IsSafe :
      (marker : RuntimeMarker) → Keeps {World = World} IsSafe (modify (set_journal marker))
  unfolding IsSafe set_journal
  set_journal-IsSafe marker = Leaves-modify (set_journal marker) (λ s h. h)

  block_dns_recovery-IsSafe : Keeps {World = World} IsSafe (modify block_dns_recovery)
  unfolding IsSafe block_dns_recovery
  block_dns_recovery-IsSafe = Leaves-modify block_dns_recovery (λ s h. ground arith)

  pub runtime_files_agree-Keeps :
      {P : Session → Type 0} (name config_name : Bytes) (marker : RuntimeMarker)
      → Keeps P (runtime_files_agree env name config_name marker)
  unfolding runtime_files_agree
  runtime_files_agree-Keeps name config_name marker =
      search (keeps_rules, load_runtime_dns-Keeps) depth 8

  module _ (name config_name snapshot_path : Bytes) (deadlines : Deadlines) where
    abort_down-IsSafe :
        (dns : Option DnsConfig) (began_active : Bool) (failure : HelperExit)
        → Keeps IsSafe
            (abort_down env name config_name snapshot_path deadlines dns began_active failure)
    unfolding abort_down
    abort_down-IsSafe dns began_active failure =
        search (keeps_rules, abort_before_interface_teardown-IsSafe)

    take_down-IsSafe :
        (dns : Option DnsConfig) (began_active : Bool)
        → Keeps IsSafe (take_down env name config_name snapshot_path deadlines dns began_active)
    unfolding take_down
    take_down-IsSafe dns began_active =
        search
          (
            keeps_rules, teardown_owned_interface-IsSafe, verify_runtime_cleanup-IsSafe,
            abort_down-IsSafe,
          )
          depth 10

    revert_and_take_down-IsSafe :
        (dns : Option DnsConfig) (began_active : Bool)
        → Keeps IsSafe
            (revert_and_take_down env name config_name snapshot_path deadlines dns began_active)
    unfolding revert_and_take_down
    revert_and_take_down-IsSafe dns began_active =
        search
          (
            keeps_rules,
            include_current_firewall_scope-IsSafe,
            set_state-IsSafe env name,
            write_runtime_marker-IsSafe,
            revert_dns_durably-IsSafe,
            phase_failure_or-Keeps,
            take_down-IsSafe,
            abort_down-IsSafe,
          )
          depth 20

    down_checked-IsSafe : Keeps IsSafe (down_checked env name config_name snapshot_path deadlines)
    unfolding down_checked
    down_checked-IsSafe =
        search (keeps_rules, runtime_files_agree-Keeps, revert_and_take_down-IsSafe) depth 10

    down_identified-IsSafe :
        (marker : RuntimeMarker) (interface : Bool)
        → Keeps IsSafe
            (down_identified env name config_name snapshot_path deadlines marker interface)
    unfolding down_identified
    down_identified-IsSafe marker interface =
        search (keeps_rules, refresh_owned_interface-IsSafe, down_checked-IsSafe) depth 10

    down_marked-IsSafe :
        (marker : RuntimeMarker) (interface : Bool)
        → Keeps IsSafe (down_marked env name config_name snapshot_path deadlines marker interface)
    unfolding down_marked
    down_marked-IsSafe marker interface =
        search
          (
            keeps_rules,
            block_dns_recovery-IsSafe,
            set_state-IsSafe env name,
            write_runtime_marker-IsSafe,
            down_identified-IsSafe,
          )
          depth 10

    down_settled-IsSafe :
        (marker : RuntimeMarker) (interface : Bool)
        → Keeps IsSafe (down_settled env name config_name snapshot_path deadlines marker interface)
    unfolding down_settled
    down_settled-IsSafe marker interface =
        search (keeps_rules, finalize_runtime_entries-IsSafe, verify_runtime_cleanup-IsSafe)

    tunnel_down-Keeps : Keeps IsSafe (tunnel_down env name config_name snapshot_path deadlines)
    unfolding tunnel_down
    tunnel_down-Keeps =
        search
          (
            keeps_rules, phase_stop_status-Keeps, runtime_state-Keeps, set_journal-IsSafe,
            down_settled-IsSafe, down_marked-IsSafe,
          )
          depth 14

    -- Whatever the machine answers, taking a session down keeps the log safe: the resolver is
    -- changed only right behind a successful write of a journal whose DNS state is unknown, and
    -- never behind a change whose outcome is uncertain; awg-quick down runs only right behind a
    -- successful write of a journal whose cleanup is unconfirmed; the journal is removed only right
    -- behind two runtime files, and these behind a written journal that is complete, without DNS and
    -- not active. And behind a change of uncertain outcome the flag that blocks the resolver is set.
    pub tunnel_down-IsSafe :
        (s : State World)
        → IsSafe s.session
        → IsSafe (tunnel_down env name config_name snapshot_path deadlines s).1.session
    tunnel_down-IsSafe s safe = tunnel_down-Keeps.at s safe
