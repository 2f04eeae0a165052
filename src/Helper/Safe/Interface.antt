-- ===== src/Helper/Safe/Interface.antt =====
-- The teardown of an interface and the rollbacks keep the order of the log.
use network_manager_sidebar.Base.{◌≡◌, refl, Bool, true, false, not, Option, Bytes, ℤ, arith}
use network_manager_sidebar.Names.Exit.{HelperExit}
use network_manager_sidebar.Journal.{JournalState}
use network_manager_sidebar.Dns.{DnsConfig}
use network_manager_sidebar.Helper.Environment.{Environment, QuickResult}
use network_manager_sidebar.Helper.State.{Event, pure, perform, modify}
use network_manager_sidebar.Helper.Keeps.{
  Leaves, Keeps, Leaves-perform, Leaves-modify, Leaves-if, Leaves-pure, starting, keeps_rules,
}
use network_manager_sidebar.Helper.Reads.{owned_link_state-Keeps, phase_stop_status-Keeps}
use network_manager_sidebar.Helper.Tunnel.{DnsTransaction, Teardown, TeardownState, set_state}
use network_manager_sidebar.Helper.Tunnel.Interface.{
  run_down, teardown_owned_interface, teardown_in, restore_active, abort_before_interface_teardown,
}
use network_manager_sidebar.Helper.Tunnel.Rollback.{
  rollback_torn_down, rollback_activation_impl, rollback_activation,
}
use network_manager_sidebar.Helper.Safe.{
  IsSafe, IsSafeBehind, is_safe_log, has_lost, may_follow, cleanup_is_unconfirmed,
  write_runtime_marker-IsSafe, write_runtime_marker-IsSafeBehind,
}
use network_manager_sidebar.Helper.Safe.Dns.{
  set_state-IsSafe, apply_dns_durably-IsSafe, revert_dns_durably-IsSafe,
}
use network_manager_sidebar.Helper.Safe.Cleanup.{
  refresh_owned_interface-IsSafe, verify_runtime_cleanup-IsSafe,
}

module _ {World : Type 0} (env : Environment World) (name : Bytes) where
  module _ (snapshot_path : Bytes) where
    down-IsSafe :
        (written : Bool) (change : World → QuickResult × World)
        → not written ≡ false
        → Leaves
            (IsSafeBehind cleanup_is_unconfirmed written)
            (perform Event.ran_down change)
            (λ _. IsSafe)
    unfolding IsSafeBehind IsSafe is_safe_log may_follow has_lost
    down-IsSafe written change w = Leaves-perform Event.ran_down change (λ a s h. ground arith)

    run_down-IsSafe :
        (absent_state : JournalState) (deadline : ℤ) (written : Bool)
        → not written ≡ false
        → Leaves
            (IsSafeBehind cleanup_is_unconfirmed written)
            (run_down env name snapshot_path absent_state deadline)
            (λ _. IsSafe)
    unfolding run_down
    run_down-IsSafe absent_state deadline written w =
        let ran =
          λ (change : World → QuickResult × World). starting (down-IsSafe written change w) in
        search
          (
            ran,
            keeps_rules,
            owned_link_state-Keeps,
            set_state-IsSafe env name,
            write_runtime_marker-IsSafe,
          )
          depth 12

    mark_unconfirmed :
        Leaves {World = World} IsSafe
          (modify (set_state JournalState.cleanup_unconfirmed))
          (λ _ s. IsSafe s × (cleanup_is_unconfirmed s.journal ≡ true))
    unfolding IsSafe set_state
    mark_unconfirmed = Leaves-modify (set_state JournalState.cleanup_unconfirmed) (λ s h. (h, refl))

    not_down :
        (written : Bool) (state : TeardownState)
        → Leaves {World = World}
            (IsSafeBehind cleanup_is_unconfirmed written)
            (pure (teardown_in state))
            (λ _. IsSafe)
    unfolding IsSafeBehind
    not_down written state = Leaves-pure (teardown_in state) (λ s h. h.0)

    pub teardown_owned_interface-IsSafe :
        (absent_state : JournalState) (deadline : ℤ)
        → Keeps IsSafe (teardown_owned_interface env name snapshot_path absent_state deadline)
    unfolding teardown_owned_interface
    teardown_owned_interface-IsSafe absent_state deadline =
        let marked = starting mark_unconfirmed in
        let written =
          starting (write_runtime_marker-IsSafeBehind env cleanup_is_unconfirmed name) in
        search
          (
            keeps_rules, refresh_owned_interface-IsSafe, marked, written, not_down, run_down-IsSafe,
            Leaves-if,
          )
          depth 12

  restore_active-IsSafe :
      (dns : Option DnsConfig) (failure : HelperExit) (deadline : ℤ)
      → Keeps IsSafe (restore_active env name dns failure deadline)
  unfolding restore_active
  restore_active-IsSafe dns failure deadline =
      search
        (
          keeps_rules,
          apply_dns_durably-IsSafe,
          set_state-IsSafe env name,
          write_runtime_marker-IsSafe,
        )
        depth 10

  pub abort_before_interface_teardown-IsSafe :
      (dns : Option DnsConfig) (began_active : Bool) (failure : HelperExit) (deadline : ℤ)
      → Keeps IsSafe (abort_before_interface_teardown env name dns began_active failure deadline)
  unfolding abort_before_interface_teardown
  abort_before_interface_teardown-IsSafe dns began_active failure deadline =
      search
        (
          keeps_rules,
          owned_link_state-Keeps,
          phase_stop_status-Keeps,
          set_state-IsSafe env name,
          write_runtime_marker-IsSafe,
          restore_active-IsSafe,
        )
        depth 20

module _ {World : Type 0} (env : Environment World) (name config_name snapshot_path : Bytes) where
  rollback_torn_down-IsSafe :
      (teardown : Teardown) (dns_result : DnsTransaction) (failure : HelperExit) (deadline : ℤ)
      → Keeps IsSafe (
          rollback_torn_down env name config_name snapshot_path teardown dns_result failure
            deadline)
  unfolding rollback_torn_down
  rollback_torn_down-IsSafe teardown dns_result failure deadline =
      search (keeps_rules, verify_runtime_cleanup-IsSafe, abort_before_interface_teardown-IsSafe)
        depth 10

  rollback_activation_impl-IsSafe :
      (failure : HelperExit) (deadline : ℤ)
      → Keeps IsSafe (rollback_activation_impl env name config_name snapshot_path failure deadline)
  unfolding rollback_activation_impl
  rollback_activation_impl-IsSafe failure deadline =
      search
        (
          keeps_rules,
          set_state-IsSafe env name,
          write_runtime_marker-IsSafe,
          refresh_owned_interface-IsSafe,
          revert_dns_durably-IsSafe,
          teardown_owned_interface-IsSafe,
          rollback_torn_down-IsSafe,
        )
        depth 24

  pub rollback_activation-IsSafe :
      (failure : HelperExit) (deadline : ℤ)
      → Keeps IsSafe (rollback_activation env name config_name snapshot_path failure deadline)
  unfolding rollback_activation
  rollback_activation-IsSafe failure deadline =
      search (keeps_rules, rollback_activation_impl-IsSafe)
