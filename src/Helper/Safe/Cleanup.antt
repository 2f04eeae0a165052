-- ===== src/Helper/Safe/Cleanup.antt =====
-- The removal of the runtime entries keeps the order of the log.
use network_manager_sidebar.Base.{◌≡◌, Bool, true, false, not, ◌||◌, ℕ, Bytes, ℤ, arith}
use network_manager_sidebar.Names.Exit.{HelperExit}
use network_manager_sidebar.Helper.Environment.{Environment, QuickResult}
use network_manager_sidebar.Helper.State.{Session, pure, gets, modify}
use network_manager_sidebar.Helper.Keeps.{
  Leaves, Keeps, Leaves-gets, Leaves-modify, Leaves-if, Leaves-pure, starting, Leaves-weaken,
  keeps_rules,
}
use network_manager_sidebar.Helper.Reads.{owned_link_state-Keeps, phase_stop_status-Keeps}
use network_manager_sidebar.Helper.Session.{
  write_runtime_marker, adopt_ifindex, refresh_owned_interface,
}
use network_manager_sidebar.Helper.Tunnel.{set_firewall_scope}
use network_manager_sidebar.Helper.Tunnel.Cleanup.{
  may_finalize, settle_unstarted, settle_link, set_cleanup_mode, include_current_firewall_scope,
  remove_entries, finalize_runtime_entries, discard_unstarted_runtime, check_link_absent,
  verify_firewall, verify_runtime_cleanup, try_finalize_early_up_failure, load_runtime_dns,
  scope_or,
}
use network_manager_sidebar.Helper.Safe.{
  IsSafe, IsSafeBehind, is_safe_log, has_lost, may_follow, has_removed_configs, is_removed_config,
  is_cleaned, write_runtime_marker-IsSafe, write_runtime_marker-IsSafeBehind,
}
use network_manager_sidebar.Helper.Safe.Dns.{set_state-IsSafe}

-- Safe, and cleaned where the guard said so.
IsSafeIf : Bool → Session → Type 0
IsSafeIf allowed s = IsSafe s × (not allowed || is_cleaned s.journal ≡ true)

module _ {World : Type 0} (env : Environment World) where
  pub set_cleanup_mode-Keeps :
      {P : Session → Type 0} (active : Bool) → Keeps P (set_cleanup_mode env active)
  unfolding set_cleanup_mode
  set_cleanup_mode-Keeps active = search keeps_rules

  pub load_runtime_dns-Keeps :
      {P : Session → Type 0} (name : Bytes) → Keeps P (load_runtime_dns env name)
  unfolding load_runtime_dns
  load_runtime_dns-Keeps name = search keeps_rules depth 8

  set_firewall_scope-IsSafe :
      (scope : ℕ)
      → Keeps {World = World} IsSafe
          (modify (λ s. set_firewall_scope (scope_or s.journal.firewall_scope scope) s))
  unfolding IsSafe set_firewall_scope
  set_firewall_scope-IsSafe scope = Leaves-modify _ (λ s h. h)

  pub include_current_firewall_scope-IsSafe :
      (deadline : ℤ) → Keeps IsSafe (include_current_firewall_scope env deadline)
  unfolding include_current_firewall_scope
  include_current_firewall_scope-IsSafe deadline = search (keeps_rules, set_firewall_scope-IsSafe)

  adopt_ifindex-IsSafe :
      (ifindex : ℕ) → Keeps {World = World} IsSafe (modify (adopt_ifindex ifindex))
  unfolding IsSafe adopt_ifindex
  adopt_ifindex-IsSafe ifindex = Leaves-modify (adopt_ifindex ifindex) (λ s h. h)

  pub refresh_owned_interface-IsSafe :
      (name : Bytes) → Keeps IsSafe (refresh_owned_interface env name)
  unfolding refresh_owned_interface
  refresh_owned_interface-IsSafe name =
      search (keeps_rules, adopt_ifindex-IsSafe, write_runtime_marker-IsSafe) depth 12

  module _ (name config_name : Bytes) where
    remove_entries-IsSafe :
        (dns_name : Bytes) (written : Bool) (made : Bool)
        → not written || made ≡ false
        → Leaves
            (IsSafeBehind is_cleaned written)
            (remove_entries env name config_name dns_name)
            (λ _. IsSafe)
    unfolding remove_entries IsSafeBehind IsSafe is_safe_log may_follow has_lost has_removed_configs
        is_removed_config
    remove_entries-IsSafe dns_name written made w = record { at = λ s h. ground arith }

    read_guard : Leaves {World = World} IsSafe (gets may_finalize) IsSafeIf
    unfolding IsSafeIf may_finalize is_cleaned
    read_guard = Leaves-gets may_finalize (λ s h. ground arith)

    refused :
        (allowed : Bool) (result : HelperExit)
        → Leaves {World = World} (IsSafeIf allowed) (pure result) (λ _. IsSafe)
    unfolding IsSafeIf
    refused allowed result = Leaves-pure result (λ s h. h.0)

    unwritten :
        (written : Bool) (result : HelperExit)
        → Leaves {World = World} (IsSafeBehind is_cleaned written) (pure result) (λ _. IsSafe)
    unfolding IsSafeBehind
    unwritten written result = Leaves-pure result (λ s h. h.0)

    write_cleaned :
        (allowed : Bool)
        → not allowed ≡ false
        → Leaves (IsSafeIf allowed) (write_runtime_marker env name) (IsSafeBehind is_cleaned)
    unfolding IsSafeIf
    write_cleaned allowed a =
        Leaves-weaken (λ s h. ground arith) (write_runtime_marker-IsSafeBehind env is_cleaned name)

    pub finalize_runtime_entries-IsSafe :
        Keeps IsSafe (finalize_runtime_entries env name config_name)
    unfolding finalize_runtime_entries
    finalize_runtime_entries-IsSafe =
        let read = starting read_guard in
        let written =
          λ (allowed : Bool) (a : not allowed ≡ false). starting (write_cleaned allowed a) in
        search (read, written, refused, unwritten, remove_entries-IsSafe, Leaves-if) depth 10

    settle_unstarted-IsSafe : Keeps {World = World} IsSafe (modify settle_unstarted)
    unfolding IsSafe settle_unstarted
    settle_unstarted-IsSafe = Leaves-modify settle_unstarted (λ s h. h)

    settle_link-IsSafe : Keeps {World = World} IsSafe (modify settle_link)
    unfolding IsSafe settle_link
    settle_link-IsSafe = Leaves-modify settle_link (λ s h. h)

    pub discard_unstarted_runtime-IsSafe :
        (deadline : ℤ) → Keeps IsSafe (discard_unstarted_runtime env name config_name deadline)
    unfolding discard_unstarted_runtime
    discard_unstarted_runtime-IsSafe deadline =
        search
          (
            keeps_rules, phase_stop_status-Keeps, settle_unstarted-IsSafe,
            finalize_runtime_entries-IsSafe,
          )
          depth 10

    check_link_absent-Keeps :
        {P : Session → Type 0} → Keeps P (check_link_absent env name config_name)
    unfolding check_link_absent
    check_link_absent-Keeps = search (keeps_rules, owned_link_state-Keeps)

    verify_firewall-IsSafe :
        (deadline : ℤ) → Keeps IsSafe (verify_firewall env name config_name deadline)
    unfolding verify_firewall
    verify_firewall-IsSafe deadline =
        search
          (
            keeps_rules,
            check_link_absent-Keeps,
            phase_stop_status-Keeps,
            set_state-IsSafe env name,
            finalize_runtime_entries-IsSafe,
          )
          depth 12

    pub verify_runtime_cleanup-IsSafe :
        (deadline : ℤ) → Keeps IsSafe (verify_runtime_cleanup env name config_name deadline)
    unfolding verify_runtime_cleanup
    verify_runtime_cleanup-IsSafe deadline =
        search
          (
            keeps_rules, check_link_absent-Keeps, settle_link-IsSafe, write_runtime_marker-IsSafe,
            verify_firewall-IsSafe,
          )
          depth 12

    pub try_finalize_early_up_failure-IsSafe :
        (quick : QuickResult) (deadline : ℤ) (result : HelperExit)
        → Keeps IsSafe (try_finalize_early_up_failure env name config_name quick deadline result)
    unfolding try_finalize_early_up_failure
    try_finalize_early_up_failure-IsSafe quick deadline result =
        search
          (
            keeps_rules,
            owned_link_state-Keeps,
            set_state-IsSafe env name,
            verify_runtime_cleanup-IsSafe,
          )
          depth 12
