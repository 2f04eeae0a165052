-- ===== src/Names/Exit.antt =====
-- The exit statuses of the helper, of amneziawg.h.
use network_manager_sidebar.Base.{Bool, true, false}

pub data HelperExit : Type 0 where
  success usage not_root invalid_name input_too_large invalid_config : HelperExit
  replace_confirmation_required not_found active interface_conflict : HelperExit
  awg_quick_unavailable awg_quick_failed filesystem_failed runtime_failed : HelperExit
  rollback_failed input_failed child_setup_failed interface_creation_failed : HelperExit
  userspace_failed setconf_failed address_failed mtu_failed dns_failed : HelperExit
  route_failed firewall_failed child_signaled dns_backend_unavailable : HelperExit
  dns_apply_failed dns_revert_failed dns_rollback_failed inventory_partial : HelperExit
  timed_out firewall_cleanup_failed switch_cleanup_failed : HelperExit

-- `status == NETWORK_SIDEBAR_AMNEZIAWG_HELPER_SUCCESS`.
unfoldable pub is_success : HelperExit → Bool
is_success HelperExit.success = true
is_success _ = false

unfoldable pub is_inventory_partial : HelperExit → Bool
is_inventory_partial HelperExit.inventory_partial = true
is_inventory_partial _ = false
