-- ===== src/Helper/Tunnel/Admit.antt =====
-- The tests in front of taking a session down, and awg_helper_tunnel_check_down, of
-- amneziawg_helper_tunnel.c.
use network_manager_sidebar.Base.{
  Bool, true, false, not, ◌&&◌, ◌||◌, Option, none, some, List, [], ◌∷◌, if◌then◌else◌, Bytes, ℤ,
}
use network_manager_sidebar.Names.{name_is_valid}
use network_manager_sidebar.Names.Exit.{HelperExit, is_success}
use network_manager_sidebar.Journal.{RuntimeMarker}
use network_manager_sidebar.Journal.Classify.{
  is_unknown, is_resolved, is_complete, is_firewall_pending, is_active,
}
use network_manager_sidebar.Journal.Marker.{is_backend_none}
use network_manager_sidebar.Dns.{DnsConfig}
use network_manager_sidebar.Helper.Environment.{Environment, StorageArea}
use network_manager_sidebar.Helper.State.{Action, pure, observe, ◌>>=◌}
use network_manager_sidebar.Helper.Session.{
  RuntimeStatus, runtime_state, phase_stop_status, phase_failure_or, is_valid,
}
use network_manager_sidebar.Helper.Tunnel.{
  is_activating, is_cleanup_required, make_config_filename, is_made, text_in, on_success,
}
use network_manager_sidebar.Helper.Tunnel.Cleanup.{load_runtime_dns}

abbrev is_empty {ℓ} : {A : Type ℓ} → List A → Bool
is_empty [] = true
is_empty (_ ∷ _) = false

-- dns_config_present of amneziawg_dns.c.
unfoldable pub dns_config_present : DnsConfig → Bool
dns_config_present dns = not (is_empty dns.servers) || not (is_empty dns.domains)

-- A payload that was loaded, and whose presence agrees with the backend of the journal.
unfoldable pub dns_agrees : RuntimeMarker → Option DnsConfig → Bool
unfolding dns_config_present
dns_agrees marker none = false
dns_agrees marker (some dns) =
    if is_backend_none marker.dns_backend
    then not (dns_config_present dns)
    else dns_config_present dns

abbrev is_loaded : Option DnsConfig → Bool
is_loaded none = false
is_loaded (some _) = true

-- Whose removal needs no teardown.
unfoldable pub is_settled_journal : RuntimeMarker → Bool
is_settled_journal marker = is_complete marker.state || is_firewall_pending marker.state

unfoldable pub is_lost_resolver : RuntimeMarker → Bool
is_lost_resolver marker = is_resolved marker.dns_backend && is_unknown marker.dns_state

-- The states from which a session may be taken down.
unfoldable pub can_be_taken_down : RuntimeMarker → Bool
unfolding is_activating is_cleanup_required
can_be_taken_down marker =
    is_active marker.state || is_activating marker.state || is_cleanup_required marker.state

-- What tunnel_check_down decides before it looks at the files of the session; `none` where it goes
-- on to them.
unfoldable pub down_decision : RuntimeStatus → Option HelperExit
unfolding is_success is_settled_journal can_be_taken_down is_lost_resolver
down_decision runtime =
    if not (is_success runtime.status)
    then some runtime.status
    else if not runtime.has_marker || is_settled_journal runtime.marker
    then some (if runtime.has_interface then HelperExit.interface_conflict else HelperExit.success)
    else if not runtime.has_interface
        || not (can_be_taken_down runtime.marker)
        || is_lost_resolver runtime.marker
    then some HelperExit.runtime_failed
    else none

abbrev is_decided : Option HelperExit → Bool
is_decided none = false
is_decided (some _) = true

abbrev decided : Option HelperExit → HelperExit
decided none = HelperExit.success
decided (some result) = result

module _ {World : Type 0} (env : Environment World) where
  -- The runtime files of a session agree with its journal.
  unfoldable pub runtime_files_agree :
      Bytes → Bytes → RuntimeMarker → Action World (Option DnsConfig × Bool)
  unfolding ◌>>=◌ load_runtime_dns is_valid dns_agrees
  runtime_files_agree name config_name marker = do
    dns ← load_runtime_dns env name
    if not (is_loaded dns) then pure (dns, false) else (do
      config_state ← observe (env.secure_file_state StorageArea.runtime_configs config_name)
      pure (dns, is_valid config_state && dns_agrees marker dns))

  unfoldable pub tunnel_check_down : Bytes → ℤ → Action World HelperExit
  unfolding on_success phase_stop_status make_config_filename runtime_state down_decision
      runtime_files_agree phase_failure_or
  tunnel_check_down name deadline = on_success (phase_stop_status env deadline) (
      if not (name_is_valid (some name)) || not (is_made (make_config_filename name))
      then pure HelperExit.invalid_name
      else (do
        runtime ← runtime_state env name
        if is_decided (down_decision runtime) then pure (decided (down_decision runtime)) else (do
          (_, agree) ← runtime_files_agree name (text_in (make_config_filename name)) runtime.marker
          phase_failure_or env deadline
              (if agree then HelperExit.success else HelperExit.runtime_failed))))
