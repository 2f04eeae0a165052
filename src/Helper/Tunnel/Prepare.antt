-- ===== src/Helper/Tunnel/Prepare.antt =====
-- awg_helper_tunnel_prepare_up of amneziawg_helper_tunnel.c, with the operations on a prepared
-- profile of amneziawg_helper_profiles.c that it calls.
use network_manager_sidebar.Base.{
  ℕ, Bool, true, false, not, ◌||◌, Option, none, some, if◌then◌else◌, Bytes, ℤ,
}
use network_manager_sidebar.Names.{name_is_valid}
use network_manager_sidebar.Names.Exit.{HelperExit, is_success}
use network_manager_sidebar.Journal.{RuntimeMarker, DnsBackend}
use network_manager_sidebar.Dns.Payload.{serialize}
use network_manager_sidebar.Config.Errors.{ok, err, Result}
use network_manager_sidebar.Config.Envelope.{quick_add_link_claim}
use network_manager_sidebar.Helper.Environment.{
  Environment, StorageArea, DnsChangeResult, PreparedProfile,
}
use network_manager_sidebar.Helper.State.{Action, no_marker, pure, observe, ◌>>=◌}
use network_manager_sidebar.Helper.Session.{
  RuntimeStatus, runtime_state, phase_stop_status, phase_failure_or, is_valid, is_missing,
}
use network_manager_sidebar.Helper.Tunnel.{
  make_config_filename, make_runtime_config_path, is_made, text_in,
}
use network_manager_sidebar.Helper.Tunnel.Dns.{is_change_ok}
use network_manager_sidebar.Helper.Tunnel.Token.{token_of}

pub record Activation : Type 0 where
  pub name : Bytes
  pub config_name : Bytes
  pub snapshot_path : Bytes
  pub profile : PreparedProfile
  pub journal : RuntimeMarker
  pub consumed : Bool

unfoldable pub is_unavailable : DnsChangeResult → Bool
is_unavailable DnsChangeResult.unavailable = true
is_unavailable _ = false

-- The result, and `*activation_out`.
abbrev pub Prepared : Type 0
Prepared = HelperExit × Option Activation

abbrev pub ok_or_none : Result Bytes → Option Bytes
ok_or_none (err code line) = none
ok_or_none (ok text) = some text

-- A session that is there already is active, and a link without a journal is in conflict.
unfoldable pub occupied : RuntimeStatus → HelperExit
occupied runtime = if runtime.has_marker then HelperExit.active else HelperExit.interface_conflict

module _ {World : Type 0} (env : Environment World) where
  -- prepared_profile_add_link_claim and prepared_profile_serialize_dns, one behind the other.
  unfoldable pub claimed : PreparedProfile → Bytes → Option PreparedProfile
  claimed profile token =
      let snapshot : Option Bytes =
        ok_or_none
          (quick_add_link_claim env.is_space env.inet_pton profile.runtime_snapshot (some token)) in
      let payload = serialize profile.dns in
      if not (is_made snapshot) || not (is_made payload)
      then none
      else some
          (record profile { runtime_snapshot = text_in snapshot; dns_payload = text_in payload })

  unfoldable pub failed_prepare : HelperExit → Action World Prepared
  failed_prepare result = pure (result, none)

  -- The resolver and the firewall are chosen last.
  unfoldable pub select_backends :
      (DnsBackend → ℕ → Activation) → PreparedProfile → ℤ → Action World Prepared
  unfolding ◌>>=◌ failed_prepare is_change_ok is_unavailable phase_failure_or phase_stop_status
      is_success
  select_backends activation profile deadline = do
    (backend_result, backend) ← observe (env.select_backend profile.dns deadline)
    if not (is_change_ok backend_result)
        then (do
          result ← phase_failure_or env deadline (
              if is_unavailable backend_result
              then HelperExit.dns_backend_unavailable
              else HelperExit.dns_apply_failed)
          failed_prepare result)
        else (do
          (captured, scope) ← observe (env.capture_scope deadline)
          if not captured
              then (do
                result ← phase_failure_or env deadline HelperExit.firewall_failed
                failed_prepare result)
              else (do
                result ← phase_stop_status env deadline
                if is_success result
                    then pure (result, some (activation backend scope))
                    else failed_prepare result))

  module _ (name config_name snapshot_path : Bytes) where
    -- The activation of a claimed profile.
    unfoldable pub activation_of : PreparedProfile → Bytes → DnsBackend → ℕ → Activation
    activation_of profile token backend scope = record {
      name = name;
      config_name = config_name;
      snapshot_path = snapshot_path;
      profile = profile;
      journal = record no_marker {
        link_token = token;
        dns_backend = backend;
        firewall_scope = scope;
      };
      consumed = false;
    }

    abbrev pub profile_or : PreparedProfile → Option PreparedProfile → PreparedProfile
    profile_or profile none = profile
    profile_or profile (some claimed_profile) = claimed_profile

    abbrev pub is_claimed : Option PreparedProfile → Bool
    is_claimed none = false
    is_claimed (some _) = true

    unfoldable pub prepare_profile : Bytes → ℤ → Action World Prepared
    unfolding select_backends claimed activation_of
    prepare_profile token deadline = do
      (result, profile) ← observe (env.prepare_runtime config_name deadline)
      if not (is_success result)
          then failed_prepare result
          else if not (is_claimed (claimed profile token))
          then failed_prepare HelperExit.runtime_failed
          else (let ready = profile_or profile (claimed profile token) in
              select_backends (activation_of ready token) ready deadline)

    -- Behind the tests of the name: the saved profile, the session, and the token.
    unfoldable pub prepare_named : ℤ → Action World Prepared
    unfolding prepare_profile runtime_state is_valid is_missing occupied token_of
    prepare_named deadline = do
      config_state ← observe (env.secure_file_state StorageArea.config config_name)
      if not (is_valid config_state)
          then failed_prepare (
              if is_missing config_state
              then HelperExit.not_found
              else HelperExit.filesystem_failed)
          else (do
            runtime ← runtime_state env name
            if not (is_success runtime.status)
                then failed_prepare runtime.status
                else if runtime.has_marker || runtime.has_interface
                then failed_prepare (occupied runtime)
                else (do
                  random ← observe env.random_bytes
                  if not (is_made random)
                      then failed_prepare HelperExit.runtime_failed
                      else prepare_profile (token_of (text_in random)) deadline))

  unfoldable pub tunnel_prepare_up : Bytes → ℤ → Action World Prepared
  unfolding prepare_named make_config_filename make_runtime_config_path name_is_valid
  tunnel_prepare_up name deadline =
      if not (name_is_valid (some name)) then failed_prepare HelperExit.invalid_name else (do
        result ← phase_stop_status env deadline
        if not (is_success result)
            then failed_prepare result
            else if not (is_made (make_config_filename name))
                || not (is_made (make_runtime_config_path name))
            then failed_prepare HelperExit.invalid_name
            else prepare_named name (text_in (make_config_filename name))
                (text_in (make_runtime_config_path name)) deadline)
