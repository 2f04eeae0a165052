-- ===== src/Helper/Remove.antt =====
-- amneziawg_helper_remove.c: a session is taken down, and its profile is deleted.
use network_manager_sidebar.Base.{not, ◌||◌, some, if◌then◌else◌, Bytes}
use network_manager_sidebar.Names.{name_is_valid}
use network_manager_sidebar.Names.Exit.{HelperExit}
use network_manager_sidebar.Deadline.{Deadlines}
use network_manager_sidebar.Helper.Environment.{Environment, StorageArea}
use network_manager_sidebar.Helper.State.{Action, Event, pure, observe, perform, ◌>>=◌}
use network_manager_sidebar.Helper.Session.{phase_stop_status, is_invalid}
use network_manager_sidebar.Helper.Tunnel.{
  make_config_filename, make_runtime_config_path, is_made, text_in, on_success,
}
use network_manager_sidebar.Helper.Tunnel.Down.{tunnel_down}
use network_manager_sidebar.Helper.Switch.{with_new_tunnel}

module _ {World : Type 0} (env : Environment World) (deadlines : Deadlines) where
  unfoldable pub delete_profile : Bytes → Bytes → Action World HelperExit
  delete_profile name config_name =
      perform (λ result. Event.deleted_profile name)
        (env.profiles_delete name config_name deadlines.forward_at)

  -- Behind the tests of the name.
  unfoldable pub remove_named : Bytes → Bytes → Bytes → Action World HelperExit
  unfolding on_success with_new_tunnel tunnel_down phase_stop_status delete_profile is_invalid
  remove_named name config_name snapshot_path = do
    config_state ← observe (env.secure_file_state StorageArea.config config_name)
    if is_invalid config_state
        then pure HelperExit.filesystem_failed
        else on_success
            (with_new_tunnel env (tunnel_down env name config_name snapshot_path deadlines))
            (on_success (phase_stop_status env deadlines.forward_at)
              (delete_profile name config_name))

  unfoldable pub helper_remove : Bytes → Action World HelperExit
  unfolding remove_named make_config_filename make_runtime_config_path
  helper_remove name = on_success (phase_stop_status env deadlines.forward_at) (
      if not (name_is_valid (some name))
        || not (is_made (make_config_filename name))
        || not (is_made (make_runtime_config_path name))
      then pure HelperExit.invalid_name
      else remove_named name (text_in (make_config_filename name))
          (text_in (make_runtime_config_path name)))
