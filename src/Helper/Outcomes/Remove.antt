-- ===== src/Helper/Outcomes/Remove.antt =====
-- What it means that a profile was removed.
use network_manager_sidebar.Base.{
  not, ◌||◌, some, if◌then◌else◌, ◌≡◌, refl, ap, ◌∙◌, if_ind, Bool, true, false, List, ◌∷◌, Bytes,
}
use network_manager_sidebar.Names.{name_is_valid}
use network_manager_sidebar.Names.Exit.{HelperExit, is_success}
use network_manager_sidebar.Deadline.{Deadlines}
use network_manager_sidebar.Helper.Environment.{Environment, StorageArea}
use network_manager_sidebar.Helper.State.{State, Action, Event, pure, observe}
use network_manager_sidebar.Helper.Reads.{phase_stop_status-Keeps}
use network_manager_sidebar.Helper.Session.{phase_stop_status, is_invalid}
use network_manager_sidebar.Helper.Tunnel.{
  is_made, on_success, text_in, make_config_filename, make_runtime_config_path,
}
use network_manager_sidebar.Helper.Tunnel.Down.{tunnel_down}
use network_manager_sidebar.Helper.Switch.{set_blocked, with_new_tunnel}
use network_manager_sidebar.Helper.Remove.{delete_profile, remove_named, helper_remove}

-- How a removal left its log: as it was, as a run of `down` from the state `begun` left it, or so with
-- the call that deletes the profile right behind a success of that run.
pub data Removal {World : Type 0} (name : Bytes) (down : Action World HelperExit)
    (begun : State World) (result : HelperExit) (left : List Event) : Type 0 where
  refused :
      is_success result ≡ false → left ≡ begun.session.log → Removal name down begun result left
  stopped :
      is_success result ≡ false
      → left ≡ (down begun).1.session.log
      → Removal name down begun result left
  deleted :
      is_success (down begun).0 ≡ true
      → left ≡ Event.deleted_profile name ∷ (down begun).1.session.log
      → Removal name down begun result left

-- The state of a new tunnel.
abbrev pub with_fresh_tunnel : {World : Type 0} → State World → State World
with_fresh_tunnel s = record s { session = record s.session { dns_recovery_blocked = false } }

module _ {World : Type 0} (env : Environment World) (deadlines : Deadlines) (name : Bytes)
    (down : Action World HelperExit) where
  same_log :
      (s : State World)
      → (phase_stop_status env deadlines.forward_at s).1.session.log ≡ s.session.log
  same_log s =
      (phase_stop_status-Keeps env {P = λ t. t.log ≡ s.session.log} deadlines.forward_at).at s refl

  abbrev Removed : State World → HelperExit × State World → Type 0
  Removed begun (result, s) = Removal name down begun result s.session.log

  -- Behind a run that succeeded.
  deleting-Removed :
      (config_name : Bytes) (begun t : State World)
      → is_success (down begun).0 ≡ true
      → t.session.log ≡ (down begun).1.session.log
      → Removed begun (
          on_success
            (phase_stop_status env deadlines.forward_at)
            (delete_profile env deadlines name config_name)
            t)
  unfolding on_success delete_profile
  deleting-Removed config_name begun t e h =
      let stop = phase_stop_status env deadlines.forward_at t in
      if_ind (λ (m : Action World HelperExit). Removed begun (m stop.1)) (is_success stop.0)
        (λ _.
          Removal.deleted e
            (ap (λ (l : List Event). Event.deleted_profile name ∷ l) (same_log t ∙ h)))
        (λ f. Removal.stopped f (same_log t ∙ h))

  down_and_delete-Removed :
      (config_name : Bytes) (t : State World)
      → Removed (with_fresh_tunnel t) (
          on_success
            (with_new_tunnel env down)
            (on_success
              (phase_stop_status env deadlines.forward_at)
              (delete_profile env deadlines name config_name))
            t)
  unfolding on_success with_new_tunnel set_blocked
  down_and_delete-Removed config_name t =
      let begun = with_fresh_tunnel t in
      let after = (with_new_tunnel env down t).1 in
      if_ind (λ (m : Action World HelperExit). Removed begun (m after)) (is_success (down begun).0)
        (λ e. deleting-Removed config_name begun after e refl) (λ f. Removal.stopped f refl)

module _ {World : Type 0} (env : Environment World) (deadlines : Deadlines) (name : Bytes) where
  abbrev config_name : Bytes
  config_name = text_in (make_config_filename name)

  -- awg_helper_tunnel_down, as the removal calls it.
  abbrev pub down_for_removal : Action World HelperExit
  down_for_removal =
      tunnel_down env name config_name (text_in (make_runtime_config_path name)) deadlines

  -- The state behind the tests of the removal, with a new tunnel.
  abbrev pub before_down : State World → State World
  before_down s = with_fresh_tunnel (
      (observe (env.secure_file_state StorageArea.config config_name)
        (phase_stop_status env deadlines.forward_at s).1).1)

  named_case :
      (t : State World)
      → Removed env deadlines name down_for_removal
          (with_fresh_tunnel ((observe (env.secure_file_state StorageArea.config config_name) t).1))
          (remove_named env deadlines name config_name (text_in (make_runtime_config_path name)) t)
  unfolding remove_named observe is_success pure
  named_case t =
      let seen = (observe (env.secure_file_state StorageArea.config config_name) t) in
      if_ind
        (λ (m : Action World HelperExit).
          Removed env deadlines name down_for_removal (with_fresh_tunnel seen.1) (m seen.1))
        (is_invalid seen.0) (λ _. Removal.refused refl refl)
        (λ _. down_and_delete-Removed env deadlines name down_for_removal config_name seen.1)

  abbrev is_refused : Bool
  is_refused =
      not (name_is_valid (some name))
      || not (is_made (make_config_filename name))
      || not (is_made (make_runtime_config_path name))

  admitted_case :
      (t : State World)
      → Removed env deadlines name down_for_removal
          (with_fresh_tunnel ((observe (env.secure_file_state StorageArea.config config_name) t).1))
          ((if is_refused
              then pure HelperExit.invalid_name
              else remove_named env deadlines name config_name
                  (text_in (make_runtime_config_path name)))
            t)
  unfolding observe is_success pure
  admitted_case t =
      if_ind
        (λ (m : Action World HelperExit).
          Removed env deadlines name down_for_removal
            (with_fresh_tunnel
              ((observe (env.secure_file_state StorageArea.config config_name) t).1))
            (m t))
        is_refused {x = pure HelperExit.invalid_name}
        {y = remove_named env deadlines name config_name (text_in (make_runtime_config_path name))}
        (λ _. Removal.refused refl refl) (λ _. named_case t)

  -- Whatever a removal reports, it left its log in one of three ways. It failed and left the log as
  -- it was; or it failed and left what the run of tunnel_down for this profile leaves, from the state
  -- behind the tests of the removal, with a new tunnel and the log as it was; or that run succeeded,
  -- and the call that deletes the profile stands right behind what it left. So no profile is deleted
  -- without a success of tunnel_down, and no removal succeeds without the call that deletes.
  pub helper_remove-Removal :
      (s : State World)
      → Removal name down_for_removal
          (before_down s)
          (helper_remove env deadlines name s).0
          (helper_remove env deadlines name s).1.session.log
        × ((before_down s).session.log ≡ s.session.log)
  unfolding helper_remove on_success observe pure
  helper_remove-Removal s =
      let stop = phase_stop_status env deadlines.forward_at s in
      (
        if_ind
            (λ (m : Action World HelperExit).
              Removed env deadlines name down_for_removal (before_down s) (m stop.1))
            (is_success stop.0) (λ _. admitted_case stop.1) (λ f. Removal.refused f refl),
        same_log env deadlines name down_for_removal s,
      )
