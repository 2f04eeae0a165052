-- ===== src/Helper/Outcomes/Failures.antt =====
-- The rollbacks of the helper never report success.
use network_manager_sidebar.Base.{
  ◌≡◌, refl, Bool, true, false, Option, Bytes, ℤ, if◌then◌else◌, arith,
}
use network_manager_sidebar.Names.Exit.{HelperExit, is_success}
use network_manager_sidebar.Dns.{DnsConfig}
use network_manager_sidebar.Helper.Environment.{Environment}
use network_manager_sidebar.Helper.State.{Session, Action, pure, ◌>>=◌}
use network_manager_sidebar.Helper.Keeps.{
  Keeps-observe, Leaves-bind, Leaves-pure, Keeps-observe, Keeps-bind, starting, Leaves, Leaves-if,
}
use network_manager_sidebar.Helper.Tunnel.{DnsTransaction, Teardown}
use network_manager_sidebar.Helper.Tunnel.Interface.{
  rollback_failure, restore_active, abort_before_interface_teardown,
}
use network_manager_sidebar.Helper.Tunnel.Rollback.{
  cleanup_failure, rollback_torn_down, rollback_activation_impl, rollback_activation,
}
use network_manager_sidebar.Helper.Session.{phase_stop_status, phase_failure_or}
use network_manager_sidebar.Helper.Outcomes.{Ends-bind, Any, Ends-same, Ends, ends_rules}

rollback_failure-fails : (began_active : Bool) → is_success (rollback_failure began_active) ≡ false
unfolding rollback_failure is_success
rollback_failure-fails true = refl
rollback_failure-fails false = refl

pub or_else-fails :
    (b : Bool) (x y : HelperExit)
    → is_success x ≡ false
    → is_success y ≡ false
    → is_success (if b then x else y) ≡ false
or_else-fails true x y hx hy = hx
or_else-fails false x y hx hy = hy

-- The failure of the caller, unless there is a new one.
pub kept-fails :
    (result failure : HelperExit)
    → is_success failure ≡ false
    → is_success (if is_success result then failure else result) ≡ false
kept-fails result failure f = ground arith

cleanup_failure-fails :
    (teardown : Teardown) (dns_result : DnsTransaction)
    → is_success (cleanup_failure teardown dns_result) ≡ false
unfolding cleanup_failure is_success
cleanup_failure-fails teardown dns_result = ground arith

module _ {World : Type 0} (env : Environment World) where
  phase_failure_or-fails :
      (deadline : ℤ) (fallback : HelperExit)
      → is_success fallback ≡ false
      → Leaves Any (phase_failure_or env deadline fallback) (λ result _. is_success result ≡ false)
  unfolding phase_failure_or
  phase_failure_or-fails deadline fallback f =
      Leaves-bind {R = λ _. Any} (phase_stop_status env deadline) _ (record { at = λ s h. tt })
        (λ stop. Leaves-pure _ (λ s h. kept-fails stop fallback f))

module _ {World : Type 0} (env : Environment World) {test : Session → Bool} where
  -- A failure that is computed first, and what is done with it.
  pub failing-Ends :
      (stopped : Bool) (deadline : ℤ) (fallback other : HelperExit)
      (next : HelperExit → Action World HelperExit)
      → is_success fallback ≡ false
      → is_success other ≡ false
      → ((result : HelperExit) → is_success result ≡ false → Ends test (next result))
      → Ends test
          ((if stopped then phase_failure_or env deadline fallback else pure other) >>= next)
  failing-Ends stopped deadline fallback other next f g kn =
      Leaves-bind {R = λ result _. is_success result ≡ false} _ next
        (Leaves-if stopped _ _ (λ _. phase_failure_or-fails env deadline fallback f)
          (λ _. Leaves-pure other (λ s h. g)))
        (λ result. record { at = λ s h. (kn result h).at s tt })

  restore_active-Ends :
      (name : Bytes) (dns : Option DnsConfig) (failure : HelperExit) (deadline : ℤ)
      → is_success failure ≡ false
      → Ends test (restore_active env name dns failure deadline)
  unfolding restore_active is_success
  restore_active-Ends name dns failure deadline f = search (ends_rules, or_else-fails, f) depth 12

  pub abort_before_interface_teardown-Ends :
      (name : Bytes) (dns : Option DnsConfig) (began_active : Bool) (failure : HelperExit)
      (deadline : ℤ)
      → is_success failure ≡ false
      → Ends test (abort_before_interface_teardown env name dns began_active failure deadline)
  unfolding abort_before_interface_teardown is_success
  abort_before_interface_teardown-Ends name dns began_active failure deadline f =
      search (ends_rules, rollback_failure-fails, restore_active-Ends, f) depth 20

  module _ (name config_name snapshot_path : Bytes) where
    rollback_torn_down-Ends :
        (teardown : Teardown) (dns_result : DnsTransaction) (failure : HelperExit) (deadline : ℤ)
        → is_success failure ≡ false
        → Ends test (
            rollback_torn_down env name config_name snapshot_path teardown dns_result failure
              deadline)
    unfolding rollback_torn_down is_success
    rollback_torn_down-Ends teardown dns_result failure deadline f =
        search
          (ends_rules, kept-fails, cleanup_failure-fails, abort_before_interface_teardown-Ends, f)
          depth 12

    rollback_activation_impl-Ends :
        (failure : HelperExit) (deadline : ℤ)
        → is_success failure ≡ false
        → Ends test (rollback_activation_impl env name config_name snapshot_path failure deadline)
    unfolding rollback_activation_impl is_success
    rollback_activation_impl-Ends failure deadline f =
        search (ends_rules, rollback_torn_down-Ends, f) depth 24

    pub rollback_activation-Ends :
        (failure : HelperExit) (deadline : ℤ)
        → is_success failure ≡ false
        → Ends test (rollback_activation env name config_name snapshot_path failure deadline)
    unfolding rollback_activation
    rollback_activation-Ends failure deadline f =
        let rolled_back = starting (rollback_activation_impl-Ends failure deadline f) in
        search (rolled_back, Ends-same, Keeps-bind, Keeps-observe, Ends-bind) depth 8
