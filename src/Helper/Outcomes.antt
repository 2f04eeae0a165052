-- ===== src/Helper/Outcomes.antt =====
-- What the result of a function of the helper tells of the log it leaves.
pub mod Failures
pub mod Down
pub mod Commit
pub mod Activate
pub mod Remove
pub mod Switch
use network_manager_sidebar.Base.{◌≡◌, refl, Bool, true, false, not, ◌||◌, if◌then◌else◌, arith}
use network_manager_sidebar.Names.Exit.{HelperExit, is_success}
use network_manager_sidebar.Helper.State.{Session, State, Action, pure, ◌>>=◌}
use network_manager_sidebar.Helper.Keeps.{Leaves, Leaves-pure, Leaves-bind, Leaves-if}
use network_manager_sidebar.Helper.Tunnel.{on_success}

abbrev pub Any : Session → Type 0
Any s = Unit

-- A test that the session passes if the result is success.
pub record Confirms (test : Session → Bool) (result : HelperExit) (s : Session) : Type 0 where
  pub holds : not (is_success result) || test s ≡ true

-- A success leaves a session that passes the test.
abbrev pub Ends : {World : Type 0} → (Session → Bool) → Action World HelperExit → Type 0
Ends test m = Leaves Any m (Confirms test)

module _ {World : Type 0} {test : Session → Bool} where
  pub Ends-failure :
      {P : Session → Type 0} (result : HelperExit)
      → is_success result ≡ false
      → Leaves {World = World} P (pure result) (Confirms test)
  Ends-failure result f = Leaves-pure result (λ s h. record { holds = ground arith })

  pub Ends-unsuccessful :
      {P : Session → Type 0} (result : HelperExit)
      → not (is_success result) ≡ true
      → Leaves {World = World} P (pure result) (Confirms test)
  Ends-unsuccessful result f = Leaves-pure result (λ s h. record { holds = ground arith })

  -- The result of an action before, handed on.
  pub Ends-same :
      (result : HelperExit)
      → Leaves {World = World} (Confirms test result) (pure result) (Confirms test)
  Ends-same result = Leaves-pure result (λ s h. h)

  pub Ends-on_success :
      (m rest : Action World HelperExit) → Ends test rest → Ends test (on_success m rest)
  unfolding on_success
  Ends-on_success m rest kr =
      Leaves-bind {R = λ _. Any} m _ (record { at = λ s h. tt })
        (λ result.
          Leaves-if (is_success result) rest (pure result) (λ _. kr) (λ f. Ends-failure result f))

module _ {World A B : Type 0} {Q : B → Session → Type 0} where
  pub Any-bind :
      (m : Action World A) (f : A → Action World B)
      → ((a : A) → Leaves Any (f a) Q)
      → Leaves Any (m >>= f) Q
  Any-bind m f kf = Leaves-bind {R = λ _. Any} m f (record { at = λ s h. tt }) kf

module _ {World A : Type 0} {test : Session → Bool} where
  pub Ends-bind :
      (m : Action World A) (f : A → Action World HelperExit)
      → ((a : A) → Ends test (f a))
      → Ends test (m >>= f)
  Ends-bind m f kf = Any-bind m f kf

pub ruleset ends_rules = (Ends-failure, Ends-unsuccessful, Ends-on_success, Ends-bind, Leaves-if)
