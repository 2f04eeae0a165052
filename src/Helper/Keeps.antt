-- ===== src/Helper/Keeps.antt =====
-- What an action of the helper keeps of the session, one rule for each way to build an action.
use network_manager_sidebar.Base.{◌≡◌, refl, Bool, true, false, ◌∷◌, if◌then◌else◌}
use network_manager_sidebar.Names.Exit.{HelperExit, is_success}
use network_manager_sidebar.Helper.State.{
  Session, State, Action, Event, pure, gets, observe, perform, modify, ◌>>=◌,
}
use network_manager_sidebar.Helper.Tunnel.{on_success}

-- From a session in which `P` holds, `m` leaves a result and a session in which `Q` holds.
pub record Leaves {World A : Type 0} (P : Session → Type 0) (m : Action World A)
    (Q : A → Session → Type 0) : Type 0 where
  pub at : (s : State World) → P s.session → Q (m s).0 (m s).1.session

abbrev pub Keeps : {World A : Type 0} → (Session → Type 0) → Action World A → Type 0
Keeps P m = Leaves P m (λ _. P)

module _ {World A : Type 0} {P : Session → Type 0} {Q : A → Session → Type 0} where
  pub Leaves-pure : (a : A) → ((s : Session) → P s → Q a s) → Leaves {World = World} P (pure a) Q
  unfolding pure
  Leaves-pure a k = record { at = λ s h. k s.session h }

  pub Leaves-gets :
      (f : Session → A) → ((s : Session) → P s → Q (f s) s) → Leaves {World = World} P (gets f) Q
  unfolding gets
  Leaves-gets f k = record { at = λ s h. k s.session h }

  pub Leaves-observe :
      (f : World → A × World)
      → ((a : A) (s : Session) → P s → Q a s)
      → Leaves {World = World} P (observe f) Q
  unfolding observe
  Leaves-observe f k = record { at = λ s h. k (f s.world).0 s.session h }

  pub Leaves-perform :
      (event : A → Event) (f : World → A × World)
      → ((a : A) (s : Session) → P s → Q a (record s { log = event a ∷ s.log }))
      → Leaves {World = World} P (perform event f) Q
  unfolding perform
  Leaves-perform event f k = record { at = λ s h. k (f s.world).0 s.session h }

  pub Leaves-if :
      (b : Bool) (m n : Action World A)
      → (b ≡ true → Leaves P m Q)
      → (b ≡ false → Leaves P n Q)
      → Leaves P (if b then m else n) Q
  Leaves-if true m n km kn = km refl
  Leaves-if false m n km kn = kn refl

module _ {World A : Type 0} {P P' : Session → Type 0} {Q : A → Session → Type 0}
    {m : Action World A} where
  pub Leaves-weaken : ((s : Session) → P s → P' s) → Leaves P' m Q → Leaves P m Q
  Leaves-weaken k km = record { at = λ s h. km.at s (k s.session h) }

module _ {World : Type 0} {P : Session → Type 0} where
  pub Leaves-modify :
      {Q : Unit {0} → Session → Type 0} (f : Session → Session)
      → ((s : Session) → P s → Q tt (f s))
      → Leaves {World = World} P (modify f) Q
  unfolding modify
  Leaves-modify f k = record { at = λ s h. k s.session h }

module _ {World A B : Type 0} {P : Session → Type 0} where
  pub Leaves-bind :
      {R : A → Session → Type 0} {Q : B → Session → Type 0} (m : Action World A)
      (f : A → Action World B)
      → Leaves P m R
      → ((a : A) → Leaves (R a) (f a) Q)
      → Leaves P (m >>= f) Q
  unfolding ◌>>=◌
  Leaves-bind m f km kf = record { at = λ s h. (kf (m s).0).at (m s).1 (km.at s h) }

  -- Where the first action keeps what holds.
  pub Keeps-bind :
      {Q : B → Session → Type 0} (m : Action World A) (f : A → Action World B)
      → Keeps P m
      → ((a : A) → Leaves P (f a) Q)
      → Leaves P (m >>= f) Q
  Keeps-bind m f km kf = Leaves-bind m f km kf

module _ {World A : Type 0} {P : Session → Type 0} {R : A → Session → Type 0}
    {m : Action World A} where
  -- The first action's proof, as a rule for the actions that begin with it.
  pub starting :
      Leaves P m R
      → (B : Type 0) (Q : B → Session → Type 0) (f : A → Action World B)
      → ((a : A) → Leaves (R a) (f a) Q)
      → Leaves P (m >>= f) Q
  starting km B Q f kf = Leaves-bind m f km kf

module _ {World : Type 0} {P : Session → Type 0} where
  pub Leaves-on_success :
      {Q : HelperExit → Session → Type 0} (m rest : Action World HelperExit)
      → Keeps P m
      → Leaves P rest Q
      → ((result : HelperExit)
          → is_success result ≡ false
          → Leaves {World = World} P (pure result) Q)
      → Leaves P (on_success m rest) Q
  unfolding on_success
  Leaves-on_success m rest km kr kf =
      Keeps-bind m (λ result. if is_success result then rest else pure result) km
        (λ result. Leaves-if (is_success result) rest (pure result) (λ _. kr) (kf result))

  -- Where the rest begins in what a success of the first action leaves.
  pub on_success-starting :
      {R Q : HelperExit → Session → Type 0} (m rest : Action World HelperExit)
      → Leaves P m R
      → ((result : HelperExit) → is_success result ≡ true → Leaves (R result) rest Q)
      → ((result : HelperExit)
          → is_success result ≡ false
          → Leaves {World = World} (R result) (pure result) Q)
      → Leaves P (on_success m rest) Q
  unfolding on_success
  on_success-starting m rest km kr kf =
      Leaves-bind m (λ result. if is_success result then rest else pure result) km
        (λ result. Leaves-if (is_success result) rest (pure result) (kr result) (kf result))

  pub Keeps-on_success :
      (m rest : Action World HelperExit) → Keeps P m → Keeps P rest → Keeps P (on_success m rest)
  Keeps-on_success m rest km kr =
      Leaves-on_success m rest km kr (λ result _. Leaves-pure result (λ s h. h))

module _ {World A : Type 0} {P : Session → Type 0} where
  pub Keeps-pure : (a : A) → Keeps {World = World} P (pure a)
  Keeps-pure a = Leaves-pure a (λ s h. h)

  pub Keeps-gets : (f : Session → A) → Keeps {World = World} P (gets f)
  Keeps-gets f = Leaves-gets f (λ s h. h)

  pub Keeps-observe : (f : World → A × World) → Keeps {World = World} P (observe f)
  Keeps-observe f = Leaves-observe f (λ a s h. h)

  pub Keeps-if :
      (b : Bool) (m n : Action World A)
      → (b ≡ true → Keeps P m)
      → (b ≡ false → Keeps P n)
      → Keeps P (if b then m else n)
  Keeps-if = Leaves-if

pub ruleset keeps_rules =
    (Keeps-pure, Keeps-gets, Keeps-observe, Keeps-if, Keeps-bind, Keeps-on_success)
