-- ===== src/Helper/State.antt =====
-- The state of a run of the helper and the actions on it. A C function that the helper runs is an
-- action: it takes the state and leaves its result with a new one.
use network_manager_sidebar.Base.{Bool, false, List, [], ◌∷◌, Bytes}
use network_manager_sidebar.Journal.{RuntimeMarker, JournalState, DnsBackend, JournalDnsState}
use network_manager_sidebar.Helper.Environment.{StorageArea, DnsChangeOutcome, QuickResult}

-- What was done to the machine, with the answer.
pub data Event : Type 0 where
  wrote_marker : Bytes → RuntimeMarker → Bool → Event
  wrote_file : StorageArea → Bytes → Bool → Event
  removed : StorageArea → Bytes → Bool → Event
  dns_changed : DnsChangeOutcome → Event
  ran_up : QuickResult → Event
  ran_down : QuickResult → Event
  deleted_profile : Bytes → Event

-- `journal` is the marker that the running function has in a local variable and passes on by its
-- address; `log` keeps what was done, the newest first.
pub record Session : Type 0 where
  pub dns_recovery_blocked : Bool
  pub journal : RuntimeMarker
  pub log : List Event

pub record State (World : Type 0) : Type 0 where
  pub world : World
  pub session : Session

-- `{0}`.
abbrev pub no_marker : RuntimeMarker
no_marker = record {
  link_token = [];
  ifindex = 0;
  dns_backend = DnsBackend.none;
  state = JournalState.activating;
  dns_state = JournalDnsState.absent;
  was_active = false;
  firewall_scope = 0;
}

abbrev pub Action : Type 0 → Type 0 → Type 0
Action World A = State World → A × State World

module _ {World A : Type 0} where
  unfoldable pub pure : A → Action World A
  pure a s = (a, s)

  unfoldable pub gets : (Session → A) → Action World A
  gets f s = (f s.session, s)

  -- An operation of the environment that changes nothing the helper answers for.
  unfoldable pub observe : (World → A × World) → Action World A
  observe f s = let (a, world') = f s.world in (a, record s { world = world' })

  -- An operation of the environment that does, with its entry in the log.
  unfoldable pub perform : (A → Event) → (World → A × World) → Action World A
  perform event f s =
      let (a, world') = f s.world in
      (a, record { world = world'; session = record s.session { log = event a ∷ s.session.log } })

module _ {World : Type 0} where
  unfoldable pub modify : (Session → Session) → Action World (Unit {0})
  modify f s = (tt, record s { session = f s.session })

module _ {World A B : Type 0} where
  infixl 5 ◌>>=◌ ◌>>◌
  unfoldable pub ◌>>=◌ : Action World A → (A → Action World B) → Action World B
  unfolding pure gets observe perform modify
  ◌>>=◌ m f s = let (a, s') = m s in f a s'

  abbrev pub ◌>>◌ : Action World A → Action World B → Action World B
  m >> n = m >>= λ _. n
