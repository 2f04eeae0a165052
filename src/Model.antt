-- ===== src/Model.antt =====
-- amneziawg/model.c: the saved profiles that the user interface knows, their warning, and the
-- sessions that a switch takes down. g_ptr_array_sort is a parameter; a NULL model is left out.
pub mod Distinct
pub mod Reachable
pub mod Lookup
use network_manager_sidebar.Base.{
  ℕ, ◌+◌, Bool, true, false, not, ◌&&◌, ◌||◌, Option, none, some, List, [], ◌∷◌, ◌++◌, ltb, ◌==◌,
  if◌then◌else◌, length, any, Bytes, equal,
}
use network_manager_sidebar.Names.{name_is_valid, profile_status_is_valid}
use network_manager_sidebar.Journal.{RuntimeState, runtime_state_is_recoverable}
use network_manager_sidebar.Report.{max_records}

pub data WarningKind : Type 0 where
  no_warning partial timed_out invalid_reply helper_status_warning : WarningKind
  service_unavailable service_busy service_failed : WarningKind

pub record ProfileWarning : Type 0 where
  pub kind : WarningKind
  pub helper_status : ℕ
  pub stale : Bool

-- The status is a guint that was cast.
pub record SavedProfile : Type 0 where
  pub name : Bytes
  pub status : ℕ

-- NetworkSidebarAwgProfileRecord; the name may be NULL.
pub record ProfileRecord : Type 0 where
  pub name : Option Bytes
  pub status : ℕ

pub record StoredEntry : Type 0 where
  pub name : Bytes
  pub has_profile : Bool
  pub profile_status : ℕ
  pub runtime_state : RuntimeState
  pub display_runtime_state : RuntimeState
  pub interface_exists : Bool

pub record Model : Type 0 where
  pub profiles : List SavedProfile
  pub entries : List StoredEntry
  pub switch_disconnect_names : List Bytes
  pub profiles_warning : ProfileWarning
  pub inventory_valid : Bool

-- `{0}`.
abbrev pub zero_warning : ProfileWarning
zero_warning = record { kind = WarningKind.no_warning; helper_status = 0; stale = false }

unfoldable pub model_new : Model
model_new = record {
  profiles = [];
  entries = [];
  switch_disconnect_names = [];
  profiles_warning = zero_warning;
  inventory_valid = false;
}

abbrev pub has_name : Bytes → SavedProfile → Bool
has_name name profile = equal profile.name name

unfoldable pub find_profile : List SavedProfile → Bytes → Option SavedProfile
find_profile [] name = none
find_profile (profile ∷ rest) name =
    if has_name name profile then some profile else find_profile rest name

abbrev pub name_in : Option Bytes → Bytes
name_in none = []
name_in (some name) = name

-- The loop of replace_profiles; `names` is the hash table.
unfoldable pub replacement_of :
    List Bytes → List (Option ProfileRecord) → Option (List SavedProfile)
replacement_of names [] = some []
replacement_of names (none ∷ rest) = none
replacement_of names (some entry ∷ rest) =
    let others = replacement_of (name_in entry.name ∷ names) rest in
    if not (name_is_valid entry.name)
      || not (profile_status_is_valid entry.status)
      || any (equal (name_in entry.name)) names
    then none
    else elim others [
      | none ↦ none
      | some profiles ↦
          some (record { name = name_in entry.name; status = entry.status } ∷ profiles)
    ]

-- `profile->status = status` on the first profile of a name.
unfoldable pub with_status : Bytes → ℕ → List SavedProfile → List SavedProfile
with_status name status [] = []
with_status name status (profile ∷ rest) =
    if has_name name profile
    then record profile { status = status } ∷ rest
    else profile ∷ with_status name status rest

unfoldable pub without_first : Bytes → List SavedProfile → List SavedProfile
without_first name [] = []
without_first name (profile ∷ rest) =
    if has_name name profile then rest else profile ∷ without_first name rest

unfoldable pub record_delete : Model → Bytes → Model
unfolding without_first
record_delete model name =
    if not (name_is_valid (some name))
    then model
    else record model { profiles = without_first name model.profiles }

unfoldable pub reset_profiles : Model → Model
reset_profiles model = record model {
  profiles = [];
  profiles_warning = zero_warning;
  inventory_valid = false;
}

abbrev is_no_warning : WarningKind → Bool
is_no_warning WarningKind.no_warning = true
is_no_warning _ = false

abbrev is_empty {ℓ} : {A : Type ℓ} → List A → Bool
is_empty [] = true
is_empty (_ ∷ _) = false

unfoldable pub has_profile_data : Model → Bool
has_profile_data model =
    not (is_empty model.profiles)
    || not (is_no_warning model.profiles_warning.kind)
    || model.inventory_valid

-- The enumerators as numbers.
abbrev warning_code : WarningKind → ℕ
warning_code WarningKind.no_warning = 0
warning_code WarningKind.partial = 1
warning_code WarningKind.timed_out = 2
warning_code WarningKind.invalid_reply = 3
warning_code WarningKind.helper_status_warning = 4
warning_code WarningKind.service_unavailable = 5
warning_code WarningKind.service_busy = 6
warning_code WarningKind.service_failed = 7

abbrev warning_of : WarningKind → ℕ → Bool → ProfileWarning
warning_of kind helper_status stale = record {
  kind = kind;
  helper_status = if warning_code kind == 4 then helper_status else 0;
  stale = stale;
}

abbrev same_warning : ProfileWarning → ProfileWarning → Bool
same_warning left right =
    warning_code left.kind == warning_code right.kind
    && left.helper_status == right.helper_status
    && not left.stale

unfoldable pub set_inventory_valid : Model → Bool → Model
set_inventory_valid model valid = record model { inventory_valid = valid }

unfoldable pub set_profiles_warning : Model → WarningKind → ℕ → Model
set_profiles_warning model kind helper_status =
    let warning = warning_of kind helper_status false in
    if same_warning model.profiles_warning warning
    then model
    else record model { profiles_warning = warning }

unfoldable pub set_stale_profiles_warning : Model → WarningKind → ℕ → Model
set_stale_profiles_warning model kind helper_status = record model {
  profiles_warning = warning_of kind helper_status model.inventory_valid;
}

unfoldable pub dup_profile_names : List SavedProfile → List Bytes
dup_profile_names [] = []
dup_profile_names (profile ∷ rest) = profile.name ∷ dup_profile_names rest

abbrev pub status_in : Option SavedProfile → Option ℕ
status_in none = none
status_in (some profile) = some profile.status

-- FALSE is `none`.
unfoldable pub get_profile_status : Model → Bytes → Option ℕ
unfolding find_profile
get_profile_status model name = status_in (find_profile model.profiles name)

abbrev is_active_state : RuntimeState → Bool
is_active_state RuntimeState.active = true
is_active_state _ = false

-- The names that begin_switch captures; the hash table keeps each once.
unfoldable pub switch_names : List StoredEntry → List Bytes
unfolding runtime_state_is_recoverable
switch_names [] = []
switch_names (entry ∷ rest) =
    let names = switch_names rest in
    if (is_active_state entry.display_runtime_state
        || runtime_state_is_recoverable entry.display_runtime_state)
      && not (any (equal entry.name) names)
    then entry.name ∷ names
    else names

unfoldable pub begin_switch : Model → Model
unfolding switch_names
begin_switch model = record model { switch_disconnect_names = switch_names model.entries }

module _ (sort_profiles : List SavedProfile → List SavedProfile) where
  -- The end of replace_profiles.
  abbrev pub installed : Model → Option (List SavedProfile) → Model × Bool
  installed model none = (model, false)
  installed model (some replacement) = (record model { profiles = sort_profiles replacement }, true)

  -- The new model, and the answer; NULL is `none`.
  unfoldable pub replace_profiles : Model → Option (List (Option ProfileRecord)) → Model × Bool
  unfolding replacement_of
  replace_profiles model none = (model, false)
  replace_profiles model (some records) =
      if ltb max_records (length records)
      then (model, false)
      else installed model (replacement_of [] records)

  unfoldable pub record_import : Model → Bytes → Model
  unfolding with_status
  record_import model name = if not (name_is_valid (some name)) then model else record model {
    profiles = with_status name 0 (
        if any (has_name name) model.profiles
        then model.profiles
        else sort_profiles (model.profiles ++ record { name = name; status = 0 } ∷ []));
  }
