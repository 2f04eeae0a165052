-- ===== src/Model/Lookup.antt =====
-- What get_profile_status answers after an import and after a deletion.
use network_manager_sidebar.Base.{
  ℕ, ◌≤◌, ◌≡◌, refl, Bool, true, none, some, List, [], ◌∷◌, ◌++◌, if◌then◌else◌, any, Bytes,
  equal_refl, arith, if_ind,
}
use network_manager_sidebar.Names.{name_is_valid}
use network_manager_sidebar.Model.{
  SavedProfile, Model, has_name, find_profile, status_in, get_profile_status, with_status,
  without_first, record_delete, record_import,
}
use network_manager_sidebar.Model.Distinct.{count, IsDistinct, count-append}
use network_manager_sidebar.Model.Reachable.{Reachable, Reachable-IsDistinct}

find_profile-none :
    (name : Bytes) (profiles : List SavedProfile)
    → count (has_name name) profiles ≡ 0
    → find_profile profiles name ≡ none
unfolding count find_profile
find_profile-none name [] h = refl
find_profile-none name (profile ∷ rest) h = ground (arith, find_profile-none name rest)

count-without_first_same :
    (name : Bytes) (profiles : List SavedProfile)
    → count (has_name name) profiles ≤ 1
    → count (has_name name) (without_first name profiles) ≡ 0
unfolding count without_first
count-without_first_same name [] h = refl
count-without_first_same name (profile ∷ rest) h =
    ground (arith, count-without_first_same name rest)

find_profile-with_status :
    (name : Bytes) (status : ℕ) (profiles : List SavedProfile)
    → 1 ≤ count (has_name name) profiles
    → status_in (find_profile (with_status name status profiles) name) ≡ some status
unfolding count find_profile with_status
find_profile-with_status name status [] h = ground (arith, h)
find_profile-with_status name status (profile ∷ rest) h =
    ground (arith, find_profile-with_status name status rest)

any-count :
    (test : SavedProfile → Bool) (profiles : List SavedProfile)
    → any test profiles ≡ true
    → 1 ≤ count test profiles
unfolding count
any-count test [] h = cc
any-count test (profile ∷ rest) h = ground (arith, any-count test rest)

new_profile-count :
    (name : Bytes) (profiles : List SavedProfile)
    → 1 ≤ count (has_name name) (profiles ++ record { name = name; status = 0 } ∷ [])
unfolding count
new_profile-count name profiles = ground (
  arith,
  equal_refl name,
  count-append (has_name name) profiles (record { name = name; status = 0 } ∷ []),
)

module _ (sort_profiles : List SavedProfile → List SavedProfile)
    (keeps : (test : SavedProfile → Bool) (profiles : List SavedProfile)
      → count test (sort_profiles profiles) ≡ count test profiles) where
  imported_status :
      (model : Model) (name : Bytes)
      → name_is_valid (some name) ≡ true
      → get_profile_status (record_import sort_profiles model name) name ≡ some 0
  unfolding record_import get_profile_status
  imported_status model name valid = rw valid (
      find_profile-with_status name 0
        (if any (has_name name) model.profiles
          then model.profiles
          else sort_profiles (model.profiles ++ record { name = name; status = 0 } ∷ []))
        (if_ind (λ (profiles : List SavedProfile). 1 ≤ count (has_name name) profiles)
          (any (has_name name) model.profiles) (any-count (has_name name) model.profiles)
          (λ _.
            rw (keeps (has_name name) (model.profiles ++ record { name = name; status = 0 } ∷ []))
              (new_profile-count name model.profiles))))

  deleted_status :
      (model : Model) (name : Bytes)
      → name_is_valid (some name) ≡ true
      → IsDistinct model.profiles
      → get_profile_status (record_delete model name) name ≡ none
  unfolding record_delete get_profile_status IsDistinct
  deleted_status model name valid d =
      let found : find_profile (without_first name model.profiles) name ≡ none =
        find_profile-none name (without_first name model.profiles)
          (count-without_first_same name model.profiles (d.1 name)) in
      rw (valid, found) refl

  -- In a model that the operations reach, and for a valid name, the profile is found as available
  -- right after its import is recorded, and no profile of that name is found after its deletion is
  -- recorded, when sorting keeps how many profiles pass any test.
  pub Reachable-get_profile_status :
      (model : Model) (name : Bytes)
      → Reachable sort_profiles model
      → name_is_valid (some name) ≡ true
      → (get_profile_status (record_import sort_profiles model name) name ≡ some 0)
        × (get_profile_status (record_delete model name) name ≡ none)
  Reachable-get_profile_status model name before valid = (
    imported_status model name valid,
    deleted_status model name valid (Reachable-IsDistinct sort_profiles keeps model before),
  )
