-- ===== src/Examples/Models.antt =====
-- The model of saved profiles at concrete values; the lists are sorted as they stand.
use network_manager_sidebar.Base.{
  false, ◌≡◌, refl, true, Bool, none, some, List, [], ◌∷◌, Bytes, codes,
}
use network_manager_sidebar.Names.{name_is_valid, profile_status_is_valid}
use network_manager_sidebar.Model.{
  SavedProfile, Model, model_new, get_profile_status, record_import, record_delete,
  replace_profiles,
}
use network_manager_sidebar.Model.Distinct.{count, IsDistinct}
use network_manager_sidebar.Model.Reachable.{Reachable, Reachable-IsDistinct}
use network_manager_sidebar.Model.Lookup.{Reachable-get_profile_status}

abbrev in_order : List SavedProfile → List SavedProfile
in_order profiles = profiles

in_order_keeps :
    (test : SavedProfile → Bool) (profiles : List SavedProfile)
    → count test (in_order profiles) ≡ count test profiles
in_order_keeps test profiles = refl

abbrev home : Bytes
home = codes "home"

abbrev work : Bytes
work = codes "work"

abbrev two_profiles : Model
two_profiles = record_import in_order (record_import in_order model_new home) work

two_profiles-Reachable : Reachable in_order two_profiles
two_profiles-Reachable = Reachable.imported (Reachable.imported Reachable.created home) work

home_valid : name_is_valid (some home) ≡ true
unfolding name_is_valid
home_valid = refl

-- A list with a name twice changes nothing.
test_replace :
    replace_profiles in_order model_new (
      some (
        some (record { name = some home; status = 0 })
        ∷ some (record { name = some home; status = 0 })
        ∷ []))
    ≡ (model_new, false)
unfolding replace_profiles name_is_valid profile_status_is_valid
test_replace = refl

Reachable-IsDistinct_example : IsDistinct two_profiles.profiles
Reachable-IsDistinct_example =
    Reachable-IsDistinct in_order in_order_keeps two_profiles two_profiles-Reachable

Reachable-get_profile_status_example :
    (get_profile_status (record_import in_order two_profiles home) home ≡ some 0)
    × (get_profile_status (record_delete two_profiles home) home ≡ none)
Reachable-get_profile_status_example =
    Reachable-get_profile_status in_order in_order_keeps two_profiles home two_profiles-Reachable
      home_valid
