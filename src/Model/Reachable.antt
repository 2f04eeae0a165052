-- ===== src/Model/Reachable.antt =====
-- The models that the operations on saved profiles reach.
use network_manager_sidebar.Base.{
  ℕ, ◌≡◌, refl, Bool, not, Option, none, some, List, [], ◌∷◌, ◌++◌, ltb, if◌then◌else◌, length, any,
  Bytes, arith, if_ind,
}
use network_manager_sidebar.Names.{name_is_valid}
use network_manager_sidebar.Report.{max_records}
use network_manager_sidebar.Model.{
  SavedProfile, ProfileRecord, Model, has_name, model_new, replacement_of, record_delete,
  reset_profiles, begin_switch, set_inventory_valid, set_profiles_warning,
  set_stale_profiles_warning, WarningKind, installed, replace_profiles, record_import,
}
use network_manager_sidebar.Model.Distinct.{
  count, has_bad_name, IsDistinct, Counts, replacement_of-Counts, IsDistinct-with_status,
  IsDistinct-without_first, added-counts,
}

-- Any sequence of the operations, from a new model.
pub data Reachable (sort_profiles : List SavedProfile → List SavedProfile) : Model → Type 0 where
  created : Reachable sort_profiles model_new
  replaced :
      {model : Model}
      → Reachable sort_profiles model
      → (records : Option (List (Option ProfileRecord)))
      → Reachable sort_profiles ((replace_profiles sort_profiles model records).0)
  imported :
      {model : Model}
      → Reachable sort_profiles model
      → (name : Bytes) → Reachable sort_profiles (record_import sort_profiles model name)
  deleted :
      {model : Model}
      → Reachable sort_profiles model
      → (name : Bytes) → Reachable sort_profiles (record_delete model name)
  reset :
      {model : Model}
      → Reachable sort_profiles model
      → Reachable sort_profiles (reset_profiles model)
  validated :
      {model : Model}
      → Reachable sort_profiles model
      → (valid : Bool) → Reachable sort_profiles (set_inventory_valid model valid)
  warned :
      {model : Model}
      → Reachable sort_profiles model
      → (kind : WarningKind) → (helper_status : ℕ)
      → Reachable sort_profiles (set_profiles_warning model kind helper_status)
  warned_stale :
      {model : Model}
      → Reachable sort_profiles model
      → (kind : WarningKind) → (helper_status : ℕ)
      → Reachable sort_profiles (set_stale_profiles_warning model kind helper_status)
  switched :
      {model : Model} → Reachable sort_profiles model → Reachable sort_profiles (begin_switch model)

empty-IsDistinct : IsDistinct []
unfolding IsDistinct count
empty-IsDistinct = (refl, λ name. omega arith)

IsDistinct-record_delete :
    (model : Model) (name : Bytes)
    → IsDistinct model.profiles
    → IsDistinct (record_delete model name).profiles
unfolding record_delete
IsDistinct-record_delete model name d =
    if_ind (λ (m : Model). IsDistinct m.profiles) (not (name_is_valid (some name))) (λ _. d)
      (λ _. IsDistinct-without_first name model.profiles d)

IsDistinct-set_profiles_warning :
    (model : Model) (kind : WarningKind) (helper_status : ℕ)
    → IsDistinct model.profiles
    → IsDistinct (set_profiles_warning model kind helper_status).profiles
unfolding set_profiles_warning
IsDistinct-set_profiles_warning model kind helper_status d =
    if_ind (λ (m : Model). IsDistinct m.profiles) _ (λ _. d) (λ _. d)

module _ (sort_profiles : List SavedProfile → List SavedProfile)
    (keeps : (test : SavedProfile → Bool) (profiles : List SavedProfile)
      → count test (sort_profiles profiles) ≡ count test profiles) where
  IsDistinct-sort :
      (profiles : List SavedProfile) → IsDistinct profiles → IsDistinct (sort_profiles profiles)
  unfolding IsDistinct
  IsDistinct-sort profiles d =
      (rw (keeps has_bad_name profiles) d.0, λ name. rw (keeps (has_name name) profiles) (d.1 name))

  replaced_with :
      (model : Model) (answer : Option (List SavedProfile))
      → IsDistinct model.profiles
      → Counts [] answer
      → IsDistinct (installed sort_profiles model answer).0.profiles
  unfolding IsDistinct
  replaced_with model none d c = d
  replaced_with model (some replacement) d c =
      IsDistinct-sort replacement (c.0, λ name. (c.1 name).0)

  IsDistinct-replace_profiles :
      (model : Model) (records : Option (List (Option ProfileRecord)))
      → IsDistinct model.profiles
      → IsDistinct (replace_profiles sort_profiles model records).0.profiles
  unfolding replace_profiles
  IsDistinct-replace_profiles model none d = d
  IsDistinct-replace_profiles model (some records) d =
      if_ind (λ (m : Model × Bool). IsDistinct m.0.profiles) (ltb max_records (length records))
        (λ _. d)
        (λ _. replaced_with model (replacement_of [] records) d (replacement_of-Counts [] records))

  IsDistinct-record_import :
      (model : Model) (name : Bytes)
      → IsDistinct model.profiles
      → IsDistinct (record_import sort_profiles model name).profiles
  unfolding record_import
  IsDistinct-record_import model name d =
      if_ind (λ (m : Model). IsDistinct m.profiles) (not (name_is_valid (some name))) (λ _. d)
        (λ valid.
          IsDistinct-with_status name 0
            (if any (has_name name) model.profiles
              then model.profiles
              else sort_profiles (model.profiles ++ record { name = name; status = 0 } ∷ []))
            (if_ind IsDistinct (any (has_name name) model.profiles) (λ _. d)
              (λ new.
                IsDistinct-sort (model.profiles ++ record { name = name; status = 0 } ∷ [])
                  (added-counts name model.profiles (ground (arith, valid)) new d))))

  -- In a model that any sequence of these operations builds from a new one (replacing the saved
  -- profiles by a list of records, recording an import or a deletion, a reset, the warnings, the
  -- validity of the inventory and the start of a switch), every saved profile has a valid name and no name stands twice, when sorting keeps how
  -- many profiles pass any test.
  pub Reachable-IsDistinct :
      (model : Model) → Reachable sort_profiles model → IsDistinct model.profiles
  unfolding model_new reset_profiles begin_switch set_inventory_valid set_stale_profiles_warning
  Reachable-IsDistinct model created = empty-IsDistinct
  Reachable-IsDistinct model (replaced before records) =
      IsDistinct-replace_profiles _ records (Reachable-IsDistinct _ before)
  Reachable-IsDistinct model (imported before name) =
      IsDistinct-record_import _ name (Reachable-IsDistinct _ before)
  Reachable-IsDistinct model (deleted before name) =
      IsDistinct-record_delete _ name (Reachable-IsDistinct _ before)
  Reachable-IsDistinct model (reset before) = empty-IsDistinct
  Reachable-IsDistinct model (validated before valid) = Reachable-IsDistinct _ before
  Reachable-IsDistinct model (warned before kind helper_status) =
      IsDistinct-set_profiles_warning _ kind helper_status (Reachable-IsDistinct _ before)
  Reachable-IsDistinct model (warned_stale before kind helper_status) =
      Reachable-IsDistinct _ before
  Reachable-IsDistinct model (switched before) = Reachable-IsDistinct _ before
