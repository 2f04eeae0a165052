-- ===== src/Policy.antt =====
-- helper/amneziawg_policy.c: the test of the actions that polkit knows, before the service trusts
-- an authorization.
pub mod Unique
use network_manager_sidebar.Base.{
  ℕ, Bool, true, false, not, ◌&&◌, ◌||◌, Option, none, some, List, [], ◌∷◌, ◌==◌, if◌then◌else◌,
  any, Bytes, equal, cons_head,
}

-- PolkitImplicitAuthorization.
pub data ImplicitAuthorization : Type 0 where
  not_authorized authentication_required authorized : ImplicitAuthorization
  administrator_authentication_required : ImplicitAuthorization
  authentication_required_retained : ImplicitAuthorization
  administrator_authentication_required_retained : ImplicitAuthorization
  unknown_authorization : ImplicitAuthorization

-- What is read of a PolkitActionDescription: its three annotations, `none` for NULL, and its three
-- implicit authorizations.
pub record ActionDescription : Type 0 where
  pub action_id : Bytes
  pub exec_path : Option Bytes
  pub exec_argv1 : Option Bytes
  pub imply : Option Bytes
  pub implicit_any : ImplicitAuthorization
  pub implicit_inactive : ImplicitAuthorization
  pub implicit_active : ImplicitAuthorization

abbrev pub is_not_authorized : ImplicitAuthorization → Bool
is_not_authorized ImplicitAuthorization.not_authorized = true
is_not_authorized _ = false

-- g_strcmp0 with a string.
abbrev pub equals : Option Bytes → Bytes → Bool
equals none text = false
equals (some annotation) text = equal annotation text

abbrev pub is_given : Option Bytes → Bool
is_given none = false
is_given (some annotation) = true

-- The bytes of " \t\r\n".
abbrev pub is_delimiter : ℕ → Bool
is_delimiter c = c == 32 || c == 9 || c == 13 || c == 10

abbrev pub split_items : Bytes → List Bytes
split_items [] = [] ∷ []
split_items (c ∷ cs) =
    let rest = split_items cs in if is_delimiter c then [] ∷ rest else cons_head c rest

-- g_strsplit_set with these bytes; an empty string gives no item.
unfoldable pub split_set : Bytes → List Bytes
split_set [] = []
split_set (c ∷ cs) = split_items (c ∷ cs)

-- The id of the action and the path of the helper, which the build sets.
module _ (manage_id helper_path : Bytes) where
  abbrev pub action_id_is_amneziawg : Bytes → Bool
  action_id_is_amneziawg action_id = equal action_id manage_id

  abbrev implies : Option Bytes → Bool
  implies none = false
  implies (some annotation) = any action_id_is_amneziawg (split_set annotation)

  unfoldable pub action_implies_amneziawg : ActionDescription → Bool
  action_implies_amneziawg description = implies description.imply

  -- The tests of the managed action itself.
  abbrev pub grants_more : ActionDescription → Bool
  grants_more description =
      is_given description.exec_path
      || is_given description.exec_argv1
      || not (is_not_authorized description.implicit_any)
      || not (is_not_authorized description.implicit_inactive)
      || not (is_not_authorized description.implicit_active)

  abbrev pub runs_helper : ActionDescription → Bool
  runs_helper description =
      equals description.exec_path helper_path || equals description.exec_argv1 helper_path

  -- The loop, with its variables `manage_found` and `safe`.
  unfoldable pub check_descriptions : Bool → Bool → List ActionDescription → Bool
  check_descriptions manage_found safe [] = manage_found && safe
  check_descriptions manage_found safe (description ∷ rest) =
      let implied = if action_implies_amneziawg description then false else safe in
      let other =
        check_descriptions manage_found (if runs_helper description then false else implied) rest in
      let single = if manage_found then false else implied in
      let managed =
        check_descriptions true (if grants_more description then false else single) rest in
      if not (action_id_is_amneziawg description.action_id) then other else managed

  unfoldable pub policy_descriptions_are_safe : List ActionDescription → Bool
  unfolding check_descriptions
  policy_descriptions_are_safe descriptions = check_descriptions false true descriptions
