-- ===== src/Policy/Unique.antt =====
-- What the policy check of the helper accepts.
use network_manager_sidebar.Base.{
  ℕ, ◌+◌, ◌≡◌, ◌∙◌, ◌↔◌, inl, inr, Bool-cases, refl, arith, Bool, true, false, not, ◌&&◌, List, [],
  ◌∷◌, ◌==◌, if◌then◌else◌, all, Bytes,
}
use network_manager_sidebar.Policy.{
  ActionDescription, action_id_is_amneziawg, action_implies_amneziawg, grants_more, runs_helper,
  check_descriptions, policy_descriptions_are_safe,
}

module _ (manage_id helper_path : Bytes) where
  -- The action is not implied by the description, which grants nothing if it is the action's own,
  -- and does not run the helper if it is another one's.
  abbrev pub is_harmless : ActionDescription → Bool
  is_harmless description =
      not (action_implies_amneziawg manage_id helper_path description)
      && (if action_id_is_amneziawg manage_id helper_path description.action_id
          then not (grants_more manage_id helper_path description)
          else not (runs_helper manage_id helper_path description))

  -- How many descriptions are the action's.
  abbrev pub count_managed : List ActionDescription → ℕ
  count_managed [] = 0
  count_managed (description ∷ rest) =
      (if action_id_is_amneziawg manage_id helper_path description.action_id then 1 else 0)
      + count_managed rest

  -- The part of the rest of a list, from its tests.
  abbrev accepts : Bool → Bool → Bool → ℕ → Bool
  accepts found safe harmless count = safe && harmless && ((if found then 1 else 0) + count == 1)

  accepts_nothing : (found safe : Bool) → found && safe ≡ accepts found safe true 0
  accepts_nothing true true = refl
  accepts_nothing true false = refl
  accepts_nothing false true = refl
  accepts_nothing false false = refl

  accepts_other :
      (implied runs found safe harmless : Bool) (count : ℕ)
      → accepts found (if runs then false else (if implied then false else safe)) harmless count
        ≡ accepts found safe ((not implied && not runs) && harmless) (0 + count)
  accepts_other implied runs found safe harmless count = ground arith

  accepts_managed :
      (implied grants found safe harmless : Bool) (count : ℕ)
      → accepts true
          (if grants then false else (if found then false else (if implied then false else safe)))
          harmless
          count
        ≡ accepts found safe ((not implied && not grants) && harmless) (1 + count)
  accepts_managed implied grants found safe harmless count = ground arith

  check_descriptions_lem :
      (found safe : Bool) (descriptions : List ActionDescription)
      → check_descriptions manage_id helper_path found safe descriptions
        ≡ accepts found safe (all is_harmless descriptions) (count_managed descriptions)
  unfolding check_descriptions
  check_descriptions_lem found safe [] = accepts_nothing found safe
  check_descriptions_lem found safe (d ∷ rest) =
      let implied = action_implies_amneziawg manage_id helper_path d in
      let grants = grants_more manage_id helper_path d in
      let runs = runs_helper manage_id helper_path d in
      elim (Bool-cases (action_id_is_amneziawg manage_id helper_path d.action_id)) [
        | inl e ↦ rw e (
            check_descriptions_lem true
              (if grants
                then false
                else (if found then false else (if implied then false else safe)))
              rest
            ∙ accepts_managed implied grants found safe (all is_harmless rest) (count_managed rest))
        | inr e ↦ rw e (
            check_descriptions_lem found (if runs then false else (if implied then false else safe))
              rest
            ∙ accepts_other implied runs found safe (all is_harmless rest) (count_managed rest))
      ]

  -- The policy is safe exactly when polkit knows a single description of the managed action, which
  -- grants nothing by itself, and no description implies the action or runs the helper.
  pub policy_descriptions_are_safe_unique :
      (descriptions : List ActionDescription)
      → (policy_descriptions_are_safe manage_id helper_path descriptions ≡ true)
        ↔ ((count_managed descriptions ≡ 1) × (all is_harmless descriptions ≡ true))
  unfolding policy_descriptions_are_safe
  policy_descriptions_are_safe_unique descriptions =
      ground (arith, check_descriptions_lem false true descriptions)
