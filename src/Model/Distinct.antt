-- ===== src/Model/Distinct.antt =====
-- The saved profiles of the model have valid names, each once.
use network_manager_sidebar.Base.{
  ℕ, ◌+◌, ◌≤◌, ◌≡◌, refl, Bool, true, false, not, ◌||◌, Option, none, some, List, [], ◌∷◌, ◌++◌,
  if◌then◌else◌, any, Bytes, equal, equal_sound, equal_refl, arith, Bool-cases, if_ind, inl, inr,
}
use network_manager_sidebar.Names.{name_is_valid, profile_status_is_valid}
use network_manager_sidebar.Model.{
  SavedProfile, ProfileRecord, has_name, name_in, replacement_of, with_status, without_first,
}

-- How many profiles pass a test.
unfoldable pub count : (SavedProfile → Bool) → List SavedProfile → ℕ
count test [] = 0
count test (profile ∷ rest) = (if test profile then 1 else 0) + count test rest

abbrev pub has_bad_name : SavedProfile → Bool
has_bad_name profile = not (name_is_valid (some profile.name))

-- No name is invalid, and none stands twice.
unfoldable pub IsDistinct : List SavedProfile → Type 0
unfolding count
IsDistinct profiles =
    (count has_bad_name profiles ≡ 0) × ((name : Bytes) → count (has_name name) profiles ≤ 1)

pub count-append :
    (test : SavedProfile → Bool) (first second : List SavedProfile)
    → count test (first ++ second) ≡ count test first + count test second
unfolding count
count-append test [] second = omega arith
count-append test (profile ∷ rest) second = ground (arith, count-append test rest second)

count-any :
    (test : SavedProfile → Bool) (profiles : List SavedProfile)
    → any test profiles ≡ false
    → count test profiles ≡ 0
unfolding count
count-any test [] h = refl
count-any test (profile ∷ rest) h = ground (arith, count-any test rest)

-- A test on the name does not see a status.
count-with_status :
    (test : SavedProfile → Bool) (name : Bytes) (status : ℕ) (profiles : List SavedProfile)
    → ((profile : SavedProfile) → test (record profile { status = status }) ≡ test profile)
    → count test (with_status name status profiles) ≡ count test profiles
unfolding count with_status
count-with_status test name status [] h = refl
count-with_status test name status (profile ∷ rest) h =
    ground (arith, h profile, count-with_status test name status rest h)

count-without_first :
    (test : SavedProfile → Bool) (name : Bytes) (profiles : List SavedProfile)
    → count test (without_first name profiles) ≤ count test profiles
unfolding count without_first
count-without_first test name [] = omega arith
count-without_first test name (profile ∷ rest) = ground (arith, count-without_first test name rest)

-- What the loop of replace_profiles answers under the names that it has seen.
abbrev pub Counts : List Bytes → Option (List SavedProfile) → Type 0
Counts names none = Unit
Counts names (some profiles) =
    (count has_bad_name profiles ≡ 0)
    × ((name : Bytes)
        → (count (has_name name) profiles ≤ 1)
          × (any (equal name) names ≡ true → count (has_name name) profiles ≡ 0))

abbrev refuses : List Bytes → Option Bytes → ℕ → Bool
refuses names name status =
    not (name_is_valid name)
    || not (profile_status_is_valid status)
    || any (equal (name_in name)) names

cons-bad :
    (names : List Bytes) (name : Option Bytes) (status : ℕ)
    → refuses names name status ≡ false
    → has_bad_name (record { name = name_in name; status = status }) ≡ false
unfolding name_is_valid
cons-bad names none status g = cc
cons-bad names (some text) status g = ground (arith, g)

cons-name :
    (names : List Bytes) (new name : Bytes) (profiles : List SavedProfile) (status : ℕ)
    → any (equal new) names ≡ false
    → (count (has_name name) profiles ≤ 1)
      × (any (equal name) (new ∷ names) ≡ true → count (has_name name) profiles ≡ 0)
    → (count (has_name name) (record { name = new; status = status } ∷ profiles) ≤ 1)
      × (any (equal name) names ≡ true
          → count (has_name name) (record { name = new; status = status } ∷ profiles) ≡ 0)
unfolding count
cons-name names new name profiles status fresh seen = elim (Bool-cases (equal new name)) [
  | inl e ↦
      let same = equal_sound new name e in
      let again : equal name new ≡ true = rw same (equal_refl name) in
      let clear : any (equal name) names ≡ false = rw same at fresh in
      ground (arith, seen, again, clear, e)
  | inr e ↦ ground (arith, seen, e)
]

replacement_step :
    (names : List Bytes) (entry : ProfileRecord) (others : Option (List SavedProfile))
    → Counts (name_in entry.name ∷ names) others
    → refuses names entry.name entry.status ≡ false
    → Counts names (elim others [
      | none ↦ none
      | some profiles ↦
          some (record { name = name_in entry.name; status = entry.status } ∷ profiles)
    ])
unfolding count
replacement_step names entry none c g = tt
replacement_step names entry (some profiles) c g =
    let good = cons-bad names entry.name entry.status g in
    let fresh : any (equal (name_in entry.name)) names ≡ false = ground (arith, g) in
    (
      ground (arith, good, c.0),
      λ name. cons-name names (name_in entry.name) name profiles entry.status fresh (c.1 name),
    )

pub replacement_of-Counts :
    (names : List Bytes) (records : List (Option ProfileRecord))
    → Counts names (replacement_of names records)
unfolding replacement_of count
replacement_of-Counts names [] = (refl, λ name. (omega arith, λ h. refl))
replacement_of-Counts names (none ∷ rest) = tt
replacement_of-Counts names (some entry ∷ rest) =
    let others = replacement_of-Counts (name_in entry.name ∷ names) rest in
    if_ind (Counts names) (refuses names entry.name entry.status) (λ _. tt)
      (λ g.
        replacement_step names entry (replacement_of (name_in entry.name ∷ names) rest) others g)

pub IsDistinct-with_status :
    (name : Bytes) (status : ℕ) (profiles : List SavedProfile)
    → IsDistinct profiles
    → IsDistinct (with_status name status profiles)
unfolding IsDistinct
IsDistinct-with_status name status profiles d = (
  rw (count-with_status has_bad_name name status profiles (λ p. refl)) d.0,
  λ n. rw (count-with_status (has_name n) name status profiles (λ p. refl)) (d.1 n),
)

pub IsDistinct-without_first :
    (name : Bytes) (profiles : List SavedProfile)
    → IsDistinct profiles
    → IsDistinct (without_first name profiles)
unfolding IsDistinct
IsDistinct-without_first name profiles d = (
  ground (arith, count-without_first has_bad_name name profiles, d.0),
  λ n. ground (arith, count-without_first (has_name n) name profiles, d.1 n),
)

-- A name that is new.
pub added-counts :
    (name : Bytes) (profiles : List SavedProfile)
    → name_is_valid (some name) ≡ true
    → any (has_name name) profiles ≡ false
    → IsDistinct profiles
    → IsDistinct (profiles ++ record { name = name; status = 0 } ∷ [])
unfolding IsDistinct
added-counts name profiles valid new d = (
  ground (arith, count-append has_bad_name profiles (record { name = name; status = 0 } ∷ []), d.0),
  λ n.
      let whole = count-append (has_name n) profiles (record { name = name; status = 0 } ∷ []) in
      elim (Bool-cases (equal name n)) [
        | inl e ↦
            let none_yet : count (has_name n) profiles ≡ 0 =
              rw (equal_sound name n e) at (count-any (has_name name) profiles new) in
            ground (arith, whole, none_yet, e)
        | inr e ↦ ground (arith, whole, d.1 n, e)
      ],
)
