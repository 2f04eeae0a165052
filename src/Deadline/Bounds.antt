-- ===== src/Deadline/Bounds.antt =====
-- The deadlines of an operation are ordered and never overflow.
use network_manager_sidebar.Base.{
  min, ℕ, ◌+◌, ◌-◌, ◌≤◌, ◌≡◌, ◌↔◌, ◌⊎◌, inl, inr, Option, none, some, Bytes, arith, ℤ, pos, ◌≢◌, ap,
  refl, true, Bool-cases, equal, equal_sound, negsuc, ◌≤ℤ◌, ◌<ℤ◌, int64_max, Option-cases,
  if◌then◌else◌, leb,
}
use network_manager_sidebar.Deadline.{
  checked_add_msec, operation_budgets, deadlines_init, Deadlines, deadline_cap,
  operation_list_profiles, deadline_remaining_msec, service_timeout_msec, client_timeout_msec,
  int_max,
}

-- The budgets of every known operation are positive and small.
operation_budgets_bounds :
    (operation : Option Bytes) {forward cleanup : ℕ}
    → operation_budgets operation ≡ some (forward, cleanup)
    → (30000 ≤ forward) × (forward ≤ 360000) × (cleanup ≤ 150000)
unfolding operation_budgets
operation_budgets_bounds none h = cc
operation_budgets_bounds (some operation) h = ground arith

-- The three deadlines of an operation that starts at `start` with these budgets.
abbrev deadlines_from : ℕ → ℕ → ℕ → Deadlines
deadlines_from start forward cleanup = record {
  forward_at = pos (start + forward);
  cleanup_at = pos (start + forward + cleanup);
  hard_at = pos (start + forward + cleanup + 5000);
}

-- For a known operation started at a time that is not negative, initialisation adds the forward
-- budget, the cleanup budget and five seconds, and fails exactly if the last sum is no gint64.
pub deadlines_init_exact :
    (operation : Option Bytes) (start : ℕ) {forward cleanup : ℕ}
    → operation_budgets operation ≡ some (forward, cleanup)
    → deadlines_init operation (pos start) ≡ (
        if leb (start + forward + cleanup + 5000) int64_max
        then some (deadlines_from start forward cleanup)
        else none)
unfolding deadlines_init checked_add_msec
deadlines_init_exact operation start known =
    let bounds = operation_budgets_bounds operation known in rw known (ground arith)

deadlines_init_unknown :
    (operation : Option Bytes) (start : ℤ)
    → operation_budgets operation ≡ none
    → deadlines_init operation start ≡ none
unfolding deadlines_init
deadlines_init_unknown operation start unknown = rw unknown

deadlines_init_negative :
    (operation : Option Bytes) (start : ℕ) → deadlines_init operation (negsuc start) ≡ none
unfolding deadlines_init checked_add_msec
deadlines_init_negative operation start = elim (Option-cases (operation_budgets operation)) [
  | inl e ↦ rw e
  | inr (budgets, e) ↦ rw e
]

-- Deadlines that were initialised lie in order behind the start.
pub deadlines_init_ordered :
    (operation : Option Bytes) (start : ℤ) {deadlines : Deadlines}
    → deadlines_init operation start ≡ some deadlines
    → (pos 0 ≤ℤ start)
      × (start <ℤ deadlines.forward_at)
      × (deadlines.forward_at ≤ℤ deadlines.cleanup_at)
      × (deadlines.cleanup_at <ℤ deadlines.hard_at)
      × (deadlines.hard_at ≤ℤ pos int64_max)
deadlines_init_ordered operation (negsuc start) h =
    absurd (ground (arith, deadlines_init_negative operation start))
deadlines_init_ordered operation (pos start) h = elim (Option-cases (operation_budgets operation)) [
  | inl e ↦ absurd (ground (arith, deadlines_init_unknown operation (pos start) e))
  | inr ((forward, cleanup), e) ↦
      ground (arith, deadlines_init_exact operation start e, operation_budgets_bounds operation e)
]

-- A cap never lies behind the outer deadline, whatever the times are.
pub deadline_cap_le : (now outer : ℤ) (budget : ℕ) → deadline_cap now outer budget ≤ℤ outer
unfolding deadline_cap
deadline_cap_le (pos now) (pos outer) budget = ground arith
deadline_cap_le (pos now) (negsuc outer) budget = ground arith
deadline_cap_le (negsuc now) (pos outer) budget = ground arith
deadline_cap_le (negsuc now) (negsuc outer) budget = ground arith

-- For all times, negative ones included: a wait never goes on beyond its maximum or beyond a gint,
-- between times that are not negative it ends by the deadline, and it is zero exactly if the time is
-- negative, the deadline has passed, or the maximum is zero.
pub deadline_remaining_bounds :
    (now deadline : ℤ) (maximum : ℕ)
    → (deadline_remaining_msec now deadline maximum ≤ maximum)
      × (deadline_remaining_msec now deadline maximum ≤ int_max)
      × ((start end : ℕ)
          → now ≡ pos start
          → deadline ≡ pos end
          → deadline_remaining_msec now deadline maximum ≤ end - start)
      × ((deadline_remaining_msec now deadline maximum ≡ 0)
          ↔ ((now <ℤ pos 0) ⊎ ((deadline ≤ℤ now) ⊎ (maximum ≡ 0))))
unfolding deadline_remaining_msec
deadline_remaining_bounds (pos now) (pos deadline) maximum = (
  ground arith,
  ground arith,
  λ start end e f. ground (arith, e, f),
  (λ h. ground (arith, h), λ h. ground (arith, h)),
)
deadline_remaining_bounds (pos now) (negsuc deadline) maximum = (
  ground arith,
  ground arith,
  λ start end e f. ground (arith, e, f),
  (λ h. ground (arith, h), λ h. refl),
)
deadline_remaining_bounds (negsuc now) deadline maximum =
    (ground arith, ground arith, λ start end e f. ground (arith, e, f), (λ h. inl tt, λ h. refl))

-- Waiting for the capped deadline of a phase is waiting for the outer deadline, no longer than the
-- budget of the phase: for all times, with an outer deadline up to the last gint64.
pub deadline_remaining_msec-cap :
    (now outer : ℤ) (budget maximum : ℕ)
    → outer ≤ℤ pos int64_max
    → deadline_remaining_msec now (deadline_cap now outer budget) maximum
      ≡ deadline_remaining_msec now outer (min maximum budget)
unfolding deadline_remaining_msec deadline_cap
deadline_remaining_msec-cap (pos now) (pos outer) budget maximum l = ground arith
deadline_remaining_msec-cap (pos now) (negsuc outer) budget maximum l = ground arith
deadline_remaining_msec-cap (negsuc now) outer budget maximum l = refl

service_timeout_exact :
    (operation : Option Bytes) {forward cleanup : ℕ}
    → operation_budgets operation ≡ some (forward, cleanup)
    → service_timeout_msec operation ≡ forward + cleanup + 5000
unfolding service_timeout_msec
service_timeout_exact operation known =
    let bounds = operation_budgets_bounds operation known in
    ground (arith, deadlines_init_exact operation 0 known)

no_budgets : {forward cleanup : ℕ} → operation_budgets none ≡ some (forward, cleanup) → ⊥
unfolding operation_budgets
no_budgets h = cc

-- The service may take the two budgets of a known operation and five seconds, and the client waits
-- longer: exactly twenty seconds for a list of profiles, and twenty-five for every other known
-- operation. No sum wraps.
pub client-service-timeout :
    (operation : Option Bytes) {forward cleanup : ℕ}
    → operation_budgets operation ≡ some (forward, cleanup)
    → (service_timeout_msec operation ≡ forward + cleanup + 5000)
      × (operation ≡ some operation_list_profiles
          → client_timeout_msec operation ≡ forward + cleanup + 5000 + 20000)
      × (operation ≢ some operation_list_profiles
          → client_timeout_msec operation ≡ forward + cleanup + 5000 + 25000)
unfolding client_timeout_msec
client-service-timeout none known = absurd (no_budgets known)
client-service-timeout (some operation) known =
    let bounds = operation_budgets_bounds (some operation) known in
    let exact = service_timeout_exact (some operation) known in
    (
      exact,
      λ e.
          let same : equal operation operation_list_profiles ≡ true =
            let is_list : operation ≡ operation_list_profiles = cc in rw is_list refl in
          ground (arith, same),
      λ n. elim (Bool-cases (equal operation operation_list_profiles)) [
        | inl e ↦ absurd (n (ap some (equal_sound operation operation_list_profiles e)))
        | inr e ↦ ground (arith, e)
      ],
    )
