-- ===== src/Deadline.antt =====
-- deadline.c: the time budgets of the service's operations, in milliseconds of a monotonic clock.
-- gint64 times are ℤ; a guint is a number below 2 ^ 32.
pub mod Bounds
use network_manager_sidebar.Base.{
  ℕ, ◌+◌, ◌-◌, ◌%◌, ◌^◌, min, Bool, true, false, not, ◌||◌, Option, none, some, ltb, leb, ◌==◌,
  if◌then◌else◌, ◌>>=◌, Bytes, codes, equal, uint_max, ℤ, pos, negsuc, ltb_ℤ, int64_max,
}

-- NETWORK_SIDEBAR_AMNEZIAWG_OPERATION_* of amneziawg.h.
abbrev pub operation_import : Bytes
operation_import = codes "import"

abbrev pub operation_replace : Bytes
operation_replace = codes "replace"

abbrev pub operation_up : Bytes
operation_up = codes "up"

abbrev pub operation_down : Bytes
operation_down = codes "down"

abbrev pub operation_delete : Bytes
operation_delete = codes "delete"

abbrev pub operation_list_profiles : Bytes
operation_list_profiles = codes "list-profiles"

abbrev pub import_forward_timeout_msec : ℕ
import_forward_timeout_msec = 30000

abbrev pub delete_profile_timeout_msec : ℕ
delete_profile_timeout_msec = 15000

abbrev pub list_forward_timeout_msec : ℕ
list_forward_timeout_msec = 120000

abbrev pub tunnel_forward_timeout_msec : ℕ
tunnel_forward_timeout_msec = 180000

abbrev pub switch_forward_timeout_msec : ℕ
switch_forward_timeout_msec = 360000

abbrev pub tunnel_cleanup_reserve_msec : ℕ
tunnel_cleanup_reserve_msec = 150000

abbrev pub hard_enforcement_timeout_msec : ℕ
hard_enforcement_timeout_msec = 5000

abbrev pub client_timeout_margin_msec : ℕ
client_timeout_margin_msec = 20000

abbrev pub preempt_timeout_msec : ℕ
preempt_timeout_msec = 5000

pub record Deadlines : Type 0 where
  pub forward_at : ℤ
  pub cleanup_at : ℤ
  pub hard_at : ℤ

-- `result` is never NULL.
unfoldable pub checked_add_msec : ℤ → ℕ → Option ℤ
checked_add_msec (negsuc start) duration = none
checked_add_msec (pos start) duration =
    if ltb (int64_max - duration) start then none else some (pos (start + duration))

-- The forward and the cleanup budget; NULL is `none`.
unfoldable pub operation_budgets : Option Bytes → Option (ℕ × ℕ)
operation_budgets none = none
operation_budgets (some operation) =
    if equal operation operation_import || equal operation operation_replace
    then some (import_forward_timeout_msec, 0)
    else if equal operation operation_delete
    then some
        (tunnel_forward_timeout_msec + delete_profile_timeout_msec, tunnel_cleanup_reserve_msec)
    else if equal operation operation_list_profiles
    then some (list_forward_timeout_msec, 0)
    else if equal operation operation_up
    then some (switch_forward_timeout_msec, tunnel_cleanup_reserve_msec)
    else if equal operation operation_down
    then some (tunnel_forward_timeout_msec, tunnel_cleanup_reserve_msec)
    else none

unfoldable pub deadlines_init : Option Bytes → ℤ → Option Deadlines
deadlines_init operation start_msec = do
  (forward_msec, cleanup_msec) ← operation_budgets operation
  forward_at ← checked_add_msec start_msec forward_msec
  cleanup_at ← checked_add_msec forward_at cleanup_msec
  hard_at ← checked_add_msec cleanup_at hard_enforcement_timeout_msec
  some (record { forward_at = forward_at; cleanup_at = cleanup_at; hard_at = hard_at })

abbrev min_ℤ : ℤ → ℤ → ℤ
min_ℤ a b = if ltb_ℤ a b then a else b

-- The smaller of the local deadline, if it can be represented, and the outer one.
abbrev capped : Option ℤ → ℤ → ℤ
capped none outer = outer
capped (some local) outer = min_ℤ local outer

unfoldable pub deadline_cap : ℤ → ℤ → ℕ → ℤ
unfolding checked_add_msec
deadline_cap now_msec outer_deadline_msec local_budget_msec =
    if ltb_ℤ now_msec (pos 0)
      || ltb_ℤ outer_deadline_msec (pos 0)
      || not (ltb_ℤ now_msec outer_deadline_msec)
    then outer_deadline_msec
    else capped (checked_add_msec now_msec local_budget_msec) outer_deadline_msec

abbrev pub int_max : ℕ
int_max = 2147483647

-- `now < 0` and `deadline <= now` are out of the way.
unfoldable pub deadline_remaining_msec : ℤ → ℤ → ℕ → ℕ
deadline_remaining_msec (negsuc now) deadline maximum = 0
deadline_remaining_msec (pos now) (negsuc deadline) maximum = 0
deadline_remaining_msec (pos now) (pos deadline) maximum =
    if leb deadline now || maximum == 0 then 0 else min (min (deadline - now) maximum) int_max

abbrev pub hard_at_of : Option Deadlines → Option ℤ
hard_at_of none = none
hard_at_of (some deadlines) = some deadlines.hard_at

-- The cast of a gint64 to guint.
abbrev pub to_guint : Option ℤ → ℕ
to_guint none = 0
to_guint (some (pos n)) = n % 2 ^ 32
to_guint (some (negsuc n)) = 2 ^ 32 - 1 - n % 2 ^ 32

unfoldable pub service_timeout_msec : Option Bytes → ℕ
unfolding deadlines_init
service_timeout_msec operation = to_guint (hard_at_of (deadlines_init operation (pos 0)))

abbrev is_list_profiles : Option Bytes → Bool
is_list_profiles none = false
is_list_profiles (some operation) = equal operation operation_list_profiles

unfoldable pub client_timeout_msec : Option Bytes → ℕ
client_timeout_msec operation =
    let service_timeout = service_timeout_msec operation in
    let margin : ℕ =
      if not (is_list_profiles operation)
      then client_timeout_margin_msec + preempt_timeout_msec
      else client_timeout_margin_msec in
    if service_timeout == 0 || ltb (uint_max - margin) service_timeout
    then 0
    else service_timeout + margin
