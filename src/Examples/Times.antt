-- ===== src/Examples/Times.antt =====
-- Deadlines at concrete times.
use network_manager_sidebar.Base.{
  ℕ, ◌+◌, ◌-◌, ◌≤◌, ◌≡◌, ◌↔◌, ◌≢◌, min, ◌⊎◌, refl, some, arith, pos, ◌≤ℤ◌, ◌<ℤ◌, int64_max,
}
use network_manager_sidebar.Deadline.{
  operation_up, operation_list_profiles, operation_budgets, deadlines_init, deadline_cap,
  deadline_remaining_msec, service_timeout_msec, client_timeout_msec, int_max, checked_add_msec,
  Deadlines,
}
use network_manager_sidebar.Deadline.Bounds.{
  deadlines_init_exact, deadlines_init_ordered, deadline_remaining_bounds,
  deadline_remaining_msec-cap, client-service-timeout,
}

budgets_up : operation_budgets (some operation_up) ≡ some (360000, 150000)
unfolding operation_budgets
budgets_up = refl

abbrev deadlines_up : Deadlines
deadlines_up = record { forward_at = pos 361000; cleanup_at = pos 511000; hard_at = pos 516000 }

deadlines_init_exact_example : deadlines_init (some operation_up) (pos 1000) ≡ some deadlines_up
deadlines_init_exact_example = deadlines_init_exact (some operation_up) 1000 budgets_up

test_init : deadlines_init (some operation_up) (pos 1000) ≡ some deadlines_up
unfolding deadlines_init operation_budgets checked_add_msec
test_init = refl

deadlines_init_ordered_example :
    (pos 0 ≤ℤ pos 1000)
    × (pos 1000 <ℤ deadlines_up.forward_at)
    × (deadlines_up.forward_at ≤ℤ deadlines_up.cleanup_at)
    × (deadlines_up.cleanup_at <ℤ deadlines_up.hard_at)
    × (deadlines_up.hard_at ≤ℤ pos int64_max)
deadlines_init_ordered_example = deadlines_init_ordered (some operation_up) (pos 1000) test_init

deadline_remaining_bounds_example :
    (deadline_remaining_msec (pos 1000) (pos 5000) 300 ≤ 300)
    × (deadline_remaining_msec (pos 1000) (pos 5000) 300 ≤ int_max)
    × ((start end : ℕ)
        → pos 1000 ≡ pos start
        → pos 5000 ≡ pos end
        → deadline_remaining_msec (pos 1000) (pos 5000) 300 ≤ end - start)
    × ((deadline_remaining_msec (pos 1000) (pos 5000) 300 ≡ 0)
        ↔ ((pos 1000 <ℤ pos 0) ⊎ ((pos 5000 ≤ℤ pos 1000) ⊎ (◌≡◌ {A = ℕ} 300 0))))
deadline_remaining_bounds_example = deadline_remaining_bounds (pos 1000) (pos 5000) 300

deadline_remaining_msec-cap_example :
    deadline_remaining_msec (pos 1000) (deadline_cap (pos 1000) (pos 90000) 15000) 60000
    ≡ deadline_remaining_msec (pos 1000) (pos 90000) (min 60000 15000)
deadline_remaining_msec-cap_example =
    deadline_remaining_msec-cap (pos 1000) (pos 90000) 15000 60000 (omega arith)

client-service-timeout_example :
    (service_timeout_msec (some operation_up) ≡ 360000 + 150000 + 5000)
    × (some operation_up ≡ some operation_list_profiles
        → client_timeout_msec (some operation_up) ≡ 360000 + 150000 + 5000 + 20000)
    × (some operation_up ≢ some operation_list_profiles
        → client_timeout_msec (some operation_up) ≡ 360000 + 150000 + 5000 + 25000)
client-service-timeout_example = client-service-timeout (some operation_up) budgets_up
