-- ===== src/Helper/Quick/Classify.antt =====
-- amneziawg_quick_diagnostics.c: what the output of awg-quick tells of a run, byte by byte.
use network_manager_sidebar.Base.{
  ℕ, Bool, true, false, not, ◌&&◌, ◌||◌, [], ◌∷◌, ◌++◌, ltb, leb, ◌==◌, if◌then◌else◌, length,
  Bytes, codes, newline,
}
use network_manager_sidebar.Helper.Quick.{
  Stage, stage_code, Diagnostics, line_limit, line_has_prefix, line_is_teardown_command,
  line_is_link_claim, is_fallback_marker, is_link_delete, is_cleanup_capable, stage_of_line,
}

unfoldable pub observe_stage : Stage → Diagnostics → Diagnostics
observe_stage stage d = record d {
  recovery_blocked =
      d.recovery_blocked
      || leb 6 (stage_code stage)
      || ltb (stage_code stage) (stage_code d.current_stage)
      || d.teardown_seen;
  interface_seen = d.interface_seen || stage_code stage == 1;
}

-- The three ways through classify_line, and the line of no known command.
unfoldable pub classify_fallback : Diagnostics → Diagnostics
unfolding observe_stage
classify_fallback d =
    let observed = observe_stage Stage.userspace d in
    record observed {
      failure_candidate =
          if stage_code d.failure_candidate == 1 then Stage.no_stage else d.failure_candidate;
      current_stage = Stage.userspace;
      userspace_started = true;
    }

unfoldable pub classify_teardown : Diagnostics → Diagnostics
classify_teardown d =
    if is_link_delete d.line
    then record d { teardown_seen = true }
    else record d { recovery_blocked = true }

unfoldable pub classify_stage : Stage → Bool → Diagnostics → Diagnostics
unfolding observe_stage
classify_stage stage cleanup_capable d =
    let observed =
      observe_stage stage
        (record d { userspace_started = d.userspace_started || stage_code stage == 2 }) in
    if cleanup_capable && not (stage_code d.failure_candidate == 0)
    then observed
    else record observed { current_stage = stage; failure_candidate = Stage.no_stage }

unfoldable pub is_unknown_command : Diagnostics → Bool
is_unknown_command d =
    line_has_prefix d.line (codes "[#]")
    && (not (line_is_link_claim d.line) || d.teardown_seen || ltb 2 (stage_code d.current_stage))

unfoldable pub classify_other : Diagnostics → Diagnostics
unfolding is_unknown_command
classify_other d = record d {
  recovery_blocked = d.recovery_blocked || is_unknown_command d;
  failure_candidate =
      if ltb 0 (length d.line)
        && not (stage_code d.current_stage == 0)
        && stage_code d.failure_candidate == 0
      then d.current_stage
      else d.failure_candidate;
}

unfoldable pub classify_line : Diagnostics → Diagnostics
unfolding classify_fallback classify_teardown classify_stage classify_other
classify_line d =
    if is_fallback_marker d.line
    then classify_fallback d
    else if line_is_teardown_command d.line
    then classify_teardown d
    else if stage_code (stage_of_line d.line) == 0
    then classify_other d
    else classify_stage (stage_of_line d.line) (is_cleanup_capable d.line) d

-- A byte of a line that is not discarded; one beyond the limit ends it.
unfoldable pub append_byte : ℕ → Diagnostics → Diagnostics
append_byte b d =
    let marked = record d { recovery_blocked = d.recovery_blocked || b == 0 || b == 13 } in
    if ltb (length d.line) line_limit
    then record marked { line = d.line ++ b ∷ [] }
    else record (classify_line (record marked { recovery_blocked = true })) {
      line = [];
      discarding = true;
    }

unfoldable pub consume_byte : ℕ → Diagnostics → Diagnostics
consume_byte b d =
    if b == newline
    then record (if d.discarding then d else classify_line d) { line = []; discarding = false }
    else if d.discarding
    then d
    else append_byte b d

-- awg_quick_diagnostics_consume.
unfoldable pub consume : Bytes → Diagnostics → Diagnostics
consume [] d = d
consume (b ∷ bs) d = consume bs (consume_byte b d)

-- awg_quick_diagnostics_finish.
unfoldable pub finish : Diagnostics → Diagnostics
finish d =
    record (if not d.discarding && ltb 0 (length d.line)
      then classify_line (record d { recovery_blocked = true })
      else d) { line = [] }
