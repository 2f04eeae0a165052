-- ===== src/Ipc/Answer.antt =====
-- The answer of the server, as the client takes it.
use network_manager_sidebar.Base.{
  ◌≤◌, ◌≡◌, ◌↔◌, refl, sym, ap, ◌∙◌, arith, true, Option, none, some, List, [], ◌∷◌, ◌++◌, length,
  length-append, all, all-append, all_mono, Bytes, codes, equal, equal_refl, equal_sound,
  strip_prefix, strip_prefix-append, split_at, split_at-append, newline, is_not, if◌then◌else◌,
}
use network_manager_sidebar.Ipc.Commands.{command_is_socket}
use network_manager_sidebar.Ipc.Line.{Utf8, protocol, success_response}
use network_manager_sidebar.Ipc.LineRoundTrip.{
  Utf8Laws, text_in, is_command_byte, socket_command_bytes, normalize-word,
}
use network_manager_sidebar.Ipc.Receive.{Received, is_progress, joined, ended_line}
use network_manager_sidebar.Ipc.Response.{
  CommandStatus, max_response_bytes, c_string-text, read_response_status,
  read_response_status-joined,
}

-- What stands before the command in an answer.
abbrev greeting : Bytes
greeting = protocol ++ codes " ok "

length-socket_command : (command : Bytes) → command_is_socket command ≡ true → length command ≤ 10
unfolding command_is_socket
length-socket_command command h = ground (
  arith,
  equal_sound command (codes "toggle"),
  equal_sound command (codes "show"),
  equal_sound command (codes "hide"),
  equal_sound command (codes "quit"),
  equal_sound command (codes "reload-css"),
  equal_sound command (codes "ping"),
)

-- The text before the newline.
abbrev before_in : Option (Bytes × Bytes) → Bytes
before_in none = []
before_in (some (before, after)) = before

same_line :
    (xs ys : Bytes)
    → all (is_not newline) xs ≡ true
    → all (is_not newline) ys ≡ true
    → ended_line xs ≡ ended_line ys
    → xs ≡ ys
same_line xs ys p q e =
    let cut : some (xs, []) ≡ some (ys, []) =
      sym (split_at-append newline xs [] p)
      ∙ ap (split_at newline) e
      ∙ split_at-append newline ys [] q in
    ap before_in cut

same_tail : (xs ys : Bytes) → greeting ++ xs ≡ greeting ++ ys → xs ≡ ys
same_tail xs ys e = ap text_in (
    sym (strip_prefix-append greeting xs)
    ∙ ap (strip_prefix greeting) e
    ∙ strip_prefix-append greeting ys)

module _ (utf8 : Utf8) (laws : Utf8Laws utf8) where
  success_response-line :
      (command : Bytes)
      → command_is_socket command ≡ true
      → success_response utf8 command ≡ ended_line (greeting ++ command)
  unfolding success_response
  success_response-line command h =
      rw (success_response, normalize-word utf8 laws command (socket_command_bytes command h)) refl

  greeting_free :
      (command : Bytes)
      → all is_command_byte command ≡ true
      → all (is_not newline) (greeting ++ command) ≡ true
  greeting_free command word =
      all_mono is_command_byte (is_not newline) (λ c e. ground arith) command word

  greeting_text :
      (command : Bytes)
      → all is_command_byte command ≡ true
      → all (is_not 0) (ended_line (greeting ++ command)) ≡ true
  greeting_text command word =
      let free = all_mono is_command_byte (is_not 0) (λ c e. ground arith) command word in
      ground (arith, all-append (is_not 0) (greeting ++ command) (newline ∷ []), free)

  verdict_on_answer :
      (asked answered : Bytes) (results : List Received)
      → command_is_socket asked ≡ true
      → command_is_socket answered ≡ true
      → all is_progress results ≡ true
      → joined results ≡ success_response utf8 answered
      → read_response_status (success_response utf8 asked) results
        ≡ some (
            if equal (ended_line (greeting ++ answered)) (ended_line (greeting ++ asked))
            then CommandStatus.acknowledged
            else CommandStatus.delivered)
  verdict_on_answer asked answered results h k p e =
      let word = socket_command_bytes answered k in
      let line = success_response-line answered k in
      let size = length-append (greeting ++ answered) (newline ∷ []) in
      let short : length (ended_line (greeting ++ answered)) ≤ max_response_bytes =
        omega (arith, size, length-append greeting answered, length-socket_command answered k) in
      let seen =
        read_response_status-joined (success_response utf8 asked) results (greeting ++ answered) p
          (e ∙ line) (greeting_free answered word) short in
      let text = c_string-text (ended_line (greeting ++ answered)) (greeting_text answered word) in
      rw (seen, text, success_response-line asked h) refl

  -- Under the documented laws of the functions on UTF-8, a client that sent a command of the socket
  -- takes the answer of the server to such a command, however it is cut into pieces and however often
  -- recv is interrupted, as the acknowledgement exactly if the two commands are the same.
  pub read_response_status-success_response :
      (asked answered : Bytes) (results : List Received)
      → command_is_socket asked ≡ true
      → command_is_socket answered ≡ true
      → all is_progress results ≡ true
      → joined results ≡ success_response utf8 answered
      → (read_response_status (success_response utf8 asked) results
          ≡ some CommandStatus.acknowledged)
        ↔ (asked ≡ answered)
  read_response_status-success_response asked answered results h k p e =
      let verdict = verdict_on_answer asked answered results h k p e in
      let theirs = ended_line (greeting ++ answered) in
      let mine = ended_line (greeting ++ asked) in
      (
        λ seen.
            let same : equal theirs mine ≡ true = ground (arith, verdict, seen) in
            let lines =
              same_line (greeting ++ answered) (greeting ++ asked)
                (greeting_free answered (socket_command_bytes answered k))
                (greeting_free asked (socket_command_bytes asked h))
                (equal_sound theirs mine same) in
            sym (same_tail answered asked lines),
        λ same. verdict ∙ rw (← same, equal_refl mine) refl,
      )
