-- ===== src/Ipc/Receive.antt =====
-- core/ipc.c and core/command_socket.c: the loop that reads a line from the socket, which the client
-- and the server share, over the results of its calls of recv.
use network_manager_sidebar.Base.{
  ◌||◌, ℕ, zero, suc, ◌+◌, ◌-◌, ◌≤◌, ◌≡◌, refl, sym, ap, ◌∙◌, arith, Bool, true, false, List, [],
  ◌∷◌, ◌++◌, append_assoc, append-nil, if◌then◌else◌, length, length-append, any, all, take, ltb,
  ◌==◌, Bytes, newline, is_not, Bool-cases, inl, inr,
}

-- A result of recv: EINTR, another error, the end of the stream, or the bytes that have come.
pub data Received : Type 0 where
  interrupted failed closed : Received
  bytes : Bytes → Received

abbrev pub has_newline : Bytes → Bool
has_newline chunk = any (λ b. b == newline) chunk

-- How the loop ends: not yet, without a line, or with the bytes up to the end of the piece that has
-- a newline.
pub data Line : Type 0 where
  waiting ended : Line
  line : Bytes → Line

-- A piece that recv delivers; no byte is the end of the stream.
abbrev pub with_piece : Bytes → Bytes → Line → Line
with_piece used [] later = Line.ended
with_piece used (b ∷ bs) later = if has_newline (b ∷ bs) then Line.line (used ++ b ∷ bs) else later

-- The loop, with the bytes that it has, over the results of recv. recv takes no
-- more bytes than fit; the rest is never read, since the loop ends then.
unfoldable pub receive_line : ℕ → Bytes → List Received → Line
receive_line limit used [] = if ltb (length used) limit then Line.waiting else Line.ended
receive_line limit used (result ∷ rest) =
    let next : Line = elim result [
      | Received.interrupted ↦ receive_line limit used rest
      | Received.failed ↦ Line.ended
      | Received.closed ↦ Line.ended
      | Received.bytes chunk ↦
          let piece = take (limit - length used) chunk in
          let later = receive_line limit (used ++ piece) rest in with_piece used piece later
    ] in
    if ltb (length used) limit then next else Line.ended

-- An interruption or at least one byte.
abbrev pub is_progress : Received → Bool
is_progress Received.interrupted = true
is_progress Received.failed = false
is_progress Received.closed = false
is_progress (Received.bytes []) = false
is_progress (Received.bytes (b ∷ bs)) = true

abbrev pub bytes_of : Received → Bytes
bytes_of Received.interrupted = []
bytes_of Received.failed = []
bytes_of Received.closed = []
bytes_of (Received.bytes chunk) = chunk

abbrev pub joined : List Received → Bytes
joined [] = []
joined (result ∷ rest) = bytes_of result ++ joined rest

-- A text without a newline, and a newline.
abbrev pub ended_line : Bytes → Bytes
ended_line body = body ++ newline ∷ []

take-all : (count : ℕ) (xs : Bytes) → length xs ≤ count → take count xs ≡ xs
take-all zero [] h = refl
take-all zero (x ∷ xs) h = absurd (ground (arith, h))
take-all (suc count) [] h = refl
take-all (suc count) (x ∷ xs) h = ground (arith, take-all count xs)

append_empty : (xs ys : Bytes) → xs ++ ys ≡ [] → ys ≡ []
append_empty [] ys h = h
append_empty (x ∷ xs) ys h = cc

has_newline-ended_line : (body : Bytes) → has_newline (ended_line body) ≡ true
has_newline-ended_line [] = refl
has_newline-ended_line (b ∷ body) = ground (arith, has_newline-ended_line body)

nothing_behind :
    (xs ys body : Bytes)
    → xs ++ ys ≡ ended_line body
    → all (is_not newline) body ≡ true
    → has_newline xs ≡ true
    → ys ≡ []
nothing_behind [] ys body h free n = cc
nothing_behind (x ∷ xs) ys [] h free n = let e : xs ++ ys ≡ [] = cc in append_empty xs ys e
nothing_behind (x ∷ xs) ys (b ∷ body) h free n =
    let same : x ≡ b = cc in
    let e : xs ++ ys ≡ ended_line body = cc in
    nothing_behind xs ys body e (ground (arith, free)) (ground (arith, free, n, same))

has_newline-append : (xs ys : Bytes) → has_newline (xs ++ ys) ≡ (has_newline xs || has_newline ys)
has_newline-append [] ys = refl
has_newline-append (x ∷ xs) ys = ground (arith, has_newline-append xs ys)

-- Without a newline so far, more has to come, and there is room.
more_to_come :
    (limit : ℕ) (used more body : Bytes)
    → used ++ more ≡ ended_line body
    → length (ended_line body) ≤ limit
    → has_newline used ≡ false
    → (ltb (length used) limit ≡ true) × (length used + length more ≤ limit)
more_to_come limit used [] body e l n =
    let whole : used ≡ ended_line body = sym (append-nil used) ∙ e in
    absurd (ground (arith, has_newline-ended_line body, rw whole at n))
more_to_come limit used (b ∷ bs) body e l n =
    let size = length-append used (b ∷ bs) in
    let total : length (used ++ b ∷ bs) ≤ limit = rw e l in
    (ground (arith, size, total), ground (arith, size, total))

-- A line that fits is received whole, however it is cut into pieces.
pub receive_line-joined :
    (limit : ℕ) (used : Bytes) (results : List Received) (body : Bytes)
    → all is_progress results ≡ true
    → used ++ joined results ≡ ended_line body
    → all (is_not newline) body ≡ true
    → length (ended_line body) ≤ limit
    → has_newline used ≡ false
    → receive_line limit used results ≡ Line.line (ended_line body)
unfolding receive_line
receive_line-joined limit used [] body p e free l n =
    let whole : used ≡ ended_line body = sym (append-nil used) ∙ e in
    absurd (ground (arith, has_newline-ended_line body, rw whole at n))
receive_line-joined limit used (Received.interrupted ∷ rest) body p e free l n =
    let later = receive_line-joined limit used rest body (ground (arith, p)) e free l n in
    let (room, fits) = more_to_come limit used (joined rest) body e l n in
    rw (receive_line, room) later
receive_line-joined limit used (Received.failed ∷ rest) body p e free l n = cc
receive_line-joined limit used (Received.closed ∷ rest) body p e free l n = cc
receive_line-joined limit used (Received.bytes [] ∷ rest) body p e free l n = cc
receive_line-joined limit used (Received.bytes (b ∷ bs) ∷ rest) body p e free l n =
    let (room, fits) = more_to_come limit used ((b ∷ bs) ++ joined rest) body e l n in
    let whole =
      take-all (limit - length used) (b ∷ bs)
        (omega (arith, fits, length-append (b ∷ bs) (joined rest))) in
    let split = append_assoc used (b ∷ bs) (joined rest) ∙ e in
    elim (Bool-cases (has_newline (b ∷ bs))) [
      | inl y ↦
          let both = has_newline-append used (b ∷ bs) in
          let done =
            nothing_behind (used ++ b ∷ bs) (joined rest) body split free
              (ground (arith, both, y)) in
          let all_of_it : used ++ b ∷ bs ≡ ended_line body =
            sym (append-nil (used ++ b ∷ bs)) ∙ (rw done at split) in
          rw (receive_line, room, whole, y) (ap Line.line all_of_it)
      | inr y ↦
          let later =
            receive_line-joined limit (used ++ b ∷ bs) rest body (ground (arith, p)) split free l
              (has_newline-append used (b ∷ bs) ∙ ground (arith, n, y)) in
          rw (receive_line, room, whole, y) later
    ]
