-- ===== src/Ipc/Response.antt =====
-- core/ipc.c: read_response_status, the answer that the client waits for.
use network_manager_sidebar.Base.{
  ℕ, ◌≤◌, ◌≡◌, refl, arith, true, Option, none, some, List, [], ◌∷◌, if◌then◌else◌, length, all,
  ◌==◌, Bytes, equal, is_not, newline,
}
use network_manager_sidebar.Ipc.Receive.{
  Received, Line, receive_line, is_progress, joined, ended_line, receive_line-joined,
}

-- NetworkSidebarIPCCommandStatus.
pub data CommandStatus : Type 0 where
  not_delivered delivered acknowledged : CommandStatus

abbrev pub max_response_bytes : ℕ
max_response_bytes = 128

-- The C string at the start of a buffer that ends with a NUL.
abbrev pub c_string : Bytes → Bytes
c_string [] = []
c_string (b ∷ bs) = let rest = c_string bs in if b == 0 then [] else b ∷ rest

pub c_string-text : (text : Bytes) → all (is_not 0) text ≡ true → c_string text ≡ text
c_string-text [] h = refl
c_string-text (b ∷ bs) h = ground (arith, c_string-text bs)

abbrev pub status_of : Bytes → Bytes → CommandStatus
status_of expected response =
    if equal (c_string response) expected
    then CommandStatus.acknowledged
    else CommandStatus.delivered

-- The verdict on what the loop has read.
abbrev pub verdict : Bytes → Line → Option CommandStatus
verdict expected Line.waiting = none
verdict expected Line.ended = some CommandStatus.delivered
verdict expected (Line.line response) = some (status_of expected response)

-- With the answer that is expected, over the results of recv; `none` while it waits for more.
unfoldable pub read_response_status : Bytes → List Received → Option CommandStatus
unfolding receive_line
read_response_status expected results =
    verdict expected (receive_line max_response_bytes [] results)

-- The verdict on an answer of one line with nothing behind it, of 128 bytes at most, is the same
-- however it is cut into pieces and however often recv is interrupted: acknowledged if it is, as a C
-- string, the expected answer, and delivered if not.
pub read_response_status-joined :
    (expected : Bytes) (results : List Received) (body : Bytes)
    → all is_progress results ≡ true
    → joined results ≡ ended_line body
    → all (is_not newline) body ≡ true
    → length (ended_line body) ≤ max_response_bytes
    → read_response_status expected results ≡ some (status_of expected (ended_line body))
unfolding read_response_status
read_response_status-joined expected results body p e free l =
    rw (receive_line-joined max_response_bytes [] results body p e free l refl) refl
