-- ===== src/Names.antt =====
-- amneziawg.c and the enumerations of amneziawg.h: profile names, profile statuses, link tokens,
-- and the interface name taken from the name of an imported file.
pub mod Exit
pub mod Normalize
use network_manager_sidebar.Base.{
  ℕ, ◌+◌, Bool, true, false, not, ◌&&◌, ◌||◌, Option, none, some, [], ◌∷◌, ltb, leb, ◌==◌,
  if◌then◌else◌, length, all, Bytes, is_alnum, is_digit, within,
}

abbrev pub max_interface_length : ℕ
max_interface_length = 15

abbrev pub link_token_length : ℕ
link_token_length = 32

-- The bytes that may follow the first one.
abbrev pub is_name_byte : ℕ → Bool
is_name_byte c = is_alnum c || c == b'_' || c == b'-' || c == b'.'

-- The loop starts at the second byte.
abbrev bytes_valid : Bytes → Bool
bytes_valid [] = false
bytes_valid (c ∷ cs) = is_alnum c && all is_name_byte cs

-- NULL is `none`.
unfoldable pub name_is_valid : Option Bytes → Bool
name_is_valid none = false
name_is_valid (some name) =
    if length name == 0 || ltb max_interface_length (length name) then false else bytes_valid name

pub data ProfileStatus : Type 0 where
  available file_security invalid_configuration : ProfileStatus
  incompatible_configuration changed_or_unreadable : ProfileStatus

-- The value of the enumerator.
unfoldable pub status_code : ProfileStatus → ℕ
status_code available = 0
status_code file_security = 1
status_code invalid_configuration = 2
status_code incompatible_configuration = 3
status_code changed_or_unreadable = 4

unfoldable pub profile_status_is_valid : ℕ → Bool
profile_status_is_valid status = leb status 4

-- A number that passes the test, read as an enumerator.
unfoldable pub status_of_code : ℕ → Option ProfileStatus
status_of_code status =
    if status == 0
    then some available
    else if status == 1
    then some file_security
    else if status == 2
    then some invalid_configuration
    else if status == 3
    then some incompatible_configuration
    else if status == 4
    then some changed_or_unreadable
    else none

unfoldable pub profile_status_allows_removal : ProfileStatus → Bool
profile_status_allows_removal available = true
profile_status_allows_removal invalid_configuration = true
profile_status_allows_removal incompatible_configuration = true
profile_status_allows_removal _ = false

abbrev pub is_token_byte : ℕ → Bool
is_token_byte c = not (not (is_digit c) && (ltb c b'a' || ltb b'f' c))

unfoldable pub link_token_is_valid : Option Bytes → Bool
link_token_is_valid none = false
link_token_is_valid (some token) =
    if not (length token == link_token_length) then false else all is_token_byte token
