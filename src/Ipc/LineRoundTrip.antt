-- ===== src/Ipc/LineRoundTrip.antt =====
-- What a client sends for a command that the socket knows is read by the server as that command.
use network_manager_sidebar.Base.{
  ℕ, ◌≡◌, refl, sym, ap, ◌∙◌, arith, Bool, true, false, not, ◌&&◌, ◌||◌, Option, none, some,
  Option-cases, inl, inr, List, [], ◌∷◌, ◌++◌, append_assoc, length, ◌≤◌, any, all, all-append,
  all_mono, ltb, leb, ◌==◌, Bytes, codes, equal_sound, trim, trim-all, trim-span, trim-twice,
  newline, split_at, split_at-append, is_not,
}
use network_manager_sidebar.Ipc.Commands.{command_is_socket}
use network_manager_sidebar.Ipc.Line.{
  Utf8, tab, stripped, normalize_command, bounded_name, normalize_target_output, encode_command,
  parse_command_line,
}
use network_manager_sidebar.Ipc.Receive.{
  Received, is_progress, joined, ended_line, receive_line-joined,
}
use network_manager_sidebar.Ipc.Response.{c_string-text}
use network_manager_sidebar.Ipc.Server.{
  CommandRead, command_max_bytes, before_newline, read_command,
}

abbrev pub is_ascii : ℕ → Bool
is_ascii c = ltb 0 c && ltb c 128

-- Lower-case letters and the hyphen, which make up the commands.
abbrev pub is_command_byte : ℕ → Bool
is_command_byte c = (leb b'a' c && leb c b'z') || c == b'-'

-- What is documented of GLib's functions: ASCII is its own encoding, a decoding goes piece by
-- piece, a span of a text is encoded so that it is decoded again, and without a NUL if the text has
-- none, and letters and hyphens are no white space and, in lower case, stay what they are.
pub record Utf8Laws (utf8 : Utf8) : Type 0 where
  pub decode-ascii : (bs : Bytes) → all is_ascii bs ≡ true → utf8.decode bs ≡ some bs
  pub encode-ascii : (bs : Bytes) → all is_ascii bs ≡ true → utf8.encode bs ≡ bs
  pub decode-append :
      (xs ys : Bytes) (cs ds : List ℕ)
      → utf8.decode xs ≡ some cs
      → utf8.decode ys ≡ some ds
      → utf8.decode (xs ++ ys) ≡ some (cs ++ ds)
  pub decode-span :
      (bs : Bytes) (before span after : List ℕ)
      → utf8.decode bs ≡ some (before ++ (span ++ after))
      → utf8.decode (utf8.encode span) ≡ some span
  pub encode-span :
      (bs : Bytes) (before span after : List ℕ)
      → utf8.decode bs ≡ some (before ++ (span ++ after))
      → all (is_not 0) bs ≡ true
      → all (is_not 0) (utf8.encode span) ≡ true
  pub letter-visible : (c : ℕ) → is_command_byte c ≡ true → utf8.is_space c ≡ false
  pub strdown-lower : (bs : Bytes) → all is_command_byte bs ≡ true → utf8.strdown bs ≡ bs

-- The commands are lower-case words.
pub socket_command_bytes :
    (command : Bytes) → command_is_socket command ≡ true → all is_command_byte command ≡ true
unfolding command_is_socket
socket_command_bytes command h = ground (
  arith,
  equal_sound command (codes "toggle"),
  equal_sound command (codes "show"),
  equal_sound command (codes "hide"),
  equal_sound command (codes "quit"),
  equal_sound command (codes "reload-css"),
  equal_sound command (codes "ping"),
)

command_ascii : (command : Bytes) → all is_command_byte command ≡ true → all is_ascii command ≡ true
command_ascii command h = all_mono is_command_byte is_ascii (λ c e. ground arith) command h

split_at-none : (b : ℕ) (xs : Bytes) → all (is_not b) xs ≡ true → split_at b xs ≡ none
unfolding split_at
split_at-none b [] h = refl
split_at-none b (x ∷ xs) h = ground (arith, split_at-none b xs)

all-is_not : (b : ℕ) (xs : Bytes) → any (λ c. c == b) xs ≡ false → all (is_not b) xs ≡ true
all-is_not b [] h = refl
all-is_not b (x ∷ xs) h = ground (arith, all-is_not b xs)

before_newline-line :
    (body : Bytes) → all (is_not newline) body ≡ true → before_newline (ended_line body) ≡ body
before_newline-line [] h = refl
before_newline-line (b ∷ body) h = ground (arith, before_newline-line body)

-- The bytes of a name; NULL has none.
abbrev pub text_in : Option Bytes → Bytes
text_in none = []
text_in (some text) = text

module _ (utf8 : Utf8) (laws : Utf8Laws utf8) where
  trim_word : (bs : Bytes) → all is_command_byte bs ≡ true → trim utf8.is_space bs ≡ bs
  trim_word bs h = trim-all utf8.is_space bs (
      all_mono is_command_byte (λ c. not (utf8.is_space c))
        (λ c e. ap not (laws.letter-visible c e)) bs h)

  pub normalize-word : (bs : Bytes) → all is_command_byte bs ≡ true → normalize_command utf8 bs ≡ bs
  unfolding normalize_command
  normalize-word bs h =
      rw
        (
          normalize_command,
          laws.decode-ascii bs (command_ascii bs h),
          stripped,
          trim_word bs h,
          laws.encode-ascii bs (command_ascii bs h),
        )
        (laws.strdown-lower bs h)

  bounded_name-encode :
      (chars : List ℕ) {output : Bytes}
      → bounded_name utf8 chars ≡ some output
      → utf8.encode chars ≡ output
  bounded_name-encode chars h = ground arith

  bounded_name-lines :
      (chars : List ℕ) {output : Bytes}
      → bounded_name utf8 chars ≡ some output
      → all (is_not newline) output ≡ true
  bounded_name-lines chars h =
      let none_in : any (λ b. b == newline) (utf8.encode chars) ≡ false = ground arith in
      rw (← bounded_name-encode chars h) (all-is_not newline (utf8.encode chars) none_in)

  -- What a normalized name of an output is.
  record Normalized (output : Bytes) : Type 0 where
    chars : List ℕ
    decoded : utf8.decode output ≡ some chars
    again : normalize_target_output utf8 (some output) ≡ some output
    unbroken : all (is_not newline) output ≡ true
    text : all (is_not 0) output ≡ true

  normalize-name :
      (name : Bytes) {output : Bytes}
      → all (is_not 0) name ≡ true
      → normalize_target_output utf8 (some name) ≡ some output
      → Normalized output
  unfolding normalize_target_output
  normalize-name name {output} clean h = elim (Option-cases (utf8.decode name)) [
    | inl e ↦ absurd (ground arith)
    | inr (chars, e) ↦
        let t = trim utf8.is_space chars in
        let bounded : bounded_name utf8 t ≡ some output = rw (normalize_target_output, e) at h in
        let (before, (after, span)) = trim-span utf8.is_space chars in
        let whole = e ∙ ap some span in
        let same = bounded_name-encode t bounded in
        let decoded : utf8.decode output ≡ some t =
          rw (← same) (laws.decode-span name before t after whole) in
        record {
          chars = t;
          decoded = decoded;
          again = rw (normalize_target_output, decoded, trim-twice utf8.is_space chars) bounded;
          unbroken = bounded_name-lines t bounded;
          text = rw (← same) (laws.encode-span name before t after whole clean);
        }
  ]

  -- A line that the server takes for a command.
  record Sends (command : Bytes) (output : Option Bytes) (body : Bytes) : Type 0 where
    chars : List ℕ
    decoded : utf8.decode body ≡ some chars
    parsed : parse_command_line utf8 (some body) ≡ some (command, output)
    unbroken : all (is_not newline) body ≡ true
    text : all (is_not 0) body ≡ true

  word-Sends : (command : Bytes) → all is_command_byte command ≡ true → Sends command none command
  unfolding parse_command_line
  word-Sends command word =
      let no_tab = all_mono is_command_byte (is_not tab) (λ c e. ground arith) command word in
      record {
        chars = command;
        decoded = laws.decode-ascii command (command_ascii command word);
        parsed = rw (split_at-none tab command no_tab, normalize-word command word) refl;
        unbroken = all_mono is_command_byte (is_not newline) (λ c e. ground arith) command word;
        text = all_mono is_command_byte (is_not 0) (λ c e. ground arith) command word;
      }

  named-Sends :
      (command output : Bytes)
      → all is_command_byte command ≡ true
      → Normalized output
      → Sends command (some output) (command ++ tab ∷ output)
  unfolding parse_command_line
  named-Sends command output word normal =
      let bare = word-Sends command word in
      let no_tab = all_mono is_command_byte (is_not tab) (λ c e. ground arith) command word in
      record {
        chars = command ++ tab ∷ normal.chars;
        decoded =
            laws.decode-append command (tab ∷ output) command (tab ∷ normal.chars)
              (laws.decode-ascii command (command_ascii command word))
              (laws.decode-append (tab ∷ []) output (tab ∷ []) normal.chars
                (laws.decode-ascii (tab ∷ []) refl) normal.decoded);
        parsed =
            rw
              (split_at-append tab command output no_tab, normalize-word command word, normal.again)
              refl;
        unbroken = ground (
          arith,
          all-append (is_not newline) command (tab ∷ output),
          bare.unbroken,
          normal.unbroken,
        );
        text = ground (arith, all-append (is_not 0) command (tab ∷ output), bare.text, normal.text);
      }

  encode_command-Sends :
      (command : Bytes) (target_output_name : Option Bytes)
      → all is_command_byte command ≡ true
      → all (is_not 0) (text_in target_output_name) ≡ true
      → (body : Bytes) × (encode_command utf8 command target_output_name ≡ ended_line body)
        × Sends command (normalize_target_output utf8 target_output_name) body
  unfolding encode_command normalize_target_output
  encode_command-Sends command none word clean =
      (command, rw (encode_command, normalize-word command word) refl, word-Sends command word)
  encode_command-Sends command (some name) word clean =
      elim (Option-cases (normalize_target_output utf8 (some name))) [
        | inl e ↦ (
          command,
          rw (encode_command, normalize-word command word, e) refl,
          rw e (word-Sends command word),
        )
        | inr (output, e) ↦ (
          command ++ tab ∷ output,
          rw (encode_command, normalize-word command word, e)
              (sym (append_assoc command (tab ∷ output) (newline ∷ []))),
          rw e (named-Sends command output word (normalize-name name clean e)),
        )
      ]

  -- Under the documented laws of the functions on UTF-8, what the client sends for a command of the
  -- socket and the name of an output is read by the server as that command and the normalized name,
  -- however it is cut into pieces and however often recv is interrupted, if it has 192 bytes at most
  -- with its newline, and the name has no NUL.
  pub read_command-encode_command :
      (command : Bytes) (target_output_name : Option Bytes) (results : List Received)
      → command_is_socket command ≡ true
      → all (is_not 0) (text_in target_output_name) ≡ true
      → length (encode_command utf8 command target_output_name) ≤ command_max_bytes
      → all is_progress results ≡ true
      → joined results ≡ encode_command utf8 command target_output_name
      → read_command utf8 results
        ≡ CommandRead.accepted command (normalize_target_output utf8 target_output_name)
  unfolding read_command
  read_command-encode_command command target_output_name results h clean l p e =
      let (body, line, sends) =
        encode_command-Sends command target_output_name (socket_command_bytes command h) clean in
      let received =
        receive_line-joined command_max_bytes [] results body p (e ∙ line) sends.unbroken
          (rw line at l) refl in
      rw
        (
          received,
          before_newline-line body sends.unbroken,
          c_string-text body sends.text,
          sends.decoded,
          sends.parsed,
          h,
        )
        refl
