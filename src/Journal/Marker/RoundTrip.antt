-- ===== src/Journal/Marker/RoundTrip.antt =====
-- What the writer of markers writes, the parser reads back.
use network_manager_sidebar.Base.{
  ends_with, without_last, expect_lem, pos-length-decimal, is_digit, ℕ, ◌≤◌, ◌<◌, ◌≡◌, refl, Bool,
  true, false, some, [], ◌∷◌, ◌++◌, length, all, all_mono, length-append, Bytes, codes, arith,
  is_not, newline, take_field_lem, decimal, length-decimal, uint_max, if◌then◌else◌, leb,
}
use network_manager_sidebar.Names.{link_token_is_valid, is_token_byte}
use network_manager_sidebar.Journal.{JournalState, DnsBackend, JournalDnsState, RuntimeMarker}
use network_manager_sidebar.Journal.Marker.{
  max_runtime_marker_size, field_line, journal_state_name, journal_state_of_name, dns_backend_name,
  dns_backend_of_name, journal_dns_state_name, dns_state_of_name, runtime_marker_fields_are_valid,
  runtime_marker_text, runtime_marker_serialize, runtime_marker_fields, runtime_marker_parse,
}
use network_manager_sidebar.Journal.Marker.Numbers.{
  decimal_not_newline, was_active_of_text-decimal, firewall_scope_of_text-decimal,
  ifindex_of_text-decimal,
}

journal_state_of_name-name :
    (s : JournalState) → journal_state_of_name (journal_state_name s) ≡ some s
unfolding journal_state_of_name journal_state_name
journal_state_of_name-name JournalState.activating = refl
journal_state_of_name-name _ = refl

journal_state_name_line :
    (s : JournalState)
    → (all (is_not newline) (journal_state_name s) ≡ true) × (length (journal_state_name s) ≤ 29)
unfolding journal_state_name
journal_state_name_line JournalState.activating = (refl, omega arith)
journal_state_name_line _ = (refl, omega arith)

dns_backend_of_name-name : (b : DnsBackend) → dns_backend_of_name (dns_backend_name b) ≡ some b
unfolding dns_backend_of_name dns_backend_name
dns_backend_of_name-name DnsBackend.none = refl
dns_backend_of_name-name _ = refl

dns_backend_name_line :
    (b : DnsBackend)
    → (all (is_not newline) (dns_backend_name b) ≡ true)
      × (0 < length (dns_backend_name b))
      × (length (dns_backend_name b) ≤ 10)
unfolding dns_backend_name
dns_backend_name_line DnsBackend.none = (refl, omega arith, omega arith)
dns_backend_name_line _ = (refl, omega arith, omega arith)

dns_state_of_name-name :
    (d : JournalDnsState) → dns_state_of_name (journal_dns_state_name d) ≡ some d
unfolding dns_state_of_name journal_dns_state_name
dns_state_of_name-name JournalDnsState.absent = refl
dns_state_of_name-name _ = refl

journal_dns_state_name_line :
    (d : JournalDnsState)
    → (all (is_not newline) (journal_dns_state_name d) ≡ true)
      × (0 < length (journal_dns_state_name d))
      × (length (journal_dns_state_name d) ≤ 7)
unfolding journal_dns_state_name
journal_dns_state_name_line JournalDnsState.absent = (refl, omega arith, omega arith)
journal_dns_state_name_line _ = (refl, omega arith, omega arith)

token_not_newline : (c : ℕ) → is_token_byte c ≡ true → is_not newline c ≡ true
token_not_newline c h = ground arith

link_token_line :
    (token : Bytes)
    → link_token_is_valid (some token) ≡ true
    → (length token ≡ 32) × (all (is_not newline) token ≡ true)
unfolding link_token_is_valid
link_token_line token h =
    (ground arith, ground (arith, all_mono is_token_byte (is_not newline) token_not_newline token))

valid_parts :
    (m : RuntimeMarker)
    → runtime_marker_fields_are_valid m ≡ true
    → (link_token_is_valid (some m.link_token) ≡ true) × (m.firewall_scope < 32)
unfolding runtime_marker_fields_are_valid
valid_parts m h = (ground arith, ground arith)

without_last-append : (xs : Bytes) (b : ℕ) → without_last (xs ++ b ∷ []) ≡ xs
without_last-append [] b = refl
without_last-append (x ∷ []) b = refl
without_last-append (x ∷ y ∷ ys) b = rw (without_last-append (y ∷ ys) b)

ends_with-singleton : ends_with newline (newline ∷ []) ≡ true
unfolding ends_with
ends_with-singleton = refl

ends_with-newline-cons :
    (x : ℕ) (ys : Bytes) → ends_with newline ys ≡ true → ends_with newline (x ∷ ys) ≡ true
unfolding ends_with
ends_with-newline-cons x [] h = cc
ends_with-newline-cons x (y ∷ ys) h = h

ends_with-newline-append :
    (xs ys : Bytes) → ends_with newline ys ≡ true → ends_with newline (xs ++ ys) ≡ true
ends_with-newline-append [] ys h = h
ends_with-newline-append (x ∷ xs) ys h =
    ends_with-newline-cons x (xs ++ ys) (ends_with-newline-append xs ys h)

ends_with-newline-line :
    (prefix value rest : Bytes)
    → ends_with newline (newline ∷ rest) ≡ true
    → ends_with newline (field_line prefix value rest) ≡ true
ends_with-newline-line prefix value rest h =
    ends_with-newline-append prefix (value ++ newline ∷ rest)
      (ends_with-newline-append value (newline ∷ rest) h)

ends_with-newline-field :
    (prefix value rest : Bytes)
    → ends_with newline rest ≡ true
    → ends_with newline (field_line prefix value rest) ≡ true
ends_with-newline-field prefix value rest h =
    ends_with-newline-line prefix value rest (ends_with-newline-cons newline rest h)

text_ends : (m : RuntimeMarker) → ends_with newline (runtime_marker_text m) ≡ true
unfolding runtime_marker_text
text_ends m = ends_with-newline-field (codes "state=") _ _ (
    ends_with-newline-field (codes "token=") _ _ (
      ends_with-newline-field (codes "ifindex=") _ _ (
        ends_with-newline-field (codes "dns=") _ _ (
          ends_with-newline-field (codes "was-active=") _ _ (
            ends_with-newline-field (codes "dns-state=") _ _
              (ends_with-newline-line (codes "firewall-scope=") _ [] ends_with-singleton))))))

text_long : (m : RuntimeMarker) → leb (length (runtime_marker_text m)) 6 ≡ false
unfolding runtime_marker_text
text_long m = simp length-append (ground arith)

-- The text never fills the buffer of 256 bytes.
runtime_marker_text_bound :
    (m : RuntimeMarker)
    → runtime_marker_fields_are_valid m ≡ true
    → length (runtime_marker_text m) < 256
unfolding runtime_marker_text
runtime_marker_text_bound m h =
    let token_length = (link_token_line m.link_token (valid_parts m h).0).0 in
    simp length-append (
      omega (
        arith,
        token_length,
        (journal_state_name_line m.state).1,
        length-decimal m.ifindex,
        (dns_backend_name_line m.dns_backend).2,
        length-decimal (if m.was_active then 1 else 0),
        (journal_dns_state_name_line m.dns_state).2,
        length-decimal m.firewall_scope,
      ))

module _ (is_space : ℕ → Bool)
    (digit_visible : (c : ℕ) → is_digit c ≡ true → is_space c ≡ false) where
  runtime_marker_fields-text :
      (m : RuntimeMarker)
      → runtime_marker_fields_are_valid m ≡ true
      → m.ifindex ≤ uint_max
      → runtime_marker_fields is_space (runtime_marker_text m) ≡ some m
  unfolding runtime_marker_fields runtime_marker_text
  runtime_marker_fields-text m h l =
      let (token_valid, scope) = valid_parts m h in
      let (token_length, token_clean) = link_token_line m.link_token token_valid in
      let (state_clean, state_length) = journal_state_name_line m.state in
      let (backend_clean, backend_pos, backend_length) = dns_backend_name_line m.dns_backend in
      let (dns_clean, dns_pos, dns_length) = journal_dns_state_name_line m.dns_state in
      let flag : ℕ = if m.was_active then 1 else 0 in
      rw
        (
          take_field_lem 6 (codes "state=") (journal_state_name m.state) _ state_clean
              (omega arith),
          journal_state_of_name-name m.state,
          take_field_lem 39 (codes "token=") m.link_token _ token_clean (omega arith),
          token_length,
          token_valid,
          take_field_lem 9 (codes "ifindex=") (decimal m.ifindex) _ (decimal_not_newline m.ifindex)
              (omega (arith, pos-length-decimal m.ifindex)),
          ifindex_of_text-decimal is_space digit_visible m.ifindex l,
          take_field_lem 5 (codes "dns=") (dns_backend_name m.dns_backend) _ backend_clean
              (omega arith),
          dns_backend_of_name-name m.dns_backend,
          take_field_lem 13 (codes "was-active=") (decimal flag) _ (decimal_not_newline flag)
              (omega (arith, pos-length-decimal flag)),
          was_active_of_text-decimal m.was_active,
          take_field_lem 12 (codes "dns-state=") (journal_dns_state_name m.dns_state) _ dns_clean
              (omega arith),
          dns_state_of_name-name m.dns_state,
          expect_lem 17 (codes "firewall-scope=") (decimal m.firewall_scope ++ newline ∷ []) (
              omega (
                arith,
                length-append (decimal m.firewall_scope) (newline ∷ []),
                pos-length-decimal m.firewall_scope,
              )),
          without_last-append (decimal m.firewall_scope) newline,
        )
        (rw (firewall_scope_of_text-decimal m.firewall_scope scope))

  -- A marker whose fields are valid and whose ifindex is a guint is written, and what is written is
  -- read back as the same marker. The law of g_ascii_isspace is that no digit is white space.
  pub runtime_marker_parse-serialize :
      (m : RuntimeMarker)
      → runtime_marker_fields_are_valid m ≡ true
      → m.ifindex ≤ uint_max
      → (contents : Bytes) × (runtime_marker_serialize m ≡ some contents)
        × (length contents < max_runtime_marker_size)
        × (runtime_marker_parse is_space contents ≡ some m)
  unfolding runtime_marker_serialize runtime_marker_parse
  runtime_marker_parse-serialize m h l =
      let small = runtime_marker_text_bound m h in
      let fits : leb 256 (length (runtime_marker_text m)) ≡ false = ground arith in
      (
        runtime_marker_text m,
        rw (h, fits),
        small,
        rw (text_long m, text_ends m, runtime_marker_fields-text m h l) (rw h),
      )
