-- ===== src/Report/RoundTrip.antt =====
-- The reader of profile_report.c takes back what its writer puts out.
use network_manager_sidebar.Base.{
  take, ℕ, suc, ◌+◌, ◌≤◌, ◌<◌, ◌≡◌, refl, sym, ap, ◌∙◌, arith, Bool, true, false, not, ◌&&◌, some,
  List, [], ◌∷◌, ◌++◌, append_assoc, append-nil, map, ltb, ◌==◌, if◌then◌else◌, length,
  length-append, take, all, all-append, all_mono, any, All, Bytes, equal, Option-cases, inl, inr,
  is_digit, is_not, newline, split_all, decimal, uint_max, decimal-is_digit,
}
use mathlib.Core.List.{map-append}
use network_manager_sidebar.Names.{name_is_valid, is_name_byte, profile_status_is_valid}
use network_manager_sidebar.Report.{
  is_empty_at, complete_code, header_numbers, ReportEntry, ProfileReport, tab, magic, max_size,
  max_records, add_record, is_name_of, record_line, header_line, encode_records, encode,
  read_records, add_fields, read_lines, read_body, decode, has_report, agrees,
}
use network_manager_sidebar.Names.Exit.{HelperExit, is_success}
use network_manager_sidebar.Report.Lines.{
  unlines, split_all-append, split_all-whole, split_all-unlines, ends_with-unlines,
  parse_uint-decimal, Free,
}

abbrev is_word : ℕ → Bool
is_word c = ltb 32 c && ltb c 127

abbrev is_text : ℕ → Bool
is_text c = ltb 0 c && ltb c 128

name_is_word : (name : Bytes) → name_is_valid (some name) ≡ true → all is_word name ≡ true
unfolding name_is_valid
name_is_word [] h = refl
name_is_word (c ∷ cs) h = ground (arith, all_mono is_name_byte is_word (λ x e. ground arith) cs)

decimal-is_word : (n : ℕ) → all is_word (decimal n) ≡ true
decimal-is_word n = all_mono is_digit is_word (λ x e. ground arith) (decimal n) (decimal-is_digit n)

word_is_Free : (b : ℕ) (xs : Bytes) → b ≤ 32 → all is_word xs ≡ true → Free b xs
word_is_Free b xs l h = all_mono is_word (is_not b) (λ x e. ground arith) xs h

word_is_text : (xs : Bytes) → all is_word xs ≡ true → all is_text xs ≡ true
word_is_text xs h = all_mono is_word is_text (λ x e. ground arith) xs h

record_fields :
    (entry : ReportEntry)
    → name_is_valid (some entry.name) ≡ true
    → split_all tab (record_line entry) ≡ decimal entry.status ∷ entry.name ∷ []
record_fields entry h =
    split_all-append tab (decimal entry.status) entry.name
      (word_is_Free tab (decimal entry.status) (omega arith) (decimal-is_word entry.status))
    ∙ ap (◌∷◌ (decimal entry.status)) (
        split_all-whole tab entry.name
          (word_is_Free tab entry.name (omega arith) (name_is_word entry.name h)))

-- A line of the output: text without a newline.
abbrev IsLine : Bytes → Type 0
IsLine line = Free newline line × (all is_text line ≡ true)

word_tab-IsLine : (xs ys : Bytes) → all is_word xs ≡ true → IsLine ys → IsLine (xs ++ tab ∷ ys)
word_tab-IsLine xs ys h (free, text) = (
  ground
      (arith, all-append (is_not newline) xs (tab ∷ ys), word_is_Free newline xs (omega arith) h),
  ground (arith, all-append is_text xs (tab ∷ ys), word_is_text xs h),
)

word-IsLine : (xs : Bytes) → all is_word xs ≡ true → IsLine xs
word-IsLine xs h = (word_is_Free newline xs (omega arith) h, word_is_text xs h)

record_line-IsLine :
    (entry : ReportEntry) → name_is_valid (some entry.name) ≡ true → IsLine (record_line entry)
record_line-IsLine entry h =
    word_tab-IsLine (decimal entry.status) entry.name (decimal-is_word entry.status)
      (word-IsLine entry.name (name_is_word entry.name h))

header_line-IsLine : (report : ProfileReport) → IsLine (header_line report)
header_line-IsLine report = word_tab-IsLine magic (decimal 1 ++ tab ∷ header_numbers report) refl (
    word_tab-IsLine (decimal 1) (header_numbers report) (decimal-is_word 1) (
      word_tab-IsLine (decimal (length report.records)) (complete_code report)
        (decimal-is_word (length report.records))
        (word-IsLine (complete_code report) (decimal-is_word (if report.complete then 1 else 0)))))

decimal_is_Free : (n : ℕ) → Free tab (decimal n)
decimal_is_Free n = word_is_Free tab (decimal n) (omega arith) (decimal-is_word n)

header_fields :
    (report : ProfileReport)
    → split_all tab (header_line report)
      ≡ magic ∷ decimal 1 ∷ decimal (length report.records) ∷ complete_code report ∷ []
header_fields report =
    let count = decimal (length report.records) in
    split_all-append tab magic (decimal 1 ++ tab ∷ header_numbers report) refl
    ∙ ap (◌∷◌ magic) (
        split_all-append tab (decimal 1) (header_numbers report) (decimal_is_Free 1)
        ∙ ap (◌∷◌ (decimal 1)) (
            split_all-append tab count (complete_code report)
              (decimal_is_Free (length report.records))
            ∙ ap (◌∷◌ count) (
                split_all-whole tab (complete_code report)
                  (decimal_is_Free (if report.complete then 1 else 0)))))

unlines-is_text : (ls : List Bytes) → All IsLine ls → all is_text (unlines ls) ≡ true
unfolding unlines
unlines-is_text [] h = refl
unlines-is_text (line ∷ rest) ((free, text), h) =
    ground (arith, all-append is_text line (newline ∷ unlines rest), unlines-is_text rest h)

lines-Free : (ls : List Bytes) → All IsLine ls → All (Free newline) ls
lines-Free [] h = tt
lines-Free (line ∷ rest) ((free, text), h) = (free, lines-Free rest h)

-- One step of the writer's loop.
encode_records_step :
    (names : List Bytes) (entry : ReportEntry) (rest : List ReportEntry) {text : Bytes}
    → encode_records names (entry ∷ rest) ≡ some text
    → (name_is_valid (some entry.name) ≡ true)
      × (profile_status_is_valid entry.status ≡ true)
      × (any (equal entry.name) names ≡ false)
      × ((lines : Bytes) × (encode_records (names ++ entry.name ∷ []) rest ≡ some lines)
          × (text ≡ record_line entry ++ newline ∷ lines))
unfolding encode_records
encode_records_step names entry rest {text} h =
    elim (Option-cases (encode_records (names ++ entry.name ∷ []) rest)) [
      | inl e ↦ absurd (ground arith)
      | inr (lines, e) ↦ (ground arith, ground arith, ground arith, (lines, e, ground arith))
    ]

encode_records_lines :
    (names : List Bytes) (entries : List ReportEntry) {text : Bytes}
    → encode_records names entries ≡ some text
    → (text ≡ unlines (map record_line entries)) × All IsLine (map record_line entries)
unfolding encode_records unlines
encode_records_lines names [] h = (ground arith, tt)
encode_records_lines names (entry ∷ rest) h =
    let (valid, status, fresh, (lines, later, shape)) = encode_records_step names entry rest h in
    let (same, rest_lines) = encode_records_lines (names ++ entry.name ∷ []) rest later in
    (rw same at shape, (record_line-IsLine entry valid, rest_lines))

equal_comm : (xs ys : Bytes) → equal xs ys ≡ equal ys xs
equal_comm [] [] = refl
equal_comm [] (y ∷ ys) = refl
equal_comm (x ∷ xs) [] = refl
equal_comm (x ∷ xs) (y ∷ ys) = ground (arith, equal_comm xs ys)

name_taken :
    (name : Bytes) (done : List ReportEntry)
    → any (equal name) (map (λ e. e.name) done) ≡ false
    → any (is_name_of name) done ≡ false
name_taken name [] h = refl
name_taken name (entry ∷ done) h = ground (arith, name_taken name done, equal_comm name entry.name)

-- One step of the reader's loop.
add_fields_record :
    (done : List ReportEntry) (entry : ReportEntry) (complete : Bool)
    → name_is_valid (some entry.name) ≡ true
    → profile_status_is_valid entry.status ≡ true
    → any (equal entry.name) (map (λ e. e.name) done) ≡ false
    → length done < max_records
    → add_fields
        (record { records = done; complete = complete })
        (split_all tab (record_line entry))
      ≡ some (record { records = done ++ entry ∷ []; complete = complete })
unfolding add_record profile_status_is_valid
add_fields_record done entry complete valid status fresh l =
    rw
      (
        record_fields entry valid,
        parse_uint-decimal entry.status uint_max (ground arith) (omega arith),
        valid,
        name_taken entry.name done fresh,
      )
      (ground arith)

-- The reader's loop takes the records back.
read_records-encode_records :
    (done entries : List ReportEntry) (complete : Bool) {text : Bytes}
    → encode_records (map (λ e. e.name) done) entries ≡ some text
    → length done + length entries ≤ max_records
    → read_records (record { records = done; complete = complete }) (map record_line entries)
      ≡ some (record { records = done ++ entries; complete = complete })
unfolding read_records
read_records-encode_records done [] complete h l =
    ap (λ records. some (record { records = records; complete = complete })) (sym (append-nil done))
read_records-encode_records done (entry ∷ rest) complete h l =
    let (valid, status, fresh, (lines, later, shape)) =
      encode_records_step (map (λ e. e.name) done) entry rest h in
    let names = map-append (λ e. e.name) done (entry ∷ []) in
    rw
      (
        add_fields_record done entry complete valid status fresh (omega arith),
        ← append_assoc done (entry ∷ []) rest,
      )
      (read_records-encode_records (done ++ entry ∷ []) rest complete {text = lines}
        (rw names later) (omega (arith, length-append done (entry ∷ []))))

take_count :
    (entries : List ReportEntry)
    → take (length entries) (map record_line entries ++ [] ∷ []) ≡ map record_line entries
take_count [] = refl
take_count (entry ∷ rest) = ap (◌∷◌ (record_line entry)) (take_count rest)

is_empty_at_end :
    (entries : List ReportEntry)
    → is_empty_at (length entries) (map record_line entries ++ [] ∷ []) ≡ true
is_empty_at_end [] = refl
is_empty_at_end (entry ∷ rest) = is_empty_at_end rest

is_empty_after :
    (first : Bytes) (entries : List ReportEntry)
    → is_empty_at (length entries + 1) (first ∷ (map record_line entries ++ [] ∷ [])) ≡ true
is_empty_after first entries =
    let next : length entries + 1 ≡ suc (length entries) = omega arith in
    rw next (is_empty_at_end entries)

length-lines :
    (entries : List ReportEntry) → length (map record_line entries ++ [] ∷ []) ≡ length entries + 1
length-lines [] = refl
length-lines (entry ∷ rest) = omega (arith, length-lines rest)

-- The lines of the output.
abbrev output_lines : ProfileReport → List Bytes
output_lines report = header_line report ∷ map record_line report.records

encode_lines :
    (report : ProfileReport) {output : Bytes}
    → encode report ≡ some output
    → (length report.records ≤ max_records)
      × (length output ≤ max_size)
      × (output ≡ unlines (output_lines report))
      × All IsLine (output_lines report)
      × ((text : Bytes) × (encode_records [] report.records ≡ some text))
unfolding encode unlines
encode_lines report {output} h = elim (Option-cases (encode_records [] report.records)) [
  | inl e ↦ absurd (ground arith)
  | inr (text, e) ↦
      let (same, are_lines) = encode_records_lines [] report.records e in
      (ground arith, ground arith, ground arith, (header_line-IsLine report, are_lines), (text, e))
]

-- The exit status that the helper gives with a report, by its mark of completeness.
abbrev pub exit_of : Bool → HelperExit
exit_of true = HelperExit.success
exit_of false = HelperExit.inventory_partial

exit_has_report : (complete : Bool) → has_report (exit_of complete) ≡ true
unfolding has_report
exit_has_report true = refl
exit_has_report false = refl

agrees_exit : (complete : Bool) → agrees (exit_of complete) (if complete then 1 else 0) ≡ true
unfolding is_success
agrees_exit true = refl
agrees_exit false = refl

complete_back : (complete : Bool) → not ((if complete then 1 else 0) == 0) ≡ complete
complete_back true = refl
complete_back false = refl

has_no_nul : (xs : Bytes) → all is_text xs ≡ true → any (λ b. b == 0) xs ≡ false
has_no_nul [] h = refl
has_no_nul (x ∷ xs) h = ground (arith, has_no_nul xs)

read_body-output :
    (report : ProfileReport) {text : Bytes}
    → encode_records [] report.records ≡ some text
    → length report.records ≤ max_records
    → read_body
        (exit_of report.complete)
        (length report.records)
        (if report.complete then 1 else 0)
        (output_lines report ++ [] ∷ [])
      ≡ some report
read_body-output report h l =
    let back = read_records-encode_records [] report.records report.complete h (omega arith) in
    rw
      (
        is_empty_after (header_line report) report.records,
        agrees_exit report.complete,
        complete_back report.complete,
        take_count report.records,
      )
      (ground (arith, length-lines report.records))

read_lines-output :
    (report : ProfileReport) {text : Bytes}
    → encode_records [] report.records ≡ some text
    → length report.records ≤ max_records
    → read_lines (exit_of report.complete) (output_lines report ++ [] ∷ []) ≡ some report
read_lines-output report h l =
    rw
      (
        header_fields report,
        parse_uint-decimal 1 uint_max (omega arith) (omega arith),
        parse_uint-decimal (length report.records) max_records l (omega arith),
        parse_uint-decimal (if report.complete then 1 else 0) 1 (ground arith) (omega arith),
      )
      (read_body-output report h l)

filled : (line : Bytes) (rest : List Bytes) → (length (unlines (line ∷ rest)) == 0) ≡ false
unfolding unlines
filled line rest = ground (arith, length-append line (newline ∷ unlines rest))

module _ (utf8_valid : Bytes → Bool) where
  -- Where g_utf8_validate accepts every text of ASCII bytes without a NUL, every report that is
  -- written is read back as it was, with the exit status that belongs to it.
  pub decode-encode :
      (report : ProfileReport) {output : Bytes}
      → ((text : Bytes) → all (λ c. ltb 0 c && ltb c 128) text ≡ true → utf8_valid text ≡ true)
      → encode report ≡ some output
      → decode utf8_valid output (exit_of report.complete) ≡ some report
  unfolding decode
  decode-encode report valid h =
      let (count, size, shape, are_lines, (text, e)) = encode_lines report h in
      let is_ascii = unlines-is_text (output_lines report) are_lines in
      let read = read_lines-output report e count in
      let fits : ltb max_size (length (unlines (output_lines report))) ≡ false =
        ground (arith, rw shape at size) in
      rw
        (
          shape,
          filled (header_line report) (map record_line report.records),
          fits,
          exit_has_report report.complete,
          ends_with-unlines (header_line report) (map record_line report.records),
          has_no_nul (unlines (output_lines report)) is_ascii,
          valid (unlines (output_lines report)) is_ascii,
          split_all-unlines (output_lines report) (lines-Free (output_lines report) are_lines),
        )
        read
