-- ===== src/Report.antt =====
-- profile_report.c: the list of profiles as the helper prints it, its writer and its reader.
pub mod Lines
pub mod RoundTrip
use network_manager_sidebar.Base.{
  ℕ, ◌+◌, ◌-◌, ◌*◌, Bool, true, false, not, ◌&&◌, ◌||◌, Option, none, some, List, [], ◌∷◌, ◌++◌,
  ltb, leb, ◌==◌, if◌then◌else◌, ◌>>=◌, length, take, drop, all, any, Bytes, codes, equal, is_digit,
  newline, split_all, ends_with, decimal, uint_max,
}
use network_manager_sidebar.Names.{name_is_valid, profile_status_is_valid}
use network_manager_sidebar.Names.Exit.{HelperExit, is_success, is_inventory_partial}

abbrev pub max_records : ℕ
max_records = 256

abbrev pub max_size : ℕ
max_size = 8192

abbrev pub magic : Bytes
magic = codes "NM-SIDEBAR-AWG-PROFILES"

abbrev pub tab : ℕ
tab = 9

-- The status is a number, which an unchecked cast may have made.
pub record ReportEntry : Type 0 where
  pub name : Bytes
  pub status : ℕ

pub record ProfileReport : Type 0 where
  pub records : List ReportEntry
  pub complete : Bool

abbrev pub new_report : ProfileReport
new_report = record { records = []; complete = true }

abbrev pub is_name_of : Bytes → ReportEntry → Bool
is_name_of name existing = equal existing.name name

-- network_sidebar_awg_profile_report_add, on a report that is not NULL.
unfoldable pub add_record : ProfileReport → Bytes → ℕ → Option ProfileReport
add_record report name status =
    if leb max_records (length report.records)
      || not (name_is_valid (some name))
      || not (profile_status_is_valid status)
    then none
    else if any (is_name_of name) report.records
    then none
    else some
        (record report { records = report.records ++ record { name = name; status = status } ∷ [] })

-- `%u\t%s`.
abbrev pub record_line : ReportEntry → Bytes
record_line entry = decimal entry.status ++ tab ∷ entry.name

abbrev pub complete_code : ProfileReport → Bytes
complete_code report = decimal (if report.complete then 1 else 0)

abbrev pub header_numbers : ProfileReport → Bytes
header_numbers report = decimal (length report.records) ++ tab ∷ complete_code report

-- The magic word, the version, the number of records, and the mark of a complete list.
abbrev pub header_line : ProfileReport → Bytes
header_line report = magic ++ tab ∷ (decimal 1 ++ tab ∷ header_numbers report)

-- The loop of the writer; `names` is the hash table.
unfoldable pub encode_records : List Bytes → List ReportEntry → Option Bytes
encode_records names [] = some []
encode_records names (entry ∷ rest) =
    let text = encode_records (names ++ entry.name ∷ []) rest in
    if not (name_is_valid (some entry.name))
      || not (profile_status_is_valid entry.status)
      || any (equal entry.name) names
    then none
    else (do lines ← text; some (record_line entry ++ newline ∷ lines))

abbrev pub bounded_text : Bytes → Option Bytes
bounded_text output = if ltb max_size (length output) then none else some output

unfoldable pub encode : ProfileReport → Option Bytes
unfolding encode_records
encode report = if ltb max_records (length report.records) then none else (do
  lines ← encode_records [] report.records
  bounded_text (header_line report ++ newline ∷ lines))

-- The number of a string of digits.
abbrev pub digits_value : ℕ → Bytes → ℕ
digits_value value [] = value
digits_value value (c ∷ cs) = digits_value (value * 10 + (c - b'0')) cs

-- parse_uint; g_ascii_strtoull fails with ERANGE above the range of a guint64.
unfoldable pub parse_uint : Bytes → ℕ → Option ℕ
parse_uint text maximum =
    if length text == 0 || not (all is_digit text)
    then none
    else if ltb 18446744073709551615 (digits_value 0 text) || ltb maximum (digits_value 0 text)
    then none
    else some (digits_value 0 text)

-- The exit statuses of the helper that come with a report.
unfoldable pub has_report : HelperExit → Bool
unfolding is_success is_inventory_partial
has_report status = is_success status || is_inventory_partial status

abbrev pub agrees : HelperExit → ℕ → Bool
agrees status complete = if is_success status then not (complete == 0) else complete == 0

-- `lines[index][0] == '\0'`.
abbrev pub is_empty_at : ℕ → List Bytes → Bool
is_empty_at index lines = elim (drop index lines) [ [] ↦ false | line ∷ rest ↦ length line == 0 ]

-- The fields of a line of a record.
abbrev pub add_fields : ProfileReport → List Bytes → Option ProfileReport
add_fields report (status ∷ name ∷ []) = do
  profile_status ← parse_uint status uint_max
  add_record report name profile_status
add_fields report _ = none

unfoldable pub read_records : ProfileReport → List Bytes → Option ProfileReport
unfolding add_record parse_uint
read_records report [] = some report
read_records report (line ∷ rest) = do
  next ← add_fields report (split_all tab line)
  read_records next rest

-- Behind the numbers of the header.
abbrev pub read_body : HelperExit → ℕ → ℕ → List Bytes → Option ProfileReport
read_body status count complete lines =
    if not (length lines == count + 2)
      || not (is_empty_at (count + 1) lines)
      || not (agrees status complete)
    then none
    else read_records (record new_report { complete = not (complete == 0) })
        (take count (drop 1 lines))

abbrev pub read_header : HelperExit → List Bytes → List Bytes → Option ProfileReport
read_header status (name ∷ version ∷ count ∷ complete ∷ []) lines =
    if not (equal name magic) then none else (do
      v ← parse_uint version uint_max
      n ← if v == 1 then parse_uint count max_records else none
      c ← parse_uint complete 1
      read_body status n c lines)
read_header status _ lines = none

abbrev pub read_lines : HelperExit → List Bytes → Option ProfileReport
read_lines status [] = none
read_lines status (first ∷ rest) = read_header status (split_all tab first) (first ∷ rest)

-- g_utf8_validate.
module _ (utf8_valid : Bytes → Bool) where
  unfoldable pub decode : Bytes → HelperExit → Option ProfileReport
  unfolding read_records parse_uint
  decode data_bytes status =
      if not (has_report status)
        || length data_bytes == 0
        || ltb max_size (length data_bytes)
        || not (ends_with newline data_bytes)
        || any (λ b. b == 0) data_bytes
        || not (utf8_valid data_bytes)
      then none
      else read_lines status (split_all newline data_bytes)
