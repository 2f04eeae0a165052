-- ===== src/Config/Envelope.antt =====
-- The envelope of config.c, the runtime snapshot, and the link claim of amneziawg_quick_config.c.
use network_manager_sidebar.Base.{
  ℕ, ◌-◌, Bool, true, false, not, ◌&&◌, ◌||◌, Option, none, some, List, [], ◌∷◌, ◌++◌, ltb, ◌==◌,
  if◌then◌else◌, length, take, drop, Bytes, codes, newline,
}
use network_manager_sidebar.Dns.{Family, DnsConfig, Measured, measure}
use network_manager_sidebar.Names.{link_token_is_valid}
use network_manager_sidebar.Config.Errors.{invalid_data, too_large, Result, ok, err, ◌>>=◌}
use network_manager_sidebar.Config.{Scan, scan_config_envelope, max_config_size}

-- The quick directives are empty where the source has NULL.
pub record ConfigEnvelope : Type 0 where
  pub quick_config : Bytes
  pub dns : DnsConfig
  pub interface_line_end : ℕ

-- The result of measuring the DNS data of a scan.
abbrev pub measured_envelope : Scan → Measured → Result ConfigEnvelope
measured_envelope s (Measured.ok size) = ok (record {
  quick_config = s.quick_config;
  dns = s.dns;
  interface_line_end = s.interface_line_end;
})
measured_envelope s Measured.too_large = err too_large 0
measured_envelope s Measured.invalid = err invalid_data 0

-- The byte before `offset` is there and is no newline.
abbrev pub is_unended : Bytes → ℕ → Bool
is_unended contents offset = elim (drop (offset - 1) contents) [
  | [] ↦ false
  | b ∷ bs ↦ ltb 0 offset && not (b == newline)
]

-- The bytes with a separator, if it is wanted, and a text put in at an offset.
abbrev pub inserted : Bytes → ℕ → Bool → Bytes → Bytes
inserted contents offset separated text =
    take offset contents
    ++ ((if separated then newline ∷ [] else []) ++ (text ++ drop offset contents))

abbrev pub separator_length : Bool → ℕ
separator_length separated = if separated then 1 else 0

-- `size_reserve > MAX || quick > MAX - reserve || protocol > … || separator > …`.
abbrev pub snapshot_too_large : ℕ → ℕ → ℕ → ℕ → Bool
snapshot_too_large reserve quick protocol separator =
    ltb max_config_size reserve
    || ltb (max_config_size - reserve) quick
    || ltb (max_config_size - reserve - quick) protocol
    || ltb (max_config_size - reserve - quick - protocol) separator

abbrev pub link_hook_reserve : ℕ
link_hook_reserve = 256

abbrev pub is_empty {ℓ} : {A : Type ℓ} → List A → Bool
is_empty [] = true
is_empty (x ∷ xs) = false

-- NETWORK_SIDEBAR_AMNEZIAWG_LINK_ALIAS_PREFIX.
abbrev pub link_alias_prefix : Bytes
link_alias_prefix = codes "nm-sidebar-awg-"

-- What g_snprintf prints into `claim_lines`.
unfoldable pub claim_lines : Bytes → Bytes
claim_lines token =
    codes "PreUp = ip link set dev %i alias nm-sidebar-awg-"
    ++ (token
        ++ (codes "\nPreDown = grep -Fxq nm-sidebar-awg-"
            ++ (token ++ codes " /sys/class/net/%i/ifalias\n")))

-- Behind the scan of the protocol configuration.
unfoldable pub build_snapshot : Bytes → ConfigEnvelope → ℕ → Scan → Result Bytes
build_snapshot protocol envelope size_reserve s =
    let separated =
      ltb 0 (length envelope.quick_config) && is_unended protocol s.interface_line_end in
    if not (is_empty s.quick_config && is_empty s.dns.servers && is_empty s.dns.domains)
    then err invalid_data 0
    else if snapshot_too_large size_reserve (length envelope.quick_config) (length protocol)
        (separator_length separated)
    then err too_large 0
    else ok (inserted protocol s.interface_line_end separated envelope.quick_config)

-- Behind the parse of the snapshot.
unfoldable pub claim_at : Bytes → Bytes → ℕ → Result Bytes
claim_at snapshot claim offset =
    let separated = is_unended snapshot offset in
    if length claim == 0 || not (ltb (length claim) link_hook_reserve)
    then err too_large 0
    else if ltb (max_config_size - separator_length separated) (length snapshot)
        || ltb (max_config_size - separator_length separated - length snapshot) (length claim)
    then err too_large 0
    else ok (inserted snapshot offset separated claim)

-- g_ascii_isspace and inet_pton.
module _ (is_space : ℕ → Bool) (inet_pton : Family → Bytes → Option Bytes) where
  unfoldable pub config_parse_envelope : Bytes → Result ConfigEnvelope
  config_parse_envelope contents = do
    s ← scan_config_envelope is_space inet_pton contents
    measured_envelope s (measure s.dns)

  -- config_validate.
  unfoldable pub config_validate : Bytes → Bool
  config_validate contents = elim (config_parse_envelope contents) [
    | ok envelope ↦ true
    | err code line ↦ false
  ]

  unfoldable pub runtime_snapshot_build : Bytes → ConfigEnvelope → ℕ → Result Bytes
  unfolding build_snapshot
  runtime_snapshot_build protocol envelope size_reserve = do
    s ← scan_config_envelope is_space inet_pton protocol
    build_snapshot protocol envelope size_reserve s

  -- awg_quick_config_build_snapshot.
  unfoldable pub quick_build_snapshot : Bytes → ConfigEnvelope → Result Bytes
  quick_build_snapshot protocol envelope =
      runtime_snapshot_build protocol envelope link_hook_reserve

  -- awg_quick_config_add_link_claim.
  unfoldable pub quick_add_link_claim : Bytes → Option Bytes → Result Bytes
  unfolding claim_at
  quick_add_link_claim snapshot none = err invalid_data 0
  quick_add_link_claim snapshot (some token) =
      if not (link_token_is_valid (some token)) then err invalid_data 0 else (do
        envelope ← config_parse_envelope snapshot
        claim_at snapshot (claim_lines token) envelope.interface_line_end)
