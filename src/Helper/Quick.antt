-- ===== src/Helper/Quick.antt =====
-- amneziawg_quick_diagnostics.c: the stages of awg-quick and the lines of its output that name them.
pub mod Classify
pub mod Result
pub mod Early
use network_manager_sidebar.Base.{
  ◌+◌, ℕ, ◌-◌, Bool, true, false, not, ◌&&◌, ◌||◌, Option, none, some, List, [], ◌∷◌, ◌++◌, ltb,
  leb, ◌==◌, if◌then◌else◌, length, take, drop, Bytes, codes, equal, newline,
}
use network_manager_sidebar.Names.{name_is_valid, link_token_is_valid}
use network_manager_sidebar.Names.Exit.{HelperExit, is_success}
use network_manager_sidebar.Helper.Environment.{QuickExecution, QuickResult}

pub data Stage : Type 0 where
  no_stage interface userspace setconf address mtu dns route firewall : Stage

-- The value of the enumerator.
abbrev pub stage_code : Stage → ℕ
stage_code Stage.no_stage = 0
stage_code Stage.interface = 1
stage_code Stage.userspace = 2
stage_code Stage.setconf = 3
stage_code Stage.address = 4
stage_code Stage.mtu = 5
stage_code Stage.dns = 6
stage_code Stage.route = 7
stage_code Stage.firewall = 8

abbrev pub line_limit : ℕ
line_limit = 16384

-- `line` holds the bytes that are in use.
pub record Diagnostics : Type 0 where
  pub line : Bytes
  pub discarding : Bool
  pub userspace_started : Bool
  pub current_stage : Stage
  pub failure_candidate : Stage
  pub interface_seen : Bool
  pub teardown_seen : Bool
  pub recovery_blocked : Bool

-- Zero-initialized.
abbrev pub no_diagnostics : Diagnostics
no_diagnostics = record {
  line = [];
  discarding = false;
  userspace_started = false;
  current_stage = Stage.no_stage;
  failure_candidate = Stage.no_stage;
  interface_seen = false;
  teardown_seen = false;
  recovery_blocked = false;
}

unfoldable pub line_has_prefix : Bytes → Bytes → Bool
line_has_prefix line [] = true
line_has_prefix [] (p ∷ ps) = false
line_has_prefix (b ∷ bs) (p ∷ ps) = b == p && line_has_prefix bs ps

unfoldable pub line_is_teardown_command : Bytes → Bool
unfolding line_has_prefix
line_is_teardown_command line =
    line_has_prefix line (codes "[#] resolvconf -d ")
    || line_has_prefix line (codes "[#] ip -4 rule delete ")
    || line_has_prefix line (codes "[#] ip -6 rule delete ")
    || line_has_prefix line (codes "[#] ip -4 route delete ")
    || line_has_prefix line (codes "[#] ip -6 route delete ")
    || line_has_prefix line (codes "[#] ip link delete dev ")

abbrev claim_prefix : Bytes
claim_prefix = codes "[#] ip link set dev "

abbrev claim_alias : Bytes
claim_alias = codes " alias nm-sidebar-awg-"

-- The bytes before the first space, if there is one.
abbrev before_space : Bytes → Option Bytes
before_space [] = none
before_space (b ∷ bs) =
    let rest = before_space bs in
    if b == 32 then some [] else elim rest [ none ↦ none | some name ↦ some (b ∷ name) ]

-- `line` is behind the prefix; `name` stands before its first space.
abbrev claims_link : Bytes → Option Bytes → Bool
claims_link line none = false
claims_link line (some name) =
    let space = drop (length name) line in
    ltb (length name) 16
    && length space == length claim_alias + 32
    && line_has_prefix space claim_alias
    && name_is_valid (some name)
    && link_token_is_valid (some (drop (length claim_alias) space))

unfoldable pub line_is_link_claim : Bytes → Bool
unfolding line_has_prefix name_is_valid link_token_is_valid
line_is_link_claim line =
    let rest = drop (length claim_prefix) line in
    line_has_prefix line claim_prefix && claims_link rest (before_space rest)

unfoldable pub is_fallback_marker : Bytes → Bool
is_fallback_marker line = equal line (
    codes
      "[!] Missing WireGuard (Amnezia VPN) kernel module. Falling back to slow userspace implementation.")

unfoldable pub is_link_delete : Bytes → Bool
unfolding line_has_prefix
is_link_delete line = line_has_prefix line (codes "[#] ip link delete dev ")

-- The commands that touch the firewall and also run while it is cleaned up.
unfoldable pub is_cleanup_capable : Bytes → Bool
unfolding line_has_prefix
is_cleanup_capable line =
    line_has_prefix line (codes "[#] nft -f ")
    || line_has_prefix line (codes "[#] iptables-restore -n")
    || line_has_prefix line (codes "[#] ip6tables-restore -n")

unfoldable pub stage_of_line : Bytes → Stage
unfolding line_has_prefix is_cleanup_capable
stage_of_line line =
    if line_has_prefix line (codes "[#] ip link add ")
    then Stage.interface
    else if line_has_prefix line (codes "[#] amneziawg-go ")
    then Stage.userspace
    else if line_has_prefix line (codes "[#] awg setconf ")
    then Stage.setconf
    else if line_has_prefix line (codes "[#] ip -4 address add ")
        || line_has_prefix line (codes "[#] ip -6 address add ")
    then Stage.address
    else if line_has_prefix line (codes "[#] ip link set mtu ")
    then Stage.mtu
    else if line_has_prefix line (codes "[#] resolvconf -a ")
    then Stage.dns
    else if line_has_prefix line (codes "[#] awg set ")
        || line_has_prefix line (codes "[#] ip -4 rule add ")
        || line_has_prefix line (codes "[#] ip -6 rule add ")
        || line_has_prefix line (codes "[#] ip -4 route add ")
        || line_has_prefix line (codes "[#] ip -6 route add ")
    then Stage.route
    else if line_has_prefix line (codes "[#] sysctl -q net.ipv4.conf.all.src_valid_mark=1")
        || is_cleanup_capable line
    then Stage.firewall
    else Stage.no_stage
