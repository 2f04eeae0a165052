-- ===== src/Lib.antt =====
-- Network Manager Sidebar: the core of a GTK sidebar for NetworkManager that also manages AmneziaWG
-- tunnels through a privileged helper.
--
-- The program has a command-line client, which talks to the running GUI over a Unix socket, the GUI,
-- and a helper that runs as root and keeps the AmneziaWG sessions. Modelled is the code that these
-- parts share and that decides: what a name, a configuration, a journal, a DNS payload and a report
-- look like in bytes, which actions are allowed, how long they may take, and what the client does.
--
-- The parts, each file with the code it is about:
--   Base        numbers, lists, byte strings, printed numbers and trimming
--   Names       src/amneziawg/amneziawg.c: profile names, statuses, link tokens
--               (network_sidebar_amneziawg_name_is_valid is Names.name_is_valid, and so on)
--   Names/Normalize     the interface name from the name of an imported file
--   Journal     src/amneziawg/runtime_journal.h: the marker that the helper keeps for a session
--   Journal/Classify    runtime_state_classify: a marker against the link that is observed
--   Journal/Marker      the text of a marker, its writer and its parser
--   Admission   src/amneziawg/admission.c: which actions are offered and allowed
--   Deadline    src/amneziawg/deadline.c: deadlines on gint64 milliseconds, checked for overflow
--   Dns         src/amneziawg/dns_config.c: DNS servers and domains, their directive and payload
--   Config      src/amneziawg/config.c: the safety scan of a configuration, its envelope, and the
--               snapshot that is run; src/helper/amneziawg_quick_config.c: the link claim
--   Report      src/amneziawg/profile_report.c: the list of profiles that the helper prints
--   Ipc         src/core/ipc.c, src/core/ipc_commands.c, src/core/target_output.c: the commands, their
--               line on the socket (Ipc.Line), its reading loop (Ipc.Receive), and the answer (Ipc.Response)
--   Ipc/Server  src/core/command_socket.c: network_sidebar_read_command
--   Ipc/LineRoundTrip, Ipc/Answer    the line and its answer, from one end to the other
--   Cli         src/cli/cli_args.c and src/cli/main.c
--   RowState    src/data/connection_state.c
--   Policy      src/helper/amneziawg_policy.c: the test of the actions that polkit knows
--   Helper      the sessions of the privileged helper, as actions on a state (Helper.State) over the
--               operations of an Environment (Helper.Environment)
--   Helper/Session      src/helper/amneziawg_helper_session.c and the phases of _util.c
--   Helper/Tunnel       src/helper/amneziawg_helper_tunnel.c: the DNS transactions (Dns), the removal
--               of the runtime entries (Cleanup), the interface (Interface), the rollbacks (Rollback),
--               prepare_up (Prepare), activate (Activate), check_down (Admit) and down (Down)
--   Helper/Switch, Helper/Remove    amneziawg_helper_switch.c and amneziawg_helper_remove.c
--   Helper/Quick        src/helper/amneziawg_quick_diagnostics.c (Quick, Quick.Classify) and the end of
--               it and of amneziawg_helper_quick.c (Quick.Result)
--   Helper/Keeps, Helper/Reads      rules for what an action keeps of the state
--   Helper/Safe, Helper/Outcomes, Helper/Decisions, Helper/Quick/Early  what is proved of them
--   Model       src/amneziawg/model.c: the saved profiles, their warning, and the start of a switch;
--               Model/Distinct, Model/Reachable, Model/Lookup: what its operations keep
--   Examples    tests, and the theorems at concrete inputs
--
-- How the code is read. A byte string is the list of its bytes; a C string is that list before the
-- terminating NUL; NULL is none where a function tests for it, and is left out elsewhere. A guint is
-- a native number, kept below 2 ^ 32 by the tests of the code; a gint64 is an integer with the bound
-- written out. Loops over spans are recursion on the list; printing a guint has ten digits of fuel,
-- which are enough below 2 ^ 32; the results of recv are a list, and recv takes no more than fits. An error is a value: none, or the code of
-- the GError and the line it names. The functions of GLib and the C library outside plain ASCII
-- (g_ascii_isspace, inet_pton, g_utf8_validate and the other functions on UTF-8, g_path_get_basename)
-- are parameters; what is used of them stands in the theorems.
--
-- The helper's functions are actions: they take the world and a session (the flag of the tunnel, the
-- journal that is passed by its address, and a log of what was done) and leave a result with new
-- ones; an early return is the other branch of a test. The log is a record for the theorems only: no
-- function reads it. The kernel, the resolver, the firewall, awg-quick, the files and the clock may
-- answer anything, and the theorems on the helper hold for every environment.
--
-- Parts that interact: the helper writes what Journal.Marker serializes and reads it back before it
-- classifies a session; Config scans both the profile and the output of awg-quick strip, hands the
-- DNS directives to Dns, and keeps a reserve for the link claim that the helper adds; Admission reads
-- the classified state; the helper observes the link again and decides with
-- Helper.Session; the client sends the line that the command server reads, and waits for its answer.
--
-- Not modelled: the GTK user interface, the asynchronous controller, D-Bus, processes, sockets and
-- files, and the helper's program, service and storage around its sessions, the rows
-- and snapshots that model.c builds; clearing secrets from memory and freeing; the
-- wording of messages.
pub mod Base
pub mod Names
pub mod Journal
pub mod Admission
pub mod Deadline
pub mod Dns
pub mod Config
pub mod Report
pub mod Ipc
pub mod Cli
pub mod RowState
pub mod Policy
pub mod Helper
pub mod Model
mod Examples
