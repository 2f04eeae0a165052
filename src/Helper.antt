-- ===== src/Helper.antt =====
-- The AmneziaWG sessions of the privileged helper: helper/amneziawg_helper_session.c, _util.c,
-- _tunnel.c, _switch.c and _remove.c. The kernel, the resolver, the firewall, the storage and the
-- profiles are the operations of an `Environment`.
pub mod Environment
pub mod State
pub mod Keeps
pub mod Reads
pub mod Safe
pub mod Outcomes
pub mod Decisions
pub mod Session
pub mod Tunnel
pub mod Quick
pub mod Switch
pub mod Remove
