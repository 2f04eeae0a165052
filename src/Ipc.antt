-- ===== src/Ipc.antt =====
-- core/ipc.c, core/ipc_commands.c and core/target_output.c: the socket between client and GUI.
pub mod Commands
pub mod Line
pub mod Receive
pub mod Response
pub mod Server
pub mod LineRoundTrip
pub mod Answer
