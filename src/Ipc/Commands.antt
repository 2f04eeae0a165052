-- ===== src/Ipc/Commands.antt =====
-- ipc_commands.c: the commands of the program and the classes they fall into.
use network_manager_sidebar.Base.{
  ◌≡◌, arith, Bool, false, ◌&&◌, ◌||◌, Bytes, codes, equal, equal_sound,
}

abbrev pub toggle : Bytes
toggle = codes "toggle"

abbrev pub show : Bytes
show = codes "show"

abbrev pub hide : Bytes
hide = codes "hide"

abbrev pub quit : Bytes
quit = codes "quit"

abbrev pub reload_css : Bytes
reload_css = codes "reload-css"

abbrev pub background : Bytes
background = codes "background"

abbrev pub ping : Bytes
ping = codes "ping"

unfoldable pub command_is_application : Bytes → Bool
command_is_application command =
    equal command toggle
    || equal command show
    || equal command hide
    || equal command quit
    || equal command reload_css
    || equal command background

unfoldable pub command_is_startup : Bytes → Bool
command_is_startup command = equal command toggle || equal command show || equal command background

unfoldable pub command_is_ipc_only : Bytes → Bool
command_is_ipc_only command = equal command hide || equal command quit || equal command reload_css

unfoldable pub command_is_socket : Bytes → Bool
command_is_socket command =
    equal command toggle
    || equal command show
    || equal command hide
    || equal command quit
    || equal command reload_css
    || equal command ping

-- A command of the application starts it or is for a running instance only, and never both.
pub command_is_application-partition :
    (command : Bytes)
    → (command_is_application command ≡ (command_is_startup command || command_is_ipc_only command))
      × (command_is_startup command && command_is_ipc_only command ≡ false)
unfolding command_is_application command_is_startup command_is_ipc_only
command_is_application-partition command = (
  ground arith,
  ground
      (arith, equal_sound command toggle, equal_sound command show, equal_sound command background),
)
