-- ===== src/RowState/Shown.antt =====
-- When a row of the sidebar shows a connection as active.
use network_manager_sidebar.Base.{◌≡◌, ◌↔◌, ◌⊎◌, arith, Option, none, some}
use network_manager_sidebar.RowState.{
  RowState, ActiveState, DeviceState, VpnState, ActiveConnection, connection_row_state,
  device_row_state, vpn_row_state, device_state_row, vpn_state_row,
}

-- A VPN row is shown as active exactly when its VPN connection is activated, or, where the active
-- connection is no VPN connection, when that is activated.
pub vpn_row_state-active :
    (connection : ActiveConnection)
    → (vpn_row_state (some connection) ≡ RowState.active) ↔ (
        (connection.vpn_state ≡ some VpnState.activated)
        ⊎ ((connection.vpn_state ≡ none) × (connection.state ≡ ActiveState.activated)))
unfolding vpn_row_state connection_row_state vpn_state_row
vpn_row_state-active connection = ground arith

-- A device row is shown as active exactly when its active connection is activated, or shows
-- nothing and the device is activated.
device_row_state-active :
    (device : Option DeviceState) (connection : Option ActiveConnection)
    → (device_row_state device connection ≡ RowState.active) ↔ (
        (connection_row_state connection ≡ RowState.active)
        ⊎ ((connection_row_state connection ≡ RowState.no_state)
            × (device ≡ some DeviceState.activated)))
unfolding device_row_state device_state_row connection_row_state
device_row_state-active device connection = ground arith
