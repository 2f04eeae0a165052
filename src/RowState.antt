-- ===== src/RowState.antt =====
-- data/connection_state.c: the state that a row of the sidebar shows, from the states that libnm
-- reports.
pub mod Shown
use network_manager_sidebar.Base.{Bool, true, false, Option, none, some}

pub data RowState : Type 0 where
  no_state active connecting failed disconnected : RowState

-- NMActiveConnectionState.
pub data ActiveState : Type 0 where
  unknown activating activated deactivating deactivated : ActiveState

-- NMDeviceState.
pub data DeviceState : Type 0 where
  unknown unmanaged unavailable disconnected prepare : DeviceState
  config need_auth ip_config ip_check secondaries : DeviceState
  activated deactivating failed : DeviceState

-- NMVpnConnectionState.
pub data VpnState : Type 0 where
  unknown prepare need_auth connect ip_config_get : VpnState
  activated failed disconnected : VpnState

-- An active connection: its state, and its VPN state where it is a NMVpnConnection.
pub record ActiveConnection : Type 0 where
  pub state : ActiveState
  pub vpn_state : Option VpnState

-- NULL is `none`.
unfoldable pub connection_row_state : Option ActiveConnection → RowState
connection_row_state none = RowState.no_state
connection_row_state (some connection) = elim connection.state [
  | ActiveState.activated ↦ RowState.active
  | ActiveState.activating ↦ RowState.connecting
  | _ ↦ RowState.no_state
]

-- The switch on the state of a device.
unfoldable pub device_state_row : DeviceState → RowState
device_state_row DeviceState.activated = RowState.active
device_state_row DeviceState.prepare = RowState.connecting
device_state_row DeviceState.config = RowState.connecting
device_state_row DeviceState.need_auth = RowState.connecting
device_state_row DeviceState.ip_config = RowState.connecting
device_state_row DeviceState.ip_check = RowState.connecting
device_state_row DeviceState.secondaries = RowState.connecting
device_state_row DeviceState.failed = RowState.failed
device_state_row DeviceState.disconnected = RowState.disconnected
device_state_row DeviceState.unavailable = RowState.disconnected
device_state_row DeviceState.deactivating = RowState.disconnected
device_state_row DeviceState.unknown = RowState.no_state
device_state_row DeviceState.unmanaged = RowState.no_state

abbrev device_or_none : Option DeviceState → RowState
device_or_none none = RowState.no_state
device_or_none (some state) = device_state_row state

unfoldable pub device_row_state : Option DeviceState → Option ActiveConnection → RowState
unfolding device_state_row
device_row_state device connection = elim (connection_row_state connection) [
  | RowState.no_state ↦ device_or_none device
  | state ↦ state
]

abbrev without_active : RowState → RowState
without_active RowState.active = RowState.no_state
without_active state = state

-- The switch on the state of a VPN connection; `generic` is the state of the active connection.
unfoldable pub vpn_state_row : RowState → VpnState → RowState
vpn_state_row generic VpnState.activated = RowState.active
vpn_state_row generic VpnState.prepare = RowState.connecting
vpn_state_row generic VpnState.need_auth = RowState.connecting
vpn_state_row generic VpnState.connect = RowState.connecting
vpn_state_row generic VpnState.ip_config_get = RowState.connecting
vpn_state_row generic VpnState.failed = RowState.failed
vpn_state_row generic VpnState.disconnected = RowState.disconnected
vpn_state_row generic VpnState.unknown = without_active generic

unfoldable pub vpn_row_state : Option ActiveConnection → RowState
unfolding vpn_state_row connection_row_state
vpn_row_state none = RowState.no_state
vpn_row_state (some connection) = elim connection.vpn_state [
  | none ↦ connection_row_state (some connection)
  | some state ↦ vpn_state_row (connection_row_state (some connection)) state
]
