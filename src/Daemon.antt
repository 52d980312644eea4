-- ===== src/Daemon.antt =====
-- desktop/internal/daemon/daemon.go: the choice of a transport, one session from its start to its teardown,
-- and the loop that reconnects.
pub mod Connect
pub mod Run
pub mod Teardown
pub mod Backoff
pub mod Reconnect
pub mod Link
pub mod Control
pub mod Parts
pub mod Doh
pub mod Fitting
pub mod Examples
use toppa.Base.{
  ℕ, ◌+◌, ◌*◌, ◌/◌, ◌%◌, ◌^◌, Bool, true, false, ◌&&◌, ◌||◌, Option, none, some, List, [], ◌∷◌,
}
use toppa.Base.Tests.{◌==◌, leb, if◌then◌else◌}
use toppa.Base.Lists.{is_empty}
use toppa.Base.Bytes.{Bytes, codes}
use toppa.Base.Ints.{ℤ}
use toppa.Base.Texts.{same_text}
use toppa.Config

-- `StateOnline`, `StateConnecting`, `StateOffline`
pub data State : Type 0 where
  online connecting offline : State

pub data Transport : Type 0 where
  -- the executable, the port on the host and the port on the phone
  adb : Bytes → ℤ → ℤ → Transport
  wlan : Bytes → Transport

abbrev pub transport_id : Transport → Bytes
transport_id (adb binary host_port phone_port) = codes "usb"
transport_id (wlan addr) = codes "hotspot"

-- What the control interface sees, and whether the channel `reconnect`, of capacity one, holds a signal.
pub record Daemon : Type 0 where
  pub state : State
  pub transport : Bytes
  pub since : ℕ
  pub reconnect : Bool

-- The path of the journal that `New` opens.
unfoldable pub journal_path : toppa.Config.Config → Bytes
journal_path cfg =
    if is_empty cfg.daemon.journal_path then codes "toppa-journal.json" else cfg.daemon.journal_path

-- `New`, at time `now`.
unfoldable pub new : ℕ → Daemon
new now = record { state = offline; transport = []; since = now; reconnect = false }

-- `Reconnect`: a second signal is dropped while one is waiting.
unfoldable pub signal : Daemon → Daemon
signal d = record d { reconnect = true }

-- What a name of `transport.priority` stands for.
unfoldable pub transport_of : toppa.Config.Config → Bytes → Option Transport
unfolding same_text
transport_of cfg name =
    if same_text name (codes "usb")
    then some (adb cfg.transport.adb.binary cfg.transport.adb.host_port cfg.tunnel.listen_port)
    else if same_text name (codes "hotspot")
    then (if is_empty cfg.transport.hotspot_addr
        then none
        else some (wlan cfg.transport.hotspot_addr))
    else none

unfoldable pub usable : (Transport → Bool) → Option Transport → Option Transport → Option Transport
usable available none others = others
usable available (some t) others = if available t then some t else others

-- `pickTransport`; `available` is the transport's `Available` at this time.
unfoldable pub pick_transport :
    toppa.Config.Config → (Transport → Bool) → List Bytes → Option Transport
unfolding usable transport_of
pick_transport cfg available [] = none
pick_transport cfg available (name ∷ names) =
    usable available (transport_of cfg name) (pick_transport cfg available names)
