-- ===== src/Daemon/Link.antt =====
-- desktop/internal/transport/transport.go: what the two transports of the daemon ask of the system.
use toppa.Base.{Bool, true, false, Option, none, some, List, [], ◌∷◌, ◌++◌}
use toppa.Base.Bytes.{Bytes, codes}
use toppa.Base.Texts.{decimal}
use toppa.Daemon.{Transport, adb, wlan}

-- `exec` runs a command and tells whether it succeeded; `open_conn` dials an address; `join` is `net.JoinHostPort`.
module _ {W : Type 0} (exec : W → Bytes → List Bytes → W × Bool) where
  unfoldable pub prepare : W → Transport → W × Bool
  unfolding decimal
  prepare w (adb binary host_port phone_port) = exec w binary (
      codes "forward"
      ∷ (codes "tcp:" ++ decimal host_port)
      ∷ (codes "tcp:" ++ decimal phone_port)
      ∷ [])
  prepare w (wlan addr) = (w, true)

module _ {W Conn : Type 0} (open_conn : W → Bytes → W × Option Conn) where
  -- `dial`; that Nagle's algorithm is off is a setting of the socket.
  unfoldable pub dial : (Bytes → Bytes → Bytes) → W → Transport → W × Option Conn
  unfolding decimal
  dial join w (adb binary host_port phone_port) =
      open_conn w (join (codes "127.0.0.1") (decimal host_port))
  dial join w (wlan addr) = open_conn w addr

  unfoldable pub probed : W × Option Conn → W × Bool
  probed (w, none) = (w, false)
  probed (w, some c) = (w, true)

  unfoldable pub available : (W → Bytes → List Bytes → W × Bool) → W → Transport → W × Bool
  unfolding probed
  available exec w (adb binary host_port phone_port) = exec w binary (codes "get-state" ∷ [])
  available exec w (wlan addr) = probed (open_conn w addr)

  -- `Loopback`: it is always available and dials its address; `Prepare` does nothing.
  unfoldable pub loopback_available : W → W × Bool
  loopback_available w = (w, true)

  unfoldable pub loopback_prepare : W → W × Bool
  loopback_prepare w = (w, true)

  unfoldable pub loopback_dial : W → Bytes → W × Option Conn
  loopback_dial w addr = open_conn w addr
