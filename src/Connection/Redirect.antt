-- ===== src/Connection/Redirect.antt =====
-- Redirection: which keys a redirected connection answers to, and what `redirect_info` tells.
use Prim.Native.Nat.{ℕ}
use mathlib.Core.Path.{◌≡◌}
use mathlib.Core.Bool.{true, false}
use mathlib.Core.Option.{Option, none, some}
use native.Mathlib.Omega.{arith}
use windows_kext_mod.Key.{Key, Platform}
use windows_kext_mod.Connection.{RedirectInfo, redirect_info, is_redirect_port}
use windows_kext_mod.Connection.V4
use windows_kext_mod.Connection.V6
use windows_kext_mod.Connection.V4.{ConnectionV4, connection_v4}
use windows_kext_mod.Connection.V6.{ConnectionV6, connection_v6}

-- The port of a redirection, if there is one.
abbrev pub port_of : Option RedirectInfo → Option ℕ
port_of none = none
port_of (some r) = some r.redirect_port

-- With special ports not ignored, a key that a redirected IPv4 connection answers to has a remote
-- port for which the redirect scan runs, and `redirect_info` of the connection names that port.
pub redirect_port_scanned_v4 :
    (p : Platform) (x : ConnectionV4) (k : Key)
    → p.ignore_special_ports ≡ false
    → (connection_v4 p).redirect_equals x k ≡ true
    → (is_redirect_port p k.remote_port ≡ true)
      × (port_of (redirect_info p (connection_v4 p) x) ≡ some k.remote_port)
unfolding connection_v4 V4.redirect_equals is_redirect_port redirect_info
redirect_port_scanned_v4 p x k i h = ground arith

-- With special ports not ignored, a key that a redirected IPv6 connection answers to has a remote
-- port for which the redirect scan runs, and `redirect_info` of the connection names that port.
pub redirect_port_scanned_v6 :
    (p : Platform) (x : ConnectionV6) (k : Key)
    → p.ignore_special_ports ≡ false
    → (connection_v6 p).redirect_equals x k ≡ true
    → (is_redirect_port p k.remote_port ≡ true)
      × (port_of (redirect_info p (connection_v6 p) x) ≡ some k.remote_port)
unfolding connection_v6 V6.redirect_equals is_redirect_port redirect_info
redirect_port_scanned_v6 p x k i h = ground arith
