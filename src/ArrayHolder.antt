-- ===== src/ArrayHolder.antt =====
-- windows_kext/driver/src/array_holder.rs: the bytes of an event that did not fit a read.
use Prim.Native.Nat.{ℕ}
use mathlib.Core.List.{List}
use mathlib.Core.Option.{Option, none, some}

abbrev pub ArrayHolder : Type 0
ArrayHolder = Option (List ℕ)

unfoldable pub default : ArrayHolder
default = none

unfoldable pub save : ArrayHolder → List ℕ → ArrayHolder
save holder bytes = some bytes

unfoldable pub load : ArrayHolder → ArrayHolder × Option (List ℕ)
load holder = (none, holder)

unfoldable pub clear : ArrayHolder → ArrayHolder
clear holder = none
