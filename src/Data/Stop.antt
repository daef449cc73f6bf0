-- ===== src/Data/Stop.antt =====
-- How a computation of twinleaf/src/data/mod.rs ends without a value: in a panic, which an overflow
-- is too, or in a loop that the fuel of the model does not reach the end of.
use twinleaf_rust.Shared.{Result, ok, err, Option, some, none}

pub data Stop : Type 0 where
  panicked out_of_fuel : Stop

-- `unwrap` of a result and of an option.
abbrev pub unwrap {ℓ κ} : {A : Type ℓ} {E : Type κ} → Result A E → Result A Stop
unwrap (ok a) = ok a
unwrap (err e) = err panicked

abbrev pub unwrap_some {ℓ} : {A : Type ℓ} → Option A → Result A Stop
unwrap_some (some a) = ok a
unwrap_some none = err panicked
