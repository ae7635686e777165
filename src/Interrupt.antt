-- ===== src/Interrupt.antt =====
-- sparrow/kernel/interrupt.c: the interrupt flag. A function returns the status from before the
-- call and the flag that it leaves; `true` is INTR_ON.
use sparrow_os.Common.{Bool, true, false, if◌then◌else◌, ◌≡◌, arith}

unfoldable pub intr_get_status : Bool → Bool
intr_get_status flag = if flag then true else false

unfoldable pub intr_enable : Bool → Bool × Bool
unfolding intr_get_status
intr_enable flag = if intr_get_status flag then (true, flag) else (false, true)

unfoldable pub intr_disable : Bool → Bool × Bool
unfolding intr_get_status
intr_disable flag = if intr_get_status flag then (true, false) else (false, flag)

unfoldable pub intr_set_status : Bool → Bool → Bool × Bool
unfolding intr_enable intr_disable
intr_set_status status flag = if status then intr_enable flag else intr_disable flag

-- Disabling interrupts and restoring the old status leaves the flag as it was, on or off.
pub intr_set_status-intr_disable :
    (flag : Bool) → (intr_set_status (intr_disable flag).0 (intr_disable flag).1).1 ≡ flag
unfolding intr_set_status intr_disable
intr_set_status-intr_disable flag = ground arith

-- `intr_disable` tells the status from before and leaves interrupts off.
pub intr_disable_lem : (flag : Bool) → intr_disable flag ≡ (flag, false)
unfolding intr_disable
intr_disable_lem flag = ground arith

-- `intr_set_status` sets the flag to the status, whatever it was.
pub intr_set_status_lem : (status flag : Bool) → (intr_set_status status flag).1 ≡ status
unfolding intr_set_status
intr_set_status_lem status flag = ground arith
