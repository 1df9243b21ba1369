-- ===== src/Timer/Tests.antt =====
-- Three ticks from the last number.
use orcas.Base.{◌≡◌, refl}
use orcas.Timer.{timer_interrupt_handler}

ticks_wrap : timer_interrupt_handler 0xffffffff ≡ 0
unfolding timer_interrupt_handler
ticks_wrap = refl
