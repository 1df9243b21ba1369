-- ===== src/Timer.antt =====
-- timer.c and timer.h: the divisor of the interval timer.
pub mod Rate
mod Tests
use orcas.Base.{ℕ, ◌+◌, ◌/◌, ◌%◌, ◌^◌, bit_and, ◌>>>◌, u32, List, [], ◌∷◌}
use orcas.Port.{Event, outb}

abbrev chan0_data_port : ℕ
chan0_data_port = 0x40

abbrev pit_cmd_port : ℕ
pit_cmd_port = 0x43

abbrev pub frequency : ℕ
frequency = 1193180

abbrev pub set_freq : ℕ
set_freq = 100

pub timer_driver_init : List Event
timer_driver_init =
    let s : ℕ = frequency / set_freq in
    outb pit_cmd_port 0x36
    ∷ outb chan0_data_port (bit_and s 0xff)
    ∷ outb chan0_data_port (bit_and (s >>> 8) 0xff)
    ∷ []

-- `ticks++` on a uint32_t
pub timer_interrupt_handler : ℕ → ℕ
timer_interrupt_handler ticks = u32 (ticks + 1)
