-- ===== src/Timer/Rate.antt =====
-- The rate at which the programmed timer interrupts.
use orcas.Base.{
  ℕ, zero, suc, ◌+◌, ◌*◌, ◌%◌, ◌^◌, ◌≤◌, ◌<◌, ◌≡◌, refl, arith, Option, none, some, List, [], ◌∷◌,
}
use orcas.Port.{Event, out_byte, outb}
use orcas.Timer.{frequency, set_freq, timer_driver_init, timer_interrupt_handler}

-- What the timer makes of the writes: command 0x36 selects channel 0, low byte first, in mode 3;
-- the two bytes that follow are its divisor.
abbrev divisor : List Event → Option ℕ
divisor (out_byte p c ∷ out_byte q lo ∷ out_byte r hi ∷ []) = some (lo + 256 * hi)
divisor _ = none

times : ℕ → ℕ → ℕ
times zero t = t
times (suc n) t = times n (timer_interrupt_handler t)

times-eq : (n t : ℕ) → t < 2 ^ 32 → times n t ≡ (t + n) % 2 ^ 32
unfolding times timer_interrupt_handler
times-eq zero t h = omega arith
times-eq (suc n) t h = omega (arith, times-eq n ((t + 1) % 2 ^ 32) (omega arith))

-- The divisor programmed is the whole part of the input frequency over the rate wanted, and fits
-- the timer's 16 bits; `n` interrupts later the tick counter has gone up by `n`, modulo 2 ^ 32.
timer_driver_init-divisor :
    (n t : ℕ)
    → t < 2 ^ 32
    → (d : ℕ) × (divisor timer_driver_init ≡ some d)
      × (d < 2 ^ 16)
      × (d * set_freq ≤ frequency)
      × (frequency < (d + 1) * set_freq)
      × (times n t ≡ (t + n) % 2 ^ 32)
unfolding timer_driver_init outb
timer_driver_init-divisor n t h =
    (11931, refl, omega arith, omega arith, omega arith, times-eq n t h)
