-- ===== src/Console/Hardware.antt =====
-- The hardware cursor and the scrolling of console.c, which no other code calls.
mod Tests
use orcas.Base.{
  ℕ, zero, suc, ◌+◌, ◌-◌, ◌*◌, ◌/◌, ◌%◌, ◌==◌, ◌≡◌, refl, bit_and, ◌>>>◌, ◌<<<◌, gt_int,
  if◌then◌else◌, u32, List, [], ◌∷◌,
}
use orcas.Port.{Event, outb}
use orcas.Console.{Console, csl_width, csl_height}

abbrev pub csl_port_cmd : ℕ
csl_port_cmd = 0x3d4

abbrev pub csl_port_data : ℕ
csl_port_data = 0x3d5

-- `high` and `low` are what the data port answers; the position, and the writes.
pub get_cursor : (high low : ℕ) → (ℕ × ℕ) × List Event
get_cursor high low =
    let offset = (high <<< 8) + low in
    ((offset / 80, offset % 80), outb csl_port_cmd 14 ∷ outb csl_port_cmd 15 ∷ [])

pub set_cursor : (x y : ℕ) → List Event
set_cursor x y =
    let offset = u32 (x * 80 + y) in
    outb csl_port_cmd 14
    ∷ outb csl_port_data (bit_and (offset >>> 8) 0xff)
    ∷ outb csl_port_cmd 15
    ∷ outb csl_port_data (bit_and offset 0xff)
    ∷ []

-- The `for` of `scroll`, with the rounds left.
scroll_loop : (left i : ℕ) → (ℕ → ℕ) → ℕ → ℕ
scroll_loop zero i video = video
scroll_loop (suc left) i video =
    scroll_loop left (i + 1)
      (λ a. if a == 0xb8000 + 2 * i then video (0xb8000 + 2 * (i + csl_width)) else video a)

pub scroll : Console → Console
unfolding scroll_loop
scroll k =
    if gt_int csl_height k.row
    then k
    else record k { video = scroll_loop (csl_height * csl_width) 0 k.video; row = csl_height - 1 }
