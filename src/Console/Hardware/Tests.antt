-- ===== src/Console/Hardware/Tests.antt =====
-- The hardware cursor at one position, and a screen that does not scroll.
use orcas.Base.{◌≡◌, refl, [], ◌∷◌}
use orcas.Port.{outb}
use orcas.Console.{Console}
use orcas.Console.Hardware.{csl_port_cmd, csl_port_data, get_cursor, set_cursor, scroll}

cursor_read : (get_cursor 1 4).0 ≡ (3, 20)
unfolding get_cursor
cursor_read = refl

cursor_written : set_cursor 3 20 ≡ (
    outb csl_port_cmd 14 ∷ outb csl_port_data 1 ∷ outb csl_port_cmd 15 ∷ outb csl_port_data 4 ∷ [])
unfolding set_cursor
cursor_written = refl

not_scrolled : (k : Console) → k.row ≡ 3 → scroll k ≡ k
unfolding scroll
not_scrolled k e = rw e refl
