-- ===== src/Memory/Copy.antt =====
-- `copypgt`, with `memmove` on memory that holds words.
use orcas.Base.{
  ℕ, zero, suc, ◌+◌, ◌-◌, ◌*◌, ◌/◌, ◌%◌, ◌^◌, ◌<◌, ◌≡◌, refl, ◌==◌, if◌then◌else◌, bit_or, arith,
}
use orcas.Memory.Page.{pg_size, ppn, offset, offset-eq, vtop, ptov}
use orcas.Memory.Machine.{Machine, store}
use orcas.Memory.Pool.{alloc_page}
use orcas.Memory.Table.{getpte, translate, map}
use orcas.Memory.Table.Entry.{IsDirectory}
use orcas.Memory.Table.Map.{IsReady}
use orcas.Memory.Table.Translate.{map-translate}

-- `*(char *)a`, the lowest byte of a word first.
byte_at : (a : ℕ) → Machine → ℕ
byte_at a m = m.ram (a / 4 * 4) / 256 ^ (a % 4) % 256

-- `*(char *)a = v`
put_byte : (a v : ℕ) → Machine → Machine
unfolding byte_at
put_byte a v m =
    let place = 256 ^ (a % 4) in
    store (a / 4 * 4) (m.ram (a / 4 * 4) - byte_at a m * place + v * place) m

unfoldable pub memmove : (dst src cnt : ℕ) → Machine → Machine
unfolding put_byte
memmove dst src zero m = m
memmove dst src (suc cnt) m = memmove (dst + 1) (src + 1) cnt (put_byte dst (byte_at src m) m)

-- The body of the loop, for the page at `p`.
copy_page : (opgd npgd p : ℕ) → Machine → Machine
unfolding memmove
copy_page opgd npgd p m =
    let pte = getpte opgd p m in
    let flags = offset pte in
    let pa = bit_or (ppn pte) flags in
    let (npa, m1) = alloc_page m in
    (map npgd p (vtop npa) flags (memmove npa (ptov pa) pg_size m1)).1

copy_pages : (left opgd npgd p : ℕ) → Machine → Machine
copy_pages zero opgd npgd p m = m
copy_pages (suc left) opgd npgd p m =
    copy_pages left opgd npgd (p + pg_size) (copy_page opgd npgd p m)

-- For sizes up to 2^31, where the `int` of the loop does not wrap.
pub copypgt : (opgd size : ℕ) → Machine → ℕ × Machine
unfolding copy_pages
copypgt opgd size m =
    let (npgd, m1) = alloc_page m in
    (npgd, copy_pages ((size + pg_size - 1) / pg_size) opgd npgd 0 m1)

byte_of_word :
    (k w v : ℕ)
    → k < 4
    → v < 256
    → (w - w / 256 ^ k % 256 * 256 ^ k + v * 256 ^ k) / 256 ^ k % 256 ≡ v
byte_of_word zero w v h p = omega arith
byte_of_word (suc zero) w v h p = omega arith
byte_of_word (suc (suc zero)) w v h p = omega arith
byte_of_word (suc (suc (suc zero))) w v h p = omega arith
byte_of_word (suc (suc (suc (suc k)))) w v h p = absurd (omega (arith, h))

-- A byte that has been written is read back.
byte_at-put_byte : (a v : ℕ) (m : Machine) → v < 256 → byte_at a (put_byte a v m) ≡ v
unfolding put_byte store
byte_at-put_byte a v m h =
    ground (arith, byte_of_word (a % 4) (m.ram (a / 4 * 4)) v (omega arith) h)

-- A copy of nothing is a directory in a page as it comes from the pool, not cleared.
copypgt-none : (opgd : ℕ) (m : Machine) → copypgt opgd 0 m ≡ alloc_page m
unfolding copypgt copy_page
copypgt-none opgd m = refl

vtop-small : (a : ℕ) → vtop a < 2 ^ 32
unfolding vtop
vtop-small a = omega arith

-- The machine before the `map` of the loop: the frame of the page at `p` has been copied.
abbrev frame_copied : (opgd p : ℕ) → Machine → Machine
frame_copied opgd p m =
    let pte = getpte opgd p m in
    let (npa, m1) = alloc_page m in memmove npa (ptov (bit_or (ppn pte) (offset pte))) pg_size m1

-- One round on a well-formed directory with room for a table: the new directory maps the page whose
-- address is that of the new frame, less KERNELBASE, onto the frame at `p`, and what it mapped
-- before. The address of the page and that of the frame have changed places.
copy_page-swaps :
    (opgd npgd p other : ℕ) (m : Machine)
    → IsDirectory npgd (frame_copied opgd p m).ram
    → IsReady npgd (vtop (alloc_page m).0) (frame_copied opgd p m)
    → p < 2 ^ 32
    → other < 2 ^ 32
    → translate npgd other (copy_page opgd npgd p m) ≡ (
        if other / pg_size == vtop (alloc_page m).0 / pg_size
        then p / pg_size * pg_size + other % pg_size
        else translate npgd other (frame_copied opgd p m))
unfolding copy_page
copy_page-swaps opgd npgd p other m d ready hp ho =
    map-translate npgd p (vtop (alloc_page m).0) (offset (getpte opgd p m)) (frame_copied opgd p m)
      d hp (omega (arith, vtop-small (alloc_page m).0)) (omega (arith, offset-eq (getpte opgd p m)))
      ready other ho
