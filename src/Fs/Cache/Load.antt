-- ===== src/Fs/Cache/Load.antt =====
-- A read of a block that is not in the cache, on a drive that has the data when it is asked.
use orcas.Base.{
  ℕ, suc, ◌/◌, ◌%◌, ◌^◌, ◌<◌, ◌==◌, ◌≡◌, ◌≢◌, refl, sym, ap, ◌∙◌, arith, if◌then◌else◌, List, [],
  ◌∷◌, ◌++◌, some, get_or,
}
use orcas.Port.{outb}
use orcas.Ide.{Block, select_sector, hard_read_wait, to_bytes, ide_cmd_port, ide_cmd_r_pio}
use orcas.Ide.Disk.{Drive, run, data_words, select_sector-data}
use orcas.Ide.Poll.{hard_read_wait-one_answer}
use orcas.Util.{put}
use orcas.Fs.Cache.{Cache, null, b_valid, get_cached_block, take_hit}
use orcas.Fs.Cache.Disk.{
  Store, block_of, with_block, read_into, read_missed, block_read, block_read-hit, buffer_of,
  IsCached,
}
use orcas.Fs.Cache.Free.{IsFree}
use orcas.Fs.Cache.Queue.{get_cached_block-miss}

-- The store after a transfer into the buffer `p`.
abbrev loaded : (p : ℕ) → (rest : List ℕ) → Store → Store
loaded p rest s =
    let blk = block_of p s.cache in
    record {
      cache =
          with_block p
            (record blk {
              buf = to_bytes (s.disk.sectors (blk.device % 2) blk.block);
              flags = b_valid;
            })
            s.cache;
      disk = run (select_sector blk ++ (outb ide_cmd_port ide_cmd_r_pio ∷ [])) s.disk;
      answers = rest;
    }

hard_read_wait-clear :
    (blk : Block) (d : Drive) (first : ℕ) (rest : List ℕ)
    → first / 2 ^ 7 % 2 ≡ 0
    → first / 2 ^ 3 % 2 ≡ 1
    → first % 2 ≡ 0
    → blk.block < 2 ^ 28
    → let sent = select_sector blk ++ (outb ide_cmd_port ide_cmd_r_pio ∷ []) in
      hard_read_wait blk (first ∷ rest) (data_words (run sent d))
      ≡ some (
        0,
        sent,
        record blk { buf = to_bytes (d.sectors (blk.device % 2) blk.block); flags = b_valid },
        rest,
      )
hard_read_wait-clear blk d first rest ready request clear near =
    hard_read_wait-one_answer blk first rest _
    ∙ ground (arith, clear, select_sector-data blk d first near ready request)

read_into-clear :
    (p first : ℕ) (rest : List ℕ) (s : Store)
    → s.answers ≡ first ∷ rest
    → first / 2 ^ 7 % 2 ≡ 0
    → first / 2 ^ 3 % 2 ≡ 1
    → first % 2 ≡ 0
    → s.cache.block p < 2 ^ 28
    → read_into p s ≡ some (0, loaded p rest s)
unfolding read_into
read_into-clear p first rest s e ready request clear near =
    rw
      (
        e,
        hard_read_wait-clear (block_of p s.cache) s.disk first rest ready request clear near,
        read_into,
      )
      refl

block_read-missed :
    (fuel block x : ℕ) (s s1 : Store) (c : Cache)
    → get_cached_block fuel 0 block s.cache ≡ some (x, c)
    → c.flags x ≢ b_valid
    → read_into x (record s { cache = c }) ≡ some (0, s1)
    → block_read fuel 0 block s
      ≡ some (x, record s1 { cache = record s1.cache { flags = put x b_valid s1.cache.flags } })
unfolding block_read read_missed
block_read-missed fuel block x s s1 c got invalid run_into =
    rw (got, block_read) (ground (arith, invalid, run_into))

filled :
    (x dev block blk i : ℕ) (sectors : ℕ → ℕ → List ℕ) (old : ℕ → ℕ → ℕ)
    → dev ≡ 0
    → blk ≡ block
    → (if x == x then (λ j. get_or (to_bytes (sectors (dev % 2) blk)) j 0) else old x) i
      ≡ get_or (to_bytes (sectors 0 block)) i 0
filled x dev block blk i sectors old e d = rw (e, d) (ground arith)

-- A block below 2^28 whose bucket is empty is read from its sector of drive 0 into the free buffer
-- that was used least recently, if the flags of that buffer are not B_VALID and the drive's first
-- answer has BSY clear, DRQ set and ERR clear. The buffer then holds the sector and is valid, and
-- reading the block again gives the same buffer, without the drive.
pub block_read-loads :
    (fuel block x first i : ℕ) (xs rest : List ℕ) (s : Store)
    → IsFree s.cache (x ∷ xs)
    → buffer_of block s.cache ≡ null
    → s.cache.flags x ≢ b_valid
    → s.answers ≡ first ∷ rest
    → first / 2 ^ 7 % 2 ≡ 0
    → first / 2 ^ 3 % 2 ≡ 1
    → first % 2 ≡ 0
    → block < 2 ^ 28
    → (s1 : Store) × (s2 : Store) × (block_read (suc fuel) 0 block s ≡ some (x, s1))
      × (s1.cache.buf x i ≡ get_or (to_bytes (s.disk.sectors 0 block)) i 0)
      × (s1.cache.flags x ≡ b_valid)
      × (s1.answers ≡ rest)
      × (block_read (suc fuel) 0 block s1 ≡ some (x, s2))
      × (s2.cache.buf ≡ s1.cache.buf)
      × (s2.answers ≡ rest)
unfolding with_block block_of take_hit
block_read-loads fuel block x first i xs rest s free empty invalid e ready request clear near =
    let (c, got, _, held, its_device, its_block, its_flags) =
      get_cached_block-miss (suc fuel) 0 block x xs s.cache free empty in
    let s0 : Store = record s { cache = c } in
    let in_reach : c.block x < 2 ^ 28 = rw its_block near in
    let run_into = read_into-clear x first rest s0 e ready request clear in_reach in
    let loaded_store : Store = loaded x rest s0 in
    let s1 : Store = record loaded_store {
      cache = record loaded_store.cache { flags = put x b_valid loaded_store.cache.flags };
    } in
    let ((x0, _), _) = free.distinct in
    let found : IsCached block s1.cache = record {
      not_null = rw held (λ z. x0 (sym z));
      its_device = rw held its_device;
      its_block = rw held its_block;
    } in
    (
      s1,
      record s1 { cache = take_hit x s1.cache },
      block_read-missed (suc fuel) block x s loaded_store c got (rw its_flags invalid) run_into,
      filled x (c.device x) block (c.block x) i s.disk.sectors c.buf its_device its_block,
      ground arith,
      refl,
      block_read-hit fuel block s1 found
          ∙ ap (λ p. some (p, record s1 { cache = take_hit p s1.cache })) held,
      refl,
      refl,
    )
