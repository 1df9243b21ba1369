-- ===== src/Fs/Cache/Wait.antt =====
-- `hardRead` of ide.c up to its call of thrCondWait, on the links of the cached buffers. The head of
-- its queue, blkWaitQueue, is a pointer that nothing sets, and so NULL.
use orcas.Base.{ℕ, ◌≡◌, ◌≢◌, ◌==◌, if◌then◌else◌, arith, List, [], ◌∷◌, ◌++◌, fun_ext, sym}
use mathlib.Core.Path.{subst}
use orcas.Port.{Event, outb}
use orcas.Ide.{select_sector, ide_cmd_port, ide_cmd_r_pio}
use orcas.Util.{put}
use orcas.Fs.Cache.{Cache, lru_list_head, put_free}
use orcas.Fs.Cache.Disk.{block_of}
use orcas.Fs.Cache.Free.{IsFree, IsRing, NotIn}
use orcas.Fs.Cache.Queue.{put_free-IsFree}

abbrev wait_queue : ℕ
wait_queue = 0

-- Step 3: the buffer goes to the tail of the queue.
enqueue : (blk : ℕ) → Cache → Cache
enqueue blk c =
    if c.lru_prev wait_queue == wait_queue
    then record c {
      lru_next = put blk wait_queue (put wait_queue blk c.lru_next);
      lru_prev = put blk wait_queue (put wait_queue blk c.lru_prev);
    }
    else (let prev = put blk (c.lru_prev wait_queue) c.lru_prev in
        record c {
          lru_next = put blk wait_queue (put (prev wait_queue) blk c.lru_next);
          lru_prev = put wait_queue blk prev;
        })

-- What is sent to the drive, and the cache.
pub hard_read : (blk : ℕ) → Cache → List Event × Cache
unfolding enqueue
hard_read blk c =
    (select_sector (block_of blk c) ++ (outb ide_cmd_port ide_cmd_r_pio ∷ []), enqueue blk c)

module _ (blk : ℕ) (c : Cache) (ne : blk ≢ wait_queue) where
  enqueue-next : (enqueue blk c).lru_next ≡ (put_free blk c).lru_next
  unfolding enqueue put_free
  enqueue-next = fun_ext λ a. ground (arith, ne)

  enqueue-prev : (enqueue blk c).lru_prev ≡ (put_free blk c).lru_prev
  unfolding enqueue put_free
  enqueue-prev = fun_ext λ a. ground (arith, ne)

-- The queue of the readers is the list of the free buffers: both heads are at NULL. A buffer in use
-- that is read through the interrupt is put behind the free ones, to be given to another block.
pub hard_read-IsFree :
    (blk : ℕ) (xs : List ℕ) (c : Cache)
    → IsFree c xs
    → NotIn blk (lru_list_head ∷ xs)
    → IsFree (hard_read blk c).1 (xs ++ (blk ∷ []))
unfolding hard_read
hard_read-IsFree blk xs c h fresh =
    subst (λ n. IsRing n (enqueue blk c).lru_prev (xs ++ (blk ∷ [])))
      (sym (enqueue-next blk c fresh.0))
      (subst (λ p. IsRing (put_free blk c).lru_next p (xs ++ (blk ∷ [])))
        (sym (enqueue-prev blk c fresh.0)) (put_free-IsFree blk xs c h fresh))
