-- ===== src/Log.antt =====
-- log.c. A block is its 128 words. `Io` is the disk under the buffer cache: `cache` gives what
-- `bread` returns, `bwrite` copies a buffer to the disk, and `past` keeps every earlier state of the
-- disk, since the machine may stop after any write.
pub mod Header
pub mod Phases
pub mod Atomic
pub mod Space
mod Tests
use os_project2_test.Prelude.{
  ℕ, zero, suc, ◌+◌, ◌-◌, ◌*◌, Bool, true, false, not, ◌&&◌, ◌||◌, Option, none, some, List, [],
  ◌∷◌, ◌++◌, ◌==◌, leb, ltb, if◌then◌else◌, get_or, set, length,
}

abbrev pub Block : Type 0
Block = List ℕ

abbrev pub Disk : Type 0
Disk = ℕ → Block

abbrev pub put : Disk → ℕ → Block → Disk
put d a v b = if a == b then v else d b

pub record Io : Type 0 where
  pub disk : Disk
  pub cache : Disk
  pub past : List Disk

-- A change to the buffer of block `b`.
abbrev pub modify_buf : Io → ℕ → Block → Io
modify_buf io b v = record io { cache = put io.cache b v }

abbrev pub bwrite : Io → ℕ → Io
bwrite io b = record io { disk = put io.disk b (io.cache b); past = io.disk ∷ io.past }

abbrev pub maxopblocks : ℕ
maxopblocks = 10

abbrev pub logsize : ℕ
logsize = 30

-- `struct log`, with the first `lh.n` entries of `lh.block` as a list.
pub record Log : Type 0 where
  pub start : ℕ
  pub size : ℕ
  pub outstanding : ℕ
  pub committing : Bool
  pub lh : List ℕ

-- The header on disk: the count in word 0, block numbers from word 1 on.
pub read_words : Block → ℕ → ℕ → List ℕ
read_words blk i zero = []
read_words blk i (suc n) = get_or blk i 0 ∷ read_words blk (suc i) n

abbrev pub decode : Block → List ℕ
decode blk = read_words blk 1 (get_or blk 0 0)

pub write_words : Block → ℕ → List ℕ → Block
write_words blk i [] = blk
write_words blk i (x ∷ xs) = write_words (set blk i x) (suc i) xs

abbrev pub encode : Block → List ℕ → Block
encode blk lh = write_words (set blk 0 (length lh)) 1 lh

pub install_trans : ℕ → List ℕ → ℕ → Io → Io
install_trans start [] tail io = io
install_trans start (b ∷ bs) tail io =
    install_trans start bs (suc tail) (bwrite (modify_buf io b (io.cache (start + tail + 1))) b)

abbrev pub read_head : ℕ → Io → List ℕ
read_head start io = decode (io.cache start)

abbrev pub write_head : ℕ → List ℕ → Io → Io
write_head start lh io = bwrite (modify_buf io start (encode (io.cache start) lh)) start

pub recover_from_log : ℕ → Io → Io
recover_from_log start io = write_head start [] (install_trans start (read_head start io) 0 io)

-- The machine starts on this disk, with an empty cache.
abbrev pub boot : Disk → Io
boot d = record { disk = d; cache = d; past = [] }

pub write_log : ℕ → List ℕ → ℕ → Io → Io
write_log start [] tail io = io
write_log start (b ∷ bs) tail io =
    write_log start bs (suc tail)
      (bwrite (modify_buf io (start + tail + 1) (io.cache b)) (start + tail + 1))

-- `commit` with the block numbers of `log.lh`, which is empty afterwards.
pub commit : ℕ → List ℕ → Io → Io
commit start [] io = io
commit start (b ∷ bs) io =
    let logged = write_head start (b ∷ bs) (write_log start (b ∷ bs) 0 io) in
    write_head start [] (install_trans start (b ∷ bs) 0 logged)

-- `none` is to sleep and try again.
pub begin_op : Log → Option Log
begin_op log =
    if log.committing
    then none
    else if ltb logsize (length log.lh + (log.outstanding + 1) * maxopblocks)
    then none
    else some (record log { outstanding = log.outstanding + 1 })

-- Up to the commit, with whether to commit; `none` is a panic. `outstanding` is above 0 here.
pub end_op : Log → Option (Log × Bool)
end_op log =
    let left = log.outstanding - 1 in
    if log.committing
    then none
    else if left == 0
    then some (record log { outstanding = left; committing = true }, true)
    else some (record log { outstanding = left }, false)

-- After the commit.
abbrev pub end_commit : Log → Log
end_commit log = record log { lh = []; committing = false }

-- The loop of `log_write`, which leaves a block that is logged already in its place.
pub absorb : ℕ → List ℕ → List ℕ
absorb b [] = b ∷ []
absorb b (c ∷ cs) = if c == b then c ∷ cs else c ∷ absorb b cs

-- `none` is a panic.
pub log_write : Log → ℕ → Option Log
log_write log b =
    if leb logsize (length log.lh) || leb log.size (length log.lh + 1)
    then none
    else if ltb log.outstanding 1
    then none
    else some (record log { lh = absorb b log.lh })
