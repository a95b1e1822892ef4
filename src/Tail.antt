-- ===== src/Tail.antt =====
-- tail.c: where the last lines of a file begin, and what is shown from there on.
pub mod Seek
pub mod Follow
pub mod Shown
use task_spooler.Base.{
  ℕ, zero, suc, ◌+◌, ◌-◌, Bool, true, false, List, [], ◌∷◌, Option, none, some, get_elem?, length,
  take, drop, ltb, leb, ◌==◌, ◌&&◌, ite, if◌then◌else◌,
}
use task_spooler.Base.Int.{ℤ, pos, pos_part, wrap, minus_one, ℤ_discrete, ltb_ℤ, leb_ℤ}
use task_spooler.State.{Text}

abbrev pub bsize : ℕ
bsize = 1024

abbrev pub min : ℤ → ℤ → ℤ
min a b = if ltb_ℤ a b then a else b

abbrev pub is_newline : Option ℕ → Bool
is_newline none = false
is_newline (some c) = c == b'\n'

-- The lines found, and the number of the bytes of the block before the place where the search stopped.
pub record Found : Type 0 where
  pub lines_found : ℕ
  pub move_offset : ℕ

-- The loop over a block, from its end, with `n` of its bytes left.
unfoldable pub scan_block : ℕ → Text → ℕ → ℕ → Found
scan_block lines buf zero lines_found = record { lines_found = lines_found; move_offset = 0 }
scan_block lines buf (suc n) lines_found =
    let hit = is_newline (get_elem? buf n) in
    let found = if hit then lines_found + 1 else lines_found in
    let rest = scan_block lines buf n found in
    if hit && ltb lines found then record { lines_found = found; move_offset = n + 1 } else rest

-- A block that is read from `place`: its bytes, scanned from the end of what was read.
unfoldable pub read_block : ℕ → Text → ℕ → ℕ → ℕ → Found
unfolding scan_block
read_block lines file lines_found place next_read =
    let buf = take next_read (drop place file) in scan_block lines buf (length buf) lines_found

-- `lseek(fd, -next_read, SEEK_CUR)`, whose result goes into an int; where that is -1, or the place would
-- be before the file, `lseek(fd, 0, SEEK_SET)`.
unfoldable pub step_back : ℕ → ℕ → ℕ
step_back place next_read =
    if ltb place next_read
    then 0
    else ite (ℤ_discrete (wrap (pos (place - next_read))) minus_one) 0 (place - next_read)

-- The loop over the blocks, where `place` is the position in the file and `last_lseek` the int that the
-- position was put in. None if the fuel is used up.
unfoldable pub seek_loop : ℕ → ℕ → Text → ℕ → ℕ → ℤ → Option ℕ
unfolding read_block step_back
seek_loop zero lines file lines_found place last_lseek = none
seek_loop (suc fuel) lines file lines_found place last_lseek =
    let next_read = min last_lseek (pos bsize) in
    let start = step_back place (pos_part next_read) in
    let f = read_block lines file lines_found start (pos_part next_read) in
    let rest = seek_loop fuel lines file f.lines_found start (wrap (pos start)) in
    if leb_ℤ next_read (pos 0)
    then some place
    else (if ltb f.lines_found lines then rest else some (start + f.move_offset))

-- Where the file is read from.
unfoldable pub seek_at_last_lines : ℕ → Text → Option ℕ
unfolding seek_loop
seek_at_last_lines lines file =
    seek_loop (suc (length file)) lines file 0 (length file) (wrap (pos (length file)))
