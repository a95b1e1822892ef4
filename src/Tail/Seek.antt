-- ===== src/Tail/Seek.antt =====
-- tail.c: seek_at_last_lines leaves as many lines to read as it is asked for, where it finds them.
use task_spooler.Base.{
  none, ◌≡◌, ℕ, zero, suc, ◌+◌, ◌-◌, ◌*◌, ◌≤◌, true, [], ◌∷◌, Option, some, get_elem?, length, take,
  drop, ltb, ◌==◌, if◌then◌else◌, ◌⊎◌,
}
use task_spooler.State.{Text}
use task_spooler.Tail.{bsize, is_newline, Found, scan_block}
use task_spooler.Tail

abbrev min : ℕ → ℕ → ℕ
min a b = if ltb a b then a else b

-- The loop over the blocks of a file whose positions are ints.
unfoldable blocks_loop : ℕ → ℕ → Text → ℕ → ℕ → Option ℕ
blocks_loop zero lines file lines_found last_lseek = none
blocks_loop (suc fuel) lines file lines_found last_lseek =
    let next_read = min last_lseek bsize in
    let start = last_lseek - next_read in
    let f = scan_block lines (take next_read (drop start file)) next_read lines_found in
    let rest = blocks_loop fuel lines file f.lines_found start in
    if next_read == 0
    then some last_lseek
    else (if ltb f.lines_found lines then rest else some (start + f.move_offset))

unfoldable pub newlines : Text → ℕ
newlines [] = 0
newlines (c ∷ text) = if c == b'\n' then suc (newlines text) else newlines text

-- The block that begins at `start` and has `k` bytes.
abbrev block : ℕ → ℕ → Text → Text
block start k file = take k (drop start file)

-- The search has read its block and not found too many lines, or stopped behind a newline.
abbrev Scanned : ℕ → ℕ → Text → Found → Type 0
Scanned lines start file f =
    ((f.move_offset ≡ 0) × ((f.lines_found ≡ newlines (drop start file)) × (f.lines_found ≤ lines)))
    ⊎ ((f.lines_found ≡ lines + 1)
        × ((newlines (drop (start + f.move_offset) file) ≡ lines)
            × (is_newline (get_elem? file (start + f.move_offset - 1)) ≡ true)))

-- A whole number of blocks before the end of the file.
abbrev AtBlock : Text → ℕ → Type 0
AtBlock file place = (k : ℕ) × (place + k * bsize ≡ length file)

-- What is read from `place` on: the whole file, if it has no more lines; else that many lines, from
-- behind a newline or from the beginning of a block.
abbrev pub Begins : ℕ → Text → ℕ → Type 0
Begins lines file place =
    ((place ≡ 0) × (newlines file ≤ lines))
    ⊎ ((newlines (drop place file) ≡ lines)
        × ((is_newline (get_elem? file (place - 1)) ≡ true) ⊎ AtBlock file place))

abbrev pub Seeks : ℕ → Text → Option ℕ → Type 0
Seeks lines file o = (place : ℕ) × ((o ≡ some place) × Begins lines file place)
