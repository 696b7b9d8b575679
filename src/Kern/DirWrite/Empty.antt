-- ===== src/Kern/DirWrite/Empty.antt =====
-- The directory that `gas_make_empty` makes
use gas_filesystem.Base.{ℕ, ◌≡◌, refl, ap, arith, Bool, true, false, Option, some, none, eq→==}
use gas_filesystem.Kern.Dir.{
  Dir, Io, Slot, gas_dir_pages, gas_last_byte, gas_empty_dir, dir_slot, page_slot, not_dot,
}
use gas_filesystem.Kern.DirWrite.{first_page, gas_make_empty, gas_dir_commit_chunk}

first_page_slot : (ino parent : ℕ) → page_slot (not_dot ino) 520 0 (first_page ino parent) ≡ none
unfolding page_slot not_dot first_page
first_page_slot ino parent = ground (arith, eq→== ino ino refl)

-- In a directory of size 0, once `gas_make_empty` has its page and could prepare it, `gas_empty_dir`
-- finds the directory empty, whatever its parent is and whether or not the page could be written
-- out.
pub gas_make_empty-gas_empty_dir :
    (io : Io) (dir : Dir) (parent : ℕ)
    → dir.i_size ≡ 0
    → io.write_begin 0 ≡ none
    → gas_empty_dir ((gas_make_empty io true dir parent).1) ≡ true
unfolding gas_empty_dir gas_make_empty gas_dir_commit_chunk dir_slot gas_last_byte gas_dir_pages
gas_make_empty-gas_empty_dir io dir parent new begun =
    rw (begun, gas_make_empty, new) (ap verdict (first_page_slot dir.i_ino parent))
  where
    verdict : Option ℕ → Bool
    verdict o = elim (elim o as (λ _. Option Slot) [ none ↦ none | some s ↦ some (0, s) ]) [
      | none ↦ true
      | some _ ↦ false
    ]
