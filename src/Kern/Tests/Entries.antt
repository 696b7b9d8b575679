-- ===== src/Kern/Tests/Entries.antt =====
-- A directory of one page with `.` and `..`, and one whose first page is full
use mathlib.Core.Option
use gas_filesystem.Base.{
  ℕ, zero, suc, ◌≤◌, ◌≡◌, refl, ◌≢◌, ap, arith, true, false, ◌&&◌, ◌==◌, List, [], ◌∷◌,
  if◌then◌else◌, some, none, get_elem?, replicate,
}
use gas_filesystem.Kern.Types.{eio}
use gas_filesystem.Kern.Dir.{
  Dir, DirEntry, Io, Slot, gas_dir_pages, gas_last_byte, is_entry, same_prefix, gas_find_entry,
  gas_empty_dir, dir_slot, page_slot,
}
use gas_filesystem.Kern.Dir.Find.{entry_at}
use gas_filesystem.Kern.Dir.Names.{Answer, Blocks, gas_find_entry-Answer, gas_empty_dir_iff}
use gas_filesystem.Kern.DirWrite.{
  first_page, gas_make_empty, gas_add_link, add_link_loop, page_room, fill_entry,
  gas_dir_commit_chunk, store_entry, gas_delete_entry,
}
use gas_filesystem.Kern.DirWrite.AddLink.{Added}
use gas_filesystem.Kern.DirWrite.Lookup.{TailUnused, gas_add_link-gas_find_entry}
use gas_filesystem.Kern.DirWrite.Empty.{gas_make_empty-gas_empty_dir}
use gas_filesystem.Kern.DirWrite.Success.{NoClash, gas_add_link_succeeds}
use gas_filesystem.Kern.DirWrite.Delete.{IsOnly, gas_delete_entry-gas_find_entry}
use gas_filesystem.Kern.DirRead.{fault, gas_iterate, gas_dir_emit}
use gas_filesystem.Kern.DirRead.Straddle.{gas_iterate_fault}

abbrev pub quiet : Io
quiet = record {
  write_begin = λ pos. none;
  write_page = λ pos. none;
  page_error = λ n. eio;
  now = 77;
  entries_at = λ off page. [];
}

abbrev unused : DirEntry
unused = record { de_name = []; de_inode = 0 }

-- `gas_make_empty` made it.
abbrev pub two_entries : Dir
two_entries = record {
  i_ino = 9;
  i_size = 520;
  i_mtime = 0;
  i_ctime = 0;
  dirty = false;
  pages = λ n. if n == 0 then some (first_page 9 1) else none;
}

replicate-unused :
    (n k : ℕ) (de : DirEntry) → get_elem? (replicate n unused) k ≡ some de → de.de_inode ≡ 0
replicate-unused zero k de is = absurd (cc)
replicate-unused (suc n) zero de is = ground arith
replicate-unused (suc n) (suc k) de is = replicate-unused n k de is

two_entries-TailUnused : TailUnused two_entries
unfolding first_page gas_dir_pages gas_last_byte
two_entries-TailUnused (zero, zero) de is unlisted = absurd (unlisted (omega arith, omega arith))
two_entries-TailUnused (zero, suc zero) de is unlisted =
    absurd (unlisted (omega arith, omega arith))
two_entries-TailUnused (zero, suc (suc s)) de is unlisted = replicate-unused 13 s de is
two_entries-TailUnused (suc n, s) de is unlisted = absurd (ground arith)

abbrev pub new_name : List ℕ
new_name = b'a' ∷ b'b' ∷ []

find_new : gas_find_entry two_entries new_name ≡ none
unfolding gas_find_entry dir_slot page_slot is_entry same_prefix gas_dir_pages gas_last_byte
    first_page
find_new = refl

abbrev three_entries : Dir
three_entries = (gas_add_link quiet two_entries new_name 30).1

add_new : gas_add_link quiet two_entries new_name 30 ≡ (none, three_entries)
unfolding gas_add_link add_link_loop page_room fill_entry gas_dir_commit_chunk store_entry
    same_prefix gas_dir_pages gas_last_byte first_page
add_new = refl

gas_add_link-gas_find_entry_example :
    (n s : ℕ) × (gas_find_entry three_entries new_name ≡ some (n, s))
    × Added two_entries n s new_name 30 three_entries
    × TailUnused three_entries
gas_add_link-gas_find_entry_example =
    gas_add_link-gas_find_entry quiet two_entries new_name 30 three_entries two_entries-TailUnused
      find_new (omega arith) (omega arith) add_new

gas_find_entry-Answer_example :
    Answer two_entries (b'.' ∷ b'.' ∷ []) (gas_find_entry two_entries (b'.' ∷ b'.' ∷ []))
gas_find_entry-Answer_example = gas_find_entry-Answer two_entries (b'.' ∷ b'.' ∷ [])

gas_empty_dir_iff_example :
    ((gas_empty_dir two_entries ≡ true) → (slot : Slot) → ¬ Blocks two_entries slot)
    × ((gas_empty_dir two_entries ≡ false) → (slot : Slot) × Blocks two_entries slot)
gas_empty_dir_iff_example = gas_empty_dir_iff two_entries

abbrev pub dot_dot : List ℕ
dot_dot = b'.' ∷ b'.' ∷ []

pub dot_dot-IsOnly : IsOnly two_entries dot_dot (0, 1)
unfolding first_page is_entry same_prefix
dot_dot-IsOnly zero zero de apart is = ground (arith, ap (λ o. Option.get_or o de) is)
dot_dot-IsOnly zero (suc zero) de apart is = absurd (cc)
dot_dot-IsOnly zero (suc (suc t)) de apart is = ground (arith, replicate-unused 13 t de is)
dot_dot-IsOnly (suc m) t de apart is = absurd (ground arith)

gas_delete_entry-gas_find_entry_example :
    (gas_find_entry ((gas_delete_entry quiet two_entries (0, 1)).1) dot_dot ≡ none)
    × ((m t : ℕ)
        → ((m == 0) && (t == 1)) ≡ false
        → entry_at ((gas_delete_entry quiet two_entries (0, 1)).1) (m, t)
          ≡ entry_at two_entries (m, t))
unfolding first_page
gas_delete_entry-gas_find_entry_example =
    gas_delete_entry-gas_find_entry quiet two_entries dot_dot 0 1
      (record { de_name = dot_dot; de_inode = 1 }) refl refl dot_dot-IsOnly

-- Sixteen entries, the last on the second page
abbrev sixteen_entries : Dir
sixteen_entries = record two_entries { i_size = 4356 }

gas_iterate_fault_example : gas_iterate (λ de. true) quiet sixteen_entries 0 ≡ fault
unfolding first_page gas_dir_emit
gas_iterate_fault_example =
    gas_iterate_fault (λ de. true) quiet sixteen_entries (first_page 9 1) refl refl (omega arith)
      (λ k de is. ground arith)

new_name-NoClash : NoClash two_entries new_name
unfolding first_page same_prefix
new_name-NoClash (zero, zero) de is same = absurd (ground (arith, ap (λ o. Option.get_or o de) is))
new_name-NoClash (zero, suc zero) de is same =
    absurd (ground (arith, ap (λ o. Option.get_or o de) is))
new_name-NoClash (zero, suc (suc t)) de is same = replicate-unused 13 t de is
new_name-NoClash (suc n, t) de is same = absurd (ground arith)

readable : (k : ℕ) → k ≤ 0 → two_entries.pages k ≢ none
readable zero le e = absurd (cc)
readable (suc k) le e = absurd (omega arith)

gas_add_link_succeeds_example :
    (dir' : Dir) × (gas_add_link quiet two_entries new_name 30 ≡ (none, dir'))
unfolding gas_dir_pages first_page
gas_add_link_succeeds_example =
    gas_add_link_succeeds quiet two_entries new_name 30 0 2 unused
      (record { begins = λ pos. refl; commits = λ pos. refl }) new_name-NoClash (omega arith)
      readable refl refl (omega arith)

-- A directory before `gas_make_empty`
abbrev no_entries : Dir
no_entries = record two_entries { i_size = 0; pages = λ n. none }

gas_make_empty-gas_empty_dir_example :
    gas_empty_dir ((gas_make_empty quiet true no_entries 1).1) ≡ true
gas_make_empty-gas_empty_dir_example = gas_make_empty-gas_empty_dir quiet no_entries 1 refl refl
