-- ===== src/Kern/Tests/Names.antt =====
-- Links to an inode, and a new directory for which there is no memory
use mathlib.Core.Path.{subst}
use gas_filesystem.Base.{◌+◌, ◌-◌, ◌≡◌, refl, false, ◌==◌, if◌then◌else◌, none, some, arith}
use gas_filesystem.Kern.Types.{enomem}
use gas_filesystem.Kern.Bitmap.{search, claim}
use gas_filesystem.Kern.Ialloc.{gas_new_inode, fill_new_inode}
use gas_filesystem.Kern.Dir.{
  Slot, dir_slot, page_slot, is_entry, same_prefix, gas_dir_pages, gas_last_byte, gas_find_entry,
}
use gas_filesystem.Kern.DirWrite.{gas_make_empty, first_page}
use gas_filesystem.Kern.DirWrite.Delete.{IsOnly}
use gas_filesystem.Kern.Dir.Find.{entry_at}
use gas_filesystem.Kern.Namei.Rename.{gas_rename}
use gas_filesystem.Kern.Namei.Target.{gas_rename_target}
use gas_filesystem.Kern.Namei.Unlink.{Unlinked, Removed, gas_unlink-Unlinked, gas_rmdir-Removed}
use gas_filesystem.Kern.Namei.{
  Counters, Vfs, gas_link, gas_unlink, gas_rmdir, gas_mkdir, fill_dir, with_new_inode,
}
use gas_filesystem.Kern.Namei.Links.{links, gas_link_counts, gas_mkdir_failed}
use gas_filesystem.Kern.Tests.Bits.{function_bits, first_zero}
use gas_filesystem.Kern.Tests.Nodes.{file_inode}
use gas_filesystem.Kern.Tests.Inodes.{small_disk, small_iam, small_iam-IsValid}
use gas_filesystem.Kern.Tests.Entries.{two_entries, new_name, quiet, dot_dot, dot_dot-IsOnly}

abbrev plain : Counters
plain = record {
  inc_nlink = λ n. n + 1;
  dec_nlink = λ n. n - 1;
  hold = λ n. n + 1;
  put = λ n. n - 1;
  dec-inc = λ n lt. omega arith;
}

-- Inode 3 is a file with one link, and every other a directory with two.
abbrev few_inodes : Vfs function_bits
few_inodes = record {
  node = λ n. record {
    i_mode = if n == 3 then 0o100644 else 0o040755;
    i_nlink = if n == 3 then 1 else 2;
    i_count = 1;
    i_op = none;
    dir = two_entries;
  };
  iam = small_iam;
}

gas_link_counts_example :
    links 3 ((gas_link function_bits plain quiet 3 0 new_name few_inodes).2) ≡ 2
gas_link_counts_example = gas_link_counts function_bits plain quiet 3 0 new_name few_inodes

-- Inode 0 stands for the parent, for its number is marked.
no_memory :
    (gas_mkdir function_bits plain quiet small_disk
      (some file_inode)
      (λ i. i)
      false
      0
      new_name
      few_inodes).0
    ≡ some enomem
unfolding gas_mkdir with_new_inode fill_dir gas_new_inode fill_new_inode search claim first_zero
    gas_make_empty
no_memory = refl

gas_mkdir_failed_example :
    links 0 (
      (gas_mkdir function_bits plain quiet small_disk
        (some file_inode)
        (λ i. i)
        false
        0
        new_name
        few_inodes).2)
    ≡ 2
gas_mkdir_failed_example =
    gas_mkdir_failed function_bits plain quiet small_disk 0 0 (λ i. i) false new_name few_inodes
      small_iam-IsValid refl (omega arith) (some file_inode) (λ e. absurd (cc (e, no_memory)))

find_dots : gas_find_entry two_entries dot_dot ≡ some (0, 1)
unfolding gas_find_entry dir_slot page_slot is_entry same_prefix gas_dir_pages gas_last_byte
    first_page
find_dots = refl

-- The second entry of every directory here is removed.
IsOnly-dots :
    (slot : Slot) → gas_find_entry two_entries dot_dot ≡ some slot → IsOnly two_entries dot_dot slot
IsOnly-dots slot e = subst (IsOnly two_entries dot_dot) (cc (e, find_dots)) dot_dot-IsOnly

gas_unlink-Unlinked_example :
    Unlinked function_bits plain quiet 0 dot_dot 3 few_inodes
      (gas_unlink function_bits plain quiet 0 dot_dot 3 few_inodes)
gas_unlink-Unlinked_example =
    gas_unlink-Unlinked function_bits plain quiet 0 dot_dot 3 few_inodes (λ e. absurd (cc (e)))
      IsOnly-dots

gas_rmdir-Removed_example :
    Removed function_bits plain quiet 0 dot_dot 5 few_inodes
      (gas_rmdir function_bits plain quiet 0 dot_dot 5 few_inodes)
gas_rmdir-Removed_example =
    gas_rmdir-Removed function_bits plain quiet 0 dot_dot 5 few_inodes (λ e. absurd (cc (e)))
      IsOnly-dots

-- The file 3 is renamed over the name of inode 5 in another directory.
gas_rename_target_example :
    ((gas_rename function_bits plain quiet 0 dot_dot 3 1 dot_dot (some 5) few_inodes).0 ≡ none)
    × (entry_at
          (((gas_rename function_bits plain quiet 0 dot_dot 3 1 dot_dot (some 5) few_inodes).1).node
            1).dir
          (0, 1)
        ≡ entry_at two_entries (0, 1))
    × (links 5 (gas_rename function_bits plain quiet 0 dot_dot 3 1 dot_dot (some 5) few_inodes).1
        ≡ 1)
gas_rename_target_example =
    gas_rename_target function_bits plain quiet 0 dot_dot 3 1 dot_dot 5 few_inodes refl (0, 1)
      (0, 1) find_dots find_dots (λ e. absurd (cc (e))) (λ e. absurd (cc (e)))
      (λ e. absurd (cc (e))) (λ e. absurd (cc (e))) (λ e. absurd (cc (e)))
