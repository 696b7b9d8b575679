-- ===== src/Lib.antt =====
-- GAS is a Unix-like file system for Linux: the user-space program `mkfs` of src/makefs writes an empty
-- file system to a disk image, and the kernel module of src/kern mounts it. A disk has a super block,
-- the bitmap of blocks, the bitmap of inodes, the inode list and the data area. The two programs share
-- the structures of src/kern/gas.h and nothing else: what mkfs lays out, the module must find again.
--
-- Base has what the other files share: the libraries' names, Boolean tests, lists over the native
-- numbers, and the bits of numbers.
--
-- Makefs is src/makefs.
-- Makefs.Bitmap is the word-wise search of bitmap.c (`__ffs`, here `ffs`, `find_next_bit` and
-- `find_next_zero_bit`), one function for each label and loop. Makefs.Region has `bitmap_set`,
-- `bitmap_clear`, the search for a free area and the allocation. A map is the list of its words, and an
-- access behind the last word gives `none`. Words are numbers below 2 ^ 64, and the operations on
-- `uint64_t` wrap. The rest is mkfs.c. Makefs.Layout has the sizes that `main` computes, and
-- `init_super_block`. Makefs.Disk is the image, a function from block numbers to blocks, with the cache
-- of blocks (`bc_read` and the others); the record Buffers is an interface for what a block of 4096
-- bytes holds as words, inodes, entries or a super block. Makefs.Init has the bitmaps and the inode
-- list of a new file system, and Makefs.Format what `main` does then: the allocation of blocks and
-- inodes, the entries and the root directory, in a small monad that ends in a value, an exit code or a
-- fault. A pointer into a cached block is the number of the block. mkfs computes the offset of a block
-- in the image as an `int`: the place of the image that the program reaches by it is a parameter of
-- Buffers, which is known for blocks below 2 ^ 19 only, where the offset fits.
--
-- Kern is src/kern.
-- Kern.Types has the structures of gas.h. Kern.Super is gas_super.c: reading the super block, mounting
-- and unmounting, with the results of the kernel's calls as the record Device. Kern.Inode is
-- gas_inode.c: an inode between memory and the inode list, which is a function from block numbers to
-- what can be read there. Kern.Bitmap is the allocation of blocks of bitmap.c, over Kern.BitOps, an
-- interface with the bit operations of the kernel and the laws that their documentation gives;
-- Kern.Ialloc is the allocation of inodes, and Kern.Count has the counts of free bits, with
-- `gas_statfs` of gas_super.c. Kern.Itree is the part of gas_itree.c that computes paths and sizes,
-- Kern.Branch has `get_branch`, `alloc_branch`, `splice_branch` and `gas_get_block`, and Kern.Truncate
-- has `gas_truncate_inode` with `gas_truncate` and `gas_evict_inode` of gas_inode.c and
-- `gas_write_failed` of gas_page.c. The tree of a file is a function from places and indices to keys:
-- place 0 is `i_data` of the inode, and place n is the indirect block n, so that a `block_t *` is a
-- place and an index. What others do to the tree between two steps of `gas_get_block` is a parameter,
-- the record Round. An `int` holds the number of a block, and an offset lies in its indirect block: file
-- systems of more than 2 ^ 31 blocks, or of more than triple indirect blocks reach, are outside the
-- model of `gas_get_block`. Kern.Dir, Kern.DirWrite and Kern.DirRead are gas_dir.c: the search for entries, the
-- changes, and the reading in order; Kern.Namei is gas_namei.c, which puts these together with the
-- allocation of inodes and with link counts; its children Rename and Lookup have `gas_rename`,
-- `gas_lookup` and `gas_getattr`. A page of a directory is the list of the fifteen entries that fit
-- into it, a name is its bytes up to the zero, and a page that cannot be read or a write that fails is
-- part of the record Io or of the directory. Io also says how the machine reads entries from a position
-- that is no multiple of their size. Kern.Dir.Names describes entries by their bytes.
--
-- Volume has both programs together: what the module mounts, and finds as the root directory, on the
-- disk that mkfs wrote.
--
-- Loops. The word loops and the loops over the entries of a page are by recursion on lists. The label
-- `again` of `bitmap_find_next_zero_area` runs on fuel `size + 1`: each round starts behind the one
-- before. The loop of `gas_new_block` runs on as many rounds as there are bitmap blocks, after which it
-- is back at its hint. The loops over the pages of a directory and over the blocks of a bitmap run on
-- the number of pages or blocks, as the C loops count them, and so do those of mkfs over bitmap blocks.
-- `gas_get_block` starts again for as long as others change the tree under it: its fuel is the list of
-- what they do in each round, and one round in which they do nothing is enough. `free_branches` is by
-- recursion on the depth.
--
-- Not modelled. Of mkfs, opening the image and printing. Reads and writes of the image do not fail.
-- What the kernel does with an inode once its last reference is gone is not modelled. What the blocks
-- of a file hold is left to the page cache of the kernel. The other functions of gas_page.c and those
-- of def.c are handed over to the kernel and have no behaviour of their own. What the kernel makes of
-- link and reference counts is the record Counters. Locks are left out: each locked region is one step.
-- Debug messages are left out, and so are the reference counts of pages. Little-endian conversion keeps
-- the value. A name is compared as bytes.
pub mod Base
pub mod Makefs
pub mod Kern
pub mod Volume
