-- ===== src/Kern/Dir/Names.antt =====
-- kern/gas_dir.c: what `gas_find_entry` and `gas_empty_dir` look for, in terms of bytes and names
use gas_filesystem.Base.{
  ℕ, zero, suc, ◌+◌, ◌*◌, ◌≤◌, ◌≡◌, ◌≢◌, refl, arith, Bool, true, false, ◌==◌, if◌then◌else◌,
  Option, none, some, List, [], ◌∷◌,
}
use gas_filesystem.Kern.Dir.{
  Dir, DirEntry, Slot, gas_dir_pages, gas_last_byte, is_entry, same_prefix, gas_find_entry, not_dot,
  gas_empty_dir,
}
use gas_filesystem.Kern.Dir.Find.{
  entry_at, IsListed, Found, at, nowhere, walk-Found, gas_find_entry-Found,
}

-- The first `n` bytes of a name
abbrev pub first_bytes : ℕ → List ℕ → List ℕ
first_bytes zero name = []
first_bytes (suc n) [] = []
first_bytes (suc n) (c ∷ name) = c ∷ first_bytes n name

-- The bytes of a name before the first zero
abbrev pub c_string : List ℕ → List ℕ
c_string [] = []
c_string (c ∷ name) = if c == 0 then [] else c ∷ c_string name

-- The directory has the entry: its 260 bytes lie in the page and below the size of the directory, and
-- the page can be read.
pub record HasEntry (dir : Dir) (slot : Slot) (de : DirEntry) : Type 0 where
  pub in_page : slot.1 * 260 + 260 ≤ 4096
  pub in_size : slot.0 * 4096 + slot.1 * 260 + 260 ≤ dir.i_size
  pub stands : entry_at dir slot ≡ some de

HasEntry-IsListed :
    (dir : Dir) (slot : Slot) (de : DirEntry) → HasEntry dir slot de → IsListed dir.i_size slot
unfolding gas_dir_pages gas_last_byte
HasEntry-IsListed dir (n, s) de has =
    (omega (arith, has.in_page, has.in_size), ground (arith, has.in_page, has.in_size))

IsListed-HasEntry :
    (dir : Dir) (n s : ℕ) (de : DirEntry)
    → IsListed dir.i_size (n, s)
    → entry_at dir (n, s) ≡ some de
    → HasEntry dir (n, s) de
unfolding gas_dir_pages gas_last_byte
IsListed-HasEntry dir n s de (page, last) is = record {
  in_page = ground arith;
  in_size = ground arith;
  stands = is;
}

same_prefix-first_bytes :
    (n : ℕ) (a b : List ℕ) → same_prefix n a b ≡ true → first_bytes n a ≡ first_bytes n b
unfolding same_prefix
same_prefix-first_bytes zero a b same = refl
same_prefix-first_bytes (suc n) [] [] same = refl
same_prefix-first_bytes (suc n) [] (y ∷ b) same = absurd (cc)
same_prefix-first_bytes (suc n) (x ∷ a) [] same = absurd (cc)
same_prefix-first_bytes (suc n) (x ∷ a) (y ∷ b) same = ground (arith, same_prefix-first_bytes n a b)

first_bytes-same_prefix :
    (n : ℕ) (a b : List ℕ) → first_bytes n a ≡ first_bytes n b → same_prefix n a b ≡ true
unfolding same_prefix
first_bytes-same_prefix zero a b same = refl
first_bytes-same_prefix (suc n) [] [] same = refl
first_bytes-same_prefix (suc n) [] (y ∷ b) same = absurd (cc)
first_bytes-same_prefix (suc n) (x ∷ a) [] same = absurd (cc)
first_bytes-same_prefix (suc n) (x ∷ a) (y ∷ b) same = ground (arith, first_bytes-same_prefix n a b)

-- The entry is in use and agrees with the name in the 256 bytes that an entry has for it.
abbrev pub IsNamed : List ℕ → DirEntry → Type 0
IsNamed name de = (de.de_inode ≢ 0) × (first_bytes 256 de.de_name ≡ first_bytes 256 name)

-- What a lookup of a name returns
pub data Answer (dir : Dir) (name : List ℕ) : Option Slot → Type 0 where
  is_at :
      (slot : Slot) (de : DirEntry)
      → HasEntry dir slot de
      → IsNamed name de
      → Answer dir name (some slot)
  is_nowhere :
      ((slot : Slot) (de : DirEntry) → HasEntry dir slot de → ¬ IsNamed name de)
      → Answer dir name none

is_entry-IsNamed : (name : List ℕ) (de : DirEntry) → is_entry name de ≡ true → IsNamed name de
unfolding is_entry
is_entry-IsNamed name de passes =
    (ground arith, same_prefix-first_bytes 256 de.de_name name (ground arith))

IsNamed-is_entry : (name : List ℕ) (de : DirEntry) → IsNamed name de → is_entry name de ≡ true
unfolding is_entry
IsNamed-is_entry name de (used, same) =
    ground (arith, first_bytes-same_prefix 256 de.de_name name same)

-- `gas_find_entry` returns an entry of 260 bytes that lies in its page and below the size of the
-- directory, on a page that can be read, whose inode number is not 0 and whose first 256 bytes of
-- the name are those of the name sought; or it fails, and then the directory has no such entry.
pub gas_find_entry-Answer : (dir : Dir) (name : List ℕ) → Answer dir name (gas_find_entry dir name)
gas_find_entry-Answer dir name = by_walk _ (gas_find_entry-Found dir name)
  where
    by_walk : (o : Option Slot) → Found (is_entry name) dir o → Answer dir name o
    by_walk o (at n s de listed is passes) =
        is_at (n, s) de (IsListed-HasEntry dir n s de listed is) (is_entry-IsNamed name de passes)
    by_walk o (nowhere all) = is_nowhere λ (n, s) de has named. cc (
      all n s de (HasEntry-IsListed dir (n, s) de has) has.stands,
      IsNamed-is_entry name de named,
    )

abbrev dot : List ℕ
dot = b'.' ∷ []

abbrev dot_dot : List ℕ
dot_dot = b'.' ∷ b'.' ∷ []

-- The name is neither `..` nor a `.` that leads to the directory.
abbrev pub IsOther : (i_ino : ℕ) → DirEntry → Type 0
IsOther i_ino de =
    (de.de_inode ≢ 0)
    × (c_string de.de_name ≢ dot_dot)
    × (c_string de.de_name ≡ dot → de.de_inode ≢ i_ino)

module _ (i_ino i : ℕ) where
  abbrev named : List ℕ → DirEntry
  named name = record { de_name = name; de_inode = i }

  named-IsOther : (name : List ℕ) → not_dot i_ino (named name) ≡ true → IsOther i_ino (named name)
  unfolding not_dot
  named-IsOther [] passes = ground arith
  named-IsOther (a ∷ []) passes = ground arith
  named-IsOther (a ∷ b ∷ []) passes = ground arith
  named-IsOther (a ∷ b ∷ c ∷ r) passes = ground arith

  IsOther-named : (name : List ℕ) → IsOther i_ino (named name) → not_dot i_ino (named name) ≡ true
  unfolding not_dot
  IsOther-named [] other = ground (arith, other)
  IsOther-named (a ∷ []) other = ground (arith, other)
  IsOther-named (a ∷ b ∷ []) other = ground (arith, other)
  IsOther-named (a ∷ b ∷ c ∷ r) other = ground (arith, other)

-- An entry that keeps a directory from being removed
abbrev pub Blocks : Dir → Slot → Type 0
Blocks dir slot = (de : DirEntry) × HasEntry dir slot de × IsOther dir.i_ino de

-- `gas_empty_dir` refuses a directory exactly if it has an entry of 260 bytes that lies in its page
-- and below the size of the directory, on a page that can be read, whose inode number is not 0 and
-- whose name up to the first zero is neither `..` nor, with the number of the directory itself, `.`.
pub gas_empty_dir_iff :
    (dir : Dir)
    → ((gas_empty_dir dir ≡ true) → (slot : Slot) → ¬ Blocks dir slot)
      × ((gas_empty_dir dir ≡ false) → (slot : Slot) × Blocks dir slot)
unfolding gas_empty_dir
gas_empty_dir_iff dir = by_walk _ (walk-Found (not_dot dir.i_ino) dir)
  where
    verdict : Option Slot → Bool
    verdict o = elim o [ none ↦ true | some _ ↦ false ]

    by_walk :
        (o : Option Slot)
        → Found (not_dot dir.i_ino) dir o
        → ((verdict o ≡ true) → (slot : Slot) → ¬ Blocks dir slot)
          × ((verdict o ≡ false) → (slot : Slot) × Blocks dir slot)
    by_walk o (at n s de listed is passes) = (
      λ e. absurd (cc),
      λ e. (
        (n, s),
        (
          de,
          IsListed-HasEntry dir n s de listed is,
          named-IsOther dir.i_ino de.de_inode de.de_name passes,
        ),
      ),
    )
    by_walk o (nowhere all) = (
      λ e (n, s) (de, has, other). cc (
        all n s de (HasEntry-IsListed dir (n, s) de has) has.stands,
        IsOther-named dir.i_ino de.de_inode de.de_name other,
      ),
      λ e. absurd (cc),
    )
