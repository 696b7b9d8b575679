-- ===== src/Kern/DirWrite/Lookup.antt =====
-- kern/gas_dir.c: `gas_find_entry` after `gas_add_link`
use mathlib.Core.Path.{subst}
use gas_filesystem.Base.{
  ℕ, zero, suc, ◌+◌, ◌-◌, ◌*◌, ◌≤◌, ◌<◌, ◌≡◌, refl, sym, ◌∙◌, ◌≢◌, inl, inr, true, false, ◌&&◌,
  ◌==◌, arith, Option, none, some, List, [], ◌∷◌, length, Bool-cases, leb, ap, leb→le, leb→lt, ltb,
  ltb→lt, ltb→le, ==→eq,
}
use gas_filesystem.Kern.Types.{dir_entry_size, gas_max_name_len}
use gas_filesystem.Kern.Dir.{
  Dir, DirEntry, Io, Slot, page_size, gas_dir_pages, gas_last_byte, same_prefix, copy_name,
  is_entry, gas_find_entry,
}
use gas_filesystem.Kern.Dir.Find.{entry_at, IsListed, Found, at, nowhere, gas_find_entry-Found}
use gas_filesystem.Kern.DirWrite.{gas_add_link}
use gas_filesystem.Kern.DirWrite.AddLink.{new_entry, Added, add_link_loop-Added}

-- The entries behind the size of the directory are not in use.
abbrev pub TailUnused : Dir → Type 0
TailUnused dir =
    (slot : Slot) (de : DirEntry)
    → entry_at dir slot ≡ some de
    → ¬ IsListed dir.i_size slot
    → de.de_inode ≡ 0

-- What is in use has another name.
abbrev pub IsFresh : Dir → List ℕ → Type 0
IsFresh dir name =
    (slot : Slot) (de : DirEntry) → entry_at dir slot ≡ some de → is_entry name de ≡ false

same_prefix-copy_name :
    (n : ℕ) (name : List ℕ) → length name ≤ n → same_prefix (suc n) (copy_name n name) name ≡ true
unfolding same_prefix copy_name
same_prefix-copy_name n [] fits = same n
  where
    same : (n : ℕ) → same_prefix (suc n) (copy_name n []) [] ≡ true
    same zero = refl
    same (suc n) = refl
same_prefix-copy_name zero (c ∷ name) fits = absurd (ground arith)
same_prefix-copy_name (suc n) (c ∷ name) fits =
    ground (arith, same_prefix-copy_name n name (ground arith))

new_entry-is_entry :
    (name : List ℕ) (ino : ℕ)
    → length name < gas_max_name_len
    → ino ≢ 0
    → is_entry name (new_entry name ino) ≡ true
unfolding is_entry
new_entry-is_entry name ino short used =
    ground (arith, same_prefix-copy_name (gas_max_name_len - 1) name (omega arith))

IsListed-covered :
    (i_size n s : ℕ)
    → s * dir_entry_size + dir_entry_size ≤ page_size
    → n * page_size + s * dir_entry_size + dir_entry_size ≤ i_size
    → IsListed i_size (n, s)
unfolding gas_dir_pages gas_last_byte
IsListed-covered i_size n s fits covered = (omega arith, ground arith)

IsListed-grown : (a b : ℕ) → a ≤ b → (n s : ℕ) → IsListed a (n, s) → IsListed b (n, s)
unfolding gas_dir_pages gas_last_byte
IsListed-grown a b grown n s (below, inside) = (omega arith, ground arith)

-- Nothing is a new entry of a name that is fresh, apart from the new entry itself.
module _ (dir : Dir) (name : List ℕ) where
  IsFresh-none : TailUnused dir → gas_find_entry dir name ≡ none → IsFresh dir name
  unfolding is_entry
  IsFresh-none tail absent = by_walk _ absent (gas_find_entry-Found dir name)
    where
      by_walk : (o : Option Slot) → o ≡ none → Found (is_entry name) dir o → IsFresh dir name
      by_walk o e (at n s de listed is passes) = absurd (cc)
      by_walk o e (nowhere all) = λ (n, s) de is.
          let unlisted : de.de_inode ≡ 0 → is_entry name de ≡ false = λ e. ground arith in
          elim (Bool-cases (ltb n (gas_dir_pages dir.i_size))) [
            | inr beyond ↦
                unlisted (tail (n, s) de is λ l. absurd (omega (arith, ltb→le _ _ beyond, l.0)))
            | inl below ↦
                elim (Bool-cases
                  (leb (s * dir_entry_size + dir_entry_size) (gas_last_byte dir.i_size n))) [
                    | inl inside ↦ all n s de (ltb→lt _ _ below, leb→le _ _ inside) is
                    | inr outside ↦
                        unlisted
                          (tail (n, s) de is λ l. absurd (omega (arith, leb→lt _ _ outside, l.1)))
                  ]
          ]

pair : {m t n s : ℕ} → m ≡ n → t ≡ s → ◌≡◌ {A = Slot} (m, t) (n, s)
pair e1 e2 = cc

pub by_tests : (m t n s : ℕ) → ((m == n) && (t == s)) ≡ true → ◌≡◌ {A = Slot} (m, t) (n, s)
by_tests m t n s e = elim (Bool-cases (m == n)) [
  | inr apart ↦ absurd (ground arith)
  | inl e1 ↦ elim (Bool-cases (t == s)) [
    | inr apart ↦ absurd (ground arith)
    | inl e2 ↦ pair (==→eq m n e1) (==→eq t s e2)
  ]
]

module _ (dir : Dir) (name : List ℕ) (ino : ℕ) (dir' : Dir) where
  Added-TailUnused : TailUnused dir → (n s : ℕ) → Added dir n s name ino dir' → TailUnused dir'
  Added-TailUnused tail n s added = λ (m, t) de is unlisted.
      elim (Bool-cases ((m == n) && (t == s))) [
        | inl same ↦ absurd (
            unlisted (
              subst (IsListed dir'.i_size) (sym (by_tests m t n s same))
                (IsListed-covered dir'.i_size n s added.fits added.covered)))
        | inr apart ↦
            tail (m, t) de (sym (added.others m t apart) ∙ is)
              (λ l. unlisted (IsListed-grown dir.i_size dir'.i_size added.grown m t l))
      ]

  Added-find :
      IsFresh dir name
      → length name < gas_max_name_len
      → ino ≢ 0
      → (n s : ℕ) → Added dir n s name ino dir'
      → gas_find_entry dir' name ≡ some (n, s)
  Added-find fresh short used n s added = by_walk _ (gas_find_entry-Found dir' name)
    where
      by_walk : (o : Option Slot) → Found (is_entry name) dir' o → o ≡ some (n, s)
      by_walk o (nowhere all) = absurd (
          cc (
            all n s _ (IsListed-covered dir'.i_size n s added.fits added.covered) added.entry,
            new_entry-is_entry name ino short used,
          ))
      by_walk o (at m t de listed is passes) = elim (Bool-cases ((m == n) && (t == s))) [
        | inl same ↦ ap some (by_tests m t n s same)
        | inr apart ↦ absurd (cc (fresh (m, t) de (sym (added.others m t apart) ∙ is), passes))
      ]

-- In a directory whose entries behind its size are not in use and in which a name of at most 255
-- bytes is not found, if `gas_add_link` of the name and of an inode other than 0 succeeds, then
-- `gas_find_entry` finds the name, at an entry of exactly this name and inode; every other entry and
-- the inode number of the directory are as before, its size does not shrink and covers the entry,
-- and no entry behind its size is in use.
pub gas_add_link-gas_find_entry :
    (io : Io) (dir : Dir) (name : List ℕ) (ino : ℕ) (dir' : Dir)
    → TailUnused dir
    → gas_find_entry dir name ≡ none
    → length name < gas_max_name_len
    → ino ≢ 0
    → gas_add_link io dir name ino ≡ (none, dir')
    → (n s : ℕ) × (gas_find_entry dir' name ≡ some (n, s))
      × Added dir n s name ino dir'
      × TailUnused dir'
unfolding gas_add_link
gas_add_link-gas_find_entry io dir name ino dir' tail absent short used e =
    let (n, s, added) = add_link_loop-Added io dir name ino _ 0 dir' e in
    (
      n,
      s,
      Added-find dir name ino dir' (IsFresh-none dir name tail absent) short used n s added,
      added,
      Added-TailUnused dir name ino dir' tail n s added,
    )
