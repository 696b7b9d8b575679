-- ===== src/Kern/Branch/Node.antt =====
-- The nodes of the tree that kern/gas_itree.c keeps, and what makes it a tree.
use mathlib.Core.Path.{subst}
use gas_filesystem.Base.{
  ℕ, suc, ◌+◌, ◌-◌, ◌≡◌, ◌≤◌, refl, sym, ◌≢◌, arith, ltb, if◌then◌else◌, List, [], ◌∷◌, ◌++◌,
  length, length-append,
}
use gas_filesystem.Kern.Types.{GasSbInfo}
use gas_filesystem.Kern.BitOps.{BitOps}
use gas_filesystem.Kern.Itree.{dircount}
use gas_filesystem.Kern.Branch.{Tree}
use gas_filesystem.Kern.Branch.Follow.{follow, Starts}
use gas_filesystem.Kern.Branch.Alloc.{IsUsed, IsGood}

-- How many keys a path has that starts at an offset in `i_data`
abbrev pub level : ℕ → ℕ
level o = if ltb o dircount then 1 else o - dircount + 2

-- A path to a block of the file, or a part of it that leads to an indirect block
abbrev pub IsNode : List ℕ → Type 0
IsNode [] = ⊥
IsNode (o ∷ r) = suc (length r) ≤ level o

-- A path to a block of the file
abbrev pub IsWhole : List ℕ → Type 0
IsWhole [] = ⊥
IsWhole (o ∷ r) = suc (length r) ≡ level o

pub IsWhole-IsNode : (u : List ℕ) → IsWhole u → IsNode u
IsWhole-IsNode [] is = is
IsWhole-IsNode (o ∷ r) is = omega arith

pub IsNode-Starts : (w u : List ℕ) → Starts w u → w ≢ [] → IsNode u → IsNode w
IsNode-Starts [] u s ne is = absurd (ne refl)
IsNode-Starts (k ∷ w) u (r, e) ne is = bound (subst IsNode (sym e) is)
  where
    bound : IsNode (k ∷ (w ++ r)) → IsNode (k ∷ w)
    bound is = omega (arith, length-append w r)

-- A node below a cell on a path is no longer than the path.
pub node_bound :
    (pre : List ℕ) (ix : ℕ) (r rest : List ℕ)
    → IsNode (pre ++ ix ∷ r)
    → IsWhole (pre ++ ix ∷ rest)
    → length r ≤ length rest
node_bound [] ix r rest node whole = omega arith
node_bound (k ∷ pre) ix r rest node whole =
    omega (arith, length-append pre (ix ∷ r), length-append pre (ix ∷ rest))

-- Every block of the tree is marked in a bitmap that is valid, and is at one place of the tree only.
pub record IsTree (ops : BitOps) (blocksize_bits : ℕ) (sbi : GasSbInfo) (tree : Tree ops)
    : Type 0 where
  pub good : IsGood ops blocksize_bits sbi tree.map
  pub marked :
      (u : List ℕ)
      → IsNode u
      → follow tree.cell 0 u ≢ 0
      → IsUsed ops sbi.s_bits_per_block tree.map (follow tree.cell 0 u)
  pub distinct :
      (u v : List ℕ)
      → IsNode u
      → IsNode v
      → follow tree.cell 0 u ≢ 0
      → follow tree.cell 0 u ≡ follow tree.cell 0 v
      → u ≡ v
