-- ===== src/Kern/BitOps.antt =====
-- linux/bitops.h, which the module calls and which is not part of the repository: the operations on the
-- bits of a buffer, and what their documentation says of them.
use gas_filesystem.Base.{ℕ, ◌≤◌, ◌<◌, ◌≡◌, Bool, true, false, if◌then◌else◌, ◌==◌}

pub record BitOps : Type 1 where
  pub Data : Type 0
  pub test_bit : Data → ℕ → Bool
  pub find_first_zero_bit : Data → ℕ → ℕ
  pub set_bit : ℕ → Data → Data
  pub clear_bit : ℕ → Data → Data
  pub first_zero_within : (d : Data) (size : ℕ) → find_first_zero_bit d size ≤ size
  pub first_zero_clear :
      (d : Data) (size : ℕ)
      → find_first_zero_bit d size < size
      → test_bit d (find_first_zero_bit d size) ≡ false
  pub first_zero_first :
      (d : Data) (size i : ℕ) → i < find_first_zero_bit d size → test_bit d i ≡ true
  pub test-set :
      (i j : ℕ) (d : Data) → test_bit (set_bit i d) j ≡ (if j == i then true else test_bit d j)
  pub test-clear :
      (i j : ℕ) (d : Data) → test_bit (clear_bit i d) j ≡ (if j == i then false else test_bit d j)
