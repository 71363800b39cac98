-- ===== src/Disk.antt =====
-- disk/: Usage where it calls statfs. What statfs answers of a directory and filepath.Dir are
-- arguments; the answer's fields are uint64, and the block size is widened to one.
use native.Mathlib.Nat.{mod-eq_of_lt, mul-le-mul_right}
use neokit.Base.{
  ℕ, ℤ, Bool, Option, none, some, not, ◌&&◌, ◌*◌, ◌%◌, ◌^◌, pos, if◌then◌else◌, ◌<◌, ◌≡◌, arith,
  true, ◌≤◌, refl,
}
use neokit.Strconv.{wrap64, wrap64_small}
use neokit.Text.{Text, text_eq, codes}
use neokit.Oidcauth.{blank}

abbrev pub memory : Text
memory = codes ":memory:"

-- isMeasurable
unfoldable pub is_measurable : Text → Bool
unfolding text_eq
is_measurable path = not (blank path) && not (text_eq path memory)

pub record Statfs : Type 0 where
  pub available : ℕ
  pub blocks : ℕ
  pub block_size : ℕ

pub data UsageError : Type 0 where
  not_on_disk statfs_failed : UsageError

pub record Usage : Type 0 where
  pub free : ℤ
  pub total : ℤ
  pub error : Option UsageError

-- A product of two uint64, as an int64.
abbrev pub bytes_of : ℕ → ℕ → ℤ
bytes_of count size = wrap64 (pos ((count * size) % 2 ^ 64))

abbrev pub unknown : UsageError → Usage
unknown e = record { free = pos 0; total = pos 0; error = some e }

-- Usage
unfoldable pub usage : (Text → Text) → (Text → Option Statfs) → Text → Usage
unfolding is_measurable
usage dir statfs path =
    if not (is_measurable path) then unknown not_on_disk else elim (statfs (dir path)) [
      | none ↦ unknown statfs_failed
      | some st ↦ record {
        free = bytes_of st.available st.block_size;
        total = bytes_of st.blocks st.block_size;
        error = none;
      }
    ]

exact : (n : ℕ) → n < 2 ^ 63 → wrap64 (pos (n % 2 ^ 64)) ≡ pos n
exact n h = rw (mod-eq_of_lt {n = n} {m = 2 ^ 64} (omega (arith, h))) (wrap64_small n h)

-- Sizes below 2^63 bytes are exact.
pub usage_exact :
    (dir : Text → Text) (statfs : Text → Option Statfs) (path : Text) (st : Statfs)
    → is_measurable path ≡ true
    → statfs (dir path) ≡ some st
    → st.available ≤ st.blocks
    → st.blocks * st.block_size < 2 ^ 63
    → usage dir statfs path ≡ record {
      free = pos (st.available * st.block_size);
      total = pos (st.blocks * st.block_size);
      error = none;
    }
unfolding usage
usage_exact dir statfs path st h k le lt =
    let below : st.available * st.block_size < 2 ^ 63 =
      omega (arith, lt, mul-le-mul_right st.block_size le) in
    rw (h, k, exact (st.available * st.block_size) below, exact (st.blocks * st.block_size) lt) refl
