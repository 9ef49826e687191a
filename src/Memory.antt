-- ===== src/Memory.antt =====
-- Blocks of bytes, as the C++ code sees them through a `char*`. A block has a size and a byte at
-- each offset; an access outside the size is the fault `out_of_bounds`. A null pointer is a block
-- of size 0. `memcpy` and `memcpy_s` of the C library are modelled, since the sources stand on them.
pub mod Laws
use mmotcpfighter.Base.{
  ℕ, zero, suc, ◌+◌, ◌-◌, ◌*◌, ◌/◌, ◌%◌, Bool, true, false, ◌&&◌, List, [], ◌∷◌, ltb, leb,
  if◌then◌else◌, tabulate, length, get_or, Outcome, ok, err, out_of_bounds,
}

pub record Block : Type 0 where
  pub size : ℕ
  pub byte : ℕ → ℕ

abbrev pub null_block : Block
null_block = record { size = 0; byte = λ _. 0 }

-- A fresh block; its bytes are not yet set, here 0.
abbrev pub new_block : ℕ → Block
new_block n = record { size = n; byte = λ _. 0 }

-- The bytes of `dst`, those from offset `d` on replaced by `n` bytes of `src` from offset `s` on.
abbrev pub copy : Block → ℕ → Block → ℕ → ℕ → Block
copy dst d src s n = record dst {
  byte = λ i. if leb d i && ltb i (d + n) then src.byte (s + (i - d)) else dst.byte i;
}

unfoldable pub memcpy : Block → ℕ → Block → ℕ → ℕ → Outcome Block
memcpy dst d src s n =
    if leb (d + n) dst.size && leb (s + n) src.size
    then ok (copy dst d src s n)
    else err out_of_bounds

-- The `n` bytes from offset `p` on.
abbrev pub bytes : Block → ℕ → ℕ → List ℕ
bytes b p n = tabulate n (λ k. b.byte (p + k))

-- A block that holds the bytes of a list.
abbrev pub of_list : List ℕ → Block
of_list xs = record { size = length xs; byte = λ i. get_or xs i 0 }
