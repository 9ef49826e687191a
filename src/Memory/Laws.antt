-- ===== src/Memory/Laws.antt =====
-- What a copy leaves in the two ranges of the target.
use mmotcpfighter.Base.{
  ℕ, ◌+◌, ◌-◌, ◌≤◌, ◌<◌, ◌≡◌, ap, arith, ok, ◌⊎◌, tabulate_ext, tabulate_add, length, get_or,
  tabulate-get_or, length-tabulate, List, ◌∙◌, ◌++◌,
}
use mmotcpfighter.Memory.{Block, copy, memcpy, bytes, of_list}

module _ (dst : Block) (d : ℕ) (src : Block) (s n : ℕ) where
  pub memcpy-ok :
      d + n ≤ dst.size → s + n ≤ src.size → memcpy dst d src s n ≡ ok (copy dst d src s n)
  unfolding memcpy
  memcpy-ok p q = ground arith

  pub byte-copy_in :
      (i : ℕ) → d ≤ i → i < d + n → (copy dst d src s n).byte i ≡ src.byte (s + (i - d))
  byte-copy_in i p q = ground arith

  pub byte-copy_out : (i : ℕ) → (i < d) ⊎ (d + n ≤ i) → (copy dst d src s n).byte i ≡ dst.byte i
  byte-copy_out i p = ground arith

  pub bytes-copy_in : bytes (copy dst d src s n) d n ≡ bytes src s n
  bytes-copy_in = tabulate_ext n _ _ (λ k lt. ground arith)

pub bytes_split : (b : Block) (s m n : ℕ) → bytes b s m ++ bytes b (s + m) n ≡ bytes b s (m + n)
bytes_split b s m n =
    rw (tabulate_add m n)
      (ap (λ ys. bytes b s m ++ ys) (tabulate_ext n _ _ (λ k _. ap b.byte (omega arith))))

pub bytes-of_list : (xs : List ℕ) → bytes (of_list xs) 0 (length xs) ≡ xs
bytes-of_list xs =
    tabulate_ext (length xs) _ _ (λ k _. ap (λ i. get_or xs i 0) (omega arith))
    ∙ tabulate-get_or xs 0

pub length-bytes : (b : Block) (p n : ℕ) → length (bytes b p n) ≡ n
length-bytes b p n = length-tabulate n _
