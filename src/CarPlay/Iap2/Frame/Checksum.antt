-- ===== src/CarPlay/Iap2/Frame/Checksum.antt =====
-- The checksum makes the bytes that it closes add up to 0 modulo 256, and is the only byte
-- that does.
use project_argo.Common.{ℕ, ◌+◌, ◌-◌, ◌%◌, ◌<◌, ◌≡◌, List, [], ◌∷◌, ◌++◌, arith}
use project_argo.CarPlay.Iap2.Frame.{wrapping_sum, checksum, with_checksum}

abbrev pub sum : List ℕ → ℕ
sum [] = 0
sum (b ∷ bs) = b + sum bs

pub sum-append : (xs ys : List ℕ) → sum (xs ++ ys) ≡ sum xs + sum ys
sum-append [] ys = omega arith
sum-append (x ∷ xs) ys = omega (arith, sum-append xs ys)

wrapping_sum-sum : (acc : ℕ) (bs : List ℕ) → acc < 256 → wrapping_sum acc bs ≡ (acc + sum bs) % 256
unfolding wrapping_sum
wrapping_sum-sum acc [] h = omega arith
wrapping_sum-sum acc (b ∷ bs) h = omega (arith, wrapping_sum-sum ((acc + b) % 256) bs (omega arith))

pub checksum-sum : (bs : List ℕ) → checksum bs ≡ (256 - sum bs % 256) % 256
unfolding checksum
checksum-sum bs = omega (arith, wrapping_sum-sum 0 bs (omega arith))

pub checksum-with_checksum : (bs : List ℕ) → checksum (with_checksum bs) ≡ 0
unfolding with_checksum
checksum-with_checksum bs = omega (
  arith,
  checksum-sum bs,
  checksum-sum (bs ++ (checksum bs ∷ [])),
  sum-append bs (checksum bs ∷ []),
)

-- A byte that closes the sum is the checksum.
pub checksum_unique :
    (bs : List ℕ) (b : ℕ) → b < 256 → checksum (bs ++ (b ∷ [])) ≡ 0 → b ≡ checksum bs
checksum_unique bs b h e =
    omega (arith, checksum-sum bs, checksum-sum (bs ++ (b ∷ [])), sum-append bs (b ∷ []))
