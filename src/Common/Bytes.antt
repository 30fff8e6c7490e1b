-- ===== src/Common/Bytes.antt =====
-- Byte strings as lists of numbers, and the big-endian integers of encoding/binary.
use nestory.Common.Preds.{All}
use nestory.Common.Lists.{length, length-append}
use Prim.Native.Nat.{ℕ, zero, suc, ◌+◌, ◌*◌, ◌/◌, ◌%◌, ◌^◌, ◌<◌}
use mathlib.Core.Path.{◌≡◌, refl}
use mathlib.Core.List.{List, [], ◌∷◌, ◌++◌}
use native.Mathlib.Omega.{arith}
use native.Mathlib.Nat.{pow-suc}

abbrev pub Bytes : Type 0
Bytes = List ℕ

abbrev pub IsBytes : Bytes → Type 0
IsBytes = All (λ b. b < 256)

-- `binary.BigEndian.PutUint32` and `PutUint64` at k = 4 and k = 8
unfoldable pub put_be : ℕ → ℕ → Bytes
put_be zero x = []
put_be (suc k) x = put_be k (x / 256) ++ (x % 256) ∷ []

-- `binary.BigEndian.Uint32` and `Uint64`, over the bytes that they read
unfoldable pub be_from : ℕ → Bytes → ℕ
be_from acc [] = acc
be_from acc (b ∷ bs) = be_from (acc * 256 + b) bs

unfoldable pub be_value : Bytes → ℕ
unfolding be_from
be_value bs = be_from 0 bs

pub length-put_be : (k x : ℕ) → length (put_be k x) ≡ k
unfolding put_be
length-put_be zero x = refl
length-put_be (suc k) x =
    omega (arith, length-append {0} (put_be k (x / 256)) (x % 256 ∷ []), length-put_be k (x / 256))

be_from-append : (acc b : ℕ) (bs : Bytes) → be_from acc (bs ++ b ∷ []) ≡ be_from acc bs * 256 + b
unfolding be_from
be_from-append acc b [] = refl
be_from-append acc b (c ∷ bs) = be_from-append (acc * 256 + c) b bs

pub be_value-put_be : (k x : ℕ) → x < 256 ^ k → be_value (put_be k x) ≡ x
unfolding be_value put_be
be_value-put_be zero x h = omega arith
be_value-put_be (suc k) x h = omega (
  arith,
  be_from-append 0 (x % 256) (put_be k (x / 256)),
  be_value-put_be k (x / 256) (omega (arith, pow-suc 256 k)),
)
