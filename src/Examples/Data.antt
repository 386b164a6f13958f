-- ===== src/Examples/Data.antt =====
-- Blocks and devices for the examples.
use affs_read.Prelude.{
  ℕ, zero, suc, ◌+◌, ◌-◌, ◌^◌, ◌/◌, ◌%◌, ◌<◌, ◌≡◌, refl, Bool, true, ◌&&◌, List, [], ◌∷◌, ◌++◌,
  arith, ltb, get_or, length, length-replicate, replicate, All, All-replicate,
}
use affs_read.Types.{IsBytes, BlockDevice}

-- The big-endian bytes of a longword.
abbrev pub longword : ℕ → List ℕ
longword n = (n / 2 ^ 24 % 256) ∷ (n / 2 ^ 16 % 256) ∷ (n / 2 ^ 8 % 256) ∷ (n % 256) ∷ []

abbrev pub hello : List ℕ
hello = b'h' ∷ b'e' ∷ b'l' ∷ b'l' ∷ b'o' ∷ []

-- The sum of the other longwords of the block below, negated.
abbrev pub signature : ℕ → ℕ
signature chained = 2 ^ 32 - (2 + 0x0568656c + 0x6c6f0000 + 3000 + chained + (2 ^ 32 - 3)) % 2 ^ 32

-- The header block of a file `hello`, whose chain goes on at `chained`.
abbrev pub file_header : ℕ → List ℕ
file_header chained =
    longword 2
    ++ replicate 16 0
    ++ longword (signature chained)
    ++ replicate 0x18c 0
    ++ longword 3000
    ++ replicate 8 0
    ++ (5 ∷ hello)
    ++ replicate 58 0
    ++ longword chained
    ++ replicate 8 0
    ++ longword (2 ^ 32 - 3)

unfoldable pub all_bytes : List ℕ → Bool
all_bytes [] = true
all_bytes (x ∷ xs) = ltb x 256 && all_bytes xs

pub all_bytes_sound : (xs : List ℕ) → all_bytes xs ≡ true → All (λ b. b < 256) xs
unfolding all_bytes
all_bytes_sound [] h = tt
all_bytes_sound (x ∷ xs) h = (ground arith, all_bytes_sound xs (ground arith))

-- A decision by evaluation that a list is `n` bytes.
pub IsBytes-decided : (n : ℕ) (xs : List ℕ) → length xs ≡ n → all_bytes xs ≡ true → IsBytes n xs
IsBytes-decided n xs size h = record { size = size; bytes = all_bytes_sound xs h }

pub file_header-IsBytes : IsBytes 512 (file_header 882)
unfolding all_bytes
file_header-IsBytes = IsBytes-decided 512 (file_header 882) refl refl

pub last-IsBytes : IsBytes 512 (file_header 0)
unfolding all_bytes
last-IsBytes = IsBytes-decided 512 (file_header 0) refl refl

pub get_or-replicate : (n k : ℕ) → get_or {A = ℕ} (replicate n 0) k 0 ≡ 0
get_or-replicate zero k = refl
get_or-replicate (suc n) zero = refl
get_or-replicate (suc n) (suc k) = get_or-replicate n k

pub replicate-IsBytes : (n b : ℕ) → b < 256 → IsBytes n (replicate n b)
replicate-IsBytes n b h = record {
  size = length-replicate n b;
  bytes = All-replicate (λ c. c < 256) n b h;
}

-- Every block has the header of the file.
abbrev pub headers : (chained : ℕ) → IsBytes 512 (file_header chained) → BlockDevice
headers chained h = record {
  read_block = λ block buf. (file_header chained, true);
  read_block-IsBytes = λ block buf p. h;
}

-- In block 882 the file is chained to itself, or is the last of its chain.
abbrev pub looping : BlockDevice
looping = headers 882 file_header-IsBytes

abbrev pub ending : BlockDevice
ending = headers 0 last-IsBytes

-- A block is filled with the last byte of its number.
abbrev pub numbered : BlockDevice
numbered = record {
  read_block = λ block buf. (replicate 512 (block % 256), true);
  read_block-IsBytes = λ block buf h. replicate-IsBytes 512 (block % 256) (omega arith);
}
