-- ===== src/Fuzz/Image.antt =====
-- The blocks of a disk image: fuzz/fuzz_targets/fuzz_read.rs, `FuzzDevice`.
use affs_read.Prelude.{
  All-append, All-take, All-drop, All-replicate, ℕ, zero, suc, ◌+◌, ◌*◌, ◌-◌, ◌<◌, ◌≤◌, ◌≡◌, refl,
  sym, ap, ◌∙◌, true, false, List, [], ◌∷◌, ◌++◌, ltb, leb, length, take, drop, replicate, slice,
  splice, All, inl, inr, arith, Bool-cases, length-take, length-drop, length-append,
  length-replicate, take-append_left, lt→ltb, ltb→lt, not-ltb,
}
use affs_read.Types.{BlockDevice, IsBytes}
use affs_read.File.Fetch.{Stored}
use affs_read.Fuzz.{read_image}

-- Block `n` of an image, with zeros behind its end.
abbrev pub image_block : List ℕ → ℕ → List ℕ
image_block image n = take 512 (drop (n * 512) image ++ replicate 512 0)

length-image_block : (image : List ℕ) (n : ℕ) → length (image_block image n) ≡ 512
length-image_block image n = omega (
  arith,
  length-take 512 (drop (n * 512) image ++ replicate 512 0),
  length-append (drop (n * 512) image) (replicate 512 0),
  length-replicate {A = ℕ} 512 0,
)

image_block-IsBytes :
    (image : List ℕ) (n : ℕ) → All (λ b. b < 256) image → IsBytes 512 (image_block image n)
image_block-IsBytes image n h = record {
  size = length-image_block image n;
  bytes =
      All-take (λ b. b < 256) 512 _
        (All-append (λ b. b < 256) (drop (n * 512) image) (replicate 512 0)
          (All-drop (λ b. b < 256) (n * 512) image h)
          (All-replicate (λ b. b < 256) 512 0 (omega arith)));
}

zeros_cut : (n k : ℕ) → n ≤ k → replicate {A = ℕ} n 0 ≡ take n (replicate k 0)
zeros_cut zero k h = refl
zeros_cut (suc n) zero h = absurd (omega arith)
zeros_cut (suc n) (suc k) h = ap (λ t. 0 ∷ t) (zeros_cut n k (omega arith))

over_zeros :
    (n k : ℕ) (xs : List ℕ)
    → length xs ≤ n
    → n ≤ k
    → xs ++ drop (length xs) (replicate n 0) ≡ take n (xs ++ replicate k 0)
over_zeros n k [] h le = zeros_cut n k le
over_zeros zero k (x ∷ xs) h le = absurd (omega arith)
over_zeros (suc n) k (x ∷ xs) h le = ap (λ t. x ∷ t) (over_zeros n k xs (omega arith) (omega arith))

-- The part of a block before the end of the image, over zeros.
padded :
    (xs : List ℕ)
    → length xs ≤ 512
    → splice (replicate 512 0) 0 xs ≡ take 512 (xs ++ replicate 512 0)
unfolding splice
padded xs h =
    let at : 0 + length xs ≡ length xs = omega arith in
    ap (λ k. xs ++ drop k (replicate 512 0)) at ∙ over_zeros 512 512 xs h (omega arith)

read_image-inside :
    (image : List ℕ) (n : ℕ) (buf : List ℕ)
    → n * 512 < length image
    → read_image image n buf ≡ (image_block image n, true)
unfolding read_image slice
read_image-inside image n buf inside = elim (Bool-cases (leb (n * 512 + 512) (length image))) [
  | inl whole ↦
      let size : n * 512 + 512 - n * 512 ≡ 512 = omega arith in
      rw whole (
        ap (λ t. (t, true))
          (ap (λ k. take k (drop (n * 512) image)) size
            ∙ sym (
                take-append_left 512 (drop (n * 512) image) (replicate 512 0)
                  (ground (arith, length-drop (n * 512) image)))))
  | inr part ↦
      rw (part, lt→ltb (n * 512) (length image) inside)
        (ap (λ t. (t, true))
          (padded (drop (n * 512) image) (ground (arith, length-drop (n * 512) image))))
]

pub read_image-outside :
    (image : List ℕ) (n : ℕ) (buf : List ℕ)
    → length image ≤ n * 512
    → read_image image n buf ≡ (buf, false)
unfolding read_image
read_image-outside image n buf outside =
    let beyond : leb (n * 512 + 512) (length image) ≡ false = ground arith in
    rw (beyond, not-ltb (n * 512) (length image) outside) refl

-- The bytes of the answers, in the image or not.
pub read_image-IsBytes :
    (image : List ℕ) (n : ℕ) (buf : List ℕ)
    → All (λ b. b < 256) image
    → IsBytes 512 buf
    → IsBytes 512 (read_image image n buf).0
read_image-IsBytes image n buf h held = elim (Bool-cases (ltb (n * 512) (length image))) [
  | inl inside ↦
      rw (read_image-inside image n buf (ltb→lt (n * 512) (length image) inside))
        (image_block-IsBytes image n h)
  | inr outside ↦ rw (read_image-outside image n buf (ground arith)) held
]

-- `FuzzDevice::new(data)`
unfoldable pub fuzz_device : (image : List ℕ) → All (λ b. b < 256) image → BlockDevice
fuzz_device image h = record {
  read_block = read_image image;
  read_block-IsBytes = λ n buf held. read_image-IsBytes image n buf h held;
}

-- What a block of an image reads as.
pub data ReadsAs (device : BlockDevice) (image : List ℕ) (n : ℕ) : Type 0 where
  stored : n * 512 < length image → Stored device n (image_block image n) → ReadsAs device image n
  outside :
      length image ≤ n * 512
      → ((buf : List ℕ) → device.read_block n buf ≡ (buf, false))
      → ReadsAs device image n

-- On the device of an image, a block that begins before the end of the image always reads as its
-- 512 bytes there, with zeros behind the end; every other block fails and leaves the buffer alone.
pub fuzz_device-ReadsAs :
    (image : List ℕ) (h : All (λ b. b < 256) image) (n : ℕ) → ReadsAs (fuzz_device image h) image n
unfolding fuzz_device
fuzz_device-ReadsAs image h n = elim (Bool-cases (ltb (n * 512) (length image))) [
  | inl inside ↦ stored (ltb→lt (n * 512) (length image) inside) (record {
    answers = λ buf. read_image-inside image n buf (ltb→lt (n * 512) (length image) inside);
    size = length-image_block image n;
  })
  | inr behind ↦ outside (ground arith) (λ buf. read_image-outside image n buf (ground arith))
]
