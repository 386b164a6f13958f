-- ===== src/Units/Links.antt =====
-- The unit tests of src/symlink.rs.
use affs_read.Prelude.{
  ℕ, ◌≡◌, refl, Bool, true, false, ◌&&◌, ◌==◌, List, [], ◌∷◌, ◌++◌, replicate, splice, slice, take,
  length,
}
use affs_read.Constants.{block_size, symlink_offset}
use affs_read.Symlink.{
  Memchr, latin1_to_utf8_symlink, latin1_loop, until_zero, read_symlink_target,
  read_symlink_target_with_block_size,
}
use affs_read.Examples.Instances.{first_position, position_of}

-- Equality of byte strings.
abbrev pub equal_bytes : List ℕ → List ℕ → Bool
equal_bytes [] [] = true
equal_bytes [] (y ∷ ys) = false
equal_bytes (x ∷ xs) [] = false
equal_bytes (x ∷ xs) (y ∷ ys) = x == y && equal_bytes xs ys

-- `assert_eq!(len, expected.len()); assert_eq!(&out[..len], expected);`
abbrev gives : List ℕ × ℕ → List ℕ → Bool
gives (out, len) expected = len == length expected && equal_bytes (take len out) expected

-- `path/to/file`, behind a first byte or four.
abbrev to_file : List ℕ
to_file = b't' ∷ b'o' ∷ b'/' ∷ b'f' ∷ b'i' ∷ b'l' ∷ b'e' ∷ []

abbrev path : List ℕ
path = b'p' ∷ b'a' ∷ b't' ∷ b'h' ∷ []

abbrev test_latin1_to_utf8_ascii : Bool
test_latin1_to_utf8_ascii =
    let input = b'h' ∷ b'e' ∷ b'l' ∷ b'l' ∷ b'o' ∷ [] in
    gives (latin1_to_utf8_symlink input (replicate 32 0)) input

test_latin1_to_utf8_ascii_passes : test_latin1_to_utf8_ascii ≡ true
unfolding latin1_to_utf8_symlink latin1_loop splice
test_latin1_to_utf8_ascii_passes = refl

abbrev test_latin1_to_utf8_high_bytes : Bool
test_latin1_to_utf8_high_bytes =
    gives (latin1_to_utf8_symlink (0xe9 ∷ []) (replicate 32 0)) (0xc3 ∷ 0xa9 ∷ [])

test_latin1_to_utf8_high_bytes_passes : test_latin1_to_utf8_high_bytes ≡ true
unfolding latin1_to_utf8_symlink latin1_loop splice
test_latin1_to_utf8_high_bytes_passes = refl

abbrev test_colon_replacement : Bool
test_colon_replacement =
    gives (latin1_to_utf8_symlink (b':' ∷ path ++ (b'/' ∷ to_file)) (replicate 32 0))
      (b'/' ∷ path ++ (b'/' ∷ to_file))

test_colon_replacement_passes : test_colon_replacement ≡ true
unfolding latin1_to_utf8_symlink latin1_loop splice
test_colon_replacement_passes = refl

abbrev test_colon_not_at_start : Bool
test_colon_not_at_start =
    let input = path ++ (b':' ∷ to_file) in
    gives (latin1_to_utf8_symlink input (replicate 32 0)) input

test_colon_not_at_start_passes : test_colon_not_at_start ≡ true
unfolding latin1_to_utf8_symlink latin1_loop splice
test_colon_not_at_start_passes = refl

module _ (m : Memchr) where
  abbrev test_read_symlink_target : Bool
  test_read_symlink_target =
      let target = b't' ∷ b'e' ∷ b's' ∷ b't' ∷ [] in
      let buf = splice (replicate block_size 0) symlink_offset (target ++ (0 ∷ [])) in
      gives (read_symlink_target m buf (replicate 32 0)) target

  abbrev test_read_symlink_with_colon : Bool
  test_read_symlink_with_colon =
      let buf =
        splice (replicate block_size 0) symlink_offset
          (b':' ∷ b'b' ∷ b'o' ∷ b'o' ∷ b't' ∷ 0 ∷ []) in
      gives (read_symlink_target m buf (replicate 32 0)) (b'/' ∷ b'b' ∷ b'o' ∷ b'o' ∷ b't' ∷ [])

test_read_symlink_target_passes : test_read_symlink_target first_position ≡ true
unfolding read_symlink_target read_symlink_target_with_block_size until_zero first_position
    position_of slice latin1_to_utf8_symlink latin1_loop splice
test_read_symlink_target_passes = refl

test_read_symlink_with_colon_passes : test_read_symlink_with_colon first_position ≡ true
unfolding read_symlink_target read_symlink_target_with_block_size until_zero first_position
    position_of slice latin1_to_utf8_symlink latin1_loop splice
test_read_symlink_with_colon_passes = refl
