-- ===== src/Units/Blocks.antt =====
-- The unit tests of src/block.rs, src/checksum.rs and src/utf8.rs.
use affs_read.Prelude.{
  ℕ, ◌≡◌, refl, Bool, true, false, not, ◌&&◌, ◌==◌, ltb, List, [], ◌∷◌, negsuc, eq_ℤ, replicate,
  splice,
}
use affs_read.Constants.{hash_table_size, block_size}
use affs_read.Checksum.{read_u32_be, read_u32_be_slice, read_i32_be, read_i32_be_slice}
use affs_read.Block.Names.{hash_name, hash_loop, names_equal, intl_to_upper, ascii_to_upper}

abbrev test_hash_name : Bool
test_hash_name =
    ltb (hash_name (b't' ∷ b'e' ∷ b's' ∷ b't' ∷ []) false) hash_table_size
    && hash_name [] false == 0

test_hash_name_passes : test_hash_name ≡ true
unfolding hash_name hash_loop ascii_to_upper
test_hash_name_passes = refl

abbrev test_intl_to_upper : Bool
test_intl_to_upper =
    intl_to_upper b'a' == b'A'
    && (intl_to_upper b'z' == b'Z' && (intl_to_upper b'A' == b'A' && intl_to_upper 224 == 192))

test_intl_to_upper_passes : test_intl_to_upper ≡ true
unfolding intl_to_upper
test_intl_to_upper_passes = refl

abbrev capital_test : List ℕ
capital_test = b'T' ∷ b'e' ∷ b's' ∷ b't' ∷ []

abbrev small_test : List ℕ
small_test = b't' ∷ b'e' ∷ b's' ∷ b't' ∷ []

abbrev test_names_equal : Bool
test_names_equal =
    names_equal capital_test small_test false
    && (names_equal (b'T' ∷ b'E' ∷ b'S' ∷ b'T' ∷ []) small_test false
        && not (names_equal capital_test (b't' ∷ b'e' ∷ b's' ∷ b't' ∷ b'2' ∷ []) false))

test_names_equal_passes : test_names_equal ≡ true
unfolding names_equal ascii_to_upper
test_names_equal_passes = refl

abbrev test_read_u32_be : Bool
test_read_u32_be =
    let buf = splice (replicate block_size 0) 0 (0x12 ∷ 0x34 ∷ 0x56 ∷ 0x78 ∷ []) in
    read_u32_be buf 0 == 0x12345678

test_read_u32_be_passes : test_read_u32_be ≡ true
unfolding read_u32_be read_u32_be_slice splice
test_read_u32_be_passes = refl

abbrev test_read_i32_be : Bool
test_read_i32_be =
    let buf = splice (replicate block_size 0) 0 (0xff ∷ 0xff ∷ 0xff ∷ 0xfd ∷ []) in
    eq_ℤ (read_i32_be buf 0) (negsuc 2)

test_read_i32_be_passes : test_read_i32_be ≡ true
unfolding read_i32_be read_i32_be_slice read_u32_be_slice splice
test_read_i32_be_passes = refl
