-- ===== src/Symlink.antt =====
-- src/symlink.rs: the target of a soft link, Latin-1 on disk and UTF-8 in the output buffer.
pub mod Utf8
pub mod Target
use affs_read.Prelude.{
  ℕ, zero, suc, ◌+◌, ◌-◌, ◌*◌, ◌/◌, ◌≤◌, ◌<◌, ◌≡◌, ◌≢◌, Bool, true, false, List, [], ◌∷◌, ◌&&◌,
  ◌||◌, Option, none, some, bit_and, bit_or, min, ltb, leb, ◌==◌, if◌then◌else◌, length, get_or,
  take, slice, splice,
}
use affs_read.Constants.{block_size, symlink_offset, file_location}

-- `memchr::memchr`: the position of the first byte that is equal to the needle.
pub record Memchr : Type 0 where
  pub memchr : ℕ → List ℕ → Option ℕ
  pub memchr-some :
      (needle : ℕ) (hay : List ℕ) (i : ℕ)
      → memchr needle hay ≡ some i
      → (i < length hay) × (get_or hay i 0 ≡ needle) × ((j : ℕ) → j < i → get_or hay j 0 ≢ needle)
  pub memchr-none :
      (needle : ℕ) (hay : List ℕ)
      → memchr needle hay ≡ none
      → (j : ℕ) → j < length hay
      → get_or hay j 0 ≢ needle

abbrev pub max_symlink_len : ℕ
max_symlink_len = block_size - symlink_offset - file_location

abbrev pub max_utf8_len : ℕ → ℕ
max_utf8_len latin1_len = latin1_len * 2

-- A leading `:` becomes `/`.
abbrev pub volume_byte : ℕ → ℕ → ℕ
volume_byte i byte = if i == 0 && byte == b':' then b'/' else byte

-- `0xC0 | (byte >> 6)` and `0x80 | (byte & 0x3F)`
abbrev pub lead_byte : ℕ → ℕ
lead_byte byte = bit_or 0xc0 (byte / 64)

abbrev pub tail_byte : ℕ → ℕ
tail_byte byte = bit_or 0x80 (bit_and byte 0x3f)

-- The loop at index i of the source, with the output buffer and the position in it.
unfoldable pub latin1_loop : List ℕ → ℕ → List ℕ → ℕ → List ℕ × ℕ
latin1_loop [] i out out_pos = (out, out_pos)
latin1_loop (b ∷ latin1) i out out_pos =
    let byte = volume_byte i b in
    let ascii = latin1_loop latin1 (i + 1) (splice out out_pos (byte ∷ [])) (out_pos + 1) in
    let high =
      latin1_loop latin1 (i + 1) (splice out out_pos (lead_byte byte ∷ tail_byte byte ∷ []))
        (out_pos + 2) in
    if ltb byte 0x80
    then if leb (length out) out_pos then (out, out_pos) else ascii
    else if leb (length out) (out_pos + 1)
    then (out, out_pos)
    else high

unfoldable pub latin1_to_utf8_symlink : List ℕ → List ℕ → List ℕ × ℕ
unfolding latin1_loop splice
latin1_to_utf8_symlink latin1 out = latin1_loop latin1 0 out 0

module _ (m : Memchr) where
  -- The bytes before the first zero.
  unfoldable pub until_zero : List ℕ → List ℕ
  until_zero latin1 = elim (m.memchr 0 latin1) [ some len ↦ take len latin1 | none ↦ latin1 ]

  -- Gives the output buffer, and the count of the bytes written to it.
  unfoldable pub read_symlink_target_with_block_size : List ℕ → ℕ → List ℕ → List ℕ × ℕ
  unfolding latin1_to_utf8_symlink until_zero slice
  read_symlink_target_with_block_size buf size out =
      let symlink_end = size - file_location in
      if leb symlink_end symlink_offset || leb (length buf) symlink_offset
      then (out, 0)
      else latin1_to_utf8_symlink
          (until_zero (slice buf symlink_offset (min symlink_end (length buf)))) out

  unfoldable pub read_symlink_target : List ℕ → List ℕ → List ℕ × ℕ
  unfolding read_symlink_target_with_block_size
  read_symlink_target buf out = read_symlink_target_with_block_size buf block_size out
