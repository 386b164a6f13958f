-- ===== src/Examples/Starts.antt =====
-- The readers of two files of a disk: src/file.rs.
use affs_read.Prelude.{◌*◌, ◌≤◌, refl, [], ◌∷◌, inl, arith, take, replicate}
use affs_read.Types.{ofs, ffs}
use affs_read.Checksum.{read_u32_be, read_u32_be_slice}
use affs_read.Block.Entry
use affs_read.File.{FileReader, start_of, new, from_entry}
use affs_read.File.Stream.{Rest}
use affs_read.File.Listed.{contents}
use affs_read.File.Pending.{Listed-Rest}
use affs_read.File.Linked.{payloads, first, Linked-Rest}
use affs_read.File.Starts.{Starts, new_ffs-Starts, new_ofs-Starts}
use affs_read.Examples.Stored.{
  ffs_header, ofs_header, ffs_blocks, ofs_blocks, ffs_disk, ofs_disk, ffs-Stored, ofs-Stored,
  ffs_header-parsed, ofs_header-parsed, ffs_header-file, ofs_header-file, ffs-Listed, ofs-Linked,
  ofs-enough,
}

pub ffs-enough : (Entry.decode ffs_header).byte_size ≤ 2 * 512
unfolding Entry.decode read_u32_be read_u32_be_slice
ffs-enough = omega arith

new_ffs_example :
    Starts ffs_disk
      (take (Entry.decode ffs_header).byte_size (contents ffs_blocks (901 ∷ 902 ∷ [])))
      (new ffs_disk ffs 900)
    × Starts ffs_disk
        (take (Entry.decode ffs_header).byte_size (contents ffs_blocks (901 ∷ 902 ∷ [])))
        (from_entry ffs 900 (Entry.decode ffs_header))
new_ffs_example =
    new_ffs-Starts ffs_disk ffs_blocks 900 (Entry.decode ffs_header) (901 ∷ 902 ∷ [])
      (ffs-Stored 900) ffs_header-parsed ffs_header-file ffs-Listed ffs-enough

new_ofs_example :
    Starts ofs_disk
      (take (Entry.decode ofs_header).byte_size (payloads ofs_blocks (911 ∷ 912 ∷ [])))
      (new ofs_disk ofs 900)
    × Starts ofs_disk
        (take (Entry.decode ofs_header).byte_size (payloads ofs_blocks (911 ∷ 912 ∷ [])))
        (from_entry ofs 900 (Entry.decode ofs_header))
new_ofs_example =
    new_ofs-Starts ofs_disk ofs_blocks 900 (Entry.decode ofs_header) (911 ∷ 912 ∷ [])
      (ofs-Stored 900) ofs_header-parsed ofs_header-file ofs-Linked ofs-enough

abbrev ffs_start : FileReader
ffs_start = start_of ffs 900 (Entry.decode ffs_header) (replicate 512 0)

abbrev ofs_start : FileReader
ofs_start = start_of ofs 900 (Entry.decode ofs_header) (replicate 512 0)

listed_example :
    Rest ffs_disk ffs_start (take ffs_start.remaining (contents ffs_blocks (901 ∷ 902 ∷ [])))
listed_example =
    Listed-Rest ffs_disk ffs_blocks (901 ∷ 902 ∷ []) ffs_start refl (λ some. inl refl) ffs-Listed
      ffs-enough

linked_example :
    Rest ofs_disk ofs_start (take ofs_start.remaining (payloads ofs_blocks (911 ∷ 912 ∷ [])))
linked_example =
    Linked-Rest ofs_disk ofs_blocks (911 ∷ 912 ∷ []) ofs_start refl (λ some. inl refl) (first refl)
      ofs-Linked ofs-enough
