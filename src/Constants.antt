-- ===== src/Constants.antt =====
-- src/constants.rs: sizes, offsets and type numbers of the disk format.
use affs_read.Prelude.{ℕ, ℤ, pos, negsuc, List, [], ◌∷◌}

abbrev pub block_size : ℕ
block_size = 512

abbrev pub boot_block_size : ℕ
boot_block_size = 1024

abbrev pub hash_table_size : ℕ
hash_table_size = 72

abbrev pub max_datablk : ℕ
max_datablk = 72

abbrev pub max_name_len : ℕ
max_name_len = 30

abbrev pub max_comment_len : ℕ
max_comment_len = 79

abbrev pub bm_pages_root_size : ℕ
bm_pages_root_size = 25

abbrev pub bm_pages_ext_size : ℕ
bm_pages_ext_size = 127

abbrev pub bm_map_size : ℕ
bm_map_size = 127

abbrev pub floppy_dd_sectors : ℕ
floppy_dd_sectors = 1760

abbrev pub floppy_hd_sectors : ℕ
floppy_hd_sectors = 3520

abbrev pub sectors_per_track_dd : ℕ
sectors_per_track_dd = 11

abbrev pub sectors_per_track_hd : ℕ
sectors_per_track_hd = 22

abbrev pub heads : ℕ
heads = 2

abbrev pub cylinders : ℕ
cylinders = 80

abbrev pub dosfs_ofs : ℕ
dosfs_ofs = 0

abbrev pub dosfs_ffs : ℕ
dosfs_ffs = 1

abbrev pub dosfs_intl : ℕ
dosfs_intl = 2

abbrev pub dosfs_dircache : ℕ
dosfs_dircache = 4

abbrev pub t_header : ℤ
t_header = pos 2

abbrev pub t_data : ℤ
t_data = pos 8

abbrev pub t_list : ℤ
t_list = pos 16

abbrev pub t_dirc : ℤ
t_dirc = pos 33

abbrev pub st_root : ℤ
st_root = pos 1

abbrev pub st_dir : ℤ
st_dir = pos 2

abbrev pub st_lsoft : ℤ
st_lsoft = pos 3

abbrev pub st_ldir : ℤ
st_ldir = pos 4

-- -3
abbrev pub st_file : ℤ
st_file = negsuc 2

-- -4
abbrev pub st_lfile : ℤ
st_lfile = negsuc 3

abbrev pub acc_delete : ℕ
acc_delete = 1

abbrev pub acc_execute : ℕ
acc_execute = 2

abbrev pub acc_write : ℕ
acc_write = 4

abbrev pub acc_read : ℕ
acc_read = 8

abbrev pub acc_archive : ℕ
acc_archive = 16

abbrev pub acc_pure : ℕ
acc_pure = 32

abbrev pub acc_script : ℕ
acc_script = 64

abbrev pub acc_hold : ℕ
acc_hold = 128

-- -1
abbrev pub bm_valid : ℤ
bm_valid = negsuc 0

abbrev pub ofs_data_size : ℕ
ofs_data_size = 488

abbrev pub ffs_data_size : ℕ
ffs_data_size = 512

abbrev pub max_log_block_size : ℕ
max_log_block_size = 4

abbrev pub max_boot_block : ℕ
max_boot_block = 1

abbrev pub symlink_offset : ℕ
symlink_offset = 24

abbrev pub file_location : ℕ
file_location = 200

abbrev pub amiga_epoch_offset : ℤ
amiga_epoch_offset = pos 252288000

abbrev pub block_sizes : List ℕ
block_sizes = 512 ∷ 1024 ∷ 2048 ∷ 4096 ∷ 8192 ∷ []
