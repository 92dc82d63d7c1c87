-- ===== src/Master/Code.antt =====
-- The request codes of src/Common/include/CBB_const.h that the Master and the IOnodes send or record.
use huron_fs.Prelude.{ℕ}

abbrev pub open_file : ℕ
open_file = 5

abbrev pub flush_file : ℕ
flush_file = 8

abbrev pub close_file : ℕ
close_file = 9

abbrev pub rm_dir : ℕ
rm_dir = 15

abbrev pub unlink : ℕ
unlink = 16

abbrev pub mkdir : ℕ
mkdir = 18

abbrev pub rename : ℕ
rename = 19

abbrev pub truncate : ℕ
truncate = 22

abbrev pub promoted_to_primary_replica : ℕ
promoted_to_primary_replica = 29

abbrev pub replace_replica : ℕ
replace_replica = 30

abbrev pub remove_io_node : ℕ
remove_io_node = 31

abbrev pub data_sync : ℕ
data_sync = 27

abbrev pub new_io_node : ℕ
new_io_node = 28
