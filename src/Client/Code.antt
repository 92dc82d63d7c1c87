-- ===== src/Client/Code.antt =====
-- The constants of src/Common/include/CBB_const.h that the client uses.
use huron_fs.Prelude.{ℕ}

-- MAX_FILE, INIT_FD, MAX_TRANSFER_SIZE and CBB_COMM_RETRY
abbrev pub max_file : ℕ
max_file = 10000

abbrev pub init_fd : ℕ
init_fd = 1000

abbrev pub max_transfer_size : ℕ
max_transfer_size = 1048576

abbrev pub cbb_comm_retry : ℕ
cbb_comm_retry = 10

-- The request codes
abbrev pub open_file : ℕ
open_file = 5

abbrev pub read_file : ℕ
read_file = 6

abbrev pub write_file : ℕ
write_file = 7

abbrev pub flush_file : ℕ
flush_file = 8

abbrev pub close_file : ℕ
close_file = 9

abbrev pub get_file_meta : ℕ
get_file_meta = 11

abbrev pub get_attr : ℕ
get_attr = 13

abbrev pub read_dir : ℕ
read_dir = 14

abbrev pub rm_dir : ℕ
rm_dir = 15

abbrev pub unlink : ℕ
unlink = 16

abbrev pub access : ℕ
access = 17

abbrev pub mkdir : ℕ
mkdir = 18

abbrev pub rename : ℕ
rename = 19

abbrev pub new_client : ℕ
new_client = 20

abbrev pub truncate : ℕ
truncate = 22

abbrev pub rename_migrating : ℕ
rename_migrating = 23

abbrev pub io_node_failure : ℕ
io_node_failure = 32

abbrev pub update_meta : ℕ
update_meta = 33

-- The flags O_CREAT and O_APPEND
abbrev pub o_creat : ℕ
o_creat = 64

abbrev pub o_append : ℕ
o_append = 1024

-- EMFILE, EBADF, EINVAL and EBADFD
abbrev pub emfile : ℕ
emfile = 24

abbrev pub ebadf : ℕ
ebadf = 9

abbrev pub einval : ℕ
einval = 22

abbrev pub ebadfd : ℕ
ebadfd = 77
