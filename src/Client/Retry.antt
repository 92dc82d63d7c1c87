-- ===== src/Client/Retry.antt =====
-- The public operations of CBB_client, src/Client/src/CBB_client.cpp: up to CBB_COMM_RETRY calls,
-- for as long as a std::runtime_error is thrown.
pub mod Laws
use huron_fs.Prelude.{ℕ, zero, suc, Option, none, some, List, []}
use huron_fs.Prelude.Int.{ℤ, pos, negsuc}
use huron_fs.Prelude.Map.{FilePath}
use huron_fs.Exec.{runtime_error, pure, throw, catch}
use huron_fs.Master.{Stat, failure}
use huron_fs.Client.{M, Network}
use huron_fs.Client.Code
use huron_fs.Client.Table.{open_once}
use huron_fs.Client.Remote.{read_once, write_once}
use huron_fs.Client.Descriptor.{close_once, flush_once, lseek_once, tell_once}
use huron_fs.Client.Paths.{
  getattr_once, unlink_once, rmdir_once, access_once, remote_stat, rename_once, mkdir_once,
  truncate_once, ftruncate_once,
}

module _ {Peer : Type 0} where
  -- for(int i=CBB_COMM_RETRY; i > 0; i--) try { ret = call; break; } catch(runtime_error)
  unfoldable pub retry : {A : Type 0} → ℕ → A → M Peer A → M Peer A
  retry zero ret call = pure ret
  retry (suc left) ret call =
      catch call (λ e. elim e [ runtime_error ↦ retry left ret call | other ↦ throw other ])

  module _ (net : Network Peer) where
    unfoldable pub client_open : FilePath → ℕ → ℕ → M Peer (Option ℕ)
    client_open path flag mode = retry Code.cbb_comm_retry none (open_once net path flag mode)

    unfoldable pub client_read : ℕ → ℕ → ℕ → M Peer (Option (List ℕ))
    client_read fuel fd size = retry Code.cbb_comm_retry none (read_once net fuel fd size)

    unfoldable pub client_write : ℕ → ℕ → List ℕ → M Peer (Option ℕ)
    client_write fuel fd buffer = retry Code.cbb_comm_retry none (write_once net fuel fd buffer)

    unfoldable pub client_close : ℕ → M Peer ℤ
    client_close fd = retry Code.cbb_comm_retry failure (close_once net fd)

    unfoldable pub client_flush : ℕ → M Peer ℤ
    client_flush fd = retry Code.cbb_comm_retry failure (flush_once net fd)

    abbrev pub client_lseek : ℕ → ℕ → ℕ → M Peer ℤ
    client_lseek fd offset whence = lseek_once net fd offset whence

    abbrev pub client_tell : ℕ → M Peer ℕ
    client_tell fd = tell_once net fd

    unfoldable pub client_getattr : FilePath → M Peer (ℤ × Option Stat)
    client_getattr path = retry Code.cbb_comm_retry (failure, none) (getattr_once net path)

    unfoldable pub client_unlink : FilePath → M Peer ℤ
    client_unlink path = retry Code.cbb_comm_retry failure (unlink_once net path)

    -- rmdir and truncate start from ret=0.
    unfoldable pub client_rmdir : FilePath → M Peer ℤ
    client_rmdir path = retry Code.cbb_comm_retry (pos 0) (rmdir_once net path)

    unfoldable pub client_access : FilePath → ℕ → M Peer ℤ
    client_access path mode = retry Code.cbb_comm_retry failure (access_once net path mode)

    unfoldable pub client_stat : FilePath → M Peer (ℤ × Option Stat)
    client_stat path = retry Code.cbb_comm_retry (failure, none) (remote_stat net path)

    unfoldable pub client_rename : FilePath → FilePath → M Peer ℤ
    client_rename old_name new_name =
        retry Code.cbb_comm_retry failure (rename_once net old_name new_name)

    unfoldable pub client_mkdir : FilePath → ℕ → M Peer ℤ
    client_mkdir path mode = retry Code.cbb_comm_retry failure (mkdir_once net path mode)

    unfoldable pub client_truncate : FilePath → ℕ → M Peer ℤ
    client_truncate path size = retry Code.cbb_comm_retry (pos 0) (truncate_once net path size)

    unfoldable pub client_ftruncate : ℕ → ℕ → M Peer ℤ
    client_ftruncate fd size = retry Code.cbb_comm_retry failure (ftruncate_once net fd size)
