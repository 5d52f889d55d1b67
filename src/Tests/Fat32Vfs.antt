-- ===== src/Tests/Fat32Vfs.antt =====
-- A FAT volume mounted at / and a file of it.
use velox_os.Prelude.{ℕ, ◌+◌, ◌≡◌, refl, some, none, [], ◌∷◌, length, arith}
use velox_os.Prelude.Words.{u64}
use velox_os.Fs.Vfs.{ℤ, pos, Node, File, Env}
use velox_os.Fs.Vfs.Files.{vfs_read}
use velox_os.Fs.Vfs.Resolve.{node_at, vfs_resolve_path}
use velox_os.Fs.Fat32Vfs.{Inode, new_inode}
use velox_os.Fs.Fat32Vfs.Tree.{State, fat_env, fat32_vfs_mount}
use velox_os.Fs.Fat32Vfs.Mounting.{fat_root, vfs_resolve_path-fat32_vfs_mount}
use velox_os.Fs.Fat32Vfs.Reading.{window, vfs_read-content}
use velox_os.Tests.Fat32.{table, vol, device, chain, bufs}

-- A heap that counts.
abbrev malloc : ℕ → ℕ → ℕ × ℕ
malloc size h = (h, h + size)

abbrev free : ℕ → ℕ → ℕ
free block h = h

abbrev file_inode : Inode
file_inode = new_inode vol 2 700 0x20

abbrev file_node : Node
file_node = record {
  name = 5;
  text = b'f' ∷ [];
  name_len = 1;
  type = 1;
  flags = 1;
  size = 700;
  ops = 2;
  payload = 30;
  parent = 0;
  first_child = 0;
  next_sibling = 0;
}

abbrev start : State device table 9 9 malloc free
start = record {
  nodes = λ a. file_node;
  mounts = [];
  heap = record { blocks = 1000; inodes = λ a. file_inode };
}

abbrev fat : Env
fat = fat_env device table 9 9 malloc free

abbrev ran : ℤ × State device table 9 9 malloc free
ran = elim (fat32_vfs_mount device table 9 9 malloc free vol (b'/' ∷ []) start) [
  | none ↦ (pos 9, start)
  | some r ↦ r
]

mount_run : fat32_vfs_mount device table 9 9 malloc free vol (b'/' ∷ []) start ≡ some (pos 0, ran.1)
unfolding fat32_vfs_mount
mount_run = refl

mounted_root_example :
    vfs_resolve_path fat 9 (some (b'/' ∷ [])) ran.1
    ≡ some (node_at (fat_root device table 9 9 malloc free vol start).0, ran.1)
mounted_root_example =
    vfs_resolve_path-fat32_vfs_mount device table 9 9 malloc free vol (b'/' ∷ []) start ran.1
      (omega arith) tt mount_run

abbrev opened_file : File
opened_file = record { block = 900; node = 20; position = 510; flags = 0; private_data = 0 }

fat_file_example :
    (let run = vfs_read fat 9 opened_file 4 start in
      let got = window device table 9 9 malloc free file_inode bufs opened_file 4 in
      (run.0 ≡ pos (length got))
      × (run.1 ≡ got)
      × (run.2 ≡ record opened_file { position = u64 (510 + length got) }))
fat_file_example =
    vfs_read-content device table 9 9 malloc free opened_file 4 file_inode bufs start (omega arith)
      refl (omega arith) refl chain (omega arith) (omega arith)
