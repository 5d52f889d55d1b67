-- ===== src/Fs/Vfs/Paths.antt =====
-- The path helpers at the top of fs/vfs/vfs.c, and what they say about whole paths.
pub mod Laws
use velox_os.Prelude.{
  ℕ, zero, suc, ◌-◌, ◌≤◌, ◌<◌, ◌≡◌, refl, Bool, true, false, ◌&&◌, List, [], ◌∷◌, ◌++◌, length,
  get_or, ltb, ◌==◌, if◌then◌else◌, arith,
}
use velox_os.Fs.Vfs.{Bytes, slash, Mount}

abbrev pub take : ℕ → Bytes → Bytes
take zero s = []
take (suc n) [] = []
take (suc n) (c ∷ s) = c ∷ take n s

abbrev pub drop : ℕ → Bytes → Bytes
drop zero s = s
drop (suc n) [] = []
drop (suc n) (c ∷ s) = drop n s

-- the loop: `len` falls while the byte before it is a slash and is not the first
unfoldable pub trim_from : Bytes → ℕ → ℕ
trim_from path zero = zero
trim_from path (suc n) =
    let rest = trim_from path n in if ltb 0 n && (get_or path n 0 == slash) then rest else suc n

unfoldable pub vfs_trim_path_len : Bytes → ℕ
unfolding trim_from
vfs_trim_path_len path = trim_from path (length path)

-- The path with its trimmed length, as the bytes below that length.
unfoldable pub trimmed : Bytes → Bytes
unfolding vfs_trim_path_len
trimmed path = take (vfs_trim_path_len path) path

-- `p` up to `end`
unfoldable pub vfs_skip_slashes : Bytes → Bytes
vfs_skip_slashes [] = []
vfs_skip_slashes (c ∷ p) = if c == slash then vfs_skip_slashes p else c ∷ p

-- `memcmp(a, b, n) == 0`, for `n` bytes that both hold
unfoldable pub same_bytes : ℕ → Bytes → Bytes → Bool
same_bytes zero a b = true
same_bytes (suc n) (x ∷ a) (y ∷ b) = (x == y) && same_bytes n a b
same_bytes (suc n) _ _ = false

-- `path[0] == '/'`
unfoldable pub begins_with_slash : Bytes → Bool
begins_with_slash [] = false
begins_with_slash (c ∷ p) = c == slash

unfoldable pub vfs_path_is_prefix : Bytes → Mount → Bool
unfolding same_bytes begins_with_slash
vfs_path_is_prefix path mnt =
    if mnt.path_len == 0
    then false
    else if mnt.path_len == 1
    then begins_with_slash path
    else if ltb (length path) mnt.path_len
    then false
    else if same_bytes mnt.path_len path mnt.path
    then (if length path == mnt.path_len then true else get_or path mnt.path_len 0 == slash)
    else false
