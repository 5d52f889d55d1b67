-- ===== src/Fs/Vfs/Paths/Laws.antt =====
-- Laws of the path helpers.
use velox_os.Prelude.{
  ℕ, zero, suc, ◌≤◌, ◌<◌, ◌≡◌, refl, ap, ◌∙◌, true, [], ◌∷◌, ◌++◌, length, length-append, get_or,
  ◌==◌, arith,
}
use velox_os.Fs.Vfs.{Bytes, slash}
use velox_os.Fs.Vfs.Paths.{
  take, drop, trim_from, vfs_trim_path_len, trimmed, same_bytes, begins_with_slash,
}

pub same_bytes-append : (a rest : Bytes) → same_bytes (length a) (a ++ rest) a ≡ true
unfolding same_bytes
same_bytes-append [] rest = refl
same_bytes-append (x ∷ a) rest = ground (arith, same_bytes-append a rest)

pub same_bytes-eq :
    (p a : Bytes) → same_bytes (length a) p a ≡ true → (rest : Bytes) × (p ≡ a ++ rest)
unfolding same_bytes
same_bytes-eq p [] h = (p, refl)
same_bytes-eq [] (x ∷ a) h = absurd (ground arith)
same_bytes-eq (y ∷ p) (x ∷ a) h =
    let (rest, e) = same_bytes-eq p a (ground arith) in let f : y ≡ x = ground arith in (rest, cc)

pub get_or-append : (a rest : Bytes) → get_or (a ++ rest) (length a) 0 ≡ get_or rest 0 0
get_or-append [] rest = refl
get_or-append (x ∷ a) rest = get_or-append a rest

pub begins_lem : (p : Bytes) → (get_or p 0 0 == slash) ≡ begins_with_slash p
unfolding begins_with_slash
begins_lem [] = refl
begins_lem (c ∷ p) = refl

pub length-drop_all : (p : Bytes) → drop (length p) p ≡ []
length-drop_all [] = refl
length-drop_all (c ∷ p) = length-drop_all p

pub length-take : (n : ℕ) (p : Bytes) → n ≤ length p → length (take n p) ≡ n
length-take zero p h = refl
length-take (suc n) [] h = absurd (omega arith)
length-take (suc n) (c ∷ p) h = ap suc (length-take n p (omega arith))

pub take-append : (n : ℕ) (p q : Bytes) → n ≤ length p → take n (p ++ q) ≡ take n p
take-append zero p q h = refl
take-append (suc n) [] q h = absurd (omega arith)
take-append (suc n) (c ∷ p) q h = ap (λ t. c ∷ t) (take-append n p q (omega arith))

pub trim_from_bounds : (p : Bytes) (n : ℕ) → trim_from p n ≤ n
unfolding trim_from
trim_from_bounds p zero = omega arith
trim_from_bounds p (suc n) = ground (arith, trim_from_bounds p n)

pub trim_from_pos : (p : Bytes) (n : ℕ) → 0 < n → 0 < trim_from p n
unfolding trim_from
trim_from_pos p zero h = absurd (omega arith)
trim_from_pos p (suc zero) h = omega arith
trim_from_pos p (suc (suc n)) h = ground (arith, trim_from_pos p (suc n))

get_or-append_left : (p q : Bytes) (i : ℕ) → i < length p → get_or (p ++ q) i 0 ≡ get_or p i 0
get_or-append_left [] q i h = absurd (omega arith)
get_or-append_left (c ∷ p) q zero h = refl
get_or-append_left (c ∷ p) q (suc i) h = get_or-append_left p q i (omega arith)

trim_from-append : (p q : Bytes) (n : ℕ) → n ≤ length p → trim_from (p ++ q) n ≡ trim_from p n
unfolding trim_from
trim_from-append p q zero h = refl
trim_from-append p q (suc n) h =
    rw (trim_from-append p q n (omega arith), get_or-append_left p q n (omega arith))

get_or-end : (p : Bytes) → get_or (p ++ slash ∷ []) (length p) 0 ≡ slash
get_or-end [] = refl
get_or-end (c ∷ p) = get_or-end p

length-snoc : (p : Bytes) → length (p ++ slash ∷ []) ≡ suc (length p)
length-snoc p = omega (arith, length-append {0} p (slash ∷ []))

trim_from-slash :
    (p : Bytes) (n : ℕ) → 0 < n → get_or p n 0 ≡ slash → trim_from p (suc n) ≡ trim_from p n
unfolding trim_from
trim_from-slash p n h e = ground arith

trim_path_len-append_slash :
    (c : ℕ) (p : Bytes) → vfs_trim_path_len ((c ∷ p) ++ slash ∷ []) ≡ vfs_trim_path_len (c ∷ p)
unfolding vfs_trim_path_len
trim_path_len-append_slash c p =
    let q : Bytes = c ∷ p in
    let r : Bytes = q ++ slash ∷ [] in
    ap (trim_from r) (length-snoc q)
    ∙ trim_from-slash r (length q) (omega arith) (get_or-end q)
    ∙ trim_from-append q (slash ∷ []) (length q) (omega arith)

-- One slash more at the end of a path that is not empty is trimmed.
pub trimmed-append_slash : (c : ℕ) (p : Bytes) → trimmed ((c ∷ p) ++ slash ∷ []) ≡ trimmed (c ∷ p)
unfolding trimmed
trimmed-append_slash c p = rw (trim_path_len-append_slash c p) (
    take-append (vfs_trim_path_len (c ∷ p)) (c ∷ p) (slash ∷ [])
      (trim_from_bounds (c ∷ p) (length (c ∷ p))))
