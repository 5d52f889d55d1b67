-- ===== src/Fs/Fat32/Files/Windows.antt =====
-- Parts of byte strings: laws of `take` and `drop`.
use velox_os.Prelude.{
  ℕ, zero, suc, ◌-◌, ◌≤◌, ◌≡◌, refl, sym, ap, ◌∙◌, [], ◌∷◌, ◌++◌, length, ltb, if◌then◌else◌, arith,
}
use velox_os.Fs.Vfs.{Bytes}
use velox_os.Fs.Vfs.Paths.{take, drop}

pub take-append_all : (n : ℕ) (x y : Bytes) → take n (x ++ y) ≡ take n x ++ take (n - length x) y
take-append_all zero [] y = refl
take-append_all zero (c ∷ x) y =
    let e : 0 ≡ 0 - suc (length x) = omega arith in ap (λ n. take n y) e
take-append_all (suc n) [] y = let e : suc n ≡ suc n - 0 = omega arith in ap (λ n. take n y) e
take-append_all (suc n) (c ∷ x) y =
    let e : n - length x ≡ suc n - suc (length x) = omega arith in
    ap (λ t. c ∷ t) (take-append_all n x y ∙ ap (λ m. take n x ++ take m y) e)

pub take_whole : (n : ℕ) (x : Bytes) → length x ≤ n → take n x ≡ x
take_whole zero [] l = refl
take_whole zero (c ∷ x) l = absurd (omega arith)
take_whole (suc n) [] l = refl
take_whole (suc n) (c ∷ x) l = ap (λ t. c ∷ t) (take_whole n x (omega arith))

pub drop-append : (n : ℕ) (x y : Bytes) → n ≤ length x → drop n (x ++ y) ≡ drop n x ++ y
drop-append zero x y h = refl
drop-append (suc n) [] y h = absurd (omega arith)
drop-append (suc n) (c ∷ x) y h = drop-append n x y (omega arith)

pub drop-append_past :
    (n : ℕ) (x y : Bytes) → length x ≤ n → drop n (x ++ y) ≡ drop (n - length x) y
drop-append_past n [] y h = let e : n ≡ n - 0 = omega arith in ap (λ k. drop k y) e
drop-append_past zero (c ∷ x) y h = absurd (omega arith)
drop-append_past (suc n) (c ∷ x) y h =
    let e : n - length x ≡ suc n - suc (length x) = omega arith in
    drop-append_past n x y (omega arith) ∙ ap (λ k. drop k y) e

pub length-drop : (n : ℕ) (x : Bytes) → length (drop n x) ≡ length x - n
length-drop zero x = omega arith
length-drop (suc n) [] = omega arith
length-drop (suc n) (c ∷ x) = omega (arith, length-drop n x)

pub take_nil : (n : ℕ) → take n [] ≡ []
take_nil zero = refl
take_nil (suc n) = refl

pub drop_nil : (n : ℕ) → drop n [] ≡ []
drop_nil zero = refl
drop_nil (suc n) = refl

-- Nothing is left behind the end.
pub drop_past : (n : ℕ) (x : Bytes) → length x ≤ n → drop n x ≡ []
drop_past zero [] h = refl
drop_past zero (c ∷ x) h = absurd (omega arith)
drop_past (suc n) [] h = refl
drop_past (suc n) (c ∷ x) h = drop_past n x (omega arith)

length-take_le : (n : ℕ) (x : Bytes) → length (take n x) ≤ n
length-take_le zero x = omega arith
length-take_le (suc n) [] = omega arith
length-take_le (suc n) (c ∷ x) = omega (arith, length-take_le n x)

drop-take : (n m : ℕ) (x : Bytes) → drop n (take m x) ≡ take (m - n) (drop n x)
drop-take zero m x = let e : m ≡ m - 0 = omega arith in ap (λ k. take k x) e
drop-take (suc n) zero x =
    let e : 0 ≡ 0 - suc n = omega arith in ap (λ k. take k (drop (suc n) x)) e
drop-take (suc n) (suc m) [] = sym (take_nil (suc m - suc n))
drop-take (suc n) (suc m) (c ∷ x) =
    let e : m - n ≡ suc m - suc n = omega arith in drop-take n m x ∙ ap (λ k. take k (drop n x)) e

take-take : (n m : ℕ) (x : Bytes) → take n (take m x) ≡ take (if ltb m n then m else n) x
take-take zero m x = let e : 0 ≡ (if ltb m 0 then m else 0) = ground arith in ap (λ k. take k x) e
take-take (suc n) zero x =
    let e : 0 ≡ (if ltb 0 (suc n) then 0 else suc n) = ground arith in ap (λ k. take k x) e
take-take (suc n) (suc m) [] = sym (take_nil (if ltb (suc m) (suc n) then suc m else suc n))
take-take (suc n) (suc m) (c ∷ x) =
    let e : suc (if ltb m n then m else n) ≡ (if ltb (suc m) (suc n) then suc m else suc n) =
      ground arith in
    ap (λ t. c ∷ t) (take-take n m x) ∙ ap (λ k. take k (c ∷ x)) e

-- The part of the first `size` bytes from an offset on.
pub window_lem :
    (size offset len : ℕ) (x : Bytes)
    → take (if ltb (size - offset) len then size - offset else len) (drop offset x)
      ≡ take len (drop offset (take size x))
window_lem size offset len x =
    sym (ap (take len) (drop-take offset size x) ∙ take-take len (size - offset) (drop offset x))

pub window_past :
    (size offset len : ℕ) (x : Bytes) → size ≤ offset → take len (drop offset (take size x)) ≡ []
window_past size offset len x h =
    ap (take len) (drop_past offset (take size x) (omega (arith, length-take_le size x)))
    ∙ take_nil len
