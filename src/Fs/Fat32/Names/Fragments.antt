-- ===== src/Fs/Fat32/Names/Fragments.antt =====
-- The long-name accumulator of fs/fat32.c: fragments that arrive last one first are put together
-- in order.
use mathlib.Core.Path.{subst}
use velox_os.Prelude.{
  ℕ, zero, suc, ◌+◌, ◌-◌, ◌*◌, ◌≤◌, ◌<◌, ◌≡◌, refl, sym, ap, ◌∙◌, inl, inr, false, List, [], ◌∷◌,
  ◌++◌, All, length, length-set, get_or, set, get_or-set_self, get_or-set_ne, ltb, ◌==◌, Bool-cases,
  arith,
}
use velox_os.Fs.Fat32.Names.{Lfn, lfn_units, shift_units, write_units, lfn_push}

length-shift : (i : ℕ) (cs : List ℕ) → length (shift_units i cs) ≡ length cs
unfolding shift_units
length-shift zero cs = refl
length-shift (suc i) cs =
    length-shift i (set cs (i + 13) (get_or cs i 0)) ∙ length-set cs (i + 13) (get_or cs i 0)

shift_high :
    (i : ℕ) (cs : List ℕ) (j : ℕ) → i + 13 ≤ j → get_or (shift_units i cs) j 0 ≡ get_or cs j 0
unfolding shift_units
shift_high zero cs j h = refl
shift_high (suc i) cs j h =
    shift_high i (set cs (i + 13) (get_or cs i 0)) j (omega arith)
    ∙ get_or-set_ne cs (i + 13) j (get_or cs i 0) 0 (λ e. absurd (omega arith))

shift_moved :
    (i : ℕ) (cs : List ℕ) (j : ℕ)
    → i + 13 ≤ length cs
    → j < i
    → get_or (shift_units i cs) (j + 13) 0 ≡ get_or cs j 0
unfolding shift_units
shift_moved zero cs j h l = absurd (omega arith)
shift_moved (suc i) cs j h l =
    let v = get_or cs i 0 in
    elim (Bool-cases (j == i)) [
      | inl e ↦
          let k : j ≡ i = ground arith in
          ap (λ n. get_or (shift_units i (set cs (i + 13) v)) (n + 13) 0) k
          ∙ shift_high i (set cs (i + 13) v) (i + 13) (omega arith)
          ∙ get_or-set_self cs (i + 13) v 0 (omega arith)
          ∙ ap (λ n. get_or cs n 0) (sym k)
      | inr e ↦
          shift_moved i (set cs (i + 13) v) j (omega (arith, length-set cs (i + 13) v))
            (ground arith)
          ∙ get_or-set_ne cs (i + 13) j v 0 (λ e. absurd (omega arith))
    ]

write_before :
    (i : ℕ) (us cs : List ℕ) (j : ℕ) → j < i → get_or (write_units i us cs) j 0 ≡ get_or cs j 0
unfolding write_units
write_before i [] cs j h = refl
write_before i (u ∷ us) cs j h =
    write_before (i + 1) us (set cs i u) j (omega arith)
    ∙ get_or-set_ne cs i j u 0 (λ e. absurd (omega arith))

write_past :
    (i : ℕ) (us cs : List ℕ) (j : ℕ)
    → i + length us ≤ j
    → get_or (write_units i us cs) j 0 ≡ get_or cs j 0
unfolding write_units
write_past i [] cs j h = refl
write_past i (u ∷ us) cs j h =
    write_past (i + 1) us (set cs i u) j (omega arith)
    ∙ get_or-set_ne cs i j u 0 (λ e. absurd (omega arith))

write_at :
    (i : ℕ) (us cs : List ℕ) (k : ℕ)
    → k < length us
    → i + length us ≤ length cs
    → get_or (write_units i us cs) (i + k) 0 ≡ get_or us k 0
unfolding write_units
write_at i [] cs k h l = absurd (omega arith)
write_at i (u ∷ us) cs zero h l =
    let e : i + 0 ≡ i = omega arith in
    ap (λ n. get_or (write_units (i + 1) us (set cs i u)) n 0) e
    ∙ write_before (i + 1) us (set cs i u) i (omega arith)
    ∙ get_or-set_self cs i u 0 (omega arith)
write_at i (u ∷ us) cs (suc k) h l =
    let e : i + suc k ≡ i + 1 + k = omega arith in
    ap (λ n. get_or (write_units (i + 1) us (set cs i u)) n 0) e
    ∙ write_at (i + 1) us (set cs i u) k (omega arith) (omega (arith, length-set cs i u))

length-write : (i : ℕ) (us cs : List ℕ) → length (write_units i us cs) ≡ length cs
unfolding write_units
length-write i [] cs = refl
length-write i (u ∷ us) cs = length-write (i + 1) us (set cs i u) ∙ length-set cs i u

append_left : (us cs : List ℕ) (j : ℕ) → j < length us → get_or (us ++ cs) j 0 ≡ get_or us j 0
append_left [] cs j h = absurd (omega arith)
append_left (u ∷ us) cs zero h = refl
append_left (u ∷ us) cs (suc j) h = append_left us cs j (omega arith)

append_right : (us cs : List ℕ) (j : ℕ) → get_or (us ++ cs) (j + length us) 0 ≡ get_or cs j 0
append_right [] cs j = let e : j + 0 ≡ j = omega arith in ap (λ n. get_or cs n 0) e
append_right (u ∷ us) cs j =
    let e : j + suc (length us) ≡ suc (j + length us) = omega arith in
    ap (λ n. get_or (u ∷ (us ++ cs)) n 0) e ∙ append_right us cs j

-- The units of a fragment are put before those that are there.
push_units :
    (us cs : List ℕ) (total j : ℕ)
    → length us ≡ 13
    → total + 13 ≤ length cs
    → j < total + 13
    → get_or (write_units 0 us (shift_units total cs)) j 0 ≡ get_or (us ++ cs) j 0
push_units us cs total j h l b = elim (Bool-cases (ltb j 13)) [
  | inl e ↦
      let here : 0 + j ≡ j = omega arith in
      ap (λ n. get_or (write_units 0 us (shift_units total cs)) n 0) (sym here)
      ∙ write_at 0 us (shift_units total cs) j (ground arith) (omega (arith, length-shift total cs))
      ∙ sym (append_left us cs j (ground arith))
  | inr e ↦
      let here : j ≡ j - 13 + 13 = ground arith in
      let there : j ≡ j - 13 + length us = ground arith in
      write_past 0 us (shift_units total cs) j (ground arith)
      ∙ ap (λ n. get_or (shift_units total cs) n 0) here
      ∙ shift_moved total cs (j - 13) l (ground arith)
      ∙ sym (append_right us cs (j - 13))
      ∙ ap (λ n. get_or (us ++ cs) n 0) (sym there)
]

-- The fragments in the order in which they stand on the disk.
unfoldable pub push_all : Lfn → List (List ℕ) → Lfn
unfolding lfn_push
push_all lfn [] = lfn
push_all lfn (us ∷ fs) = push_all (lfn_push lfn us) fs

-- What they make, the last of them first, before what was there.
unfoldable pub joined : List (List ℕ) → List ℕ → List ℕ
joined [] cs = cs
joined (us ∷ fs) cs = joined fs (us ++ cs)

-- The accumulator says the same as a list, as far as it has units.
record Reads (lfn : Lfn) (total : ℕ) (cs : List ℕ) : Type 0 where
  room : length lfn.chars ≡ lfn_units
  counted : lfn.total ≡ total
  units : (j : ℕ) → j < total → get_or lfn.chars j 0 ≡ get_or cs j 0

append_same :
    (us a b : List ℕ) (total j : ℕ)
    → length us ≡ 13
    → ((k : ℕ) → k < total → get_or a k 0 ≡ get_or b k 0)
    → j < total + 13
    → get_or (us ++ a) j 0 ≡ get_or (us ++ b) j 0
append_same us a b total j h k l = elim (Bool-cases (ltb j 13)) [
  | inl e ↦ append_left us a j (ground arith) ∙ sym (append_left us b j (ground arith))
  | inr e ↦
      let there : j ≡ j - 13 + length us = ground arith in
      ap (λ n. get_or (us ++ a) n 0) there
      ∙ append_right us a (j - 13)
      ∙ k (j - 13) (ground arith)
      ∙ sym (append_right us b (j - 13))
      ∙ ap (λ n. get_or (us ++ b) n 0) (sym there)
]

lfn_push-Reads :
    (lfn : Lfn) (us : List ℕ) (total : ℕ) (cs : List ℕ)
    → Reads lfn total cs
    → length us ≡ 13
    → total + 13 ≤ lfn_units
    → Reads (lfn_push lfn us) (total + 13) (us ++ cs) × ((lfn_push lfn us).valid ≡ lfn.valid)
unfolding lfn_push
lfn_push-Reads lfn us total cs r h l =
    let fits : ltb lfn_units (lfn.total + 13) ≡ false = ground (arith, r.counted) in
    rw fits (
      record {
        room =
            length-write 0 us (shift_units lfn.total lfn.chars)
            ∙ length-shift lfn.total lfn.chars
            ∙ r.room;
        counted = omega (arith, r.counted);
        units = λ j k.
            push_units us lfn.chars lfn.total j h (omega (arith, r.counted, r.room))
              (omega (arith, r.counted))
            ∙ append_same us lfn.chars cs total j h r.units k;
      },
      refl,
    )

push_all-Reads :
    (fs : List (List ℕ)) (lfn : Lfn) (total : ℕ) (cs : List ℕ)
    → Reads lfn total cs
    → All (λ us. length us ≡ 13) fs
    → total + 13 * length fs ≤ lfn_units
    → Reads (push_all lfn fs) (total + 13 * length fs) (joined fs cs)
      × ((push_all lfn fs).valid ≡ lfn.valid)
unfolding push_all joined
push_all-Reads [] lfn total cs r h l =
    let e : total ≡ total + 13 * 0 = omega arith in (subst (λ n. Reads lfn n cs) e r, refl)
push_all-Reads (us ∷ fs) lfn total cs r h l =
    let (r1, v1) = lfn_push-Reads lfn us total cs r h.0 (omega arith) in
    let (r2, v2) =
      push_all-Reads fs (lfn_push lfn us) (total + 13) (us ++ cs) r1 h.1 (omega arith) in
    let e : total + 13 + 13 * length fs ≡ total + 13 * suc (length fs) = omega arith in
    (subst (λ n. Reads (push_all (lfn_push lfn us) fs) n (joined fs (us ++ cs))) e r2, v2 ∙ v1)

-- Up to twenty fragments of 13 units that arrive last one first, on an emptied accumulator, are put
-- together in the order of the name; their units are counted, and the accumulator stays valid as it
-- was.
pub push_all-joined :
    (fs : List (List ℕ)) (lfn : Lfn) (j : ℕ)
    → length lfn.chars ≡ lfn_units
    → lfn.total ≡ 0
    → All (λ us. length us ≡ 13) fs
    → length fs ≤ 20
    → j < 13 * length fs
    → (get_or (push_all lfn fs).chars j 0 ≡ get_or (joined fs []) j 0)
      × ((push_all lfn fs).total ≡ 13 * length fs)
      × ((push_all lfn fs).valid ≡ lfn.valid)
push_all-joined fs lfn j room z h few l =
    let (r, v) =
      push_all-Reads fs lfn 0 []
        (record { room = room; counted = z; units = λ k b. absurd (omega arith) }) h
        (omega arith) in
    (r.units j (omega arith), omega (arith, r.counted), v)
