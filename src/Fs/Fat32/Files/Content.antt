-- ===== src/Fs/Fat32/Files/Content.antt =====
-- What fat32_read_file_at reads: a part of the bytes of the file's clusters, joined.
use mathlib.Core.List.{append-nil, append_assoc}
use velox_os.Prelude.{
  ℕ, zero, suc, ◌-◌, ◌≤◌, ◌<◌, ◌≡◌, refl, sym, ap, ◌∙◌, ◌≢◌, inl, inr, false, ◌||◌, Option, some,
  List, [], ◌∷◌, ◌++◌, length, length-append, ltb, leb, ◌==◌, Bool-cases, if◌then◌else◌, arith,
}
use velox_os.Fs.Vfs.{ℤ, pos, err_io, Bytes, Env}
use velox_os.Fs.Vfs.Paths.{take, drop}
use velox_os.Fs.Gpt.{Gpt}
use velox_os.Fs.Fat32.{
  Vol, fat32_eoc, fat32_bad, fat32_read_fat_entry, fat32_read_cluster, with_buffer,
}
use velox_os.Fs.Fat32.Files.Windows.{
  take-append_all, take_whole, drop-append, drop-append_past, length-drop, take_nil, drop_past,
  window_lem, window_past,
}
use velox_os.Fs.Fat32.Files.{
  at_cluster, past_end, seek, copied, copy_chunk, copy_loop, copy_from, fat32_read_file_at,
}

-- The bytes of the clusters, joined.
abbrev pub content : List Bytes → Bytes
content [] = []
content (buf ∷ bufs) = buf ++ content bufs

module _ (device : ℕ → ℕ → Option Bytes) (g : Gpt) (vol : Vol) where
  -- From the cluster `c` on, the chain holds exactly these clusters' bytes, can be read, and ends
  -- with an end mark.
  abbrev pub Chain : ℕ → List Bytes → Type 0
  Chain c [] = ⊥
  Chain c (buf ∷ []) =
      (2 ≤ c)
      × (c < fat32_eoc)
      × (fat32_read_cluster device g vol c ≡ some buf)
      × (length buf ≡ vol.bytes_per_cluster)
      × (fat32_eoc ≤ fat32_read_fat_entry device g vol c)
  Chain c (buf ∷ bufs) =
      (2 ≤ c)
      × (c < fat32_eoc)
      × (fat32_read_cluster device g vol c ≡ some buf)
      × (length buf ≡ vol.bytes_per_cluster)
      × (fat32_read_fat_entry device g vol c < fat32_bad)
      × Chain (fat32_read_fat_entry device g vol c) bufs

  -- What one cluster's bytes give of what is to be read.
  chunk_lem :
      (n intra : ℕ) (buf : Bytes)
      → length buf ≡ vol.bytes_per_cluster
      → intra < vol.bytes_per_cluster
      → take
          (if ltb n (vol.bytes_per_cluster - intra) then n else vol.bytes_per_cluster - intra)
          (drop intra buf)
        ≡ take n (drop intra buf)
  chunk_lem n intra buf l i =
      let len : length (drop intra buf) ≡ vol.bytes_per_cluster - intra =
        omega (arith, length-drop intra buf) in
      elim (Bool-cases (ltb n (vol.bytes_per_cluster - intra))) [
        | inl e ↦ rw e
        | inr e ↦ rw e (
            take_whole (vol.bytes_per_cluster - intra) (drop intra buf) (omega (arith, len))
            ∙ sym (take_whole n (drop intra buf) (ground (arith, len))))
      ]

  -- The bytes to read from a cluster, and those from the clusters that follow.
  split_read :
      (n intra : ℕ) (buf rest : Bytes)
      → intra ≤ length buf
      → take n (drop intra (buf ++ rest))
        ≡ take n (drop intra buf) ++ take (n - (length buf - intra)) rest
  split_read n intra buf rest l =
      ap (take n) (drop-append intra buf rest l)
      ∙ take-append_all n (drop intra buf) rest
      ∙ ap (λ m. take n (drop intra buf) ++ take (n - m) rest) (length-drop intra buf)

  -- A round with its cluster read, by how much the cluster has.
  abbrev round_end : (next n avail : ℕ) → Bytes → ℤ × Bytes → ℤ × Bytes
  round_end next n avail out later =
      if n - avail == 0
      then copied device g out
      else if next == fat32_bad
      then (err_io, out)
      else if leb fat32_eoc next
      then copied device g out
      else later

  chunk_round :
      (onward : (cluster to_read : ℕ) → Bytes → ℤ × Bytes) (c intra n : ℕ) (buf out : Bytes)
      → length buf ≡ vol.bytes_per_cluster
      → intra < vol.bytes_per_cluster
      → copy_chunk device g onward (some buf) vol c intra n out
        ≡ round_end
            (fat32_read_fat_entry device g vol c)
            n
            (vol.bytes_per_cluster - intra)
            (out ++ take n (drop intra buf))
            (onward
              (fat32_read_fat_entry device g vol c)
              (n - (vol.bytes_per_cluster - intra))
              (out ++ take n (drop intra buf)))
  unfolding copy_chunk
  chunk_round onward c intra n buf out len i =
      let left : n
            - (if ltb n (vol.bytes_per_cluster - intra) then n else vol.bytes_per_cluster - intra)
          ≡ n - (vol.bytes_per_cluster - intra) =
        ground arith in
      rw (chunk_lem n intra buf len i, left)

  copy_none :
      (rounds c intra : ℕ) (out : Bytes)
      → copy_loop device g rounds vol c intra 0 out ≡ copied device g out
  unfolding copy_loop
  copy_none zero c intra out = refl
  copy_none (suc rounds) c intra out = refl

  copy_step :
      (rounds c intra n : ℕ) (out buf : Bytes)
      → 0 < n
      → 2 ≤ c
      → c < fat32_eoc
      → fat32_read_cluster device g vol c ≡ some buf
      → copy_loop device g (suc rounds) vol c intra n out
        ≡ copy_chunk device g
            (λ c n o. copy_loop device g rounds vol c 0 n o)
            (some buf)
            vol
            c
            intra
            n
            out
  unfolding copy_loop
  copy_step rounds c intra n out buf p low high r =
      let go : ((n == 0) || ltb c 2 || leb fat32_eoc c) ≡ false = ground arith in rw (go, r)

  round_last :
      (next n avail : ℕ) (out : Bytes) (later : ℤ × Bytes)
      → fat32_eoc ≤ next
      → round_end next n avail out later ≡ copied device g out
  round_last next n avail out later h = ground arith

  round_more :
      (next n avail : ℕ) (out : Bytes) (later : ℤ × Bytes)
      → next < fat32_bad
      → (n - avail ≡ 0 → later ≡ copied device g out)
      → round_end next n avail out later ≡ later
  round_more next n avail out later h k = elim (Bool-cases (n - avail == 0)) [
    | inl e ↦ rw e (sym (k (ground arith)))
    | inr e ↦ ground arith
  ]

  copy_loop_lem :
      (rounds c intra n : ℕ) (out : Bytes) (bufs : List Bytes)
      → Chain c bufs
      → intra < vol.bytes_per_cluster
      → n ≤ rounds
      → copy_loop device g rounds vol c intra n out
        ≡ copied device g (out ++ take n (drop intra (content bufs)))
  copy_loop_lem rounds c intra n out [] h i l = absurd h
  copy_loop_lem rounds c intra zero out (buf ∷ bufs) h i l =
      copy_none rounds c intra out ∙ ap (copied device g) (sym (append-nil out))
  copy_loop_lem zero c intra (suc n) out (buf ∷ bufs) h i l = absurd (omega arith)
  copy_loop_lem (suc rounds) c intra (suc n) out (buf ∷ []) (low, high, r, len, last) i l =
      copy_step rounds c intra (suc n) out buf (omega arith) low high r
      ∙ chunk_round _ c intra (suc n) buf out len i
      ∙ round_last _ (suc n) _ _ _ last
      ∙ ap (λ b. copied device g (out ++ take (suc n) (drop intra b))) (sym (append-nil buf))
  copy_loop_lem (suc rounds) c intra (suc n) out (buf ∷ b ∷ bufs) (low, high, r, len, linked, more)
        i l =
      let next = fat32_read_fat_entry device g vol c in
      let avail = vol.bytes_per_cluster - intra in
      let out' = out ++ take (suc n) (drop intra buf) in
      copy_step rounds c intra (suc n) out buf (omega arith) low high r
      ∙ chunk_round _ c intra (suc n) buf out len i
      ∙ round_more next (suc n) avail out'
          (copy_loop device g rounds vol next 0 (suc n - avail) out') linked
          (λ z.
            ap (λ m. copy_loop device g rounds vol next 0 m out') z ∙ copy_none rounds next 0 out')
      ∙ copy_loop_lem rounds next 0 (suc n - avail) out' (b ∷ bufs) more (omega arith) (omega arith)
      ∙ ap (copied device g) (
          append_assoc out (take (suc n) (drop intra buf))
            (take (suc n - avail) (b ++ content bufs))
          ∙ ap (λ t. out ++ t)
              (ap
                  (λ k.
                    take (suc n) (drop intra buf) ++ take (suc n - (k - intra)) (b ++ content bufs))
                  (sym len)
                ∙ sym (split_read (suc n) intra buf (b ++ content bufs) (omega arith))))

  Chain-low : (c : ℕ) (bufs : List Bytes) → Chain c bufs → (ltb c 2) ≡ false
  Chain-low c [] h = absurd h
  Chain-low c (buf ∷ []) (low, _, _, _, _) = ground arith
  Chain-low c (buf ∷ b ∷ bufs) (low, _, _, _, _, _) = ground arith

  -- A seek that stays in its cluster, leaves the file, and goes on to the next cluster.
  seek_here :
      (rounds c skip : ℕ)
      → skip < vol.bytes_per_cluster
      → seek device g (suc rounds) vol c skip ≡ at_cluster c skip
  unfolding seek
  seek_here rounds c skip h = ground arith

  seek_past :
      (rounds c skip : ℕ)
      → ltb skip vol.bytes_per_cluster ≡ false
      → fat32_eoc ≤ fat32_read_fat_entry device g vol c
      → seek device g (suc rounds) vol c skip ≡ past_end
  unfolding seek
  seek_past rounds c skip h k = ground arith

  seek_next :
      (rounds c skip : ℕ)
      → ltb skip vol.bytes_per_cluster ≡ false
      → fat32_read_fat_entry device g vol c < fat32_bad
      → seek device g (suc rounds) vol c skip
        ≡ seek device g rounds vol
            (fat32_read_fat_entry device g vol c)
            (skip - vol.bytes_per_cluster)
  unfolding seek
  seek_next rounds c skip h k = ground arith

  copy_from-seek :
      (rounds c skip n : ℕ) (bufs : List Bytes)
      → Chain c bufs
      → 0 < vol.bytes_per_cluster
      → skip < rounds
      → copy_from device g (seek device g rounds vol c skip) vol n
        ≡ copied device g (take n (drop skip (content bufs)))
  unfolding copy_from
  copy_from-seek zero c skip n bufs h p l = absurd (omega arith)
  copy_from-seek (suc rounds) c skip n [] h p l = absurd h
  copy_from-seek (suc rounds) c skip n (buf ∷ []) h p l =
      elim (Bool-cases (ltb skip vol.bytes_per_cluster)) [
        | inl e ↦
            rw (seek_here rounds c skip (ground arith))
              (copy_loop_lem n c skip n [] (buf ∷ []) h (ground arith) (omega arith))
        | inr e ↦ rw (seek_past rounds c skip e h.4) (
            ap (copied device g) (
              sym (
                ap (take n)
                  (drop_past skip (buf ++ []) (ground (arith, h.3, length-append {0} buf [])))
                ∙ take_nil n)))
      ]
  copy_from-seek (suc rounds) c skip n (buf ∷ b ∷ bufs) h p l =
      elim (Bool-cases (ltb skip vol.bytes_per_cluster)) [
        | inl e ↦
            rw (seek_here rounds c skip (ground arith))
              (copy_loop_lem n c skip n [] (buf ∷ b ∷ bufs) h (ground arith) (omega arith))
        | inr e ↦ rw (seek_next rounds c skip e h.4) (
            copy_from-seek rounds (fat32_read_fat_entry device g vol c)
              (skip - vol.bytes_per_cluster) n (b ∷ bufs) h.5 p (ground arith)
            ∙ ap (λ t. copied device g (take n t))
                (ap (λ k. drop (skip - k) (b ++ content bufs)) (sym h.3)
                  ∙ sym (drop-append_past skip buf (b ++ content bufs) (ground (arith, h.3)))))
      ]

  -- The file at a chain of clusters that can be read and ends is the first `file_size` bytes of
  -- the clusters joined: fat32_read_file_at with memory for its buffer returns the `len` bytes of it
  -- from the offset on, or as many as there are, and their count.
  pub fat32_read_file_at-content :
      (e : Env) (c file_size offset len : ℕ) (bufs : List Bytes) (h : e.Heap)
      → Chain c bufs
      → 0 < vol.bytes_per_cluster
      → (e.kmalloc vol.bytes_per_cluster h).0 ≢ 0
      → (fat32_read_file_at device g e vol c file_size offset len h).0 ≡ (
        pos (length (take len (drop offset (take file_size (content bufs))))),
        take len (drop offset (take file_size (content bufs))),
      )
  unfolding fat32_read_file_at with_buffer
  fat32_read_file_at-content e c file_size offset len bufs h chain p mem =
      let fits : ((e.kmalloc vol.bytes_per_cluster h).0 == 0) ≡ false = ground arith in
      elim (Bool-cases (leb file_size offset)) [
        | inl past ↦ rw past (
            ap (copied device g)
              (sym (window_past file_size offset len (content bufs) (ground arith))))
        | inr inside ↦ rw inside (elim (Bool-cases (len == 0)) [
          | inl none_wanted ↦
              let z : 0 ≡ len = ground arith in
              rw none_wanted
                (ap (λ k. copied device g (take k (drop offset (take file_size (content bufs))))) z)
          | inr some_wanted ↦
              rw (some_wanted, Chain-low c bufs chain, fits)
                (copy_from-seek (suc offset) c offset
                    (if ltb (file_size - offset) len then file_size - offset else len) bufs chain p
                    (omega arith)
                  ∙ ap (copied device g) (window_lem file_size offset len (content bufs)))
        ])
      ]
