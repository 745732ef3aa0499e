-- ===== src/Filesys/Header/Allocation.antt =====
-- Allocate takes clear sectors, each once, and Deallocate gives just those back.
use native.Mathlib.Decide.{dec_lt}
use cs107_nach_os.Common.{
  ℕ, zero, suc, ◌+◌, ◌^◌, All, ◌≤◌, ◌<◌, ◌≡◌, refl, ◌∙◌, ap, Bool, true, false, ◌||◌, Option, none,
  some, ok, aborted, ltb, lt→ltb, ◌==◌, get_elem?, set, length, arith, length-set, All-set,
  get_elem?-set_self, get_elem?-set_ne,
}
use cs107_nach_os.Bitmap.{Bitmap, IsValid, bit, div_round_up, test, clear}
use cs107_nach_os.Bitmap.Single.{test-bit, clear-Sets}
use cs107_nach_os.Bitmap.Search.{
  count_clear, count_clear-set, full, first, find_and_set-Found, num_clear-count_clear,
}
use cs107_nach_os.Filesys.Header.{
  FileHeader, sector_size, allocate, allocate_from, deallocate, deallocate_from, set_sector,
}

-- Block k of the header lies in sector j.
abbrev pub is_block : FileHeader → ℕ → ℕ → Bool
is_block h k j = elim (get_elem? h.data_sectors k) [ none ↦ false | some s ↦ s == j ]

-- One of the n blocks from i on lies in sector j.
abbrev pub owns : FileHeader → ℕ → ℕ → ℕ → Bool
owns h zero i j = false
owns h (suc n) i j = is_block h i j || owns h n (i + 1) j

-- The n blocks from i on lie in different sectors below `size`, and `taken` has none of them.
abbrev pub AreFresh : FileHeader → (ℕ → Bool) → ℕ → ℕ → ℕ → Type 0
AreFresh h taken size zero i = Unit {0}
AreFresh h taken size (suc n) i =
    (s : ℕ) × (get_elem? h.data_sectors i ≡ some s)
    × (s < size)
    × (taken s ≡ false)
    × (owns h n (i + 1) s ≡ false)
    × AreFresh h taken size n (i + 1)

owns_first :
    (h : FileHeader) (n i s j : ℕ)
    → get_elem? h.data_sectors i ≡ some s
    → owns h (suc n) i j ≡ (s == j) || owns h n (i + 1) j
owns_first h n i s j e =
    ap
      (λ (o : Option ℕ).
        elim o as (λ _. Bool) [ none ↦ false | some t ↦ t == j ] || owns h n (i + 1) j)
      e

AreFresh-weaken :
    (h : FileHeader) (f g : ℕ → Bool) (size n i : ℕ)
    → ((j : ℕ) → f j ≡ false → g j ≡ false)
    → AreFresh h f size n i
    → AreFresh h g size n i
AreFresh-weaken h f g size zero i w a = tt
AreFresh-weaken h f g size (suc n) i w (s, e, l, t, o, a) =
    (s, e, l, w s t, o, AreFresh-weaken h f g size n (i + 1) w a)

-- A taken sector is none of the fresh ones.
owns-taken :
    (h : FileHeader) (f : ℕ → Bool) (size n i j : ℕ)
    → AreFresh h f size n i
    → f j ≡ true
    → owns h n i j ≡ false
owns-taken h f size zero i j a t = refl
owns-taken h f size (suc n) i j (s, e, l, u, o, a) t =
    let rest = owns-taken h f size n (i + 1) j a t in ground (arith, e, rest, u, t)

pub count_clear-full : (f : ℕ → Bool) (n : ℕ) → ((j : ℕ) → j < n → f j ≡ true) → count_clear f n ≡ 0
unfolding count_clear
count_clear-full f zero h = refl
count_clear-full f (suc n) h =
    let rest = count_clear-full f n (λ j l. h j (omega arith)) in
    let last = h n (omega arith) in ground (arith, rest, last)

-- What Allocate has done to the header and the map: the blocks lie in sectors that were clear,
-- which are set now, and no other bit has changed.
pub record IsAllocated (b : Bitmap) (n i : ℕ) (h' : FileHeader) (b' : Bitmap) : Type 0 where
  pub valid : IsValid b'
  pub same_size : b'.num_bits ≡ b.num_bits
  pub fresh : AreFresh h' (bit b) b.num_bits n i
  pub bits : (j : ℕ) → bit b' j ≡ owns h' n i j || bit b j
  pub room : count_clear (bit b') b.num_bits + n ≡ count_clear (bit b) b.num_bits

-- The blocks before i, the lengths and the size of the table stay.
record SameBefore (size i : ℕ) (h h' : FileHeader) : Type 0 where
  before : (j : ℕ) → j < i → get_elem? h'.data_sectors j ≡ get_elem? h.data_sectors j
  table : length h'.data_sectors ≡ length h.data_sectors
  bytes : h'.num_bytes ≡ h.num_bytes
  sectors : h'.num_sectors ≡ h.num_sectors
  ints :
      size ≤ 2 ^ 32 → All (λ w. w < 2 ^ 32) h.data_sectors → All (λ w. w < 2 ^ 32) h'.data_sectors

allocate_from-IsAllocated :
    (n i : ℕ) (h : FileHeader) (b : Bitmap)
    → IsValid b
    → i + n ≤ length h.data_sectors
    → n ≤ count_clear (bit b) b.num_bits
    → (h' : FileHeader) × (b' : Bitmap) × (allocate_from n i h b ≡ ok (h', b'))
      × IsAllocated b n i h' b'
      × SameBefore b.num_bits i h h'
unfolding allocate_from set_sector
allocate_from-IsAllocated zero i h b v fits enough = (
  h,
  b,
  refl,
  record { valid = v; same_size = refl; fresh = tt; bits = λ j. refl; room = omega arith },
  record { before = λ j l. refl; table = refl; bytes = refl; sectors = refl; ints = λ l a. a },
)
allocate_from-IsAllocated (suc n) i h b v fits enough =
    let (r, run, found) = find_and_set-Found b v in
    elim found [
      | full all e ↦ absurd (omega (arith, enough, count_clear-full (bit b) b.num_bits all))
      | first s b1 l clear_before all sets e ↦
          let h1 : FileHeader = record h { data_sectors = set h.data_sectors i s } in
          let one_fewer = count_clear-set (bit b) (bit b1) s clear_before sets.bits b.num_bits l in
          let (h', b', rest, done, same) =
            allocate_from-IsAllocated n (i + 1) h1 b1 sets.valid
              (omega (arith, length-set h.data_sectors i s))
              (simp sets.same_size (omega (arith, one_fewer))) in
          let here : get_elem? h'.data_sectors i ≡ some s =
            same.before i (omega arith) ∙ get_elem?-set_self h.data_sectors i s (omega arith) in
          let set_now : bit b1 s ≡ true = ground (arith, sets.bits s) in
          let only : (j : ℕ) → bit b1 j ≡ false → bit b j ≡ false =
            λ j z. ground (arith, sets.bits j, z) in
          (
            h',
            b',
            rw (run, e, lt→ltb i (length h.data_sectors) (omega arith)) rest,
            record {
              valid = done.valid;
              same_size = done.same_size ∙ sets.same_size;
              fresh = (
                s,
                here,
                l,
                clear_before,
                owns-taken h' (bit b1) b1.num_bits n (i + 1) s done.fresh set_now,
                AreFresh-weaken h' (bit b1) (bit b) b.num_bits n (i + 1) only
                    (simp sets.same_size at done.fresh),
              );
              bits = λ j. ground (arith, done.bits j, owns_first h' n i s j here, sets.bits j);
              room =
                  let later = simp sets.same_size at done.room in omega (arith, later, one_fewer);
            },
            record {
              before = λ j m.
                  same.before j (omega arith) ∙ get_elem?-set_ne h.data_sectors s (omega arith);
              table = same.table ∙ length-set h.data_sectors i s;
              bytes = same.bytes;
              sectors = same.sectors;
              ints = λ m a.
                  same.ints (omega (arith, m, sets.same_size))
                    (All-set (λ w. w < 2 ^ 32) h.data_sectors i s a (omega (arith, l, m)));
            },
          )
    ]

deallocate_step :
    (n i : ℕ) (h : FileHeader) (b : Bitmap) (s : ℕ) (c : Bitmap)
    → get_elem? h.data_sectors i ≡ some s
    → test b s ≡ ok true
    → clear b s ≡ ok c
    → deallocate_from (suc n) i h b ≡ deallocate_from n (i + 1) h c
unfolding deallocate_from
deallocate_step n i h b s c here marked run = ground (arith, here, marked, run)

-- Giving the fresh blocks back one after the other.
pub deallocate_from-restores :
    (n i : ℕ) (h : FileHeader) (base : ℕ → Bool) (b : Bitmap)
    → IsValid b
    → AreFresh h base b.num_bits n i
    → ((j : ℕ) → bit b j ≡ owns h n i j || base j)
    → (b' : Bitmap) × (deallocate_from n i h b ≡ ok b')
      × IsValid b'
      × (b'.num_bits ≡ b.num_bits)
      × ((j : ℕ) → bit b' j ≡ base j)
unfolding deallocate_from
deallocate_from-restores zero i h base b v a e = (b, refl, v, refl, e)
deallocate_from-restores (suc n) i h base b v (s, here, l, t, o, a) e =
    let (c, run, sets) = clear-Sets b s v l in
    let marked : bit b s ≡ true = ground (arith, e s, owns_first h n i s s here) in
    let now : (j : ℕ) → bit c j ≡ owns h n (i + 1) j || base j =
      λ j. ground (arith, sets.bits j, e j, owns_first h n i s j here, t, o) in
    let (b', rest, valid, size, same) =
      deallocate_from-restores n (i + 1) h base c sets.valid (simp (← sets.same_size) at a) now in
    (
      b',
      deallocate_step n i h b s c here (test-bit b s v l ∙ ap ok marked) run ∙ rest,
      valid,
      size ∙ sets.same_size,
      same,
    )

-- Nothing in the loop asks whether the table has room.
allocate_from-overrun :
    (n i : ℕ) (h : FileHeader) (b : Bitmap)
    → IsValid b
    → length h.data_sectors < i + n
    → i ≤ length h.data_sectors
    → n ≤ count_clear (bit b) b.num_bits
    → allocate_from n i h b ≡ aborted
unfolding allocate_from set_sector
allocate_from-overrun zero i h b v over below enough = absurd (omega arith)
allocate_from-overrun (suc n) i h b v over below enough =
    let (r, run, found) = find_and_set-Found b v in
    elim found [
      | full all e ↦ absurd (omega (arith, enough, count_clear-full (bit b) b.num_bits all))
      | first s b1 l clear_before all sets e ↦
          let h1 : FileHeader = record h { data_sectors = set h.data_sectors i s } in
          let one_fewer = count_clear-set (bit b) (bit b1) s clear_before sets.bits b.num_bits l in
          let same = length-set h.data_sectors i s in
          elim (dec_lt i (length h.data_sectors)) [
            | yes p ↦
                rw (run, e, lt→ltb i (length h.data_sectors) p)
                  (allocate_from-overrun n (i + 1) h1 b1 sets.valid (omega (arith, same, over))
                    (omega (arith, same, p)) (simp sets.same_size (omega (arith, one_fewer))))
            | no q ↦
                let out : ltb i (length h.data_sectors) ≡ false = ground arith in
                rw (run, e, out) refl
          ]
    ]

module _ (h : FileHeader) (b : Bitmap) (v : IsValid b) (file_size : ℕ) where
  abbrev needed : ℕ
  needed = div_round_up file_size sector_size

  -- Allocate on a valid map with too few clear sectors answers FALSE, leaves the map unchanged, and
  -- has already written the size and the number of blocks into the header.
  pub allocate_full :
      count_clear (bit b) b.num_bits < needed
      → allocate h b file_size
        ≡ ok (false, record h { num_bytes = file_size; num_sectors = needed }, b)
  unfolding allocate
  allocate_full few = rw (num_clear-count_clear b v, lt→ltb _ _ few) refl

  -- Allocate on a valid map with enough clear sectors, for more blocks than the table of the header
  -- holds, does not answer FALSE but runs past the end of the table.
  pub allocate_overrun :
      needed ≤ count_clear (bit b) b.num_bits
      → length h.data_sectors < needed
      → allocate h b file_size ≡ aborted
  unfolding allocate
  allocate_overrun enough over =
      let no : ltb (count_clear (bit b) b.num_bits) needed ≡ false = ground arith in
      let stops =
        allocate_from-overrun needed 0 (record h { num_bytes = file_size; num_sectors = needed }) b
          v (omega (arith, over)) (omega arith) enough in
      rw (num_clear-count_clear b v, no, stops) refl

  module _ (enough : needed ≤ count_clear (bit b) b.num_bits)
      (fits : needed ≤ length h.data_sectors) where
    -- What Allocate gives, and that the table holds ints if it did before.
    pub allocate_room :
        (h' : FileHeader) × (b' : Bitmap) × (allocate h b file_size ≡ ok (true, h', b'))
        × (h'.num_bytes ≡ file_size)
        × (h'.num_sectors ≡ needed)
        × (length h'.data_sectors ≡ length h.data_sectors)
        × IsAllocated b needed 0 h' b'
        × (b.num_bits ≤ 2 ^ 32
            → All (λ w. w < 2 ^ 32) h.data_sectors
            → All (λ w. w < 2 ^ 32) h'.data_sectors)
    unfolding allocate
    allocate_room =
        let (h', b', run, done, same) =
          allocate_from-IsAllocated needed 0
            (record h { num_bytes = file_size; num_sectors = needed }) b v (omega (arith, fits))
            enough in
        let no : ltb (count_clear (bit b) b.num_bits) needed ≡ false = ground arith in
        (
          h',
          b',
          rw (num_clear-count_clear b v, no, run) refl,
          same.bytes,
          same.sectors,
          same.table,
          done,
          same.ints,
        )

    -- Allocate on a valid map with enough clear sectors, for a header whose table has room, answers
    -- TRUE: the blocks of the new header lie in different sectors that were clear, exactly those
    -- are set now, the map stays valid, and it has as many clear sectors fewer as the file has
    -- blocks.
    pub allocate-IsAllocated :
        (h' : FileHeader) × (b' : Bitmap) × (allocate h b file_size ≡ ok (true, h', b'))
        × (h'.num_bytes ≡ file_size)
        × (h'.num_sectors ≡ needed)
        × (length h'.data_sectors ≡ length h.data_sectors)
        × IsAllocated b needed 0 h' b'
    allocate-IsAllocated =
        let (h', b', run, bytes, sectors, table, done, ints) = allocate_room in
        (h', b', run, bytes, sectors, table, done)

    -- On a valid map with enough clear sectors and for a header whose table has room, Allocate
    -- answers TRUE, and Deallocate of the new header then succeeds without a failed assertion and
    -- gives back a valid map with every bit as it was before.
    deallocate-allocate :
        (h' : FileHeader) × (b' b'' : Bitmap) × (allocate h b file_size ≡ ok (true, h', b'))
        × (deallocate h' b' ≡ ok b'')
        × IsValid b''
        × ((j : ℕ) → bit b'' j ≡ bit b j)
    unfolding deallocate
    deallocate-allocate =
        let (h', b', run, bytes, sectors, table, done) = allocate-IsAllocated in
        let (b'', back, valid, size, same) =
          deallocate_from-restores needed 0 h' (bit b) b' done.valid
            (simp (← done.same_size) at done.fresh) done.bits in
        (h', b', b'', run, rw sectors back, valid, same)
