-- ===== src/Paging/Swap.antt =====
-- What read_swap_disk finds of what write_swap_disk wrote.
use linux_like_os.Prelude.{
  ℕ, ◌+◌, ◌-◌, ◌*◌, ◌%◌, ◌^◌, ◌≤◌, ◌<◌, ◌≡◌, refl, ◌≢◌, ◌⊎◌, true, false, not, ◌&&◌, ◌||◌, arith,
  ◌==◌, ok, Reply, done, fail,
}
use linux_like_os.Bitmap.{Bitmap, bitmap_alloc}
use linux_like_os.Bitmap.Valid.{bit, IsValid, unmarked, bit-unmarked, unmarked-IsValid}
use linux_like_os.Bitmap.Alloc.{Allocated, bitmap_alloc-first}
use linux_like_os.Bitmap.Mark.{word_in_range, unmark-ok, isset-ok}
use linux_like_os.Coremap.{page_size, Coremap}
use linux_like_os.Paging.{Services, Memory, page_bytes, put_page, read_swap_disk, write_swap_disk}

-- A disk gives back what was written to a page, and a page is not changed by writes to others.
pub record IsDisk {D : Type 0} (vn : Services D) : Type 0 where
  pub written :
      (o : ℕ) (bytes page : ℕ → ℕ) (d : D)
      → (vn.vop_write o bytes d).0 ≡ done tt
      → ((vn.vop_read o page (vn.vop_write o bytes d).1).0 ≡ done tt)
        × ((i : ℕ) → i < page_size → (vn.vop_read o page (vn.vop_write o bytes d).1).1 i ≡ bytes i)
  pub apart :
      (o o' : ℕ) (bytes page : ℕ → ℕ) (d : D)
      → (o + page_size ≤ o') ⊎ (o' + page_size ≤ o)
      → vn.vop_read o' page (vn.vop_write o bytes d).1 ≡ vn.vop_read o' page d

-- `*disk_index` of a page on the swap disk, which is smaller than 2 ^ 32 bytes.
abbrev pub disk_offset : ℕ → ℕ
disk_offset i = i * page_size % 2 ^ 32

-- There is room where a bit is clear.
found_room :
    (b : Bitmap) (r : Reply ℕ × Bitmap) (k : ℕ)
    → bitmap_alloc b ≡ ok r
    → Allocated b r
    → k < b.nbits
    → bit b k ≡ false
    → (index : ℕ) × (b' : Bitmap) × (bitmap_alloc b ≡ ok (done index, b'))
      × (index < b.nbits)
      × (bit b index ≡ false)
      × IsValid b'
      × (b'.nbits ≡ b.nbits)
      × ((j : ℕ) → bit b' j ≡ (index == j || bit b j))
found_room b (done i, b') k run (lt', clear', before, valid, same, bits) lt clear =
    (i, b', run, lt', clear', valid, same, bits)
found_room b (fail e, b') k run (which, same, all) lt clear =
    absurd (ground (arith, all k lt, clear))

abbrev pub ValidSwap : Bitmap → Type 0
ValidSwap swap = IsValid swap

-- The bitmap of the swap disk covers less than 2 ^ 32 bytes, bit `i` is clear, and writes succeed.
pub record HasRoom {D : Type 0} (vn : Services D) (m : Memory D) (i : ℕ) : Type 0 where
  pub valid : IsValid m.swap
  pub small : m.swap.nbits * page_size ≤ 2 ^ 32
  pub inside : i < m.swap.nbits
  pub clear : bit m.swap i ≡ false
  pub works : (o : ℕ) (bytes : ℕ → ℕ) → (vn.vop_write o bytes m.disk).0 ≡ done tt

module _ {D : Type 0} (vn : Services D) where
  -- Reading a page that is on the disk.
  pub read_swap_disk_lem :
      (m : Memory D) (paddr index : ℕ)
      → IsValid m.swap
      → index < m.swap.nbits
      → bit m.swap index ≡ true
      → (vn.vop_read (disk_offset index) (page_bytes paddr m.coremap.ram) m.disk).0 ≡ done tt
      → (swap' : Bitmap) × (read_swap_disk vn paddr index true m
          ≡ ok (
            done tt,
            record m {
              coremap = record (m.coremap) {
                ram =
                    put_page paddr
                      (vn.vop_read (disk_offset index) (page_bytes paddr m.coremap.ram) m.disk).1
                      m.coremap.ram;
              };
              swap = swap';
            },
          ))
        × IsValid swap'
        × (swap'.nbits ≡ m.swap.nbits)
        × ((k : ℕ) → bit swap' k ≡ (not (index == k) && bit m.swap k))
  unfolding read_swap_disk
  read_swap_disk_lem m paddr index valid lt set_bit reads =
      let inside = word_in_range valid index lt in
      (
        unmarked valid index inside,
        ground (arith, isset-ok valid index lt, unmark-ok valid index lt set_bit, set_bit, reads),
        unmarked-IsValid valid index inside lt,
        refl,
        bit-unmarked valid index inside,
      )

  -- Writing a page when a bit is clear.
  pub write_swap_disk_lem :
      (m : Memory D) (paddr k : ℕ)
      → HasRoom vn m k
      → (index : ℕ) × (swap' : Bitmap) × (write_swap_disk vn paddr m
          ≡ ok (
            done index,
            record m {
              swap = swap';
              disk = (vn.vop_write (disk_offset index) (page_bytes paddr m.coremap.ram) m.disk).1;
            },
          ))
        × (index < m.swap.nbits)
        × (bit m.swap index ≡ false)
        × IsValid swap'
        × (swap'.nbits ≡ m.swap.nbits)
        × ((j : ℕ) → bit swap' j ≡ (index == j || bit m.swap j))
  unfolding write_swap_disk
  write_swap_disk_lem m paddr k room =
      let (r, run, post) = bitmap_alloc-first m.swap room.valid in
      let (index, swap', run', lt', clear', valid', same, bits) =
        found_room m.swap r k run post room.inside room.clear in
      let wrote = room.works (disk_offset index) (page_bytes paddr m.coremap.ram) in
      (index, swap', rw run' (ground (arith, wrote)), lt', clear', valid', same, bits)

-- A page that write_swap_disk puts on the swap disk is there until it is read: with a clear bit and
-- a disk on which writes succeed, write_swap_disk returns a clear index, marks it, and leaves what
-- is read at every other index as it was; read_swap_disk at that index, whatever happened to the
-- coremap and to physical memory since, puts the bytes of the page into the new page, changes no
-- other memory, and gives the index back, so that each bit is as before the write.
pub write_swap_disk-read_swap_disk :
    {D : Type 0} (vn : Services D) (m : Memory D) (c : Coremap) (paddr paddr' k : ℕ)
    → IsDisk vn
    → HasRoom vn m k
    → (index : ℕ) × (m1 : Memory D) × (m2 : Memory D) × (write_swap_disk vn paddr m
        ≡ ok (done index, m1))
      × (index < m.swap.nbits)
      × (bit m.swap index ≡ false)
      × (bit m1.swap index ≡ true)
      × ((other : ℕ) (page : ℕ → ℕ)
          → other < m.swap.nbits
          → other ≢ index
          → vn.vop_read (disk_offset other) page m1.disk
            ≡ vn.vop_read (disk_offset other) page m.disk)
      × (read_swap_disk vn paddr' index true (record m1 { coremap = c }) ≡ ok (done tt, m2))
      × ((i : ℕ) → i < page_size → m2.coremap.ram (paddr' + i) ≡ m.coremap.ram (paddr + i))
      × ((a : ℕ) → (a < paddr') ⊎ (paddr' + page_size ≤ a) → m2.coremap.ram a ≡ c.ram a)
      × IsValid m2.swap
      × ((j : ℕ) → bit m2.swap j ≡ bit m.swap j)
write_swap_disk-read_swap_disk {D} vn m c paddr paddr' k is_disk room =
    let (index, swap1, wrote, lt1, clear1, valid1, same1, bits1) =
      write_swap_disk_lem vn m paddr k room in
    let o = disk_offset index in
    let bytes = page_bytes paddr m.coremap.ram in
    let disk1 = (vn.vop_write o bytes m.disk).1 in
    let m1 : Memory D = record m { swap = swap1; disk = disk1 } in
    let page' = page_bytes paddr' c.ram in
    let (reads, back) = is_disk.written o bytes page' m.disk (room.works o bytes) in
    let (swap2, read, valid2, same2, bits2) =
      read_swap_disk_lem vn (record m1 { coremap = c }) paddr' index valid1
        (omega (arith, same1, lt1)) (ground (arith, bits1 index)) reads in
    (
      index,
      m1,
      record m1 {
        coremap = record c { ram = put_page paddr' (vn.vop_read o page' disk1).1 c.ram };
        swap = swap2;
      },
      wrote,
      lt1,
      clear1,
      ground (arith, bits1 index),
      λ other page below ne.
          is_disk.apart o (disk_offset other) bytes page m.disk (omega (arith, room.small)),
      read,
      λ i below.
          let here : paddr' + i - paddr' ≡ i = omega arith in ground (arith, back i below, here),
      λ a outside. ground (arith, outside),
      valid2,
      λ j. ground (arith, bits1 j, bits2 j, clear1),
    )
