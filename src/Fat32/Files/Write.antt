-- ===== src/Fat32/Files/Write.antt =====
-- What `fat32_write` of kernel/fat32.c does within the clusters of a file.
use lons_os.Base.{ℕ, ◌+◌, ◌*◌, ◌^◌, ◌<◌, ◌≡◌, List, length}
use lons_os.Machine.Signed.{ℤ, pos}
use lons_os.Heap.{Run, ok}
use lons_os.Fat32.{BlockDevice, Fat}
use lons_os.Fat32.Disk.{Works}
use lons_os.Fat32.Nodes.{Fs}
use lons_os.Fat32.Table.{sector_of}
use lons_os.Fat32.Files.Linked.{Linked}
use lons_os.Fat32.Files.Parts.{overlaid_all}
use lons_os.Fat32.Files.Skip.{parts_at}

module _ {D : Type 0} (dev : BlockDevice D) (works : Works dev) where
  -- What a write that does not make the file longer comes to.
  abbrev pub Overwrites : ℕ → ℕ → List ℕ → List ℕ → Fs D → Run (ℤ × Fs D) → Type 0
  Overwrites node offset src cs s r =
      (f : Fat D) × (r ≡ ok (pos (length src), record s { fat = f }))
      × ((l i : ℕ)
          → l < 2 ^ 28
          → i < 512
          → sector_of dev works f l i
            ≡ overlaid_all (parts_at s.fat.geometry offset cs src) (l * 512 + i)
                (sector_of dev works s.fat l i))
