-- ===== src/Fat32/Tests.antt =====
-- Runs of the FAT32 driver, over the ATA driver and a drive, on a small volume: the table in sector 32, 100 clusters of one sector
-- from sector 64 on.
use lons_os.Base.{
  ℕ, ◌+◌, ◌%◌, ◌^◌, ◌≡◌, refl, arith, ◌&&◌, List, [], ◌∷◌, ◌++◌, some, ltb, leb, ◌==◌,
  if◌then◌else◌,
}
use lons_os.Machine.Bytes.{Buffer, bytes_at, le32}
use lons_os.Machine.Signed.{pos}
use lons_os.Heap.{wiped, ok}
use lons_os.Vfs.{vfs_file}
use lons_os.Fat32.{BlockDevice, Geometry, Fat, fat_get, fat_set, fat_free_chain, fat_bad}
use lons_os.Fat32.Disk.{Works}
use lons_os.Ata.Drive.{Drive, drive_ports, present_disk}
use lons_os.Fat32.Device.{ata_device, ata_device-Works}
use lons_os.Fat32.Table.{raw, entry, fat_get-fat_set, SameDisk}
use lons_os.Fat32.Chain.{Freed, used_below-le, fat_free_chain-Freed, fat_free_chain-Ends}
use lons_os.Fat32.Names.{dotted, make_83_name, parse_83_name}
use lons_os.Fat32.Names.RoundTrip.{parse_83_name-make_83_name}
use lons_os.Fat32.Nodes.{Fs}
use lons_os.Fat32.Files.{fat32_read}
use lons_os.Fat32.Files.Content.{content}
use lons_os.Fat32.Files.Read.{fat32_read-content, read_length}

abbrev ata_disk : BlockDevice Drive
ata_disk = ata_device drive_ports present_disk

abbrev ata_disk-Works : Works ata_disk
ata_disk-Works = ata_device-Works

abbrev geometry : Geometry
geometry = record {
  fat_lba = 32;
  data_lba = 64;
  root_cluster = 2;
  sectors_per_clus = 1;
  bytes_per_clus = 512;
  total_clusters = 100;
  mounted = 1;
}

-- Cluster 2 ends its chain, and 3 leads to 4, which ends its own.
abbrev sectors : ℕ → Buffer
sectors l i =
    if l == 32
    then (if i == 12
        then 4
        else if leb 8 i && ltb i 11
        then 255
        else if leb 16 i && ltb i 19
        then 255
        else if i == 11
        then 15
        else if i == 19
        then 15
        else 0)
    else i + l

abbrev volume : Fat Drive
volume = record {
  geometry = geometry;
  sect_buf = λ i. 0;
  disk = record { regs = λ x. 0; pos = 0; store = sectors };
}

abbrev counting : Buffer
counting i = i % 256

fat_get-fat_set_example :
    (fat_get ata_disk 5 (fat_set ata_disk 5 9 volume)).0
    ≡ (if 5 == 5 then 9 % 2 ^ 28 else (fat_get ata_disk 5 volume).0)
fat_get-fat_set_example =
    fat_get-fat_set ata_disk ata_disk-Works 5 9 volume 5 (omega arith) (omega arith) (omega arith)

fat_free_chain-Freed_example :
    (t : Fat Drive) × (fat_free_chain ata_disk 3 3 volume ≡ some t)
    × Freed ata_disk ata_disk-Works volume (3 ∷ 4 ∷ []) t
unfolding raw le32 ata_device-Works
fat_free_chain-Freed_example =
    fat_free_chain-Freed ata_disk ata_disk-Works 3 3 (3 ∷ 4 ∷ []) volume (omega arith)
      (refl, refl, (refl, refl, refl)) (refl, (refl, tt)) (omega arith)

fat_free_chain-Ends_example :
    (t : Fat Drive) × (fat_free_chain ata_disk (fat_bad + 2) 3 volume ≡ some t)
fat_free_chain-Ends_example =
    fat_free_chain-Ends ata_disk ata_disk-Works (fat_bad + 2) 3 volume (omega arith)
      (omega (arith, used_below-le (entry ata_disk ata_disk-Works volume) fat_bad))

abbrev base_name : List ℕ
base_name = b'r' ∷ b'e' ∷ b'a' ∷ b'd' ∷ b'm' ∷ b'e' ∷ []

abbrev extension : List ℕ
extension = b't' ∷ b'x' ∷ b't' ∷ []

parse_83_name-make_83_name_example :
    let fields = make_83_name (base_name ++ dotted extension) in
    parse_83_name fields.0 fields.1 ≡ base_name ++ dotted extension
parse_83_name-make_83_name_example =
    parse_83_name-make_83_name base_name extension (search arith) (search arith) (omega arith)
      (omega arith)

-- A file of 600 bytes in clusters 3 and 4.
abbrev one_file : Fs Drive
one_file = record {
  fat = volume;
  heap = record {
    headers = λ x. wiped;
    mem = λ x. 0;
    heap_head = 0;
    heap_start = 0;
    heap_size = 0;
  };
  nodes = λ x. record {
    name = base_name;
    type = vfs_file;
    size = 600;
    ops = 1;
    fs_data = 6;
    parent = 0;
    mount = 0;
  };
  inodes = λ x. record {
    first_cluster = 3;
    file_size = 600;
    is_dir = 0;
    parent_cluster = 2;
    dirent_byte_off = 0;
    children = [];
    children_loaded = 0;
  };
}

fat32_read-content_example :
    (f : Fat Drive) × ((fat32_read ata_disk 3 5 500 300 one_file
        ≡ ok (
          (
            pos (read_length ata_disk ata_disk-Works 5 500 300 one_file),
            bytes_at
                (read_length ata_disk ata_disk-Works 5 500 300 one_file)
                500
                (content ata_disk ata_disk-Works volume (3 ∷ 4 ∷ [])),
          ),
          record one_file { fat = f },
        ))
      × SameDisk ata_disk ata_disk-Works volume f)
unfolding raw le32 ata_device-Works
fat32_read-content_example =
    fat32_read-content ata_disk ata_disk-Works 3 5 500 300 (3 ∷ 4 ∷ []) one_file
      (record { bytes = refl; nonempty = omega arith; small = omega arith }) (omega arith) refl
      (refl, refl, (refl, refl, refl)) (omega arith) (omega arith) (omega arith)
