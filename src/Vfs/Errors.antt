-- ===== src/Vfs/Errors.antt =====
-- The texts of the errors of kernel/vfs.c.
use lons_os.Base.{ℕ, zero, suc, List, ◌==◌, if◌then◌else◌}
use lons_os.Base.Text.{codes}
use lons_os.Machine.Signed.{ℤ, pos, negsuc}

unfoldable pub vfs_error_str : ℤ → List ℕ
vfs_error_str (pos zero) = codes "OK"
vfs_error_str (pos (suc n)) = codes "Unknown error"
vfs_error_str (negsuc n) =
    if n == 0
    then codes "No such file or directory"
    else if n == 1
    then codes "Already exists"
    else if n == 2
    then codes "Not a directory"
    else if n == 3
    then codes "Is a directory"
    else if n == 4
    then codes "No space left"
    else if n == 5
    then codes "Bad file descriptor"
    else if n == 6
    then codes "Invalid argument"
    else if n == 7
    then codes "Directory not empty"
    else codes "Unknown error"
