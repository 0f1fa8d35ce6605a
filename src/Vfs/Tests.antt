-- ===== src/Vfs/Tests.antt =====
-- Runs of path resolution and of the table of open files.
use lons_os.Base.{ℕ, ◌-◌, [], ◌∷◌}
use lons_os.Machine.Signed.{pos}
use lons_os.Vfs.{Vfs, Ops, open_node, vfs_resolve}
use lons_os.Vfs.Fds.{Opens, open_node_lem}
use lons_os.Vfs.Resolve.{Ends, vfs_resolve-Ends}

-- A file system in which every name is found at node 4, and a root with a directory in it.
abbrev one_file : Ops (Vfs ℕ)
one_file = record {
  lookup = λ dir name s. (4, s);
  create = λ dir name type s. (0, s);
  read = λ node offset len s. ((pos 0, []), s);
  write = λ node offset buf s. (pos 0, s);
  unlink = λ parent node s. (pos 0, s);
  readdir = λ dir index s. (0, s);
  childcount = λ dir s. (1, s);
}

abbrev tree : Vfs ℕ
tree = record {
  nodes = λ a. record {
    name = 97 ∷ [];
    type = 2;
    size = 0;
    ops = 0;
    fs_data = 0;
    parent = a - 1;
    mount = 0;
  };
  vfs_root = 1;
  cwd = 3;
  fd_table = λ i. record { used = 0; node = 0; offset = 0; flags = 0 };
  disk = 0;
}

open_node_lem_example : Opens 4 1 tree (open_node 4 1 tree)
open_node_lem_example = open_node_lem 4 1 tree

vfs_resolve-Ends_example : Ends (vfs_resolve (λ i. one_file) [] (47 ∷ 97 ∷ []) tree)
vfs_resolve-Ends_example = vfs_resolve-Ends (λ i. one_file) [] (47 ∷ 97 ∷ []) tree
