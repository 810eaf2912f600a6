-- ===== src/Disk.antt =====
-- The file system as the ingest reads it: a tree of named nodes, with symbolic links followed.
use skeg_rigging.Base.{Option, none, some, [], ◌∷◌, if◌then◌else◌}
use skeg_rigging.Text.{Str, text_eq}
use skeg_rigging.Text.Paths.{FilePath}

mutual
  -- A file has a text, or cannot be read as one; a directory may be unreadable; anything else is
  -- neither a file nor a directory.
  pub data Node : Type 0 where
    file : Option Str → Node
    dir : Entries → Node
    sealed special : Node

  -- What `read_dir` lists, in its order.
  pub data Entries : Type 0 where
    nil : Entries
    entry : Str → Node → Entries → Entries

unfoldable pub find_entry : Str → Entries → Option Node
unfolding text_eq
find_entry name nil = none
find_entry name (entry other node es) = if text_eq other name then some node else find_entry name es

entries_of : Node → Entries
entries_of (file text) = nil
entries_of (dir es) = es
entries_of sealed = nil
entries_of special = nil

-- The node at a path.
unfoldable pub node_at : FilePath → Node → Option Node
unfolding find_entry entries_of
node_at [] node = some node
node_at (x ∷ path) node = elim (find_entry x (entries_of node)) [
  | none ↦ none
  | some below ↦ node_at path below
]

read_node : Option Node → Option Str
read_node (some (file text)) = text
read_node _ = none

-- `std::fs::read_to_string(path).ok()`
unfoldable pub read_to_string : FilePath → Node → Option Str
unfolding node_at read_node
read_to_string path disk = read_node (node_at path disk)
