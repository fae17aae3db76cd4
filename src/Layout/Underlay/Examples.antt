-- ===== src/Layout/Underlay/Examples.antt =====
-- Runs of the underlay: an image with `/etc` and a link `/bin`, and a bind on `/data/x`, which the image
-- does not have.
use apptainer.Prelude.{
  String, List, [], ◌∷◌, ◌++◌, Bool, true, false, Option, none, some, if◌then◌else◌, contains, ◌==◌,
  ◌||◌, ◌≡◌, refl,
}
use apptainer.Layout.Manager.{Manager, Entry, Ids, dir_entry, set_root_path}
use apptainer.Layout.Manager.Listed.{Listed, Command, new_directory, apply_all}
use apptainer.Layout.Sync.{Vfs, VfsError, exists}
use apptainer.Mount.Points.{Go, Point, Points}
use apptainer.Layout.Underlay.{Look, Work, create_layer}

abbrev go : Go
go = record {
  quote = λ s. s;
  encode = λ s. s;
  decode = λ s. some s;
  show = λ n. "1";
  scan_number = λ prefix s. some 1;
  scan_word = λ prefix s. some s;
}

-- The file system is the list of the paths that exist.
abbrev create : List String → String → List String × Option VfsError
create w p = if contains w p then (w, some exists) else (w ++ p ∷ [], none)

abbrev pub vfs : Vfs (List String)
vfs = record {
  stat = contains;
  os_stat = contains;
  mkdir = λ w p mode. create w p;
  chown = λ w p uid gid. (w, none);
  lchown = λ w p uid gid. (w, none);
  write_file = λ w p content mode. create w p;
  symlink = λ w target p. create w p;
  readlink = λ w p. none;
  umask = λ w mask. (w, 18);
}

abbrev look : List String → Look
look w = record {
  stat = λ p. if p == "/host" then some true else none;
  eval_relative = λ p root. p;
  read_dir = λ p.
      if p == "/s/rootfs/" || p == "/s/rootfs"
      then some (
          record { name = "etc"; is_dir = true; is_symlink = false }
          ∷ record { name = "bin"; is_dir = false; is_symlink = true }
          ∷ [])
      else none;
  readlink = λ p. some "usr/bin";
}

abbrev pub ids : Ids
ids = record { uid = 1000; gid = 1000 }

abbrev directory : Entry
directory = dir_entry (record { created = false; mode = 493; uid = 1000; gid = 1000 })

abbrev pub point : String → String → List String → Point
point source dest options = record {
  source = source;
  destination = dest;
  fstype = "";
  options = options;
  internal = [];
}

abbrev pub work : Work
work = record {
  session = record {
    manager = record {
      dir_mode = 493;
      file_mode = 420;
      root_path = "/s";
      entries =
          ("/", directory)
          ∷ ("/rootfs", directory)
          ∷ ("/final", directory)
          ∷ ("/underlay", directory)
          ∷ [];
      dirs = "/" ∷ "/rootfs" ∷ "/final" ∷ "/underlay" ∷ [];
      ov_dirs = [];
    };
    layer = some "/underlay";
  };
  points = record {
    context = "";
    points =
        ("rootfs", point "/image" "/s/rootfs" [] ∷ [])
        ∷ ("userbinds", point "/host" "/data/x" ("rbind" ∷ []) ∷ [])
        ∷ [];
  };
}

-- The same layout, by the operations.
abbrev pub empty : Manager
empty = record {
  dir_mode = 0;
  file_mode = 0;
  root_path = "";
  entries = [];
  dirs = [];
  ov_dirs = [];
}

abbrev pub rooted : Manager
rooted = (set_root_path ids true "/s" empty).0

abbrev pub commands : List Command
commands = new_directory "/rootfs" ∷ new_directory "/final" ∷ new_directory "/underlay" ∷ []

pub built : apply_all ids commands rooted ≡ work.session.manager
unfolding set_root_path apptainer.Layout.Manager.add_dir apptainer.Layout.Manager.create_parent_dir
    apptainer.Prelude.lookup apptainer.Prelude.insert apptainer.Prelude.clean apptainer.Prelude.dir
    apptainer.Prelude.base apptainer.Prelude.join_path apptainer.Prelude.is_abs
    apptainer.Layout.Manager.check_path
built = refl

abbrev layered : Work
layered = (create_layer vfs go look ids "/s/rootfs" work ("/s" ∷ [])).0.0

abbrev after : List String
after = (create_layer vfs go look ids "/s/rootfs" work ("/s" ∷ [])).0.1
