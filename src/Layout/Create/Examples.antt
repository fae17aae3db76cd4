-- ===== src/Layout/Create/Examples.antt =====
-- A run of createLayout: `/etc` of the container is overridden, and a file is bound below it.
use apptainer.Prelude.{String, List, [], ◌∷◌, Bool, false, Option, none, some, if◌then◌else◌, ◌==◌}
use apptainer.Layout.Manager.{override_dir}
use apptainer.Layout.Manager.Listed.{Listed}
use apptainer.Layout.Underlay.{Work}
use apptainer.Layout.Underlay.Examples.{work, point}

abbrev overridden : Work
overridden = record work {
  session = record (work.session) {
    manager = override_dir "/etc" "/host/etc" work.session.manager;
  };
  points = record {
    context = "";
    points = ("userbinds", point "/host/hosts" "/etc/x/hosts" ("bind" ∷ []) ∷ []) ∷ [];
  };
}

abbrev stat : List String → String → Option Bool
stat w p = if p == "/host/hosts" then some false else none
