-- ===== src/Tests/Formations.antt =====
-- formation.go and the formation handlers of controller.go over a table.
use flynn_controller.Prelude.{
  ◌≡◌, ◌↔◌, refl, true, false, none, some, [], ◌∷◌, Text, codes, text_eq, pair_eq, list_eqb, arith,
  pos, All, ℤ,
}
use flynn_controller.Prelude.Map
use flynn_controller.Prelude.Map.{Map, get-put_self, get-put_ne}
use flynn_controller.Types.{App, Artifact, Release, Formation}
use flynn_controller.Decimal.RoundTrip.{IsInt}
use flynn_controller.Decimal.{atoi}
use flynn_controller.Sql.{ok, Hstore}
use flynn_controller.FormationRepo.{remove, procs_hstore, add, get, list}
use flynn_controller.FormationRepo.Processes.{positive}
use flynn_controller.FormationRepo.Storing.{AreIds, add-get}
use flynn_controller.Http.{json}
use flynn_controller.Handlers.{put_formation, set_app_release}
use flynn_controller.Handlers.Refusing.{IsLacking, put_formation_refuses}
use flynn_controller.Handlers.Moving.{Moves, set_app_release-Moves}
use flynn_controller.FormationRepo.Publishing.{Lookups, publish}
use flynn_controller.FormationRepo.Publishing.Sent.{publish-add, publish-remove}
use flynn_controller.Tests.Table.{World, table, insert_at, rows_of, table-IsTable}

abbrev pub counts : Map Text ℤ
counts = (codes "web", pos 12) ∷ (codes "cron", pos 0) ∷ []

abbrev pub formation : Formation
formation = record {
  app_id = codes "a-1";
  release_id = codes "r";
  processes = counts;
  created_at = none;
  updated_at = none;
}

abbrev pub stamped : Formation
stamped = record formation { created_at = some 1; updated_at = some 1 }

abbrev pub columns : Hstore
columns = (codes "web", some (codes "12")) ∷ (codes "cron", some (codes "0")) ∷ []

abbrev pub stored : World
stored = ((codes "a-1", codes "r"), some columns) ∷ []

-- the second write of a row goes through the UPDATE
pub add_again : add table formation stored ≡ (ok stamped, stored)
unfolding add insert_at Map.get Map.put list_eqb
add_again = refl

pub counts_fit : All (λ (e : Text × ℤ). IsInt e.1) counts
counts_fit = (omega arith, (omega arith, tt))

add-get_example :
    (found : Formation) × (get table (codes "a-1") (codes "r") stored ≡ (ok found, stored))
    × AreIds (codes "a-1") (codes "r") found
    × (found.processes ≡ positive counts)
    × (found.created_at ≡ some 1)
    × (found.updated_at ≡ some 1)
add-get_example = add-get table table-IsTable formation stamped stored stored counts_fit add_again

read_number : atoi (codes "-12") ≡ ℤ.negsuc 11
unfolding atoi
read_number = refl

abbrev pub app : App
app = record {
  id = codes "a1";
  name = codes "site";
  protected = true;
  meta = [];
  created_at = none;
  updated_at = none;
}

abbrev pub release : Release
release = record {
  id = codes "s";
  artifact_id = codes "i";
  env = [];
  processes =
      (
        codes "cron",
        record { cmd = []; env = []; ports = record { tcp = pos 0; udp = pos 0 }; volume = false },
      )
      ∷ [];
  created_at = none;
}

put_formation_refuses_example :
    (((put_formation table formation app release []).0 ≡ json 400 none)
      ↔ (app.protected ≡ true) × IsLacking release counts)
    × ((put_formation table formation app release []).1
        ≡ (add table (record formation { app_id = codes "a1"; release_id = codes "s" }) []).1)
put_formation_refuses_example = put_formation_refuses table formation app release []

refused : (put_formation table formation app release []).0 ≡ json 400 none
unfolding put_formation
refused = refl

abbrev only : Formation
only = record {
  app_id = codes "a1";
  release_id = codes "r";
  processes = (codes "web", pos 12) ∷ [];
  created_at = some 1;
  updated_at = some 1;
}

abbrev before : World
before = ((codes "a1", codes "r"), some columns) ∷ []

abbrev after : World
after =
    ((codes "a1", codes "r"), none)
    ∷ ((codes "a1", codes "s"), some ((codes "web", some (codes "12")) ∷ []))
    ∷ []

listed : list table (codes "a1") before ≡ (some (only ∷ []), before)
unfolding list rows_of
listed = refl

moves :
    set_app_release table (λ id w. (some release, w)) (λ a r w. w) app (codes "s") before
    ≡ (json 200 (some release), after)
unfolding set_app_release rows_of insert_at procs_hstore Map.get Map.put list_eqb
moves = refl

set_app_release-Moves_example : Moves table app release only after
set_app_release-Moves_example =
    set_app_release-Moves table table-IsTable (λ id w. (some release, w)) (λ a r w. w) app
      (codes "s") release only before before before after refl (ground arith) listed (ground arith)
      moves

abbrev pub artifact : Artifact
artifact = record {
  id = codes "i";
  type = codes "docker";
  uri = codes "docker:///x";
  created_at = none;
}

abbrev pub lookups : Lookups World
lookups = record {
  app = λ id w. (ok app, w);
  release = λ id w. (ok release, w);
  artifact = λ id w. (ok artifact, w);
}

publish-add_example : publish lookups table (codes "a-1") (codes "r") stored ≡ (
  some (record {
    app = some app;
    release = some release;
    artifact = some artifact;
    processes = positive counts;
  }),
  stored,
)
publish-add_example =
    publish-add lookups table formation stamped app release artifact stored stored table-IsTable
      counts_fit add_again (refl, refl, refl)

removed :
    remove table (codes "a1") (codes "r") before ≡ (false, ((codes "a1", codes "r"), none) ∷ [])
unfolding remove Map.put list_eqb
removed = refl

publish-remove_example :
    publish lookups table (codes "a1") (codes "r") (((codes "a1", codes "r"), none) ∷ []) ≡ (
      some (record {
        app = some app;
        release = some release;
        artifact = some artifact;
        processes = [];
      }),
      ((codes "a1", codes "r"), none) ∷ [],
    )
publish-remove_example =
    publish-remove lookups table (codes "a1") (codes "r") app release artifact before
      (((codes "a1", codes "r"), none) ∷ []) table-IsTable removed (refl, refl, refl)
