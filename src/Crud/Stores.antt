-- ===== src/Crud/Stores.antt =====
-- The repositories that appHandler gives to crud.
use flynn_controller.Prelude.{ℕ, Bool, none, some, Text}
use flynn_controller.Types.{App, Release, Artifact, Key, Provider}
use flynn_controller.Releases
use flynn_controller.Artifacts
use flynn_controller.Keys
use flynn_controller.Sql.{Sql}
use flynn_controller.Providers
use flynn_controller.Apps
use flynn_controller.Apps.{DefaultRoute, add_app}
use flynn_controller.Crud.{Repository}

module _ {W : Type 0} where
  abbrev pub releases :
      Releases.Json → Releases.Statements W → (W → Text × W) → Repository W Release
  releases json db uuid = record {
    add = λ r w. Releases.add json db uuid r w;
    get = λ id w. Releases.get json db id w;
    list = λ w. Releases.list json db w;
    remover = none;
    updater = none;
  }

  abbrev pub artifacts : Artifacts.Statements W → (W → Text × W) → Repository W Artifact
  artifacts db uuid = record {
    add = λ a w. Artifacts.add db uuid a w;
    get = λ id w. Artifacts.get db id w;
    list = λ w. Artifacts.list db w;
    remover = none;
    updater = none;
  }

  abbrev pub keys : {P : Type 0} → Keys.Ssh P → Keys.Statements W → Repository W Key
  keys ssh db = record {
    add = λ k w. Keys.add db ssh k w;
    get = λ id w. Keys.get db id w;
    list = λ w. Keys.list db w;
    remover = some (λ id w. Keys.remove db id w);
    updater = none;
  }

  abbrev pub apps :
      (W → Text × W)
      → (App → W → Sql (ℕ × ℕ) × W)
      → (DefaultRoute → W → Bool × W)
      → Text
      → Apps.Stored.Statements W
      → Repository W App
  apps uuid insert create_route default_domain db = record {
    add = λ a w. add_app uuid insert create_route default_domain a w;
    get = λ id w. Apps.Stored.get db id w;
    list = λ w. Apps.Stored.list db w;
    remover = none;
    updater = some (λ id fields w. Apps.Stored.update db id fields w);
  }

  abbrev pub providers : Providers.Statements W → Repository W Provider
  providers db = record {
    add = λ p w. Providers.add db p w;
    get = λ id w. Providers.get db id w;
    list = λ w. Providers.list db w;
    remover = none;
    updater = none;
  }
