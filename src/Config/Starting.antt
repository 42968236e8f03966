-- ===== src/Config/Starting.antt =====
-- api/v1/config.go: `InitializeServerComponents`, the start of the image storer and the migration.
use dairycart.Prelude.{ℕ, String, Bool, Option, none, some, if◌then◌else◌}
use dairycart.Storage.Answers.{Err, nil, is_err, Answer}
use dairycart.Config.Settings.{Viper}
use dairycart.Config.Loading.{wrap}
use dairycart.Config.Building.{
  DatabaseClient, postgres_client, database_plugin, ImageStorer, local_storer, image_plugin,
  ServerConfig,
}
use dairycart.Images.Local.{FileRoutes, LocalState, Disk, Urls, init}
use dairycart.Postgres.Migrate.{Migrations, migrate}

-- The server with the disk `F` and the database `D` that it works on.
pub record Server (DB S J K E F D : Type 0) : Type 0 where
  pub config : ServerConfig DB S J K E
  pub disk : F
  pub database : D

-- What the two plugins do when they start; none is a panic. `ping` is the error of the n-th ping.
pub record Starting (V DB S J F D : Type 0) : Type 0 where
  pub init_plugin : J → Option V → F → FileRoutes → Option (Err × (J × (F × FileRoutes)))
  pub migrate_plugin : S → Option DB → Option V → D → Option (Err × D)
  pub ping : Option DB → ℕ → Err
  pub is_example : String → Bool
  pub asset : String → Answer (Option String)

module _ {V DB S J F D : Type 0} (viper : Viper V) (m : Migrations D)
    (st : Starting V DB S J F D) where
  abbrev pub migrate_postgres : Option DB → Option V → D → Option (Err × D)
  migrate_postgres db none d = none
  migrate_postgres db (some sub) d =
      migrate m st.is_example st.asset (st.ping db) (viper.get_string sub "connection_details")
        (viper.get_bool sub "migrate_example_data") d

  -- config.DatabaseClient.Migrate, a panic on a nil interface.
  abbrev pub migrate_client :
      Option (DatabaseClient S) → Option DB → Option V → D → Option (Err × D)
  migrate_client none db sub d = none
  migrate_client (some postgres_client) db sub d = migrate_postgres db sub d
  migrate_client (some (database_plugin s)) db sub d = st.migrate_plugin s db sub d

module _ {V U I DB S J K E F D : Type 0} (viper : Viper V) (urls : Urls U) (disk : Disk I F)
    (m : Migrations D) (st : Starting V DB S J F D) where
  abbrev pub local_started :
      Server DB S J K E F D → Option (Err × LocalState F) → Option (Err × Server DB S J K E F D)
  local_started srv none = none
  local_started srv (some (e, l)) = some (
    e,
    record srv {
      config = record srv.config { router = l.routes; image_storer = some (local_storer l.storer) };
      disk = l.disk;
    },
  )

  abbrev pub plugin_started :
      Server DB S J K E F D
      → Option (Err × (J × (F × FileRoutes)))
      → Option (Err × Server DB S J K E F D)
  plugin_started srv none = none
  plugin_started srv (some (e, (j, (f, r)))) = some (
    e,
    record srv {
      config = record srv.config { router = r; image_storer = some (image_plugin j) };
      disk = f;
    },
  )

  -- config.ImageStorer.Init, a panic on a nil interface.
  abbrev pub start_images :
      Option V
      → Server DB S J K E F D
      → Option (ImageStorer J)
      → Option (Err × Server DB S J K E F D)
  start_images sub srv none = none
  start_images sub srv (some (local_storer l)) = local_started srv (
      init viper urls disk sub (record { storer = l; disk = srv.disk; routes = srv.config.router }))
  start_images sub srv (some (image_plugin j)) =
      plugin_started srv (st.init_plugin j sub srv.disk srv.config.router)

  abbrev pub migrated :
      Server DB S J K E F D → Option (Err × D) → Option (Err × Server DB S J K E F D)
  migrated srv none = none
  migrated srv (some (e, d)) =
      some
        (if is_err e then wrap "error migrating database" e else nil, record srv { database = d })

  abbrev pub then_migrate :
      Option V → Option (Err × Server DB S J K E F D) → Option (Err × Server DB S J K E F D)
  then_migrate sub none = none
  then_migrate sub (some (e, srv)) =
      if is_err e
      then some (wrap "error migrating database" e, srv)
      else migrated srv
          (migrate_client viper m st srv.config.database_client srv.config.db sub srv.database)

  unfoldable pub initialize_server_components :
      V → Server DB S J K E F D → Option (Err × Server DB S J K E F D)
  unfolding init migrate
  initialize_server_components cfg srv =
      then_migrate (viper.sub cfg "database")
        (start_images (viper.sub cfg "image_storage") srv srv.config.image_storer)
