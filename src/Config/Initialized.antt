-- ===== src/Config/Initialized.antt =====
-- What `InitializeServerComponents` of api/v1/config.go makes of the local image storer.
use dairycart.Prelude.{
  String, ◌≡◌, refl, ◌∙◌, Bool-cases, inl, inr, some, [], ◌∷◌, ◌++◌, concat, if◌then◌else◌,
}
use dairycart.Storage.Answers.{Err, nil, is_err}
use dairycart.Config.Settings.{Viper, pos}
use dairycart.Config.Building.{postgres_client, local_storer}
use dairycart.Config.Starting.{
  Server, Starting, migrate_client, migrated, start_images, initialize_server_components,
}
use dairycart.Images.Local.{
  LocalImageStorer, files, FileRoutes, Disk, Urls, serve, init, file_server,
  ensure_domain_has_no_port,
}
use dairycart.Postgres.Migrate.{Migrations}
use dairycart.Postgres.Migrate.Waiting.{migrate_lem}

-- What viper documents of a part of a configuration: it holds the keys below that part's key.
pub record IsSub {V : Type 0} (viper : Viper V) (cfg : V) (key : String) (sub : V) : Type 0 where
  pub is_sub : viper.sub cfg key ≡ some sub
  pub strings :
      (k : String) → viper.get_string sub k ≡ viper.get_string cfg (concat (key ∷ "." ∷ k ∷ []))
  pub ints : (k : String) → viper.get_int sub k ≡ viper.get_int cfg (concat (key ∷ "." ∷ k ∷ []))

-- A configuration like the examples of the repository: it sets nothing below the key "image_storage" twice
-- over, and no port of the image storage.
pub record IsExample {V : Type 0} (viper : Viper V) (cfg : V) : Type 0 where
  pub base_url : viper.get_string cfg "image_storage.image_storage.base_url" ≡ ""
  pub storage_dir : viper.get_string cfg "image_storage.image_storage.storage_dir" ≡ ""
  pub port : viper.get_int cfg "image_storage.port" ≡ pos 0

abbrev pub served : {I F : Type 0} → Disk I F → LocalImageStorer → F → FileRoutes → FileRoutes
served disk l f r =
    if disk.is_missing l.storage_dir f then r else r ++ (("/*", files "/" l.storage_dir) ∷ [])

module _ {V U I DB S J K E F D : Type 0} (viper : Viper V) (urls : Urls U) (disk : Disk I F)
    (m : Migrations D) (st : Starting V DB S J F D) where
  -- The storer has an empty base URL, and serves its directory only if that was there.
  abbrev pub IsIgnored : LocalImageStorer → Server DB S J K E F D → Server DB S J K E F D → Type 0
  IsIgnored l srv started =
      ((l' : LocalImageStorer) × (started.config.image_storer ≡ some (local_storer l'))
        × (l'.base_url ≡ "")
        × (l'.storage_dir ≡ l.storage_dir))
      × (started.config.router ≡ served disk l srv.disk srv.config.router)

  start_images-IsIgnored :
      (cfg sub : V) (srv : Server DB S J K E F D) (l : LocalImageStorer)
      → IsSub viper cfg "image_storage" sub
      → IsExample viper cfg
      → ensure_domain_has_no_port urls "" ≡ record { value = ""; err = nil }
      → (r : Err × Server DB S J K E F D) × (start_images viper urls disk m st
            (some sub)
            srv
            (some (local_storer l))
          ≡ some r)
        × (IsIgnored l srv r.1 × (r.1.config.database_client ≡ srv.config.database_client))
  unfolding init serve file_server
  start_images-IsIgnored cfg sub srv l law example empty =
      elim (Bool-cases (disk.is_missing l.storage_dir srv.disk)) [
        | inl missing ↦
            rw (url, empty, dir, port, missing) (_, refl, (((_, refl, refl, refl), refl), refl))
        | inr there ↦
            rw (url, empty, dir, port, there) (_, refl, (((_, refl, refl, refl), refl), refl))
      ]
    where
      url : viper.get_string sub "image_storage.base_url" ≡ ""
      url = law.strings "image_storage.base_url" ∙ example.base_url

      dir : viper.get_string sub "image_storage.storage_dir" ≡ ""
      dir = law.strings "image_storage.storage_dir" ∙ example.storage_dir

      port : viper.get_int sub "port" ≡ pos 0
      port = law.ints "port" ∙ example.port

  -- With a PostgreSQL client and a configuration of the database, the migration ends.
  migrated-IsIgnored :
      (dsub : V) (l : LocalImageStorer) (srv started : Server DB S J K E F D)
      → started.config.database_client ≡ some postgres_client
      → IsIgnored l srv started
      → (r : Err × Server DB S J K E F D) × (migrated viper urls disk m st started (
            migrate_client viper m st started.config.database_client started.config.db
              (some dsub)
              started.database)
          ≡ some r)
        × IsIgnored l srv r.1
  migrated-IsIgnored dsub l srv started client ignored =
      let (end, same, _) =
        migrate_lem m st.is_example st.asset (st.ping started.config.db)
          (viper.get_string dsub "connection_details") (viper.get_bool dsub "migrate_example_data")
          started.database in
      rw (client, same) (_, refl, ignored)

  -- With the local image storer, PostgreSQL, and a configuration like the examples of the repository, the start of
  -- the server ends. Whatever base URL is configured for the images, that of the storer is then empty; and its
  -- directory is served only if it was there before: on a start that makes it, no route is added.
  pub initialize_server_components-IsIgnored :
      (cfg sub dsub : V) (srv : Server DB S J K E F D) (l : LocalImageStorer)
      → IsSub viper cfg "image_storage" sub
      → viper.sub cfg "database" ≡ some dsub
      → IsExample viper cfg
      → ensure_domain_has_no_port urls "" ≡ record { value = ""; err = nil }
      → srv.config.image_storer ≡ some (local_storer l)
      → srv.config.database_client ≡ some postgres_client
      → (r : Err × Server DB S J K E F D) × (initialize_server_components viper urls disk m st cfg
            srv
          ≡ some r)
        × IsIgnored l srv r.1
  unfolding initialize_server_components
  initialize_server_components-IsIgnored cfg sub dsub srv l law database example empty storer
        client =
      let ((e, started), same, (ignored, kept)) =
        start_images-IsIgnored cfg sub srv l law example empty in
      elim (Bool-cases (is_err e)) [
        | inl bad ↦ rw (law.is_sub, database, storer, same, bad) (_, refl, ignored)
        | inr good ↦
            rw (law.is_sub, database, storer, same, good)
              (migrated-IsIgnored dsub l srv started (kept ∙ client) ignored)
      ]
