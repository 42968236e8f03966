-- ===== src/Config/Building.antt =====
-- api/v1/config.go: from a configuration to the parts of the server. What a process `P` loads and
-- registers, and what viper answers, are parameters.
use mathlib.Core.Option
use dairycart.Prelude.{
  ℕ, String, false, not, ◌||◌, Option, none, some, [], ◌∷◌, concat, len, ltb, str_eq, if◌then◌else◌,
}
use dairycart.Storage.Answers.{Err, nil, failed, is_err, Answer}
use dairycart.Config.Settings.{Viper, number, string, boolean}
use dairycart.Config.Loading.{Plugins, load_as, wrap}
use dairycart.Images.Local.{LocalImageStorer, new_local_image_storer, FileRoutes}

abbrev pub mandatory_secret_length : ℕ
mandatory_secret_length = 32

abbrev pub default_port : ℕ
default_port = 4321

-- The Go type of the client is `postgres`, or a plugin's.
pub data DatabaseClient (S : Type 0) : Type 0 where
  postgres_client : DatabaseClient S
  database_plugin : S → DatabaseClient S

pub data ImageStorer (J : Type 0) : Type 0 where
  local_storer : LocalImageStorer → ImageStorer J
  image_plugin : J → ImageStorer J

-- A pointer or an interface is none where it is nil. `router` is what is mounted at /product_images; the rest of the router is not in this file.
pub record ServerConfig (DB S J K E : Type 0) : Type 0 where
  pub router : FileRoutes
  pub db : Option DB
  pub cookie_store : Option K
  pub database_client : Option (DatabaseClient S)
  pub webhook_executor : E
  pub image_storer : Option (ImageStorer J)

-- `sql.Open`, which looks for a driver that the process registered; `sessions.NewCookieStore`; the
-- executor over `http.DefaultClient`; and the type assertions on a symbol.
pub record Libraries (P Y DB S J K E : Type 0) : Type 0 where
  pub sql_open : P → String → String → Answer DB
  pub new_cookie_store : String → K
  pub default_executor : E
  pub as_storer : Y → Option S
  pub as_image_storer : Y → Option J

-- `uniuri.NewLen` is `new_len`.
unfoldable pub set_config_defaults : {V : Type 0} → Viper V → (ℕ → String) → String → V → V
set_config_defaults viper new_len alt_cfg_file_path config =
    let named = viper.set_config_name config "dairyconfig" in
    let chosen =
      if not (str_eq alt_cfg_file_path "")
      then viper.set_config_file named alt_cfg_file_path
      else named in
    let found = viper.add_config_path chosen "." in
    let ported = viper.set_default found "port" (number default_port) in
    let named_domain = viper.set_default ported "domain" (string "http://localhost:4321") in
    let plain = viper.set_default named_domain "database.migrate_example_data" (boolean false) in
    let database = viper.set_default plain "database.type" (string "postgres") in
    let images = viper.set_default database "image_storage.type" (string "local") in
    let bound = viper.bind_env images "secret" "DAIRYSECRET" in
    viper.set_default bound "secret" (string (new_len mandatory_secret_length))

unfoldable pub load_server_config :
    {V : Type 0} → Viper V → (ℕ → String) → String → Answer (Option V)
unfolding set_config_defaults
load_server_config viper new_len alt_cfg_file_path =
    let (err, config) =
      viper.read_in_config (set_config_defaults viper new_len alt_cfg_file_path viper.new) in
    if is_err err
    then (if not (viper.is_file_not_found err)
        then record { value = none; err = wrap "error validating server config" err }
        else record { value = some config; err = nil })
    else record { value = some config; err = nil }

module _ {P Y DB S J K E : Type 0} (lib : Libraries P Y DB S J K E) where
  unfoldable pub setup_cookie_storage : String → Answer (Option K)
  setup_cookie_storage secret =
      if ltb (len secret) 32
      then record {
        value = none;
        err = failed (concat ("Something is up with your app secret: `" ∷ secret ∷ "`" ∷ []));
      }
      else record { value = some (lib.new_cookie_store secret); err = nil }

-- What `buildDatabaseFromConfig` returns.
pub record BuiltDatabase (DB S : Type 0) : Type 0 where
  pub db : Option DB
  pub client : Option (DatabaseClient S)
  pub err : Err

abbrev pub no_database : {DB S : Type 0} → Err → BuiltDatabase DB S
no_database e = record { db = none; client = none; err = e }

abbrev pub missing_database_plugin : String
missing_database_plugin =
    "non-default database selected without complimentary plugin path, please check your configuration file"

abbrev pub missing_image_plugin : String
missing_image_plugin =
    "non-default image storer selected without complimentary plugin path, please check your configuration file"

module _ {V P G Y DB S J K E : Type 0} (viper : Viper V) (pl : Plugins P G Y)
    (lib : Libraries P Y DB S J K E) where
  abbrev pub with_client : DB → Answer (Option S) × P → BuiltDatabase DB S × P
  with_client db (a, p) =
      (record { db = some db; client = Option.map database_plugin a.value; err = a.err }, p)

  unfoldable pub load_database_plugin : String → String → P → Answer (Option S) × P
  unfolding load_as
  load_database_plugin path name p =
      load_as pl lib.as_storer
        "Symbol provided in database plugin does not satisfy the database.Storer interface" path
        name p

  -- From the choice of the client on, after the connection is opened.
  unfoldable pub choose_client : V → String → DB → P → BuiltDatabase DB S × P
  unfolding load_database_plugin
  choose_client cfg db_type db p =
      let path = viper.get_string cfg "database.plugin_path" in
      if str_eq db_type "postgres"
      then (record { db = some db; client = some postgres_client; err = nil }, p)
      else if not (viper.is_set cfg "database.plugin_path") || str_eq path ""
      then (no_database (failed missing_database_plugin), p)
      else with_client db (load_database_plugin path db_type p)

  unfoldable pub build_database_from_config : V → P → BuiltDatabase DB S × P
  unfolding choose_client
  build_database_from_config cfg p =
      let conn = viper.get_string cfg "database.connection_details" in
      let db_type = viper.get_string cfg "database.type" in
      let opened = lib.sql_open p db_type conn in
      if not (viper.is_set cfg "database") || str_eq conn ""
      then (no_database (failed "no database type specified in config"), p)
      else if is_err opened.err
      then (no_database (wrap "issue opening sql connection" opened.err), p)
      else choose_client cfg db_type opened.value p

  unfoldable pub load_image_storage_plugin : String → String → P → Answer (Option J) × P
  unfolding load_as
  load_image_storage_plugin path name p =
      load_as pl lib.as_image_storer
        "Symbol provided in image storage plugin does not satisfy the images.ImageStorer interface"
        path name p

  abbrev pub as_plugin : Answer (Option J) × P → Answer (Option (ImageStorer J)) × P
  as_plugin (a, p) = (record { value = Option.map image_plugin a.value; err = a.err }, p)

  unfoldable pub build_image_storer_from_config : V → P → Answer (Option (ImageStorer J)) × P
  unfolding new_local_image_storer
  build_image_storer_from_config cfg p =
      let storage_type = viper.get_string cfg "image_storage.type" in
      let path = viper.get_string cfg "image_storage.plugin_path" in
      if not (viper.is_set cfg "image_storage")
      then (record { value = none; err = failed "no image storer type specified in config" }, p)
      else if str_eq storage_type "local"
      then (record { value = some (local_storer new_local_image_storer); err = nil }, p)
      else if not (viper.is_set cfg "image_storage.plugin_path")
      then (record { value = none; err = failed missing_image_plugin }, p)
      else if str_eq path ""
      then (record { value = none; err = failed missing_image_plugin }, p)
      else as_plugin (load_image_storage_plugin path storage_type p)

  -- From the cookie store on, then from the image storer on.
  abbrev pub with_cookies :
      BuiltDatabase DB S
      → Answer (Option (ImageStorer J))
      → Answer (Option K)
      → Answer (Option (ServerConfig DB S J K E))
  with_cookies built images cookies =
      if is_err cookies.err
      then record { value = none; err = wrap "error configuring cookie storage" cookies.err }
      else record {
        value = some (record {
          router = [];
          db = built.db;
          cookie_store = cookies.value;
          database_client = built.client;
          webhook_executor = lib.default_executor;
          image_storer = images.value;
        });
        err = nil;
      }

  abbrev pub with_images :
      V
      → BuiltDatabase DB S
      → Answer (Option (ImageStorer J)) × P
      → Answer (Option (ServerConfig DB S J K E)) × P
  with_images cfg built (images, p) = (
    if is_err images.err
        then record { value = none; err = wrap "error configuring image storage" images.err }
        else with_cookies built images (setup_cookie_storage lib (viper.get_string cfg "secret")),
    p,
  )

  abbrev pub with_database :
      V → BuiltDatabase DB S × P → Answer (Option (ServerConfig DB S J K E)) × P
  with_database cfg (built, p) =
      if is_err built.err
      then (record { value = none; err = wrap "error configuring database" built.err }, p)
      else with_images cfg built (build_image_storer_from_config cfg p)

  unfoldable pub build_server_config : V → P → Answer (Option (ServerConfig DB S J K E)) × P
  unfolding build_database_from_config build_image_storer_from_config setup_cookie_storage
  build_server_config cfg p = with_database cfg (build_database_from_config cfg p)
