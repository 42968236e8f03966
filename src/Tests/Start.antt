-- ===== src/Tests/Start.antt =====
-- A configuration, a disk and libraries at which the start of the server is run.
use dairycart.Prelude.{
  ℕ, ◌+◌, min, String, ◌≡◌, refl, true, false, Bool-cases, inl, inr, Option, none, some, List, [],
  ◌∷◌, concat, str_eq, str_eq_iff, str_eq-refl, if◌then◌else◌,
}
use dairycart.Storage.Answers.{Err, nil}
use dairycart.Images.{ProductImageSet}
use dairycart.Images.Local.{
  new_local_image_storer, Disk, Urls, photo_dir, store_images, ensure_domain_has_no_port,
}
use dairycart.Images.Local.Stored.{IsDisk, IsStored, store_images-IsStored}
use dairycart.Config.Settings.{Viper, pos}
use dairycart.Config.Loading.{Plugins}
use dairycart.Config.Building.{Libraries, postgres_client, local_storer, build_server_config}
use dairycart.Config.Built.{IsConfigured, build_server_config-IsConfigured}
use dairycart.Config.Starting.{Server, Starting, initialize_server_components}
use dairycart.Config.Initialized.{
  IsSub, IsExample, IsIgnored, initialize_server_components-IsIgnored,
}
use dairycart.Postgres.Migrate.{Migrations}

-- A file holds a number, the number of its pixels.
abbrev Files : Type 0
Files = List (String × ℕ)

abbrev read_file : String → Files → Option ℕ
read_file path [] = none
read_file path ((p, n) ∷ f) = if str_eq p path then some n else read_file path f

abbrev disk : Disk ℕ Files
disk = record {
  is_missing = λ path f. true;
  mkdir_all = λ path f. (nil, f);
  create = λ path f. (nil, f);
  encode = λ img path f. (nil, (path, img) ∷ f);
  resize = λ n m img. min n img;
}

disk-IsDisk : IsDisk disk read_file
disk-IsDisk = record {
  encodes = λ img path f ok. rw (str_eq-refl path) refl;
  encodes_only = λ img path other f differs. elim (Bool-cases (str_eq path other)) [
    | inl same ↦ absurd (differs ((str_eq_iff path other).0 same))
    | inr apart ↦ rw apart refl
  ];
  creates_only = λ path other f differs. refl;
}

abbrev picture : ProductImageSet ℕ
picture = record { thumbnail = 100; main = 500; original = 900 }

store_images-IsStored_example :
    IsStored disk read_file disk-IsDisk new_local_image_storer
      (photo_dir new_local_image_storer "cap" 0)
      picture
      (store_images disk new_local_image_storer picture "cap" 0 [])
store_images-IsStored_example =
    store_images-IsStored disk read_file disk-IsDisk new_local_image_storer picture "cap" 0 []

-- A configuration is its texts; the part below a key has the keys below it.
abbrev viper : Viper (String → String)
viper = record {
  new = λ k. "";
  is_set = λ c k. true;
  get_string = λ c k. c k;
  get_int = λ c k. pos 0;
  get_bool = λ c k. false;
  sub = λ c k. some (λ j. c (concat (k ∷ "." ∷ j ∷ [])));
  set_config_name = λ c n. c;
  set_config_file = λ c n. c;
  add_config_path = λ c p. c;
  set_default = λ c k s. c;
  bind_env = λ c k e. c;
  read_in_config = λ c. (nil, c);
  is_file_not_found = λ e. false;
}

-- As in dairyconfigs/example_dairyconfig.toml.
abbrev config : String → String
config k =
    if str_eq k "database.type"
    then "postgres"
    else if str_eq k "database.connection_details"
    then "postgres://database:5432/dairycart"
    else if str_eq k "image_storage.type"
    then "local"
    else if str_eq k "image_storage.base_url"
    then "http://localhost"
    else if str_eq k "secret"
    then "do not tell anybody this secret!"
    else ""

abbrev plugins : Plugins ℕ String String
plugins = record {
  open_plugin = λ path p. (record { value = path; err = nil }, p + 1);
  lookup = λ g name. record { value = name; err = nil };
  to_lower = λ s. s;
  title = λ s. s;
}

abbrev libraries : Libraries ℕ String String String String String ℕ
libraries = record {
  sql_open = λ p driver conn. record { value = conn; err = nil };
  new_cookie_store = λ secret. secret;
  default_executor = 0;
  as_storer = λ y. some y;
  as_image_storer = λ y. some y;
}

build_server_config-IsConfigured_example :
    IsConfigured viper plugins libraries config 0
      (build_server_config viper plugins libraries config 0).0
build_server_config-IsConfigured_example =
    build_server_config-IsConfigured viper plugins libraries config 0

abbrev urls : Urls String
urls = record {
  parse = λ s. record { value = s; err = nil };
  host = λ u. u;
  with_host = λ h u. h;
  print = λ u. u;
  split_host_port = λ h. (h, "");
}

abbrev migrations : Migrations ℕ
migrations = record {
  load = λ asset url. nil;
  up = λ d. (nil, d + 1);
  down = λ d. (nil, d);
  is_no_change = λ e. false;
}

abbrev starting : Starting (String → String) String String String Files ℕ
starting = record {
  init_plugin = λ j sub f r. none;
  migrate_plugin = λ s db sub d. none;
  ping = λ db n. nil;
  is_example = λ name. false;
  asset = λ name. record { value = none; err = nil };
}

abbrev server : Server String String String String ℕ Files ℕ
server = record {
  config = record {
    router = [];
    db = some "db";
    cookie_store = some "cookies";
    database_client = some postgres_client;
    webhook_executor = 0;
    image_storer = some (local_storer new_local_image_storer);
  };
  disk = [];
  database = 0;
}

config-IsSub :
    IsSub viper config "image_storage" (λ j. config (concat ("image_storage" ∷ "." ∷ j ∷ [])))
config-IsSub = record { is_sub = refl; strings = λ k. refl; ints = λ k. refl }

config-IsExample : IsExample viper config
config-IsExample = record { base_url = refl; storage_dir = refl; port = refl }

empty_domain : ensure_domain_has_no_port urls "" ≡ record { value = ""; err = nil }
unfolding ensure_domain_has_no_port
empty_domain = refl

initialize_server_components-IsIgnored_example :
    (r : Err × Server String String String String ℕ Files ℕ) × (initialize_server_components viper
        urls disk migrations starting config server
      ≡ some r)
    × IsIgnored viper urls disk migrations starting new_local_image_storer server r.1
initialize_server_components-IsIgnored_example =
    initialize_server_components-IsIgnored viper urls disk migrations starting config
      (λ j. config (concat ("image_storage" ∷ "." ∷ j ∷ [])))
      (λ j. config (concat ("database" ∷ "." ∷ j ∷ []))) server new_local_image_storer config-IsSub
      refl config-IsExample empty_domain refl refl
