-- ===== src/Config/Built.antt =====
-- What a server that is configured without an error has: `BuildServerConfig` of api/v1/config.go.
use dairycart.Prelude.{
  false, sym, ap, ◌∙◌, String, ◌≤◌, ◌≡◌, refl, true, not, ◌||◌, Bool-cases, ◌⊎◌, inl, inr, Option,
  none, some, len, ltb, ltb→le, str_eq,
}
use dairycart.Storage.Answers.{Err, nil, is_err, Answer}
use dairycart.Api.Rules.{is_err-false}
use dairycart.Config.Settings.{Viper}
use dairycart.Config.Loading.{Plugins, checked, asserted, typed, load_plugin, load_as}
use dairycart.Config.Building.{
  Libraries, DatabaseClient, ImageStorer, ServerConfig, BuiltDatabase, setup_cookie_storage,
  load_database_plugin, with_client, choose_client, build_database_from_config,
  load_image_storage_plugin, as_plugin, build_image_storer_from_config, with_cookies, with_images,
  with_database, build_server_config,
}

-- An error and no value, or a value and no error.
abbrev pub Loads : {A : Type 0} → Answer (Option A) → Type 0
Loads {A} a = (is_err a.err ≡ true) ⊎ (a.err ≡ nil) × (x : A) × (a.value ≡ some x)

checked-Loads : {A : Type 0} (message : String) (o : Option A) → Loads (checked message o)
checked-Loads message none = inl refl
checked-Loads message (some a) = inr (refl, a, refl)

module _ {P G Y A : Type 0} (pl : Plugins P G Y) (assert : Y → Option A) (message : String) where
  typed-Loads : (r : Answer (Option Y) × P) → Loads (typed pl assert message r).0
  typed-Loads (a, p) = elim (Bool-cases (is_err a.err)) [
    | inl bad ↦ rw bad (inl refl)
    | inr good ↦ rw good (by_symbol a.value)
  ]
    where
      by_symbol : (o : Option Y) → Loads (asserted pl assert message o)
      by_symbol none = inl refl
      by_symbol (some y) = checked-Loads message (assert y)

  load_as-Loads : (path name : String) (p : P) → Loads (load_as pl assert message path name p).0
  unfolding load_as
  load_as-Loads path name p = typed-Loads (load_plugin pl path name p)

module _ {V P G Y DB S J K E : Type 0} (viper : Viper V) (pl : Plugins P G Y)
    (lib : Libraries P Y DB S J K E) where
  -- A connection that opened, and a client.
  abbrev pub IsConnected : V → P → BuiltDatabase DB S → Type 0
  IsConnected cfg p built =
      let opened =
        lib.sql_open p (viper.get_string cfg "database.type")
          (viper.get_string cfg "database.connection_details") in
      (opened.err ≡ nil)
      × (built.db ≡ some opened.value)
      × (c : DatabaseClient S) × (built.client ≡ some c)

  abbrev pub Connects : V → P → BuiltDatabase DB S → Type 0
  Connects cfg p built = (is_err built.err ≡ true) ⊎ (built.err ≡ nil) × IsConnected cfg p built

  with_client-Connects :
      (cfg : V) (p : P) (r : Answer (Option S) × P)
      → (lib.sql_open p
          (viper.get_string cfg "database.type")
          (viper.get_string cfg "database.connection_details")).err
        ≡ nil
      → Loads r.0
      → Connects cfg p
          (with_client viper pl lib
            (lib.sql_open p
              (viper.get_string cfg "database.type")
              (viper.get_string cfg "database.connection_details")).value
            r).0
  with_client-Connects cfg p (a, q) opened (inl bad) = inl bad
  with_client-Connects cfg p (a, q) opened (inr (ok, c, got)) =
      rw (ok, got) (inr (refl, (opened, refl, _, refl)))

  build_database_from_config-Connects :
      (cfg : V) (p : P) → Connects cfg p (build_database_from_config viper pl lib cfg p).0
  unfolding build_database_from_config choose_client load_database_plugin
  build_database_from_config-Connects cfg p =
      elim (Bool-cases (
        not (viper.is_set cfg "database")
        || str_eq (viper.get_string cfg "database.connection_details") "")) [
          | inl unset ↦ rw unset (inl refl)
          | inr set ↦ elim (Bool-cases (is_err opened.err)) [
            | inl bad ↦ rw (set, bad) (inl refl)
            | inr good ↦ elim (Bool-cases (str_eq db_type "postgres")) [
              | inl default ↦
                  rw (set, good, default) (inr (refl, (is_err-false _ good, refl, _, refl)))
              | inr other ↦
                  elim (Bool-cases (
                    not (viper.is_set cfg "database.plugin_path")
                    || str_eq (viper.get_string cfg "database.plugin_path") "")) [
                      | inl missing ↦ rw (set, good, other, missing) (inl refl)
                      | inr given ↦
                          rw (set, good, other, given)
                            (with_client-Connects cfg p
                              (load_database_plugin viper pl lib
                                (viper.get_string cfg "database.plugin_path") db_type p)
                              (is_err-false _ good) (load_as-Loads pl lib.as_storer _ _ db_type p))
                    ]
            ]
          ]
        ]
    where
      db_type : String
      db_type = viper.get_string cfg "database.type"

      opened : Answer DB
      opened = lib.sql_open p db_type (viper.get_string cfg "database.connection_details")

  load_image_storage_plugin-Loads :
      (path name : String) (p : P) → Loads (load_image_storage_plugin viper pl lib path name p).0
  unfolding load_image_storage_plugin
  load_image_storage_plugin-Loads path name p = load_as-Loads pl lib.as_image_storer _ path name p

  as_plugin-Loads : (r : Answer (Option J) × P) → Loads r.0 → Loads (as_plugin viper pl lib r).0
  as_plugin-Loads (a, p) (inl bad) = inl bad
  as_plugin-Loads (a, p) (inr (ok, j, got)) = rw (ok, got) (inr (refl, _, refl))

  build_image_storer_from_config-Loads :
      (cfg : V) (p : P) → Loads (build_image_storer_from_config viper pl lib cfg p).0
  unfolding build_image_storer_from_config
  build_image_storer_from_config-Loads cfg p =
      elim (Bool-cases (viper.is_set cfg "image_storage")) [
        | inr unset ↦ rw unset (inl refl)
        | inl set ↦ elim (Bool-cases (str_eq storage_type "local")) [
          | inl default ↦ rw (set, default) (inr (refl, _, refl))
          | inr other ↦ elim (Bool-cases (viper.is_set cfg "image_storage.plugin_path")) [
            | inr missing ↦ rw (set, other, missing) (inl refl)
            | inl given ↦
                elim (Bool-cases (str_eq (viper.get_string cfg "image_storage.plugin_path") "")) [
                  | inl empty ↦ rw (set, other, given, empty) (inl refl)
                  | inr path ↦
                      rw (set, other, given, path)
                        (as_plugin-Loads
                          (load_image_storage_plugin viper pl lib
                            (viper.get_string cfg "image_storage.plugin_path") storage_type p)
                          (load_image_storage_plugin-Loads _ storage_type p))
                ]
          ]
        ]
      ]
    where
      storage_type : String
      storage_type = viper.get_string cfg "image_storage.type"

  -- Every part of the server is there, the connection opened, and the secret has 32 bytes at least.
  abbrev pub IsComplete : V → P → ServerConfig DB S J K E → Type 0
  IsComplete cfg p c =
      let opened =
        lib.sql_open p (viper.get_string cfg "database.type")
          (viper.get_string cfg "database.connection_details") in
      ((opened.err ≡ nil) × (c.db ≡ some opened.value))
      × ((client : DatabaseClient S) × (c.database_client ≡ some client))
      × ((storer : ImageStorer J) × (c.image_storer ≡ some storer))
      × ((c.cookie_store ≡ some (lib.new_cookie_store (viper.get_string cfg "secret")))
          × (32 ≤ len (viper.get_string cfg "secret")))

  -- A database and an image storage that are set, with the types "postgres" and "local", details with which a
  -- connection opens, and a secret of 32 bytes at least.
  abbrev pub IsPlain : V → P → Type 0
  IsPlain cfg p =
      let opened =
        lib.sql_open p (viper.get_string cfg "database.type")
          (viper.get_string cfg "database.connection_details") in
      (viper.is_set cfg "database" ≡ true)
      × (str_eq (viper.get_string cfg "database.connection_details") "" ≡ false)
      × (opened.err ≡ nil)
      × (str_eq (viper.get_string cfg "database.type") "postgres" ≡ true)
      × (viper.is_set cfg "image_storage" ≡ true)
      × (str_eq (viper.get_string cfg "image_storage.type") "local" ≡ true)
      × (ltb (len (viper.get_string cfg "secret")) 32 ≡ false)

  plain_built :
      (cfg : V) (p : P) → IsPlain cfg p → (build_server_config viper pl lib cfg p).0.err ≡ nil
  unfolding build_server_config build_database_from_config choose_client
      build_image_storer_from_config setup_cookie_storage
  plain_built cfg p (set, details, opened, postgres, images, local, long) =
      rw (set, details, opened, postgres, images, local, long) refl

  abbrev pub IsServed : V → P → Answer (Option (ServerConfig DB S J K E)) → Type 0
  IsServed cfg p a =
      (is_err a.err ≡ true) × (a.value ≡ none)
      ⊎ (a.err ≡ nil) × (c : ServerConfig DB S J K E) × (a.value ≡ some c) × IsComplete cfg p c

  -- A server that is complete, or an error, which a plain configuration does not get.
  abbrev pub IsConfigured : V → P → Answer (Option (ServerConfig DB S J K E)) → Type 0
  IsConfigured cfg p a =
      (is_err a.err ≡ true) × (a.value ≡ none) × (¬ IsPlain cfg p)
      ⊎ (a.err ≡ nil) × (c : ServerConfig DB S J K E) × (a.value ≡ some c) × IsComplete cfg p c

  with_cookies-IsServed :
      (cfg : V) (p : P) (built : BuiltDatabase DB S) (images : Answer (Option (ImageStorer J)))
      → IsConnected cfg p built
      → (storer : ImageStorer J) × (images.value ≡ some storer)
      → IsServed cfg p (
          with_cookies viper pl lib built images
            (setup_cookie_storage lib (viper.get_string cfg "secret")))
  unfolding setup_cookie_storage
  with_cookies-IsServed cfg p built images (opened, at, client, chosen) storer =
      elim (Bool-cases (ltb (len (viper.get_string cfg "secret")) 32)) [
        | inl short ↦ rw short (inl (refl, refl))
        | inr long ↦ rw long (
            inr (refl, _, refl, ((opened, at), (client, chosen), storer, (refl, ltb→le _ 32 long))))
      ]

  with_images-IsServed :
      (cfg : V) (p : P) (built : BuiltDatabase DB S) (r : Answer (Option (ImageStorer J)) × P)
      → IsConnected cfg p built
      → Loads r.0
      → IsServed cfg p (with_images viper pl lib cfg built r).0
  with_images-IsServed cfg p built (a, q) at (inl bad) = rw bad (inl (refl, refl))
  with_images-IsServed cfg p built (a, q) at (inr (ok, storer, got)) =
      rw ok (with_cookies-IsServed cfg p built a at (storer, got))

  build_server_config-IsServed :
      (cfg : V) (p : P) → IsServed cfg p (build_server_config viper pl lib cfg p).0
  unfolding build_server_config
  build_server_config-IsServed cfg p =
      by_database (build_database_from_config viper pl lib cfg p)
        (build_database_from_config-Connects cfg p)
    where
      by_database :
          (r : BuiltDatabase DB S × P)
          → Connects cfg p r.0
          → IsServed cfg p (with_database viper pl lib cfg r).0
      by_database (built, q) (inl bad) = rw bad (inl (refl, refl))
      by_database (built, q) (inr (ok, at)) = rw ok (
          with_images-IsServed cfg p built (build_image_storer_from_config viper pl lib cfg q) at
            (build_image_storer_from_config-Loads cfg q))

  -- Configuring a server answers a server all of whose parts are there: the connection that was opened with the
  -- type and the details of the configuration, a client, an image storer, and a cookie store of the secret,
  -- which has 32 bytes at least; or an error and no server, which no configuration gets that sets the database and
  -- the image storage with the types "postgres" and "local", details that open, and a secret of that length.
  pub build_server_config-IsConfigured :
      (cfg : V) (p : P) → IsConfigured cfg p (build_server_config viper pl lib cfg p).0
  build_server_config-IsConfigured cfg p = elim (build_server_config-IsServed cfg p) [
    | inl (bad, empty) ↦
        inl (bad, empty, λ plain. let ok = plain_built cfg p plain in refused ok bad)
    | inr complete ↦ inr complete
  ]
    where
      refused : {e : Err} → e ≡ nil → is_err e ≡ true → ⊥
      refused ok bad = false-true (sym (ap is_err ok) ∙ bad)
        where
          false-true : false ≡ true → ⊥
          false-true e = cc
