-- ===== src/Images/Local.antt =====
-- storage/v1/images/local/main.go: images as files of the server's disk.
pub mod Stored
use dairycart.Prelude.{
  ℕ, ◌==◌, String, Bool, true, false, not, ◌&&◌, ◌||◌, Option, none, some, List, [], ◌∷◌, ◌++◌,
  concat, codes, str_eq, if◌then◌else◌,
}
use dairycart.Storage.Answers.{Err, nil, failed, is_err, text, Answer}
use dairycart.Api.Numbers.{format_uint}
use dairycart.Config.Settings.{Viper, format_int, is_zero}
use dairycart.Images.{ProductImageSet, ProductImageLocations}

pub record LocalImageStorer : Type 0 where
  pub base_url : String
  pub storage_dir : String
  pub route_prefix : String

abbrev pub local_product_images_directory : String
local_product_images_directory = "product_images"

unfoldable pub new_local_image_storer : LocalImageStorer
new_local_image_storer = record {
  base_url = "http://localhost:4321";
  storage_dir = local_product_images_directory;
  route_prefix = local_product_images_directory;
}

-- The disk `F`, which `os` and `png.Encode` change, and `resize.Thumbnail` with its two sides. `is_missing`
-- is `os.IsNotExist` of the error of `os.Stat`.
pub record Disk (I : Type 0) (F : Type 0) : Type 0 where
  pub is_missing : String → F → Bool
  pub mkdir_all : String → F → Err × F
  pub create : String → F → Err × F
  pub encode : I → String → F → Err × F
  pub resize : ℕ → ℕ → I → I

-- net/url and `net.SplitHostPort`, whose error the code ignores.
pub record Urls (U : Type 0) : Type 0 where
  pub parse : String → Answer U
  pub host : U → String
  pub with_host : String → U → U
  pub print : U → String
  pub split_host_port : String → String × String

-- What a path of the router answers: a redirection, or the files of a directory with a prefix of the path
-- taken off.
pub data Served : Type 0 where
  redirect : String → Served
  files : (prefix : String) → (root : String) → Served

abbrev pub FileRoutes : Type 0
FileRoutes = List (String × Served)

-- strings.ContainsAny(path, "{}*")
abbrev pub has_pattern : List ℕ → Bool
has_pattern [] = false
has_pattern (c ∷ cs) = (c == 123) || (c == 125) || (c == 42) || has_pattern cs

-- path[len(path)-1] != '/', where the path is not empty.
abbrev pub lacks_slash : List ℕ → Option Bool
lacks_slash [] = none
lacks_slash (c ∷ []) = some (not (c == 47))
lacks_slash (c ∷ d ∷ cs) = lacks_slash (d ∷ cs)

abbrev pub add_file_routes : FileRoutes → String → String → Option Bool → Option FileRoutes
add_file_routes r path root none = none
add_file_routes r path root (some true) = some (
    r
    ++ ((path, redirect (concat (path ∷ "/" ∷ [])))
        ∷ (concat (path ∷ "/" ∷ "*" ∷ []), files path root)
        ∷ []))
add_file_routes r path root (some false) =
    some (r ++ ((concat (path ∷ "*" ∷ []), files path root) ∷ []))

-- None is a panic.
unfoldable pub file_server : FileRoutes → String → String → Option FileRoutes
file_server r path root =
    if has_pattern (codes path)
    then none
    else add_file_routes r path root
        (if str_eq path "/" then some false else lacks_slash (codes path))

-- `Init` changes the storer, the disk and the routes.
pub record LocalState (F : Type 0) : Type 0 where
  pub storer : LocalImageStorer
  pub disk : F
  pub routes : FileRoutes

module _ {U : Type 0} (urls : Urls U) where
  abbrev pub without_port : U → String × String → U
  without_port u (h, p) = if str_eq p "" then u else urls.with_host h u

  unfoldable pub ensure_domain_has_no_port : String → Answer String
  ensure_domain_has_no_port domain =
      let parsed = urls.parse domain in
      if is_err parsed.err then record { value = ""; err = parsed.err } else record {
        value =
            urls.print (without_port parsed.value (urls.split_host_port (urls.host parsed.value)));
        err = nil;
      }

module _ {I F : Type 0} (d : Disk I F) where
  abbrev pub encode_created : I → String → Err × F → Err × F
  encode_created img path (e, f) =
      if is_err e
      then (failed (concat ("error creating local file: " ∷ text e ∷ [])), f)
      else d.encode img path f

  unfoldable pub save_image : I → String → F → Err × F
  save_image img path f = encode_created img path (d.create path f)

  unfoldable pub create_thumbnails : I → ProductImageSet I
  create_thumbnails img = record {
    thumbnail = d.resize 100 100 img;
    main = d.resize 500 500 img;
    original = img;
  }

abbrev pub photo_dir : LocalImageStorer → String → ℕ → String
photo_dir s sku id = concat (s.storage_dir ∷ "/" ∷ sku ∷ "/" ∷ format_uint id ∷ [])

abbrev pub thumbnail_path : String → String
thumbnail_path dir = concat (dir ∷ "/thumbnail.png" ∷ [])

abbrev pub main_path : String → String
main_path dir = concat (dir ∷ "/main.png" ∷ [])

abbrev pub original_path : String → String
original_path dir = concat (dir ∷ "/original.png" ∷ [])

-- fmt.Sprintf("%s/%s", l.BaseURL, path)
abbrev pub location : LocalImageStorer → String → String
location s path = concat (s.base_url ∷ "/" ∷ path ∷ [])

abbrev pub Locations : Type 0 → Type 0
Locations F = Answer (Option ProductImageLocations) × F

module _ {I F : Type 0} (d : Disk I F) (s : LocalImageStorer) where
  abbrev pub keep_original : String → ProductImageLocations → Err × F → Locations F
  keep_original dir out (e, f) = (
    record {
      value =
          some (if is_err e then out else record out { original = location s (original_path dir) });
      err = e;
    },
    f,
  )

  abbrev pub keep_main : String → ProductImageSet I → ProductImageLocations → Err × F → Locations F
  keep_main dir set out (e, f) =
      if is_err e
      then (record { value = some out; err = e }, f)
      else keep_original dir (record out { main = location s (main_path dir) })
          (save_image d set.original (original_path dir) f)

  abbrev pub keep_thumbnail : String → ProductImageSet I → Err × F → Locations F
  keep_thumbnail dir set (e, f) =
      if is_err e
      then (record { value = none; err = e }, f)
      else keep_main dir set
          (record { thumbnail = location s (thumbnail_path dir); main = ""; original = "" })
          (save_image d set.main (main_path dir) f)

  abbrev pub in_photo_dir : String → ProductImageSet I → Err × F → Locations F
  in_photo_dir dir set (e, f) =
      if is_err e
      then (
        record {
          value = none;
          err = failed (concat ("error creating necessary folders: " ∷ text e ∷ []));
        },
        f,
      )
      else keep_thumbnail dir set (save_image d set.thumbnail (thumbnail_path dir) f)

  unfoldable pub store_images : ProductImageSet I → String → ℕ → F → Locations F
  unfolding save_image
  store_images set sku id f =
      let dir = photo_dir s sku id in
      in_photo_dir dir set (if d.is_missing dir f then d.mkdir_all dir f else (nil, f))

module _ {V U I F : Type 0} (viper : Viper V) (urls : Urls U) (d : Disk I F) where
  abbrev pub with_routes : LocalImageStorer → F → Option FileRoutes → Option (Err × LocalState F)
  with_routes s f none = none
  with_routes s f (some r) = some (nil, record { storer = s; disk = f; routes = r })

  abbrev pub made_directory : LocalImageStorer → FileRoutes → Err × F → Option (Err × LocalState F)
  made_directory s r (e, f) = some (e, record { storer = s; disk = f; routes = r })

  -- From the test of the directory on.
  unfoldable pub serve : V → LocalImageStorer → F → FileRoutes → Option (Err × LocalState F)
  unfolding file_server
  serve cfg s f r =
      if d.is_missing s.storage_dir f
      then made_directory s r (d.mkdir_all s.storage_dir f)
      else with_routes
          (record s {
            route_prefix =
                if str_eq (viper.get_string cfg "image_storage.route_prefix") ""
                then s.storage_dir
                else s.route_prefix;
          })
          f (file_server r "/" s.storage_dir)

  abbrev pub configured : V → String → LocalImageStorer → LocalImageStorer
  configured cfg domain s =
      let port = viper.get_int cfg "port" in
      let dir = viper.get_string cfg "image_storage.storage_dir" in
      record s {
        base_url = if is_zero port then domain else concat (domain ∷ ":" ∷ format_int port ∷ []);
        storage_dir = if str_eq dir "" then s.storage_dir else dir;
      }

  -- None is a panic: a method of a nil configuration dereferences it.
  unfoldable pub init : Option V → LocalState F → Option (Err × LocalState F)
  unfolding ensure_domain_has_no_port serve
  init none st = none
  init (some cfg) st =
      let domain = ensure_domain_has_no_port urls (viper.get_string cfg "image_storage.base_url") in
      if is_err domain.err
      then some (
        failed (concat ("error parsing provided image storage url: " ∷ text domain.err ∷ [])),
        st,
      )
      else serve cfg (configured cfg domain.value st.storer) st.disk st.routes
