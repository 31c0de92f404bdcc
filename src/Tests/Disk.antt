-- ===== src/Tests/Disk.antt =====
-- An environment in memory: a bucket is an association list, and the JSON of a value is the value
-- itself under a constructor for its type.
use photo_core.Base.{
  ℕ, ◌+◌, ◌/◌, ◌*◌, String, Bool, true, false, List, [], Option, some, none, ◌≡◌, refl, ◌==◌,
  if◌then◌else◌, lookup, insert, remove, HasKeysOnce, insert-HasKeysOnce, remove-HasKeysOnce,
  lookup-insert, lookup-remove, arith, ap, sym, ◌∙◌, eqb, Bool-cases, inl, inr,
}
use mathlib.Core.Path.{subst}
use photo_core.Disk.{Disk, Json}
use photo_core.Storage.Models.{Media, Metadata, User, Session, ApiToken, Album, Tag}
use photo_core.Storage.Db.{Env, Db}

pub data Bytes : Type 0 where
  names : List String → Bytes
  media : Media → Bytes
  user : User → Bytes
  session : Session → Bytes
  album : Album → Bytes
  tag : Tag → Bytes
  token : ApiToken → Bytes
  broken : Bytes

abbrev pub Bucket : Type 0
Bucket = (m : List (String × Bytes)) × HasKeysOnce m

abbrev pub bucket_put : Bucket → String → Bytes → Option Bucket
bucket_put b k d = if k == "" then none else some (insert k d b.0, insert-HasKeysOnce k d b.0 b.1)

entries_of : Option Bucket → List (String × Bytes)
entries_of none = []
entries_of (some b) = b.0

entries_of-put :
    (b : Bucket) (k : String) (d : Bytes)
    → (k == "") ≡ false
    → entries_of (bucket_put b k d) ≡ insert k d b.0
unfolding entries_of
entries_of-put b k d e = rw e

pub get-put :
    (b b' : Bucket) (k j : String) (d : Bytes)
    → bucket_put b k d ≡ some b'
    → lookup j b'.0 ≡ (if k == j then some d else lookup j b.0)
unfolding entries_of
get-put b b' k j d h = elim (Bool-cases (k == "")) [
  | inl e ↦ ground arith
  | inr e ↦
      let same : insert k d b.0 ≡ b'.0 = sym (entries_of-put b k d e) ∙ ap entries_of h in
      rw (← same) (lookup-insert k j d b.0)
]

pub put_empty_key : (b : Bucket) (d : Bytes) → bucket_put b "" d ≡ none
put_empty_key b d = refl

pub get-delete :
    (b : Bucket) (k j : String) → lookup j (remove k b.0) ≡ (if k == j then none else lookup j b.0)
get-delete b k j = lookup-remove k j b.0

pub lookup-entries : (b : Bucket) (k : String) → lookup k b.0 ≡ lookup k b.0
lookup-entries b k = refl

pub entries-HasKeysOnce : (b : Bucket) → HasKeysOnce b.0
entries-HasKeysOnce b = b.1

abbrev pub memory : Disk
memory = record {
  Bytes = Bytes;
  Bucket = Bucket;
  nil = broken;
  get = λ b k. lookup k b.0;
  put = bucket_put;
  delete = λ b k. (remove k b.0, remove-HasKeysOnce k b.0 b.1);
  entries = λ b. b.0;
  get-put = get-put;
  put_empty_key = put_empty_key;
  get-delete = get-delete;
  lookup-entries = lookup-entries;
  entries-HasKeysOnce = entries-HasKeysOnce;
}

abbrev pub no_metadata : Metadata
no_metadata = record {
  camera = "";
  lens = "";
  focal_length = "";
  aperture = "";
  shutter_speed = "";
  iso = 0;
  gps_lat = 0;
  gps_lon = 0;
  orientation = 0;
}

abbrev pub no_media : Media
no_media = record {
  id = "";
  path = "";
  rel_path = "";
  dir = "";
  filename = "";
  ext = "";
  type = "";
  mime_type = "";
  size = 0;
  width = 0;
  height = 0;
  duration = 0;
  taken_at = 0;
  created_at = 0;
  modified_at = 0;
  deleted_at = none;
  checksum = "";
  image_hash = 0;
  duplicate_of = "";
  thumb_small = "";
  thumb_large = "";
  metadata = no_metadata;
  is_favorite = false;
  tags = [];
}

abbrev read_names : Bytes → (List String) × Bool
read_names (names a) = (a, true)
read_names _ = ([], false)

pub names_round : (a : List String) (d : Bytes) → some (names a) ≡ some d → read_names d ≡ (a, true)
names_round a d h =
    let e : names a ≡ d = cc in subst (λ (d : Bytes). read_names d ≡ (a, true)) e refl

abbrev pub names_json : Json Bytes (List String)
names_json = record {
  marshal = λ a. some (names a);
  unmarshal = read_names;
  unmarshal-marshal = names_round;
}

abbrev read_media : Bytes → Media × Bool
read_media (media a) = (a, true)
read_media _ = (no_media, false)

pub media_round : (a : Media) (d : Bytes) → some (media a) ≡ some d → read_media d ≡ (a, true)
media_round a d h =
    let e : media a ≡ d = cc in subst (λ (d : Bytes). read_media d ≡ (a, true)) e refl

abbrev pub media_json : Json Bytes (Media)
media_json = record {
  marshal = λ a. some (media a);
  unmarshal = read_media;
  unmarshal-marshal = media_round;
}

abbrev read_user : Bytes → User × Bool
read_user (user a) = (a, true)
read_user _ = (
  record {
    id = "";
    username = "";
    display_name = "";
    password_hash = "";
    role = "";
    created_at = 0;
    last_login = 0;
  },
  false,
)

pub user_round : (a : User) (d : Bytes) → some (user a) ≡ some d → read_user d ≡ (a, true)
user_round a d h = let e : user a ≡ d = cc in subst (λ (d : Bytes). read_user d ≡ (a, true)) e refl

abbrev pub user_json : Json Bytes (User)
user_json = record {
  marshal = λ a. some (user a);
  unmarshal = read_user;
  unmarshal-marshal = user_round;
}

abbrev read_session : Bytes → Session × Bool
read_session (session a) = (a, true)
read_session _ = (
  record { id = ""; user_id = ""; username = ""; role = ""; created_at = 0; expires_at = 0 },
  false,
)

pub session_round :
    (a : Session) (d : Bytes) → some (session a) ≡ some d → read_session d ≡ (a, true)
session_round a d h =
    let e : session a ≡ d = cc in subst (λ (d : Bytes). read_session d ≡ (a, true)) e refl

abbrev pub session_json : Json Bytes (Session)
session_json = record {
  marshal = λ a. some (session a);
  unmarshal = read_session;
  unmarshal-marshal = session_round;
}

abbrev read_album : Bytes → Album × Bool
read_album (album a) = (a, true)
read_album _ = (
  record {
    id = "";
    name = "";
    description = "";
    cover_id = "";
    media_ids = [];
    created_at = 0;
    updated_at = 0;
    media_count = 0;
  },
  false,
)

pub album_round : (a : Album) (d : Bytes) → some (album a) ≡ some d → read_album d ≡ (a, true)
album_round a d h =
    let e : album a ≡ d = cc in subst (λ (d : Bytes). read_album d ≡ (a, true)) e refl

abbrev pub album_json : Json Bytes (Album)
album_json = record {
  marshal = λ a. some (album a);
  unmarshal = read_album;
  unmarshal-marshal = album_round;
}

abbrev read_tag : Bytes → Tag × Bool
read_tag (tag a) = (a, true)
read_tag _ = (record { name = ""; media_count = 0 }, false)

pub tag_round : (a : Tag) (d : Bytes) → some (tag a) ≡ some d → read_tag d ≡ (a, true)
tag_round a d h = let e : tag a ≡ d = cc in subst (λ (d : Bytes). read_tag d ≡ (a, true)) e refl

abbrev pub tag_json : Json Bytes (Tag)
tag_json = record {
  marshal = λ a. some (tag a);
  unmarshal = read_tag;
  unmarshal-marshal = tag_round;
}

abbrev read_token : Bytes → ApiToken × Bool
read_token (token a) = (a, true)
read_token _ = (
  record {
    token = "";
    user_id = "";
    username = "";
    role = "";
    created_at = 0;
    expires_at = 0;
    device_name = "";
  },
  false,
)

pub token_round : (a : ApiToken) (d : Bytes) → some (token a) ≡ some d → read_token d ≡ (a, true)
token_round a d h =
    let e : token a ≡ d = cc in subst (λ (d : Bytes). read_token d ≡ (a, true)) e refl

abbrev pub token_json : Json Bytes (ApiToken)
token_json = record {
  marshal = λ a. some (token a);
  unmarshal = read_token;
  unmarshal-marshal = token_round;
}

abbrev nanoseconds : ℕ
nanoseconds = 31_557_600 * 1_000_000_000

pub names_total : (ids : List String) → (d : Bytes) × (some (names ids) ≡ some d)
names_total ids = (names ids, refl)

pub tags_total : (t : Tag) → (d : Bytes) × (some (tag t) ≡ some d)
tags_total t = (tag t, refl)

-- Years of 365.25 days, and a month key that tells only two halves of time apart.
abbrev pub env : Env
env = record {
  disk = memory;
  names_json = names_json;
  media_json = media_json;
  users_json = user_json;
  sessions_json = session_json;
  albums_json = album_json;
  tags_json = tag_json;
  tokens_json = token_json;
  names_total = names_total;
  tags_total = tags_total;
  year = λ t. 1 + t / nanoseconds;
  month_key = λ t. if eqb t 0 then "0001-01" else "2024-05";
  local_month_key = λ t. if eqb t 0 then "0001-01" else "2024-05";
  to_lower = λ s. s;
  trim_space = λ s. s;
}

abbrev pub empty : Bucket
empty = ([], tt)

abbrev pub empty_db : Db Bucket
empty_db = record {
  media = empty;
  users = empty;
  sessions = empty;
  albums = empty;
  tags = empty;
  idx_dir = empty;
  idx_date = empty;
  idx_tag = empty;
  favorites = empty;
  userfav = empty;
  api_tokens = empty;
}
