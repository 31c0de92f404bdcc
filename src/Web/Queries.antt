-- ===== src/Web/Queries.antt =====
-- Search of internal/web/handlers/handlers.go: the query that it reads from the parameters of the
-- request, where an absent parameter is the empty text, and its answer.
pub mod Answers
use photo_core.Base.{ℤ, pos, String, Bool, true, List, [], Option, none, some, ◌==◌, if◌then◌else◌}
use photo_core.Storage.Models.{SearchQuery, SearchResult, Time}
use photo_core.Storage.Db.{Env, Store}
use photo_core.Storage.Search.{search_media}

pub record SearchForm : Type 0 where
  pub q : String
  pub camera : String
  pub type : String
  pub from : String
  pub to : String
  pub tags : String
  pub favorite : String
  pub gps : String
  pub limit : String
  pub offset : String
  -- Whether the header HX-Request is "true"
  pub is_htmx : Bool

-- time.Parse of a date, strings.Split at commas, strconv.Atoi and strings.Contains.
pub record Readers : Type 0 where
  pub parse_date : String → Option Time
  pub split : String → List String
  pub atoi : String → Option ℤ
  pub has_text : String → String → Bool

-- The result, as JSON or as a part of a page with the text that was searched; a panic is answered
-- with 500.
pub data Found : Type 0 where
  json : SearchResult → Found
  partial : SearchResult → String → Found
  panic : Found

-- `if fav == "true" { t := true; query.IsFavorite = &t }`
unfoldable pub flag_of : String → Option Bool
flag_of text = if text == "true" then some true else none

unfoldable pub found_page : SearchForm → Option SearchResult → Found
found_page f none = panic
found_page f (some result) = if f.is_htmx then partial result f.q else json result

module _ (R : Readers) where
  unfoldable pub date_of : String → Option Time
  date_of text = if text == "" then none else R.parse_date text

  -- A number that cannot be read leaves the zero.
  unfoldable pub int_of : String → ℤ
  int_of text = if text == "" then pos 0 else elim (R.atoi text) [ none ↦ pos 0 | some n ↦ n ]

  unfoldable pub search_query : SearchForm → SearchQuery
  unfolding date_of int_of flag_of
  search_query f = record {
    text = f.q;
    type = f.type;
    date_from = date_of f.from;
    date_to = date_of f.to;
    tags = if f.tags == "" then [] else R.split f.tags;
    camera = f.camera;
    is_favorite = flag_of f.favorite;
    has_gps = flag_of f.gps;
    album_id = "";
    limit = int_of f.limit;
    offset = int_of f.offset;
  }

  -- Search
  unfoldable pub handle_search : (E : Env) → SearchForm → Store E → Found
  unfolding search_query found_page search_media
  handle_search E f s = found_page f (search_media R.has_text E (search_query f) s)
