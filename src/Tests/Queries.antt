-- ===== src/Tests/Queries.antt =====
-- Searches with numbers that can be read and a negative offset.
use photo_core.Base.{
  ℤ, pos, negsuc, true, false, [], ◌∷◌, none, ◌≡◌, ◌↔◌, refl, arith, starts_with, lookup, String,
  List,
}
use photo_core.Storage.Db.{Store}
use photo_core.Storage.Library.{save_media}
use photo_core.Storage.Search.{limit_of}
use photo_core.Web.Queries.{SearchForm, Readers, panic, search_query, int_of, handle_search}
use photo_core.Web.Queries.Answers.{
  matching, Shows, is_negative, magnitude, handle_search-Shows, handle_search-panic,
}
use photo_core.Tests.Disk.{env, empty_db}
use photo_core.Tests.Storage.{cat}

abbrev pub numbers : List (String × ℤ)
numbers = ("1", pos 1) ∷ ("-1", negsuc 0) ∷ []

abbrev pub readers : Readers
readers = record {
  parse_date = λ text. none;
  split = λ text. text ∷ [];
  atoi = λ text. lookup text numbers;
  has_text = starts_with;
}

abbrev second : SearchForm
second = record {
  q = "";
  camera = "";
  type = "";
  from = "";
  to = "";
  tags = "";
  favorite = "";
  gps = "";
  limit = "1";
  offset = "1";
  is_htmx = false;
}

abbrev library : Store env
library = (save_media env cat empty_db).1

handle_search-Shows_example :
    Shows
      (matching readers env second library)
      (limit_of (search_query readers second).limit)
      1
      (handle_search readers env second library)
unfolding int_of limit_of search_query
handle_search-Shows_example = handle_search-Shows readers env second library 1 refl (omega arith)

abbrev before : SearchForm
before = record second { offset = "-1" }

handle_search-panic_example :
    (handle_search readers env before library ≡ panic)
    ↔ (is_negative (search_query readers before).offset ≡ true)
unfolding int_of limit_of magnitude search_query
handle_search-panic_example = handle_search-panic readers env before library (omega arith)
