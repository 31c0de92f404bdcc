-- ===== src/Storage/Db.antt =====
-- The database of internal/storage/bbolt.go: its eleven buckets, its transactions, and what the
-- storage layer takes from outside (`Env`): the buckets and codecs, the texts of the months that
-- Time.Format writes, strings.ToLower and strings.TrimSpace.
pub mod Laws
use photo_core.Base.{
  ℕ, String, Bool, ◌&&◌, not, List, Option, some, none, ◌≡◌, ◌==◌, eqb, ltb, if◌then◌else◌, Result,
  ok, err, json_error,
}
use photo_core.Disk.{Disk, Json}
use photo_core.Disk.Table.{find}
use photo_core.Storage.Models.{Media, User, Session, ApiToken, Album, Tag, Time}

pub record Env : Type 1 where
  pub disk : Disk
  pub names_json : Json disk.Bytes (List String)
  pub media_json : Json disk.Bytes Media
  pub users_json : Json disk.Bytes User
  pub sessions_json : Json disk.Bytes Session
  pub albums_json : Json disk.Bytes Album
  pub tags_json : Json disk.Bytes Tag
  pub tokens_json : Json disk.Bytes ApiToken
  -- A list of texts, and a text with an integer, always have a JSON.
  pub names_total : (ids : List String) → (d : disk.Bytes) × (names_json.marshal ids ≡ some d)
  pub tags_total : (tag : Tag) → (d : disk.Bytes) × (tags_json.marshal tag ≡ some d)
  -- Time.Year and Time.Format("2006-01") of a time in UTC, which TakenAt is: time.Parse of an EXIF
  -- date, which has no zone, gives UTC. The format of a time in the zone of the server, which
  -- ModifiedAt is: ModTime gives it.
  pub year : Time → ℕ
  pub month_key : Time → String
  pub local_month_key : Time → String
  pub to_lower : String → String
  pub trim_space : String → String

-- The buckets that NewStore creates.
pub record Db (Bucket : Type 0) : Type 0 where
  pub media : Bucket
  pub users : Bucket
  pub sessions : Bucket
  pub albums : Bucket
  pub tags : Bucket
  pub idx_dir : Bucket
  pub idx_date : Bucket
  pub idx_tag : Bucket
  pub favorites : Bucket
  pub userfav : Bucket
  pub api_tokens : Bucket

-- A database over the buckets of the environment.
abbrev pub Store : Env → Type 0
Store E = Db E.disk.Bucket

-- db.Update: a transaction whose function fails leaves the database as it was.
unfoldable pub update {ℓ} : {S : Type ℓ} → (S → Result S) → S → Result (Unit {0}) × S
update body s = elim (body s) [ ok s' ↦ (ok tt, s') | err e ↦ (err e, s) ]

-- A method that stops at the error of a step, and keeps what the steps before it committed.
unfoldable pub and_then {ℓ} :
    {S A B : Type ℓ} → Result A × S → (A → S → Result B × S) → Result B × S
and_then (ok a, s) k = k a s
and_then (err e, s) k = (err e, s)

module _ (D : Disk) {A : Type 0} (J : Json D.Bytes A) where
  -- The shape of GetMedia, GetUser, GetSession, GetAlbum and GetAPIToken: a missing key, or a
  -- value whose identifying field is empty, is nil without an error.
  unfoldable pub load : (A → String) → D.Bucket → String → Result (Option A)
  load name_of b k = elim (find D J b k) [
    | none ↦ ok none
    | some (a, valid) ↦
        if valid then (if name_of a == "" then ok none else ok (some a)) else err json_error
  ]

-- `!m.TakenAt.IsZero() && m.TakenAt.Year() > 1900`
unfoldable pub has_taken_at : Env → Media → Bool
has_taken_at E m = not (eqb m.taken_at 0) && ltb 1900 (E.year m.taken_at)
