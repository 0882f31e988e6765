-- ===== src/Posts.antt =====
-- internal/posts/posts.go: posts and their dependencies, written through the replicated mutation
-- authority or in a local transaction. encoding/json over the labels is the record `Json`.
pub mod Local
pub mod Refined
pub mod Agreement
pub mod Created
use Prim.Native.String
use Prim.Native.String.{len, ◌∷◌ as ◌∷ˢ◌}
use Prim.Native.Char.{Char, code}
use watchpost.Base.{
  ℕ, suc, zero, String, Bool, true, false, not, ◌&&◌, ◌||◌, Option, none, some, List, [], ◌∷◌, map,
  ◌==◌, eqb, ltb, leb, any, find, if◌then◌else◌, length, take, Result, ok, err, ◌>>=◌, ◌>>◌, guard,
  require,
}
use watchpost.Base.Assoc.{Assoc}
use watchpost.Base.Int.{ℤ, pos, negsuc}
use watchpost.Store.Rows
use watchpost.Store.Tables.{Db}
use watchpost.Replicated.Op.{PostPayload}
use watchpost.Replicated.Snapshot.{order_by, text_le}

pub record Post : Type 0 where
  pub id : String
  pub name : String
  pub kind : String
  pub address : String
  pub owner : String
  pub labels : Assoc String
  pub maintenance : Bool
  pub archived : Bool
  pub version : ℕ

pub data PostError : Type 0 where
  invalid_post invalid_labels storage_failed version_conflict no_rows bad_labels : PostError
  self_dependency dependency_cycle refused : PostError

-- `json.Marshal` and `json.Unmarshal` of labels
pub record Json : Type 0 where
  pub marshal : Assoc String → String
  pub unmarshal : String → Option (Assoc String)

unfoldable pub is_id_start : Char → Bool
is_id_start c = leb 97 (code c) && leb (code c) 122 || leb 48 (code c) && leb (code c) 57

unfoldable pub are_id_chars : String → Bool
unfolding is_id_start
are_id_chars String.[] = true
are_id_chars (c ∷ˢ s) = (is_id_start c || eqb (code c) 45) && are_id_chars s

-- `^[a-z0-9][a-z0-9-]{0,62}$`
unfoldable pub is_id : String → Bool
unfolding is_id_start are_id_chars
is_id String.[] = false
is_id (c ∷ˢ s) = is_id_start c && are_id_chars s && leb (String.count s) 62

unfoldable pub is_kind : String → Bool
is_kind k =
    k == "host"
    || k == "http_endpoint"
    || k == "tcp_service"
    || k == "tls_certificate"
    || k == "network_device"
    || k == "ups"
    || k == "environmental_sensor"
    || k == "storage_appliance"

unfoldable pub are_labels : Assoc String → Bool
are_labels [] = true
are_labels ((k, v) ∷ rest) = not (ltb 63 (len k) || ltb 255 (len v)) && are_labels rest

unfoldable pub is_valid : Post → Bool
unfolding is_id is_kind are_labels
is_valid p =
    not (
      not (is_id p.id)
      || ltb (len p.name) 1
      || ltb 120 (len p.name)
      || ltb 255 (len p.address)
      || not (is_kind p.kind)
      || ltb 32 (length p.labels))
    && are_labels p.labels

-- the payload of `CreatePost` and `UpdatePost`
unfoldable pub payload_of : Json → Post → String → String → PostPayload
payload_of json p created updated = record {
  name = p.name;
  kind = p.kind;
  address = p.address;
  owner = p.owner;
  labels_json = json.marshal p.labels;
  maintenance = p.maintenance;
  archived = p.archived;
  created_at = created;
  updated_at = updated;
}

unfoldable pub of_row : Rows.Post → Assoc String → Post
of_row row labels = record {
  id = row.id;
  name = row.name;
  kind = row.kind;
  address = row.address;
  owner = row.owner;
  labels = labels;
  maintenance = row.maintenance;
  archived = row.archived;
  version = row.version;
}

-- the scan of a row
unfoldable pub scan : Json → Rows.Post → Result PostError Post
unfolding of_row
scan json row = do labels ← require (json.unmarshal row.labels) bad_labels; ok (of_row row labels)

-- `Get`
unfoldable pub get : Json → String → Db → Result PostError Post
unfolding find scan
get json id db = do
  row ← require (find (λ (p : Rows.Post). p.id == id) db.posts) no_rows
  scan json row

unfoldable pub scan_all : Json → List Rows.Post → Result PostError (List Post)
unfolding scan
scan_all json [] = ok []
scan_all json (row ∷ rows) = do p ← scan json row; ps ← scan_all json rows; ok (p ∷ ps)

unfoldable pub page_limit : ℤ → ℕ
page_limit (pos n) = if ltb n 1 || ltb 1000 n then 100 else n
page_limit (negsuc n) = 100

abbrev pub page_offset : ℤ → ℕ
page_offset (pos n) = n
page_offset (negsuc n) = 0

abbrev pub skip {ℓ} : {A : Type ℓ} → ℕ → List A → List A
skip zero xs = xs
skip (suc n) [] = []
skip (suc n) (x ∷ xs) = skip n xs

unfoldable pub row_le : Rows.Post → Rows.Post → Bool
row_le p q =
    (not (p.name == q.name) && text_le p.name q.name) || (p.name == q.name && text_le p.id q.id)

-- `List`
unfoldable pub list : Json → ℤ → ℤ → Db → Result PostError (List Post)
unfolding scan_all page_limit order_by row_le
list json limit offset db =
    scan_all json (take (page_limit limit) (skip (page_offset offset) (order_by row_le db.posts)))

-- `Count`
abbrev pub count_posts : Db → ℕ
count_posts db = length db.posts
