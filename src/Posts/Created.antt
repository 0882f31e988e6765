-- ===== src/Posts/Created.antt =====
-- The post that was created is the one that is read.
use watchpost.Base.{
  String, ◌≡◌, ◌≢◌, true, false, none, some, ◌∷◌, find, ok, arith, eq_iff, eq_refl,
}
use watchpost.Store.Tables.{Db}
use watchpost.Store.Audit.{Entry, knows_actor}
use watchpost.Replicated.Apply.{has_post, insert_post}
use watchpost.Posts.{Post, Json, is_valid, are_labels, get, scan, of_row}
use watchpost.Posts.Local.{create, create_local, or_failed, audited, new_row, then_get, route}

valid_labels : (p : Post) → is_valid p ≡ true → are_labels p.labels ≡ true
unfolding is_valid
valid_labels p h = ground arith

module _ (json : Json) (p : Post) (now : String) (entry : Entry) (db : Db) where
  get-added :
      json.unmarshal (json.marshal p.labels) ≡ some p.labels
      → get json p.id (audited entry p.id (record db { posts = new_row json p now ∷ db.posts }))
        ≡ ok (record p { archived = false; version = 1 })
  unfolding get find scan of_row new_row audited
  get-added back = ground (arith, eq_refl p.id)

  get-other :
      (other : String)
      → other ≢ p.id
      → get json other (audited entry p.id (record db { posts = new_row json p now ∷ db.posts }))
        ≡ get json other db
  unfolding get find scan new_row audited
  get-other other differs = ground (arith, eq_iff p.id other)

  -- A valid post with a new id is created without an authority: the call answers with the post that
  -- was asked for, unarchived and at version 1, and every other post reads as before. Labels that
  -- were written are read back, and the actor is nobody or a user.
  pub created_read :
      (other : String)
      → json.unmarshal (json.marshal p.labels) ≡ some p.labels
      → is_valid p ≡ true
      → has_post db.posts p.id ≡ false
      → other ≢ p.id
      → knows_actor entry db ≡ true
      → ((create none json p now entry db).answer ≡ ok (record p { archived = false; version = 1 }))
        × (get json other (create none json p now entry db).db ≡ get json other db)
  unfolding create create_local then_get route or_failed insert_post
  created_read other back valid fresh differs allowed =
      ground (arith, allowed, valid_labels p valid, get-added back, get-other other differs)
