-- ===== src/Metadata/Rows.antt =====
-- What the updates of src/dalmatian/metadata.py leave in the tables.
use dalmatian.Prelude.{
  String, ◌≡◌, refl, true, false, none, some, List, [], ◌∷◌, ◌==◌, if◌then◌else◌, is_some, eq_iff,
  sym, ◌&&◌, arith,
}
use mathlib.Core.Option
use dalmatian.Metadata.{
  Location, Invocation, storage_location, put_storage_location, delete_storage_location, set_uri,
  find_row, update_where, has_row,
}

same_test : (a b c : String) → (a == b) ≡ true → (a == c) ≡ (b == c)
same_test a b c h = rw ((eq_iff a b).0 h) refl

other_test : (a b c : String) → (a == b) ≡ false → (b == c) ≡ true → (a == c) ≡ false
other_test a b c h h' = rw (sym ((eq_iff b c).0 h')) h

module _ {T : Type 0} where
  delete-storage_location :
      (name asked : String) (ls : List (Location T))
      → storage_location asked (delete_storage_location name ls)
        ≡ (if name == asked then none else storage_location asked ls)
  unfolding storage_location delete_storage_location
  delete-storage_location name asked [] = ground arith
  delete-storage_location name asked (l ∷ ls) = ground (
    arith,
    delete-storage_location name asked ls,
    same_test l.name name asked,
    other_test l.name name asked,
  )

  set-storage_location :
      (name uri asked : String) (now : T) (ls : List (Location T))
      → storage_location asked (set_uri name uri now ls) ≡ (
          if (name == asked) && is_some (storage_location name ls)
          then some uri
          else storage_location asked ls)
  unfolding storage_location set_uri
  set-storage_location name uri asked now [] = ground arith
  set-storage_location name uri asked now (l ∷ ls) = ground (
    arith,
    set-storage_location name uri asked now ls,
    same_test l.name name asked,
    other_test l.name name asked,
  )

  pub put-storage_location :
      (name uri asked : String) (now : T) (ls : List (Location T))
      → storage_location asked (put_storage_location name uri now ls)
        ≡ (if name == asked then some uri else storage_location asked ls)
  unfolding put_storage_location storage_location
  put-storage_location name uri asked now ls =
      ground (arith, set-storage_location name uri asked now ls)

  -- After a location is put it is found at its new address, after it is deleted it is not found, and
  -- every other location is found where it was.
  pub put_storage_location-delete :
      (name uri asked : String) (now : T) (ls : List (Location T))
      → (storage_location asked (put_storage_location name uri now ls)
          ≡ (if name == asked then some uri else storage_location asked ls))
        × (storage_location asked (delete_storage_location name ls)
            ≡ (if name == asked then none else storage_location asked ls))
  put_storage_location-delete name uri asked now ls =
      (put-storage_location name uri asked now ls, delete-storage_location name asked ls)

  has_row-find_row :
      (id : String) (rs : List (Invocation T)) → is_some (find_row id rs) ≡ has_row id rs
  unfolding has_row find_row
  has_row-find_row id [] = refl
  has_row-find_row id (r ∷ rs) = ground (arith, has_row-find_row id rs)

  -- An update that keeps the key of a row changes the first row of that key, if there is one.
  pub find_row-update :
      (id asked : String) (f : Invocation T → Invocation T) (rs : List (Invocation T))
      → ((r : Invocation T) → (f r).id ≡ r.id)
      → find_row asked (update_where id f rs)
        ≡ (if id == asked then Option.map f (find_row asked rs) else find_row asked rs)
  unfolding find_row update_where
  find_row-update id asked f [] key = ground arith
  find_row-update id asked f (r ∷ rs) key = ground (
    arith,
    find_row-update id asked f rs key,
    key r,
    same_test r.id id asked,
    other_test r.id id asked,
  )
