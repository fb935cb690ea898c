-- ===== src/Watchlist.antt =====
-- app/services/user_product_service.py over app/db/repositories/user_product_repo.py, and
-- `ProductRepo.exists`. A row that is added stands in the table at once: the session writes it at
-- the latest when the transaction commits, before anything else can read it.
pub mod Laws
use price_monitoring_service.Prelude.{
  ℕ, zero, suc, Bool, true, false, not, ◌&&◌, List, [], ◌∷◌, ◌++◌, ◌==◌, if◌then◌else◌, any, filter,
  length, map,
}
use price_monitoring_service.Exec.{
  Exec, Result, ok, err, not_found, conflict, pure, raise, gets, modify, ◌>>=◌, ◌>>◌,
}
use price_monitoring_service.Models.{Product, UserProduct, Database, World}

-- the foreign key of a row to its user
abbrev pub user_exists : ℕ → World → Bool
user_exists user_id w = any (λ u. u.id == user_id) w.db.users

-- `ProductRepo.exists`
unfoldable pub product_exists : ℕ → World → Bool
product_exists product_id w = any (λ p. p.id == product_id) w.db.products

abbrev pub is_row : ℕ → ℕ → UserProduct → Bool
is_row user_id product_id row = row.user_id == user_id && row.product_id == product_id

-- `UserProductRepo.list_product_ids`
unfoldable pub list_product_ids : ℕ → World → List ℕ
list_product_ids user_id w =
    map (λ row. row.product_id) (filter (λ row. row.user_id == user_id) w.db.user_products)

-- `UserProductRepo.exists`
unfoldable pub tracks : ℕ → ℕ → World → Bool
tracks user_id product_id w = any (is_row user_id product_id) w.db.user_products

abbrev pub set_user_products : List UserProduct → World → World
set_user_products rows w = record w { db = record w.db { user_products = rows } }

-- `UserProductRepo.add`
abbrev pub add_row : ℕ → ℕ → World → World
add_row user_id product_id w =
    set_user_products
      (w.db.user_products ++ record { user_id = user_id; product_id = product_id } ∷ []) w

-- `UserProductRepo.delete`, with the number of deleted rows
unfoldable pub delete_rows : ℕ → ℕ → Exec World ℕ
delete_rows user_id product_id w = (
  ok (length (filter (is_row user_id product_id) w.db.user_products)),
  set_user_products (filter (λ row. not (is_row user_id product_id row)) w.db.user_products) w,
)

-- `UserProductService.add`
unfoldable pub add : ℕ → ℕ → Exec World (Unit {0})
add user_id product_id w =
    if not (product_exists product_id w)
    then (err (not_found "Product not found"), w)
    else if tracks user_id product_id w
    then (err (conflict "Product already in watchlist"), w)
    else (ok tt, add_row user_id product_id w)

abbrev pub found_some : ℕ → Exec World (Unit {0})
found_some deleted = if deleted == 0 then raise (not_found "Product not in watchlist") else pure tt

-- `UserProductService.remove`
unfoldable pub remove : ℕ → ℕ → Exec World (Unit {0})
unfolding delete_rows
remove user_id product_id = do deleted ← delete_rows user_id product_id; found_some deleted
