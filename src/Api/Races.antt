-- ===== src/Api/Races.antt =====
-- Requests that add products at the same time. A request checks on the committed tables and is
-- answered; its row is written when its session commits, which is when the answer is out, and other
-- requests may come and end in between.
pub mod Once
use price_monitoring_service.Prelude.{
  ℕ, Bool, true, false, not, ◌&&◌, ◌≡◌, List, [], ◌∷◌, ◌++◌, ◌==◌, any, if◌then◌else◌,
}
use price_monitoring_service.Exec.{Result, ok, err}
use price_monitoring_service.Models.{Database, World}
use price_monitoring_service.Watchlist.{user_exists, product_exists, tracks, add_row, add}

-- The committed world, the rows of the sessions that are open behind their answer, and the pairs of
-- a user and a product that were answered with success. `lost` is a ghost: the pairs whose row the
-- keys took and whose commit the database refused all the same.
pub record Sessions : Type 0 where
  pub world : World
  pub pending : List (ℕ × ℕ)
  pub granted : List (ℕ × ℕ)
  pub lost : List (ℕ × ℕ)

-- what the table takes: its foreign keys and its primary key
unfoldable pub takes_row : ℕ → ℕ → World → Bool
takes_row user_id product_id w =
    user_exists user_id w && product_exists product_id w && not (tracks user_id product_id w)

-- the outcome of `UserProductService.add`, with its row still in the session
unfoldable pub asked_with : ℕ → ℕ → Sessions → Result (Unit {0}) × World → Sessions
asked_with user_id product_id s (ok u, w) = record s {
  pending = s.pending ++ (user_id, product_id) ∷ [];
  granted = (user_id, product_id) ∷ s.granted;
}
asked_with user_id product_id s (err e, w) = s

unfoldable pub asked : ℕ → ℕ → Sessions → Sessions
unfolding asked_with
asked user_id product_id s = asked_with user_id product_id s (add user_id product_id s.world)

module _ (commits : Database → Bool) where
  -- the commit of a session, or its rollback, with the sessions that stay open
  unfoldable pub ended : ℕ → ℕ → List (ℕ × ℕ) → Sessions → Sessions
  unfolding takes_row
  ended user_id product_id pending s =
      if takes_row user_id product_id s.world
      then (if commits (add_row user_id product_id s.world).db
          then record s { world = add_row user_id product_id s.world; pending = pending }
          else record s { pending = pending; lost = (user_id, product_id) ∷ s.lost })
      else record s { pending = pending }

  -- a request comes and is answered, or any of the open sessions ends
  pub data Step (s : Sessions) : Sessions → Type 0 where
    asks : (user_id product_id : ℕ) → Step s (asked user_id product_id s)
    ends :
        (before after : List (ℕ × ℕ)) (user_id product_id : ℕ)
        → s.pending ≡ before ++ (user_id, product_id) ∷ after
        → Step s (ended user_id product_id (before ++ after) s)

  pub data Reach (w : World) : Sessions → Type 0 where
    start : Reach w (record { world = w; pending = []; granted = []; lost = [] })
    later : {s t : Sessions} → Reach w s → Step s t → Reach w t
