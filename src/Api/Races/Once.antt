-- ===== src/Api/Races/Once.antt =====
-- What the watchlist has when all sessions have ended.
use price_monitoring_service.Prelude.{
  ℕ, ◌+◌, ◌≤◌, ◌≡◌, refl, ap, ◌∙◌, subst, Bool, true, false, not, ◌||◌, List, [], ◌∷◌, ◌++◌, ◌==◌,
  any, any-append, filter, length, All, All-append, if◌then◌else◌, Bool-cases, inl, inr, arith,
}
use price_monitoring_service.Models.{UserProduct, Database, World}
use price_monitoring_service.Watchlist.{user_exists, product_exists, is_row, tracks, add_row, add}
use price_monitoring_service.Watchlist.Laws.{same_row, tracks-add_row, count-any}
use price_monitoring_service.Api.Races.{
  Sessions, takes_row, asked_with, asked, ended, asks, ends, Reach, start, later,
}

-- the rows of a pair
abbrev pub count : ℕ → ℕ → World → ℕ
count u p w = length (filter (is_row u p) w.db.user_products)

-- the primary key of the table
abbrev pub IsKeyed : World → Type 0
IsKeyed w = (u p : ℕ) → count u p w ≤ 1

count-snoc :
    (u p v q : ℕ) (rows : List UserProduct) (row : UserProduct)
    → row.user_id ≡ u
    → row.product_id ≡ p
    → length (filter (is_row v q) (rows ++ row ∷ []))
      ≡ length (filter (is_row v q) rows) + (if same_row u p v q then 1 else 0)
count-snoc u p v q [] row e f = ground arith
count-snoc u p v q (r ∷ rows) row e f = ground (arith, count-snoc u p v q rows row e f)

tracks-count : (u p : ℕ) (w : World) → (count u p w == 0) ≡ not (tracks u p w)
unfolding tracks
tracks-count u p w = count-any u p w.db.user_products

add_row-IsKeyed : (u p : ℕ) (w : World) → tracks u p w ≡ false → IsKeyed w → IsKeyed (add_row u p w)
add_row-IsKeyed u p w new keyed v q = ground (
  arith,
  count-snoc u p v q w.db.user_products (record { user_id = u; product_id = p }) refl refl,
  tracks-count u p w,
  keyed v q,
)

-- the list has the pair
abbrev pub is_pending : ℕ × ℕ → List (ℕ × ℕ) → Bool
is_pending g pending = any (λ x. same_row x.0 x.1 g.0 g.1) pending

-- A pair is in the table, or its row is in an open session, or its commit was refused, or there is no
-- such user.
abbrev is_settled : ℕ × ℕ → World → List (ℕ × ℕ) → List (ℕ × ℕ) → Bool
is_settled g w pending lost =
    not (user_exists g.0 w) || tracks g.0 g.1 w || is_pending g pending || is_pending g lost

abbrev IsSettled : World → List (ℕ × ℕ) → List (ℕ × ℕ) → ℕ × ℕ → Type 0
IsSettled w pending lost g = is_settled g w pending lost ≡ true

abbrev IsKnown : World → ℕ × ℕ → Type 0
IsKnown w g = product_exists g.1 w ≡ true

record Holds (s : Sessions) : Type 0 where
  settled : All (IsSettled s.world s.pending s.lost) s.granted
  known : All (IsKnown s.world) s.pending
  keyed : IsKeyed s.world

All-mono :
    {A : Type 0} (P Q : A → Type 0) (xs : List A) → ((x : A) → P x → Q x) → All P xs → All Q xs
All-mono P Q [] h a = tt
All-mono P Q (x ∷ xs) h a = (h x a.0, All-mono P Q xs h a.1)

All-split :
    {A : Type 0} (P : A → Type 0) (xs : List A) (y : A) (ys : List A)
    → All P (xs ++ y ∷ ys)
    → P y × All P (xs ++ ys)
All-split P [] y ys a = a
All-split P (x ∷ xs) y ys a = let rest = All-split P xs y ys a.1 in (rest.0, (a.0, rest.1))

asked-Holds : (u p : ℕ) (s : Sessions) → Holds s → Holds (asked u p s)
unfolding asked asked_with add
asked-Holds u p s h = elim (Bool-cases (product_exists p s.world)) [
  | inl there ↦ elim (Bool-cases (tracks u p s.world)) [
    | inl old ↦ rw there (rw old h)
    | inr new ↦ rw there (
        rw new (record {
          settled = (
            now,
            All-mono (IsSettled s.world s.pending s.lost)
                (IsSettled s.world (s.pending ++ (u, p) ∷ []) s.lost) s.granted still h.settled,
          );
          known = All-append (IsKnown s.world) s.pending ((u, p) ∷ []) h.known (there, tt);
          keyed = h.keyed;
        }))
  ]
  | inr missing ↦ rw missing h
]
  where
    now : is_settled (u, p) s.world (s.pending ++ (u, p) ∷ []) s.lost ≡ true
    now = ground (arith, any-append (λ x. same_row x.0 x.1 u p) s.pending ((u, p) ∷ []))

    still :
        (g : ℕ × ℕ)
        → IsSettled s.world s.pending s.lost g
        → IsSettled s.world (s.pending ++ (u, p) ∷ []) s.lost g
    still g k =
        ground (arith, k, any-append (λ x. same_row x.0 x.1 g.0 g.1) s.pending ((u, p) ∷ []))

module _ (u p : ℕ) (before after : List (ℕ × ℕ)) (s : Sessions)
    (split : s.pending ≡ before ++ (u, p) ∷ after) (h : Holds s) where
  pending_split :
      (g : ℕ × ℕ)
      → is_pending g s.pending ≡ (same_row u p g.0 g.1 || is_pending g (before ++ after))
  pending_split g =
      ap (is_pending g) split
      ∙ any-append (λ x. same_row x.0 x.1 g.0 g.1) before ((u, p) ∷ after)
      ∙ ground (arith, any-append (λ x. same_row x.0 x.1 g.0 g.1) before after)

  others : IsKnown s.world (u, p) × All (IsKnown s.world) (before ++ after)
  others =
      All-split (IsKnown s.world) before (u, p) after (subst (All (IsKnown s.world)) split h.known)

  stored :
      (g : ℕ × ℕ)
      → IsSettled s.world s.pending s.lost g
      → IsSettled (add_row u p s.world) (before ++ after) s.lost g
  stored g k = ground (arith, k, pending_split g, tracks-add_row u p g.0 g.1 s.world)

  same_tracks : (v q : ℕ) → same_row u p v q ≡ true → tracks v q s.world ≡ tracks u p s.world
  same_tracks v q e =
      let a : v ≡ u = ground (arith, e) in let b : q ≡ p = ground (arith, e) in rw a (rw b refl)

  same_user : (v q : ℕ) → same_row u p v q ≡ true → user_exists v s.world ≡ user_exists u s.world
  same_user v q e = let a : v ≡ u = ground (arith, e) in rw a refl

  refused_or_there :
      takes_row u p s.world ≡ false
      → (g : ℕ × ℕ) → IsSettled s.world s.pending s.lost g
      → IsSettled s.world (before ++ after) s.lost g
  unfolding takes_row
  refused_or_there e g k = elim (Bool-cases (same_row u p g.0 g.1)) [
    | inl same ↦ ground (arith, e, others.0, same_tracks g.0 g.1 same, same_user g.0 g.1 same)
    | inr other ↦ ground (arith, k, other, pending_split g)
  ]

  -- the pair of a refused commit is lost
  lost_still :
      (g : ℕ × ℕ)
      → IsSettled s.world s.pending s.lost g
      → IsSettled s.world (before ++ after) ((u, p) ∷ s.lost) g
  lost_still g k = ground (arith, k, pending_split g)

  new_row : takes_row u p s.world ≡ true → tracks u p s.world ≡ false
  unfolding takes_row
  new_row e = ground (arith, e)

  ended-Holds : (commits : Database → Bool) → Holds (ended commits u p (before ++ after) s)
  unfolding ended product_exists
  ended-Holds commits = elim (Bool-cases (takes_row u p s.world)) [
    | inl e ↦ elim (Bool-cases (commits (add_row u p s.world).db)) [
      | inl c ↦ rw e (
          rw c (record {
            settled =
                All-mono (IsSettled s.world s.pending s.lost)
                  (IsSettled (add_row u p s.world) (before ++ after) s.lost) s.granted stored
                  h.settled;
            known = others.1;
            keyed = add_row-IsKeyed u p s.world (new_row e) h.keyed;
          }))
      | inr c ↦ rw e (
          rw c (record {
            settled =
                All-mono (IsSettled s.world s.pending s.lost)
                  (IsSettled s.world (before ++ after) ((u, p) ∷ s.lost)) s.granted lost_still
                  h.settled;
            known = others.1;
            keyed = h.keyed;
          }))
    ]
    | inr e ↦ rw e (record {
      settled =
          All-mono (IsSettled s.world s.pending s.lost) (IsSettled s.world (before ++ after) s.lost)
            s.granted (refused_or_there e) h.settled;
      known = others.1;
      keyed = h.keyed;
    })
  ]

Reach-Holds :
    {commits : Database → Bool} {w : World} {s : Sessions} → IsKeyed w → Reach commits w s → Holds s
Reach-Holds k start = record { settled = tt; known = tt; keyed = k }
Reach-Holds k (later r (asks u p)) = asked-Holds u p _ (Reach-Holds k r)
Reach-Holds {commits} k (later r (ends before after u p e)) =
    ended-Holds u p before after _ e (Reach-Holds k r) commits

-- the pair has one row, or its commit was refused, or there is no such user
abbrev pub IsStored : World → List (ℕ × ℕ) → ℕ × ℕ → Type 0
IsStored w lost g = (not (user_exists g.0 w) || is_pending g lost || count g.0 g.1 w == 1) ≡ true

-- However the requests that add products interleave, also two for the same product at the same time,
-- and whichever commits the database refuses, the primary key holds; and when all their sessions have
-- ended, every pair of an existing user and a product that was answered with success, and of which no
-- commit was refused that the keys would take, has exactly one row.
pub Reach-IsStored :
    (commits : Database → Bool) {w : World} {s : Sessions}
    → IsKeyed w
    → Reach commits w s
    → s.pending ≡ []
    → IsKeyed s.world × All (IsStored s.world s.lost) s.granted
Reach-IsStored commits {w} {s} k r e =
    let h = Reach-Holds k r in
    (
      h.keyed,
      All-mono (IsSettled s.world s.pending s.lost) (IsStored s.world s.lost) s.granted
          (λ g settled. one h g settled) h.settled,
    )
  where
    one : Holds s → (g : ℕ × ℕ) → IsSettled s.world s.pending s.lost g → IsStored s.world s.lost g
    one h g settled = ground (
      arith,
      subst (λ xs. IsSettled s.world xs s.lost g) e settled,
      tracks-count g.0 g.1 s.world,
      h.keyed g.0 g.1,
    )
