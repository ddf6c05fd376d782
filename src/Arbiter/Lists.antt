-- ===== src/Arbiter/Lists.antt =====
-- The linked lists of ccan/list/list.h, a library, by what its documentation says of the functions
-- that the arbiter calls. Heads and nodes are numbers, and a node is in at most one list.
use fastpass.Base.{
  ℕ, List, [], ◌∷◌, ◌++◌, Bool, true, false, not, ◌&&◌, ◌||◌, ◌==◌, if◌then◌else◌, ◌≡◌, refl, arith,
}

unfoldable pub has : ℕ → List ℕ → Bool
has x [] = false
has x (y ∷ ys) = x == y || has x ys

unfoldable pub remove : ℕ → List ℕ → List ℕ
remove x [] = []
remove x (y ∷ ys) = let rest = remove x ys in if x == y then rest else y ∷ rest

pub has-remove : (x y : ℕ) (xs : List ℕ) → has y (remove x xs) ≡ (has y xs && not (y == x))
unfolding has remove
has-remove x y [] = refl
has-remove x y (z ∷ zs) = ground (arith, has-remove x y zs)

pub has-append : (x : ℕ) (xs ys : List ℕ) → has x (xs ++ ys) ≡ (has x xs || has x ys)
unfolding has
has-append x [] ys = refl
has-append x (y ∷ xs) ys = ground (arith, has-append x xs ys)

pub record ListApi : Type 1 where
  pub Store : Type 0
  -- The nodes of the list at a head, in their order.
  pub items : Store → ℕ → List ℕ
  pub list_head_init : Store → ℕ → Store
  pub list_add_tail : Store → ℕ → ℕ → Store
  pub list_del : Store → ℕ → Store
  pub items-list_head_init :
      (s : Store) (h k : ℕ) → items (list_head_init s h) k ≡ (if k == h then [] else items s k)
  -- Only a node that is in no list is added.
  pub items-list_add_tail :
      (s : Store) (h x k : ℕ)
      → ((j : ℕ) → has x (items s j) ≡ false)
      → items (list_add_tail s h x) k ≡ (if k == h then items s k ++ (x ∷ []) else items s k)
  -- Only a node that is in a list is deleted.
  pub items-list_del :
      (s : Store) (x j k : ℕ)
      → has x (items s j) ≡ true
      → items (list_del s x) k ≡ remove x (items s k)
