-- ===== src/Sql.antt =====
-- The statements that the repositories send to the database, over a table read as a list of rows:
-- `dbGet` (first row), `dbAll` (every row), `dbRun` with UPDATE and its `changes`, DELETE
-- (src/config/database.js). The engine itself is not modelled: a statement that is sent succeeds.
use oncall_backend_private.Prelude.{
  ℕ, zero, suc, ◌≡◌, refl, Bool, true, false, Option, none, some, List, [], ◌∷◌, arith,
  if◌then◌else◌, keep,
}
use mathlib.Core.Option

-- Two truth values of JavaScript that the handlers test: a nullable number, 0 being false.
abbrev pub truthy : Option ℕ → Bool
truthy none = false
truthy (some zero) = false
truthy (some (suc n)) = true

module _ {ℓ} {A : Type ℓ} where
  -- SELECT … WHERE p, one row.
  unfoldable pub select_first : (A → Bool) → List A → Option A
  select_first p [] = none
  select_first p (x ∷ xs) = let rest = select_first p xs in if p x then some x else rest

  -- SELECT … WHERE p.
  abbrev pub select_all : (A → Bool) → List A → List A
  select_all = keep

  -- UPDATE … SET f WHERE p.
  unfoldable pub update_where : (A → Bool) → (A → A) → List A → List A
  update_where p f [] = []
  update_where p f (x ∷ xs) = (if p x then f x else x) ∷ update_where p f xs

  -- `this.changes` after such an UPDATE.
  unfoldable pub changes : (A → Bool) → List A → ℕ
  changes p [] = 0
  changes p (x ∷ xs) = if p x then suc (changes p xs) else changes p xs

  -- Where a row is found after an update: where it was, with the update made if it applied.
  pub select_first-update_where :
      (q p : A → Bool) (f : A → A) (xs : List A)
      → ((a : A) → q (f a) ≡ q a)
      → select_first q (update_where p f xs)
        ≡ Option.map (λ a. if p a then f a else a) (select_first q xs)
  unfolding select_first update_where
  select_first-update_where q p f [] h = refl
  select_first-update_where q p f (x ∷ xs) h =
      ground (arith, h x, select_first-update_where q p f xs h)

  pub select_first_sound :
      (q : A → Bool) (xs : List A) (a : A) → select_first q xs ≡ some a → q a ≡ true
  unfolding select_first
  select_first_sound q [] a e = ground arith
  select_first_sound q (x ∷ xs) a e = ground (arith, select_first_sound q xs a)

  -- A statement whose condition no row meets changes nothing.
  pub update_where-none :
      (p : A → Bool) (f : A → A) (xs : List A) → changes p xs ≡ 0 → update_where p f xs ≡ xs
  unfolding update_where changes
  update_where-none p f [] e = refl
  update_where-none p f (x ∷ xs) e = ground (arith, update_where-none p f xs)

  pub changes-select_first :
      (p : A → Bool) (xs : List A) → changes p xs ≡ 0 → select_first p xs ≡ none
  unfolding changes select_first
  changes-select_first p [] e = refl
  changes-select_first p (x ∷ xs) e = ground (arith, changes-select_first p xs)
