-- ===== src/Prelude/Maps.antt =====
-- The keyed collections of the program (`Map`, `Set`): association lists in the order of insertion.
use Prim.Native.Nat.{ℕ}
use Prim.Native.String.{String}
use mathlib.Core.Path.{◌≡◌, refl, ap₂, subst}
use mathlib.Core.Logic.{◌↔◌}
use mathlib.Core.Bool.{Bool, true, false, ◌&&◌}
use mathlib.Core.Option.{Option, none, some}
use mathlib.Core.List.{List, [], ◌∷◌}
use native.Mathlib.Omega.{arith}
use text.Mathlib.Text.{◌==◌ as str_eq}
use text.Mathlib.TextEquality.{eq_iff}
use oncall_backend_private.Prelude.Tests.{◌==◌, if◌then◌else◌, ==_iff}

-- The test of keys (`===`).
pub record Key {ℓ} (K : Type ℓ) : Type ℓ where
  pub same : K → K → Bool
  pub same_iff : (a b : K) → (same a b ≡ true) ↔ (a ≡ b)

instance abbrev pub nat_key : Key ℕ
nat_key = record { same = ◌==◌; same_iff = ==_iff }

instance abbrev pub string_key : Key String
string_key = record { same = str_eq; same_iff = eq_iff }

module _ {ℓ} {K : Type ℓ} ⦃k : Key K⦄ where
  pub same_refl : (a : K) → k.same a a ≡ true
  same_refl a = (k.same_iff a a).1 refl

  pub same_other : (a b c : K) → k.same a b ≡ true → k.same c a ≡ false → k.same c b ≡ false
  same_other a b c h g = subst (λ x. k.same c x ≡ false) ((k.same_iff a b).0 h) g

and_left : (p q : Bool) → (p && q) ≡ true → p ≡ true
and_left true q h = refl
and_left false q h = h

and_right : (p q : Bool) → (p && q) ≡ true → q ≡ true
and_right true q h = h
and_right false q h = ground (arith, h)

-- Two keys together.
unfoldable pub same_pair {ℓ κ} :
    {A : Type ℓ} {B : Type κ} ⦃a : Key A⦄ ⦃b : Key B⦄ → A × B → A × B → Bool
same_pair ⦃a⦄ ⦃b⦄ x y = a.same x.0 y.0 && b.same x.1 y.1

pub same_pair_iff {ℓ κ} :
    {A : Type ℓ} {B : Type κ} ⦃a : Key A⦄ ⦃b : Key B⦄ (x y : A × B)
    → (same_pair x y ≡ true) ↔ (x ≡ y)
unfolding same_pair
same_pair_iff ⦃a⦄ ⦃b⦄ (x, u) (y, v) = (
  λ h.
      ap₂ (λ p q. (p, q)) ((a.same_iff x y).0 (and_left (a.same x y) (b.same u v) h))
        ((b.same_iff u v).0 (and_right (a.same x y) (b.same u v) h)),
  λ e. subst (λ q. same_pair (x, u) q ≡ true) e (ground (arith, same_refl x, same_refl u)),
)

instance abbrev pub pair_key {ℓ κ} : {A : Type ℓ} {B : Type κ} ⦃a : Key A⦄ ⦃b : Key B⦄ → Key (A × B)
pair_key = record { same = same_pair; same_iff = same_pair_iff }

module _ {ℓ κ} {K : Type ℓ} {V : Type κ} ⦃k : Key K⦄ where
  -- `map.get(key)`.
  unfoldable pub lookup : K → List (K × V) → Option V
  lookup a [] = none
  lookup a ((b, v) ∷ m) = let rest = lookup a m in if k.same a b then some v else rest

  -- `map.set(key, value)`: in place, or at the end.
  unfoldable pub insert : K → V → List (K × V) → List (K × V)
  insert a w [] = (a, w) ∷ []
  insert a w ((b, v) ∷ m) =
      let rest = insert a w m in if k.same a b then (b, w) ∷ m else (b, v) ∷ rest

  -- `map.delete(key)`.
  unfoldable pub erase : K → List (K × V) → List (K × V)
  erase a [] = []
  erase a ((b, v) ∷ m) = let rest = erase a m in if k.same a b then rest else (b, v) ∷ rest

  pub lookup-insert : (a : K) (w : V) (m : List (K × V)) → lookup a (insert a w m) ≡ some w
  unfolding lookup insert
  lookup-insert a w [] = ground (arith, same_refl a)
  lookup-insert a w ((b, v) ∷ m) = ground (arith, lookup-insert a w m)

  pub lookup-insert_other :
      (a c : K) (w : V) (m : List (K × V))
      → k.same c a ≡ false
      → lookup c (insert a w m) ≡ lookup c m
  unfolding lookup insert
  lookup-insert_other a c w [] h = ground (arith, h)
  lookup-insert_other a c w ((b, v) ∷ m) h =
      ground (arith, lookup-insert_other a c w m h, same_other a b c)

  pub lookup-erase : (a : K) (m : List (K × V)) → lookup a (erase a m) ≡ none
  unfolding lookup erase
  lookup-erase a [] = refl
  lookup-erase a ((b, v) ∷ m) = ground (arith, lookup-erase a m)

  pub lookup-erase_other :
      (a c : K) (m : List (K × V)) → k.same c a ≡ false → lookup c (erase a m) ≡ lookup c m
  unfolding lookup erase
  lookup-erase_other a c [] h = refl
  lookup-erase_other a c ((b, v) ∷ m) h =
      ground (arith, lookup-erase_other a c m h, same_other a b c)
