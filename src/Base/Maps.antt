-- ===== src/Base/Maps.antt =====
-- Maps as association lists without an order, as `HashMap` and `HashSet` are used.
use mathlib.Core.Path.{◌≡◌}
use mathlib.Core.Logic.{ite}
use mathlib.Core.Bool.{Bool, true, false}
use mathlib.Core.Option.{Option, none, some}
use mathlib.Core.List.{List, [], ◌∷◌}
use native.Mathlib.Omega.{arith}
use agent_rdp.Base.Tests.{is_some}

module _ {K V : Type 0} (d : Discrete K) where
  -- `HashMap::get`.
  unfoldable pub lookup : K → List (K × V) → Option V
  lookup k [] = none
  lookup k ((j, v) ∷ m) = ite (d j k) (some v) (lookup k m)

  -- `HashMap::remove`: every entry of the key.
  unfoldable pub erase : K → List (K × V) → List (K × V)
  erase k [] = []
  erase k ((j, v) ∷ m) = ite (d j k) (erase k m) ((j, v) ∷ erase k m)

  -- `HashMap::insert`.
  unfoldable pub insert : K → V → List (K × V) → List (K × V)
  insert k v m = (k, v) ∷ erase k m

  pub lookup-erase :
      (j k : K) (m : List (K × V)) → lookup j (erase k m) ≡ ite (d k j) none (lookup j m)
  unfolding lookup erase
  lookup-erase j k [] = ground arith
  lookup-erase j k ((i, v) ∷ m) = ground (arith, lookup-erase j k m)

  pub lookup-insert :
      (j k : K) (v : V) (m : List (K × V))
      → lookup j (insert k v m) ≡ ite (d k j) (some v) (lookup j m)
  unfolding lookup insert
  lookup-insert j k v m = ground (arith, lookup-erase j k m)

  pub has-erase :
      (j k : K) (m : List (K × V))
      → is_some (lookup j (erase k m)) ≡ ite (d k j) false (is_some (lookup j m))
  has-erase j k m = ground (arith, lookup-erase j k m)

  pub has-insert :
      (j k : K) (v : V) (m : List (K × V))
      → is_some (lookup j (insert k v m)) ≡ ite (d k j) true (is_some (lookup j m))
  has-insert j k v m = ground (arith, lookup-insert j k v m)

module _ {K : Type 0} (d : Discrete K) where
  -- `HashSet::contains`, `HashSet::remove`, `HashSet::insert`.
  unfoldable pub contains : K → List K → Bool
  contains k [] = false
  contains k (j ∷ s) = ite (d j k) true (contains k s)

  unfoldable pub discard : K → List K → List K
  discard k [] = []
  discard k (j ∷ s) = ite (d j k) (discard k s) (j ∷ discard k s)

  unfoldable pub add : K → List K → List K
  add k s = k ∷ discard k s

  pub contains-discard :
      (j k : K) (s : List K) → contains j (discard k s) ≡ ite (d k j) false (contains j s)
  unfolding contains discard
  contains-discard j k [] = ground arith
  contains-discard j k (i ∷ s) = ground (arith, contains-discard j k s)

  pub contains-add : (j k : K) (s : List K) → contains j (add k s) ≡ ite (d k j) true (contains j s)
  unfolding contains add
  contains-add j k s = ground (arith, contains-discard j k s)
