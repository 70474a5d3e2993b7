-- ===== src/Base/HashMap.antt =====
-- `std::collections::HashMap` as an association list. The order of the list is the order in which
-- the map is iterated; lemmas hold for every list, so for every iteration order.
use mathlib.Core.Path.{◌≡◌, refl}
use mathlib.Core.Logic.{◌≢◌}
use mathlib.Core.Option.{Option, none, some}
use mathlib.Core.List.{List, [], ◌∷◌, foldl, map}
use native.Mathlib.Omega.{arith}
use rbackup.Base.Tests.{if◌then◌else◌}
use rbackup.Base.Lists.{or_else}
use rbackup.Base.Equality.{Eq, ◌==◌}

abbrev pub HashMap {ℓ κ} : Type ℓ → Type κ → Type (ℓ ⊔ κ)
HashMap K V = List (K × V)

-- `HashMap::values`
unfoldable pub values {ℓ κ} : {K : Type ℓ} {V : Type κ} → HashMap K V → List V
values = map (λ (_, v). v)

module _ {ℓ κ} {K : Type ℓ} {V : Type κ} ⦃e : Eq K⦄ where
  unfoldable pub get : K → HashMap K V → Option V
  get k [] = none
  get k ((j, v) ∷ m) = if k == j then some v else get k m

  unfoldable pub insert : K → V → HashMap K V → HashMap K V
  insert k v [] = (k, v) ∷ []
  insert k v ((j, w) ∷ m) = if k == j then (k, v) ∷ m else (j, w) ∷ insert k v m

  unfoldable pub remove : K → HashMap K V → HashMap K V
  remove k [] = []
  remove k ((j, w) ∷ m) = let rest = remove k m in if k == j then rest else (j, w) ∷ rest

  -- `if let Some(v) = map.get_mut(&k) { *v = f(*v) }`
  unfoldable pub modify : K → (V → V) → HashMap K V → HashMap K V
  modify k f [] = []
  modify k f ((j, w) ∷ m) = if k == j then (j, f w) ∷ m else (j, w) ∷ modify k f m

  abbrev pub add_pair : HashMap K V → K × V → HashMap K V
  add_pair m (k, v) = insert k v m

  -- `iter.collect::<HashMap<_, _>>()`: a later pair replaces an earlier one.
  unfoldable pub collect : List (K × V) → HashMap K V
  unfolding insert
  collect = foldl add_pair []

  -- No key is listed twice.
  abbrev pub NodupKeys : HashMap K V → Type κ
  NodupKeys [] = Unit
  NodupKeys ((k, _) ∷ m) = (get k m ≡ none) × NodupKeys m

  pub get-insert :
      (j k : K) (v : V) (m : HashMap K V)
      → get j (insert k v m) ≡ (if j == k then some v else get j m)
  unfolding get insert
  get-insert j k v [] = ground arith
  get-insert j k v (_ ∷ m) = ground (arith, get-insert j k v m)

  pub get-remove :
      (j k : K) (m : HashMap K V) → get j (remove k m) ≡ (if j == k then none else get j m)
  unfolding get remove
  get-remove j k [] = ground arith
  get-remove j k (_ ∷ m) = ground (arith, get-remove j k m)

  pub get-modify_self :
      (k : K) (f : V → V) {v : V} (m : HashMap K V)
      → get k m ≡ some v
      → get k (modify k f m) ≡ some (f v)
  unfolding get modify
  get-modify_self k f [] h = ground arith
  get-modify_self k f {v} (_ ∷ m) h = ground (arith, get-modify_self k f {v = v} m)

  pub get-modify_ne :
      (j k : K) (f : V → V) (m : HashMap K V) → j ≢ k → get j (modify k f m) ≡ get j m
  unfolding get modify
  get-modify_ne j k f [] h = refl
  get-modify_ne j k f (_ ∷ m) h = ground (arith, get-modify_ne j k f m h)

  pub insert-NodupKeys : (k : K) (v : V) (m : HashMap K V) → NodupKeys m → NodupKeys (insert k v m)
  unfolding insert get
  insert-NodupKeys k v [] _ = (refl, tt)
  insert-NodupKeys k v ((j, _) ∷ m) (fresh, u) =
      ground (arith, insert-NodupKeys k v m u, get-insert j k v m)

  get-modify-none :
      (j k : K) (f : V → V) (m : HashMap K V) → get j m ≡ none → get j (modify k f m) ≡ none
  unfolding get modify
  get-modify-none j k f [] h = refl
  get-modify-none j k f (_ ∷ m) h = ground (arith, get-modify-none j k f m)

  pub modify-NodupKeys :
      (k : K) (f : V → V) (m : HashMap K V) → NodupKeys m → NodupKeys (modify k f m)
  unfolding modify
  modify-NodupKeys k f [] _ = tt
  modify-NodupKeys k f ((j, _) ∷ m) (fresh, u) =
      ground (arith, modify-NodupKeys k f m u, get-modify-none j k f m fresh)

  pub remove-NodupKeys : (k : K) (m : HashMap K V) → NodupKeys m → NodupKeys (remove k m)
  unfolding remove
  remove-NodupKeys k [] _ = tt
  remove-NodupKeys k ((j, _) ∷ m) (fresh, u) =
      ground (arith, remove-NodupKeys k m u, get-remove j k m)

  -- The last pair of the key in a list of pairs.
  unfoldable pub get_last : K → List (K × V) → Option V
  get_last k [] = none
  get_last k ((j, v) ∷ rest) = or_else (get_last k rest) (if k == j then some v else none)

  pub get-collect_from :
      (k : K) (pairs : List (K × V)) (m : HashMap K V)
      → get k (foldl add_pair m pairs) ≡ or_else (get_last k pairs) (get k m)
  unfolding get_last
  get-collect_from k [] m = refl
  get-collect_from k ((j, v) ∷ pairs) m =
      ground (arith, get-collect_from k pairs (insert j v m), get-insert k j v m)

  pub get-collect : (k : K) (pairs : List (K × V)) → get k (collect pairs) ≡ get_last k pairs
  unfolding collect get
  get-collect k pairs = ground (arith, get-collect_from k pairs [])

  collect-NodupKeys_from :
      (pairs : List (K × V)) (m : HashMap K V) → NodupKeys m → NodupKeys (foldl add_pair m pairs)
  collect-NodupKeys_from [] m h = h
  collect-NodupKeys_from ((j, v) ∷ pairs) m h =
      collect-NodupKeys_from pairs (insert j v m) (insert-NodupKeys j v m h)

  pub collect-NodupKeys : (pairs : List (K × V)) → NodupKeys (collect pairs)
  unfolding collect
  collect-NodupKeys pairs = collect-NodupKeys_from pairs [] tt
