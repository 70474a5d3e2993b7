-- ===== src/Scheduler/Service/Ticking/Held.antt =====
-- The schedule that is held under an id, among all that are held.
use mathlib.Core.List.{append_assoc}
use rbackup.Base.{
  Bool, ◌≡◌, ◌≢◌, refl, sym, ap, subst, ◌∙◌, true, none, some, List, [], ◌∷◌, ◌++◌, map, filter,
  All, inl, inr, ◌⊎◌, arith, Bool-cases, int_eq,
}
use rbackup.Base.Int.{ℤ}
use rbackup.Base.HashMap
use rbackup.Base.HashMap.{HashMap, NodupKeys}
use rbackup.Models.{Schedule}
use rbackup.Scheduler.Service.Holding.{IsHeld, IsHolding}

-- An element of a list.
abbrev pub Contains : {A : Type 0} → A → List A → Type 0
Contains {A} a l = (before : List A) × (later : List A) × (l ≡ before ++ (a ∷ later))

pub Contains-append_left :
    {A : Type 0} (a : A) (xs ys : List A) → Contains a ys → Contains a (xs ++ ys)
Contains-append_left a xs ys (before, later, e) =
    (xs ++ before, later, ap (λ l. xs ++ l) e ∙ sym (append_assoc xs before (a ∷ later)))

pub Contains-map-filter :
    {A B : Type 0} (f : A → B) (test : A → Bool) (a : A) (before later : List A)
    → test a ≡ true
    → Contains (f a) (map f (filter test (before ++ (a ∷ later))))
Contains-map-filter f test a [] later passes = rw passes ([], map f (filter test later), refl)
Contains-map-filter f test a (b ∷ before) later passes = elim (Bool-cases (test b)) [
  | inl kept ↦
      rw kept
        (Contains-append_left (f a) (f b ∷ []) _ (Contains-map-filter f test a before later passes))
  | inr dropped ↦ rw dropped (Contains-map-filter f test a before later passes)
]

module _ {Json : Type 0} where
  -- No schedule of the map has this id.
  others_differ :
      (id : ℤ) (m : HashMap ℤ (Schedule Json))
      → HashMap.get id m ≡ none
      → All IsHeld m
      → All (λ (s : Schedule Json). s.id ≢ id) (HashMap.values m)
  unfolding HashMap.values HashMap.get
  others_differ id [] absent held = tt
  others_differ id ((j, w) ∷ m) absent ((same, _), held) =
      (λ e. ground (arith, absent, same, e), others_differ id m (ground (arith, absent)) held)

  weaken :
      (id : ℤ) (s : Schedule Json) (l : List (Schedule Json))
      → All (λ (w : Schedule Json). w.id ≢ id) l
      → All (λ (w : Schedule Json). (w.id ≢ id) ⊎ (w ≡ s)) l
  weaken id s [] h = tt
  weaken id s (w ∷ l) (differ, h) = (inl differ, weaken id s l h)

  -- The schedule that is held under an id is the only one in the map with this id.
  pub only_held :
      (id : ℤ) (s : Schedule Json) (m : HashMap ℤ (Schedule Json))
      → HashMap.get id m ≡ some s
      → IsHolding m
      → All (λ (w : Schedule Json). (w.id ≢ id) ⊎ (w ≡ s)) (HashMap.values m)
  unfolding HashMap.values HashMap.get
  only_held id s [] found h = cc
  only_held id s ((j, w) ∷ m) found (((same, _), held), (fresh, u)) = elim (int_eq.dec id j) [
    | yes here ↦ (
      inr (ground (arith, found, here)),
      weaken id s (HashMap.values m)
          (others_differ id m (subst (λ i. HashMap.get i m ≡ none) (sym here) fresh) held),
    )
    | no other ↦
        (inl (λ e. other (sym e ∙ same)), only_held id s m (ground (arith, found, other)) (held, u))
  ]

  pub held_value :
      (id : ℤ) (s : Schedule Json) (m : HashMap ℤ (Schedule Json))
      → HashMap.get id m ≡ some s
      → Contains s (HashMap.values m)
  unfolding HashMap.values HashMap.get
  held_value id s [] found = cc
  held_value id s ((j, w) ∷ m) found = elim (int_eq.dec id j) [
    | yes here ↦
        ([], HashMap.values m, ap (λ v. v ∷ HashMap.values m) (ground (arith, found, here)))
    | no other ↦
        let (before, later, e) = held_value id s m (ground (arith, found, other)) in
        (w ∷ before, later, ap (λ l. w ∷ l) e)
  ]
