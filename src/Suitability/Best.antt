-- ===== src/Suitability/Best.antt =====
-- cloudmark/suitability.py: `_put` keeps the best piece of evidence under each key.
use cloud_mark.Prelude.{
  true, false, Option, none, some, List, [], ◌∷◌, String, str_eq, str_eq_iff, if◌then◌else◌, ◌≡◌,
  refl, some_injective, ◌⊎◌, arith, inl, inr, Bool-cases,
}
use cloud_mark.Suitability.Evidence.{Item, outranks, find_item, put, put_all}

-- The better of a candidate and what is there.
abbrev better : Item → Option Item → Item
better item none = item
better item (some existing) = if outranks item existing then item else existing

-- What is under a key after some calls of `_put`, found without the dictionary.
abbrev best_from : String → Option Item → List (String × Item) → Option Item
best_from key o [] = o
best_from key o ((k, item) ∷ rest) =
    best_from key (if str_eq k key then some (better item o) else o) rest

find_item-put :
    (key k : String) (item : Item) (evidence : List (String × Item))
    → find_item key (put k item evidence) ≡ (
        if str_eq k key
        then some (better item (find_item key evidence))
        else find_item key evidence)
unfolding find_item put
find_item-put key k item [] = refl
find_item-put key k item ((j, existing) ∷ rest) =
    ground
      (arith, find_item-put key k item rest, str_eq_iff j k, str_eq_iff k key, str_eq_iff j key)

find_item-put_all :
    (key : String) (candidates evidence : List (String × Item))
    → find_item key (put_all evidence candidates)
      ≡ best_from key (find_item key evidence) candidates
unfolding put_all
find_item-put_all key [] evidence = refl
find_item-put_all key ((k, item) ∷ rest) evidence =
    rw (find_item-put_all key rest (put k item evidence), find_item-put key k item evidence)

-- `a` is not better than `b`, written as a ≤ b in what follows: a ≤ b ≤ c.
outranks_trans : (a b c : Item) → outranks a b ≡ false → outranks b c ≡ false → outranks a c ≡ false
unfolding outranks
outranks_trans a b c h k = ground arith

outranks_asym : (a b : Item) → outranks a b ≡ true → outranks b a ≡ false
unfolding outranks
outranks_asym a b h = ground arith

outranks_irrefl : (a : Item) → outranks a a ≡ false
unfolding outranks
outranks_irrefl a = ground arith

-- The item is that of a call of `_put` with the key.
abbrev pub Among : String → Item → List (String × Item) → Type 0
Among key item [] = ⊥
Among key item ((k, candidate) ∷ rest) =
    ((str_eq k key ≡ true) × (candidate ≡ item)) ⊎ Among key item rest

-- No call of `_put` with the key has a better item.
abbrev pub Unbeaten : String → Item → List (String × Item) → Type 0
Unbeaten key item [] = Unit
Unbeaten key item ((k, candidate) ∷ rest) =
    (str_eq k key ≡ true → outranks candidate item ≡ false) × Unbeaten key item rest

abbrev pub Unused : String → List (String × Item) → Type 0
Unused key [] = Unit
Unused key ((k, candidate) ∷ rest) = (str_eq k key ≡ false) × Unused key rest

abbrev NotBeaten : Option Item → Item → Type 0
NotBeaten none item = Unit
NotBeaten (some existing) item = outranks existing item ≡ false

-- What stands under the key, of what was there and of the calls.
abbrev IsChosen : Option Item → String → List (String × Item) → Option Item → Type 0
IsChosen o key candidates none = (o ≡ none) × Unused key candidates
IsChosen o key candidates (some item) =
    ((o ≡ some item) ⊎ Among key item candidates)
    × (NotBeaten o item × Unbeaten key item candidates)

beaten_by :
    (o : Option Item) (candidate item : Item)
    → outranks (better candidate o) item ≡ false
    → (outranks candidate item ≡ false) × NotBeaten o item
beaten_by none candidate item h = (h, tt)
beaten_by (some e) candidate item h = elim (Bool-cases (outranks candidate e)) [
  | inl won ↦
      let first : outranks candidate item ≡ false = ground (arith, won) in
      (first, outranks_trans e candidate item (outranks_asym candidate e won) first)
  | inr lost ↦
      let second : outranks e item ≡ false = ground (arith, lost) in
      (outranks_trans candidate e item lost second, second)
]

from_better :
    (o : Option Item) (key k : String) (candidate item : Item) (rest : List (String × Item))
    → str_eq k key ≡ true
    → some (better candidate o) ≡ some item
    → (o ≡ some item) ⊎ Among key item ((k, candidate) ∷ rest)
from_better none key k candidate item rest hit e = inr (inl (hit, some_injective e))
from_better (some x) key k candidate item rest hit e = elim (Bool-cases (outranks candidate x)) [
  | inl won ↦ inr (inl (hit, some_injective (ground (arith, won))))
  | inr lost ↦ inl (ground (arith, lost))
]

IsChosen-hit :
    (o : Option Item) (key k : String) (candidate : Item) (rest : List (String × Item))
    (r : Option Item)
    → str_eq k key ≡ true
    → IsChosen (some (better candidate o)) key rest r
    → IsChosen o key ((k, candidate) ∷ rest) r
IsChosen-hit o key k candidate rest none hit (never, u) = let no : ⊥ = cc in absurd no
IsChosen-hit o key k candidate rest (some item) hit (from, (not_beaten, unbeaten)) =
    let (first, before) = beaten_by o candidate item not_beaten in
    (
      elim from [
        | inl e ↦ from_better o key k candidate item rest hit e
        | inr among ↦ inr (inr among)
      ],
      (before, ((λ h. first), unbeaten)),
    )

IsChosen-miss :
    (o : Option Item) (key k : String) (candidate : Item) (rest : List (String × Item))
    (r : Option Item)
    → str_eq k key ≡ false
    → IsChosen o key rest r
    → IsChosen o key ((k, candidate) ∷ rest) r
IsChosen-miss o key k candidate rest none miss (e, u) = (e, (miss, u))
IsChosen-miss o key k candidate rest (some item) miss (from, (not_beaten, unbeaten)) = (
  elim from [ inl e ↦ inl e | inr among ↦ inr (inr among) ],
  (not_beaten, ((λ h. let no : ⊥ = cc in absurd no), unbeaten)),
)

best_from-IsChosen :
    (o : Option Item) (key : String) (candidates : List (String × Item))
    → IsChosen o key candidates (best_from key o candidates)
best_from-IsChosen none key [] = (refl, tt)
best_from-IsChosen (some item) key [] = (inl refl, (outranks_irrefl item, tt))
best_from-IsChosen o key ((k, candidate) ∷ rest) = elim (Bool-cases (str_eq k key)) [
  | inl hit ↦ rw hit (
      IsChosen-hit o key k candidate rest _ hit
        (best_from-IsChosen (some (better candidate o)) key rest))
  | inr miss ↦ rw miss (IsChosen-miss o key k candidate rest _ miss (best_from-IsChosen o key rest))
]

-- What an empty dictionary holds under a key after the calls of `_put`.
abbrev pub IsBest : String → List (String × Item) → Option Item → Type 0
IsBest key candidates none = Unused key candidates
IsBest key candidates (some item) = Among key item candidates × Unbeaten key item candidates

from_nothing :
    (key : String) (candidates : List (String × Item)) (r : Option Item)
    → IsChosen none key candidates r
    → IsBest key candidates r
from_nothing key candidates none (e, u) = u
from_nothing key candidates (some item) (inl e, rest) = let no : ⊥ = cc in absurd no
from_nothing key candidates (some item) (inr among, (n, unbeaten)) = (among, unbeaten)

-- Whatever the order of the calls of `_put`, the dictionary that they fill holds under each key an item
-- that was put under it and that no other item put under it outranks: a fresh one if there is a fresh
-- one, then the best profile, then the latest. A key without a call is not in the dictionary.
pub put_all-IsBest :
    (key : String) (candidates : List (String × Item))
    → IsBest key candidates (find_item key (put_all [] candidates))
unfolding find_item
put_all-IsBest key candidates =
    rw (find_item-put_all key candidates [])
      (from_nothing key candidates _ (best_from-IsChosen none key candidates))
