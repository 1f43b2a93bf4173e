-- ===== src/Core/Timer.antt =====
-- core/timer.cc: the timer over a std::map from (unit, context) to callbacks. A context pointer is
-- the number of its address; the map is the list of its entries in key order.
pub mod Order
pub mod Lookup
pub mod Process
mod Tests
use tube.Common.{
  ℕ, ◌/◌, Bool, true, false, ◌&&◌, ◌||◌, List, [], ◌∷◌, Option, none, some, ltb, ◌==◌,
  if◌then◌else◌,
}

pub record TimerKey : Type 0 where
  pub unit : ℕ
  pub ctx : ℕ

-- TimerKey::operator<
pub key_lt : TimerKey → TimerKey → Bool
key_lt a b = ltb a.unit b.unit || (a.unit == b.unit && ltb a.ctx b.ctx)

-- TimerKey::operator==
pub key_eq : TimerKey → TimerKey → Bool
key_eq a b = a.unit == b.unit && a.ctx == b.ctx

abbrev pub unit_gran : ℕ
unit_gran = 2

pub timer_unit_from_time : ℕ → ℕ
timer_unit_from_time t = t / unit_gran

module _ {C : Type 0} where
  -- std::map::find: neither key is less than the other
  pub find : TimerKey → List (TimerKey × C) → Option C
  find k [] = none
  find k ((j, c) ∷ t) =
      let rest = find k t in if key_lt j k then rest else if key_lt k j then none else some c

  -- std::map::insert: an equal key is left as it is
  pub insert : TimerKey → C → List (TimerKey × C) → List (TimerKey × C)
  insert k c [] = (k, c) ∷ []
  insert k c ((j, d) ∷ t) =
      let rest = (j, d) ∷ insert k c t in
      if key_lt j k then rest else if key_lt k j then (k, c) ∷ (j, d) ∷ t else (j, d) ∷ t

  -- std::map::erase at the position of a key
  pub erase : TimerKey → List (TimerKey × C) → List (TimerKey × C)
  erase k [] = []
  erase k ((j, c) ∷ t) = let rest = (j, c) ∷ erase k t in if key_eq j k then t else rest

  pub set : List (TimerKey × C) → TimerKey → C → Bool × List (TimerKey × C)
  set tree key call = elim (find key tree) [
    | some _ ↦ (false, tree)
    | none ↦ (true, insert key call tree)
  ]

  pub replace : List (TimerKey × C) → TimerKey → C → List (TimerKey × C)
  replace tree key call = insert key call tree

  pub remove : List (TimerKey × C) → TimerKey → Bool × List (TimerKey × C)
  remove tree key = elim (find key tree) [ none ↦ (false, tree) | some _ ↦ (true, erase key tree) ]

  pub query : List (TimerKey × C) → TimerKey → Option C
  query tree key = find key tree

  -- process_callbacks. A callback gets its context and what it may change, and says whether its
  -- entry is done with.
  module _ {S : Type 0} (invoke : C → ℕ → S → Bool × S) (current_unit : ℕ) where
    -- First loop: the keys of the garbage, and what the callbacks changed.
    unfoldable pub scan : List (TimerKey × C) → S → List TimerKey × S
    scan [] s = ([], s)
    scan ((k, c) ∷ t) s =
        let called = invoke c k.ctx s in
        let rest = scan t called.1 in
        if ltb current_unit k.unit then ([], s) else if called.0 then (k ∷ rest.0, rest.1) else rest

    -- Second loop.
    unfoldable pub erase_all : List TimerKey → List (TimerKey × C) → List (TimerKey × C)
    erase_all [] tree = tree
    erase_all (k ∷ ks) tree = erase_all ks (erase k tree)

    unfoldable pub process_callbacks : List (TimerKey × C) → S → List (TimerKey × C) × S
    process_callbacks tree s = let r = scan tree s in (erase_all r.0 tree, r.1)
