-- ===== src/IdMap.antt =====
-- `std::map<MessageId, V>` and `std::set<MessageId>` as the trackers of lib/ use them: a list of
-- entries in the order of `MessageId::operator<`, which does not tell ids at one place apart.
pub mod Laws
pub mod Apart
use pulsar_client_cpp.Prelude.{
  ℕ, Bool, true, false, not, ◌||◌, Option, none, some, List, [], ◌∷◌, if◌then◌else◌,
}
use pulsar_client_cpp.MessageId.{MessageIdImpl, lt}

abbrev pub IdMap {ℓ} : Type ℓ → Type ℓ
IdMap V = List (MessageIdImpl × V)

abbrev pub IdSet : Type 0
IdSet = IdMap (Unit {0})

-- Neither is before the other.
unfoldable pub same : MessageIdImpl → MessageIdImpl → Bool
unfolding lt
same a b = not (lt a b || lt b a)

module _ {ℓ} {V : Type ℓ} where
  unfoldable pub find : MessageIdImpl → IdMap V → Option V
  unfolding same
  find a [] = none
  find a ((b, v) ∷ m) = if same a b then some v else find a m

  -- A new key goes to its place in the order.
  unfoldable pub place : MessageIdImpl → V → IdMap V → IdMap V
  place a v [] = (a, v) ∷ []
  place a v ((b, w) ∷ m) =
      let rest = place a v m in if lt a b then (a, v) ∷ (b, w) ∷ m else (b, w) ∷ rest

  unfoldable pub set_value : MessageIdImpl → V → IdMap V → IdMap V
  set_value a v [] = []
  set_value a v ((b, w) ∷ m) = let rest = set_value a v m in (b, if same a b then v else w) ∷ rest

  -- `emplace` keeps the entry of a key that is there; `m[a] = v` overwrites its value.
  unfoldable pub emplace : MessageIdImpl → V → IdMap V → IdMap V
  unfolding find place
  emplace a v m = elim (find a m) [ some w ↦ m | none ↦ place a v m ]

  unfoldable pub assign : MessageIdImpl → V → IdMap V → IdMap V
  unfolding find place set_value
  assign a v m = elim (find a m) [ some w ↦ set_value a v m | none ↦ place a v m ]

  -- `erase` by key. (There is at most one such entry.)
  unfoldable pub erase : MessageIdImpl → IdMap V → IdMap V
  unfolding same
  erase a [] = []
  erase a ((b, w) ∷ m) = let rest = erase a m in if same a b then rest else (b, w) ∷ rest

unfoldable pub contains : MessageIdImpl → IdSet → Bool
unfolding find
contains a s = elim (find a s) [ some u ↦ true | none ↦ false ]

abbrev pub insert : MessageIdImpl → IdSet → IdSet
unfolding emplace
insert a s = emplace a tt s
