-- ===== src/Hub/Locks/Waiting.antt =====
-- The groups that the pending calls of Hub/Locks hold, of pkg/pool/manager.go.

use bs_notify_hub.Prelude.{
  ℕ, zero, suc, ◌<◌, ◌≤◌, Option, none, some, List, [], ◌∷◌, ◌++◌, arith, nat_key, string_key,
}
use bs_notify_hub.Hub.Locks.{
  Pending, registering, unregistering, collecting, sending, ranging, ranging_all, take_out,
}

-- A group that a pending call registers into has been handed out.
abbrev pub IsHandedOut : ℕ → Pending → Type 0
IsHandedOut next (registering p u c) = p < next
IsHandedOut next _ = Unit

abbrev pub AllHandedOut : ℕ → List Pending → Type 0
AllHandedOut next [] = Unit
AllHandedOut next (x ∷ xs) = IsHandedOut next x × AllHandedOut next xs

pub handed_out_more :
    (next next' : ℕ) (xs : List Pending)
    → next ≤ next'
    → AllHandedOut next xs
    → AllHandedOut next' xs
handed_out_more next next' [] h a = tt
handed_out_more next next' (x ∷ xs) h a = (one x a.0, handed_out_more next next' xs h a.1)
  where
    one : (x : Pending) → IsHandedOut next x → IsHandedOut next' x
    one (registering p u c) b = omega (arith, b, h)
    one (unregistering p n u c k) b = tt
    one (collecting n) b = tt
    one (sending n payload us) b = tt
    one (ranging p n u payload us) b = tt
    one (ranging_all p payload) b = tt

pub handed_out_append :
    (next : ℕ) (xs : List Pending) (x : Pending)
    → AllHandedOut next xs
    → IsHandedOut next x
    → AllHandedOut next (xs ++ x ∷ [])
handed_out_append next [] x a h = (h, tt)
handed_out_append next (y ∷ ys) x a h = (a.0, handed_out_append next ys x a.1 h)

-- A call that is taken out, and the others.
abbrev pub TakenOut : ℕ → Option (Pending × List Pending) → Type 0
TakenOut next none = Unit
TakenOut next (some (x, rest)) = IsHandedOut next x × AllHandedOut next rest

pub taken_out :
    (next i : ℕ) (xs : List Pending) → AllHandedOut next xs → TakenOut next (take_out i xs)
unfolding take_out
taken_out next zero [] a = tt
taken_out next (suc i) [] a = tt
taken_out next zero (x ∷ xs) a = a
taken_out next (suc i) (x ∷ xs) a = behind (take_out i xs) (taken_out next i xs a.1)
  where
    behind :
        (o : Option (Pending × List Pending))
        → TakenOut next o
        → TakenOut next (elim o [ none ↦ none | some r ↦ some (r.0, x ∷ r.1) ])
    behind none t = tt
    behind (some r) t = (t.0, (a.0, t.1))
