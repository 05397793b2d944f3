-- ===== src/Ticket/Once.antt =====
-- A history of ApplyTicket and VerifyTicket of internal/service/ticket.go: how often a ticket is
-- granted, and how often it is used.

use text.Mathlib.TextLemmas.{append_cancel_left}
use bs_notify_hub.Prelude.Map
use bs_notify_hub.Prelude.{
  ℕ, ◌+◌, ◌≤◌, ◌≡◌, String, Bool, true, false, ◌&&◌, Option, none, some, List, [], ◌∷◌, same,
  same_iff, string_key, if◌then◌else◌, arith, Bool-cases, inl, inr,
}
use bs_notify_hub.Prelude.Int.{seconds}
use bs_notify_hub.Constant.{wrap_key, space_prefix}
use bs_notify_hub.Response.{CodeError}
use bs_notify_hub.World.{Result, ok, err}
use bs_notify_hub.Ticket.{
  Bytes, TicketLib, TicketConfig, Entries, Granted, ticket_key, deadline, encrypt, save, apply_json,
  apply_ticket, verify_ticket,
}

ticket_key_injective : (t u : String) → ticket_key t ≡ ticket_key u → t ≡ u
unfolding wrap_key
ticket_key_injective t u e =
    append_cancel_left "ticket:" t u (append_cancel_left space_prefix _ _ e)

-- What clients may ask in any order, at any times, with or without a failure of Redis.
pub data Request : Type 0 where
  applies : (ℕ → Option Bytes) → Bool → ℕ → String → String → Request
  verifies : Bool → ℕ → String → Request

abbrev pub is_ok {ℓ κ} : {E : Type ℓ} {A : Type κ} → Result E A → Bool
is_ok (ok a) = true
is_ok (err e) = false

abbrev pub gives : String → Result CodeError Granted → Bool
gives ticket (ok g) = same g.ticket ticket
gives ticket (err e) = false

abbrev pub one_if : Bool → ℕ
one_if b = if b then 1 else 0

module _ (lib : TicketLib) (config : TicketConfig) where
  unfoldable pub step : Request → Entries → Entries
  unfolding apply_ticket verify_ticket
  step (applies random fails now tenant user) s =
      (apply_ticket lib config random fails now tenant user s).1
  step (verifies fails now ticket) s = (verify_ticket lib config fails now ticket s).1

  -- The request grants the ticket.
  abbrev pub grants : String → Request → Entries → Bool
  grants ticket (applies random fails now tenant user) s =
      gives ticket (apply_ticket lib config random fails now tenant user s).0
  grants ticket (verifies fails now t) s = false

  -- The request shows the ticket, and it is accepted.
  abbrev pub uses : String → Request → Entries → Bool
  uses ticket (applies random fails now tenant user) s = false
  uses ticket (verifies fails now t) s =
      same t ticket && is_ok (verify_ticket lib config fails now t s).0

  unfoldable pub times_granted : String → List Request → Entries → ℕ
  unfolding step
  times_granted ticket [] s = 0
  times_granted ticket (r ∷ rs) s = one_if (grants ticket r s) + times_granted ticket rs (step r s)

  unfoldable pub times_used : String → List Request → Entries → ℕ
  unfolding step
  times_used ticket [] s = 0
  times_used ticket (r ∷ rs) s = one_if (uses ticket r s) + times_used ticket rs (step r s)

  abbrev stands : Option (Option ℕ) → ℕ
  stands none = 0
  stands (some d) = 1

  -- 1 if the ticket stands in Redis.
  abbrev pending : String → Entries → ℕ
  pending ticket s = stands (Map.get (ticket_key ticket) s)

  pending-put :
      (ticket t : String) (d : Option ℕ) (s : Entries)
      → pending ticket (Map.put (ticket_key t) d s) ≤ pending ticket s + one_if (same t ticket)
  pending-put ticket t d s = elim (Bool-cases (same (ticket_key t) (ticket_key ticket))) [
    | inl e ↦ rw (Map.get-put (ticket_key t) (ticket_key ticket) d s) (
        rw e (
          ground (
            arith,
            same_iff t ticket,
            same_iff (ticket_key t) (ticket_key ticket),
            ticket_key_injective t ticket,
          )))
    | inr e ↦ rw (Map.get-put (ticket_key t) (ticket_key ticket) d s) (rw e (ground arith))
  ]

  save_balance :
      (ticket : String) (fails : Bool) (now : ℕ) (o : Option String) (s : Entries)
      → let r = save lib config fails now o s in
        pending ticket r.1 ≤ pending ticket s + one_if (gives ticket r.0)
  unfolding save
  save_balance ticket fails now none s = ground arith
  save_balance ticket true now (some t) s = ground arith
  save_balance ticket false now (some t) s =
      pending-put ticket t (deadline now (seconds config.expire_seconds)) s

  apply_balance :
      (ticket : String) (random : ℕ → Option Bytes) (fails : Bool) (now : ℕ) (o : Option Bytes)
      (s : Entries)
      → let r = apply_json lib config random fails now o s in
        pending ticket r.1 ≤ pending ticket s + one_if (gives ticket r.0)
  apply_balance ticket random fails now none s = ground arith
  apply_balance ticket random fails now (some json) s =
      save_balance ticket fails now (encrypt lib random json config.ase_key) s

  verify_balance :
      (ticket t : String) (fails : Bool) (now : ℕ) (s : Entries)
      → let r = verify_ticket lib config fails now t s in
        one_if (same t ticket && is_ok r.0) + pending ticket r.1 ≤ pending ticket s
  unfolding verify_ticket
  verify_balance ticket t fails now s =
      ground (arith, same_iff t ticket, Map.get-remove (ticket_key t) (ticket_key ticket) s)

  step_balance :
      (ticket : String) (r : Request) (s : Entries)
      → one_if (uses ticket r s) + pending ticket (step r s)
        ≤ pending ticket s + one_if (grants ticket r s)
  unfolding step apply_ticket
  step_balance ticket (applies random fails now tenant user) s = omega (
    arith,
    apply_balance ticket random fails now (lib.marshal (record { tenant = tenant; user_id = user }))
        s,
  )
  step_balance ticket (verifies fails now t) s = omega (arith, verify_balance ticket t fails now s)

  used_balance :
      (ticket : String) (rs : List Request) (s : Entries)
      → times_used ticket rs s ≤ pending ticket s + times_granted ticket rs s
  unfolding times_used times_granted
  used_balance ticket [] s = omega arith
  used_balance ticket (r ∷ rs) s =
      omega (arith, step_balance ticket r s, used_balance ticket rs (step r s))

  -- In every history that starts with no tickets in Redis, whatever is asked in which order and
  -- whichever calls of Redis fail, a ticket is accepted at most as often as it was granted.
  pub times_used-le-times_granted :
      (ticket : String) (rs : List Request) → times_used ticket rs [] ≤ times_granted ticket rs []
  unfolding Map.get
  times_used-le-times_granted ticket rs = omega (arith, used_balance ticket rs [])
