-- ===== src/Ticket/Tests.antt =====
-- Tickets of internal/service/ticket.go, with libraries that write in unary and do not encrypt.
use Prim.Native.Char.{Char, code}
use bs_notify_hub.Prelude.Map
use bs_notify_hub.Prelude.{
  ℕ, zero, suc, ◌+◌, ◌≤◌, ◌≡◌, refl, ap, subst, String, Bool, false, Option, none, some, List, [],
  ◌∷◌, ◌++◌, same, same_iff, string_key, String-discrete, length, drop, ◌==◌, if◌then◌else◌, arith,
}
use bs_notify_hub.Prelude.Int.{pos}
use bs_notify_hub.Constant.{wrap_key}
use bs_notify_hub.World.{ok}
use bs_notify_hub.Ticket.{
  TicketContent, Bytes, Aead, TicketLib, TicketConfig, Entries, Granted, ticket_key, apply_ticket,
  verify_ticket,
}
use bs_notify_hub.Ticket.Laws.{IsSoundLib, IsFull, drop_front, answer_at, verify-apply}
use bs_notify_hub.Ticket.Once.{
  Request, applies, verifies, times_granted, times_used, times_used-le-times_granted,
}

abbrev pub mark : Char
mark = "a"

abbrev pub stop : Char
stop = "b"

-- A byte in unary, before a text.
abbrev pub unary : ℕ → String → String
unary zero rest = String.◌∷◌ stop rest
unary (suc n) rest = String.◌∷◌ mark (unary n rest)

abbrev pub write_all : Bytes → String
write_all [] = ""
write_all (n ∷ ns) = unary n (write_all ns)

abbrev pub with_head : ℕ → Option Bytes → Option Bytes
with_head n none = none
with_head n (some ns) = some (n ∷ ns)

abbrev pub read_all : String → ℕ → Option Bytes
read_all String.[] n = some []
read_all (String.◌∷◌ c s) n =
    let more = read_all s (suc n) in
    let next = read_all s 0 in if code c == 97 then more else with_head n next

read_all-unary :
    (k n : ℕ) (rest : String) → read_all (unary k rest) n ≡ with_head (n + k) (read_all rest 0)
read_all-unary zero n rest = ground arith
read_all-unary (suc k) n rest = ground (arith, read_all-unary k (suc n) rest)

read_all-write_all : (b : Bytes) → read_all (write_all b) 0 ≡ some b
read_all-write_all [] = refl
read_all-write_all (n ∷ ns) =
    ground (arith, read_all-unary n 0 (write_all ns), read_all-write_all ns)

abbrev pub content : TicketContent
content = record { tenant = "acme"; user_id = "7" }

abbrev pub is_content : TicketContent → Bool
is_content c = if same c.tenant "acme" then same c.user_id "7" else false

abbrev pub toy_gcm : Aead
toy_gcm = record {
  nonce_size = 2;
  seal = λ nonce plain. nonce ++ plain;
  unseal = λ nonce sealed. some (drop (length nonce) sealed);
}

abbrev pub toy_lib : TicketLib
toy_lib = record {
  marshal = λ c. if is_content c then some (3 ∷ []) else none;
  unmarshal = λ json. some content;
  new_gcm = λ key. some toy_gcm;
  encode = write_all;
  decode = λ s. read_all s 0;
}

content_lem :
    (c : TicketContent) (json : Bytes)
    → (if is_content c then some (3 ∷ []) else none) ≡ some json
    → some content ≡ some c
content_lem c json h = ground (arith, same_iff c.tenant "acme", same_iff c.user_id "7")

toy_unseal :
    (gcm : Aead) (nonce plain : Bytes)
    → some toy_gcm ≡ some gcm
    → gcm.unseal nonce (gcm.seal nonce plain) ≡ some plain
toy_unseal gcm nonce plain h =
    let e : toy_gcm ≡ gcm = cc in
    subst (λ g. g.unseal nonce (g.seal nonce plain) ≡ some plain) e
      (ap some (drop_front nonce plain))

toy_lib-IsSoundLib : IsSoundLib toy_lib
toy_lib-IsSoundLib = record {
  unmarshal-marshal = content_lem;
  decode-encode = read_all-write_all;
  decode_empty = refl;
  unseal-seal = λ key gcm nonce plain h size. toy_unseal gcm nonce plain h;
  nonce_pos = λ key gcm h. ground arith;
}

abbrev pub zeros : ℕ → Bytes
zeros zero = []
zeros (suc n) = 0 ∷ zeros n

abbrev pub dice : ℕ → Option Bytes
dice n = some (zeros n)

length-zeros : (n : ℕ) → length (zeros n) ≡ n
length-zeros zero = refl
length-zeros (suc n) = omega (arith, length-zeros n)

dice-IsFull : IsFull dice
dice-IsFull n b h = ground (arith, length-zeros n)

abbrev pub one_minute : TicketConfig
one_minute = record { expire_seconds = pos 60; ase_key = "k" }

abbrev granted : Granted
granted = record { ticket = "bbbbaaab"; expire_at = pos 60_000_000_005; created = 5 }

abbrev store : Entries
unfolding Map.put
store = (ticket_key granted.ticket, some 60_000_000_005) ∷ []

grants_one : apply_ticket toy_lib one_minute dice false 5 "acme" "7" [] ≡ (ok granted, store)
unfolding apply_ticket Map.put String-discrete
grants_one = refl

verify-apply_example :
    verify_ticket toy_lib one_minute false 9 granted.ticket store
    ≡ (answer_at toy_lib one_minute 5 9 content, Map.remove (ticket_key granted.ticket) store)
verify-apply_example =
    verify-apply toy_lib one_minute dice false 5 9 "acme" "7" [] store granted toy_lib-IsSoundLib
      dice-IsFull grants_one

abbrev history : List Request
history =
    applies dice false 5 "acme" "7"
    ∷ verifies false 9 granted.ticket
    ∷ verifies false 10 granted.ticket
    ∷ []

used_once : times_used toy_lib one_minute granted.ticket history [] ≡ 1
unfolding times_used Map.get Map.put String-discrete wrap_key
used_once = refl

times_used-le-times_granted_example :
    times_used toy_lib one_minute granted.ticket history []
    ≤ times_granted toy_lib one_minute granted.ticket history []
times_used-le-times_granted_example =
    times_used-le-times_granted toy_lib one_minute granted.ticket history
