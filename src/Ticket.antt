-- ===== src/Ticket.antt =====
-- internal/service/ticket.go: the tickets for a subscription. A ticket is encrypted, and stands in
-- Redis until it is used or its time is over. The JSON, base64, AES and random libraries are
-- parameters. Time is in nanoseconds.
pub mod Once
pub mod Laws
pub mod Tests
use Prim.Native.String.{◌++◌ as str_append}
use bs_notify_hub.Prelude.Map
use bs_notify_hub.Prelude.{
  ℕ, ◌+◌, ◌++◌, String, Bool, true, false, Option, none, some, List, [], ◌∷◌, same, string_key,
  length, take, drop, ltb, if◌then◌else◌,
}
use bs_notify_hub.Prelude.Int.{ℤ, pos, ◌+ℤ◌, seconds}
use bs_notify_hub.Constant.{wrap_key}
use bs_notify_hub.Response.{CodeError, new_code_error, internal_error}
use bs_notify_hub.World.{Result, ok, err}

pub record TicketContent : Type 0 where
  pub tenant : String
  pub user_id : String

abbrev pub Bytes : Type 0
Bytes = List ℕ

-- What cipher.NewGCM returns: Seal and Open with no additional data; `unseal` is Open.
pub record Aead : Type 0 where
  pub nonce_size : ℕ
  pub seal : Bytes → Bytes → Bytes
  pub unseal : Bytes → Bytes → Option Bytes

-- json.Marshal and json.Unmarshal of a TicketContent, aes.NewCipher followed by cipher.NewGCM,
-- and base64.URLEncoding. What io.ReadFull(rand.Reader, …) gives is an argument of its own, for each
-- number of bytes, since every call draws anew.
pub record TicketLib : Type 0 where
  pub marshal : TicketContent → Option Bytes
  pub unmarshal : Bytes → Option TicketContent
  pub new_gcm : String → Option Aead
  pub encode : Bytes → String
  pub decode : String → Option Bytes

-- conf.TicketConfig
pub record TicketConfig : Type 0 where
  pub expire_seconds : ℤ
  pub ase_key : String

-- The entries of Redis under the keys of tickets, with the time at which each is dropped.
abbrev pub Entries : Type 0
Entries = List (String × Option ℕ)

-- Redis keeps a key that is set with no positive expiration.
abbrev pub deadline : ℕ → ℤ → Option ℕ
deadline now (pos n) = if ltb 0 n then some (now + n) else none
deadline now _ = none

abbrev pub is_live : ℕ → Option ℕ → Bool
is_live now none = true
is_live now (some t) = ltb now t

-- GETDEL: whether there was a value; it is dropped.
abbrev pub was_live : ℕ → Option (Option ℕ) → Bool
was_live now none = false
was_live now (some d) = is_live now d

abbrev pub ticket_key : String → String
ticket_key ticket = wrap_key (str_append "ticket:" ticket)

pub record Granted : Type 0 where
  pub ticket : String
  pub expire_at : ℤ
  pub created : ℕ

pub data TicketError : Type 0 where
  empty_ticket used_ticket undecryptable unreadable : TicketError

module _ (lib : TicketLib) where
  abbrev pub encrypt_with : Bytes → Aead → Option Bytes → Option String
  encrypt_with plain gcm none = none
  encrypt_with plain gcm (some nonce) = some (lib.encode (nonce ++ gcm.seal nonce plain))

  abbrev pub encrypt_by : (ℕ → Option Bytes) → Bytes → Option Aead → Option String
  encrypt_by random plain none = none
  encrypt_by random plain (some gcm) = encrypt_with plain gcm (random gcm.nonce_size)

  unfoldable pub encrypt : (ℕ → Option Bytes) → Bytes → String → Option String
  encrypt random plain key = encrypt_by random plain (lib.new_gcm key)

  abbrev pub decrypt_with : Bytes → Option Aead → Option Bytes
  decrypt_with raw none = none
  decrypt_with raw (some gcm) =
      if ltb (length raw) gcm.nonce_size
      then none
      else gcm.unseal (take gcm.nonce_size raw) (drop gcm.nonce_size raw)

  abbrev pub decrypt_raw : Option Bytes → String → Option Bytes
  decrypt_raw none key = none
  decrypt_raw (some raw) key = decrypt_with raw (lib.new_gcm key)

  unfoldable pub decrypt : String → String → Option Bytes
  decrypt ticket key = decrypt_raw (lib.decode ticket) key

  module _ (config : TicketConfig) where
    -- ApplyTicket after the encryption; `fails` says whether Redis does.
    unfoldable pub save : Bool → ℕ → Option String → Entries → Result CodeError Granted × Entries
    unfolding seconds ◌+ℤ◌
    save fails now none s = (err (new_code_error internal_error "无法加密凭证内容"), s)
    save fails now (some ticket) s =
        if fails then (err (new_code_error internal_error "保存凭证失败"), s) else (
          ok (record {
            ticket = ticket;
            expire_at = pos now +ℤ seconds config.expire_seconds;
            created = now;
          }),
          Map.put (ticket_key ticket) (deadline now (seconds config.expire_seconds)) s,
        )

    abbrev pub apply_json :
        (ℕ → Option Bytes) → Bool → ℕ → Option Bytes → Entries → Result CodeError Granted × Entries
    apply_json random fails now none s = (err (new_code_error internal_error "无法序列化凭证内容"), s)
    apply_json random fails now (some json) s =
        save fails now (encrypt random json config.ase_key) s

    unfoldable pub apply_ticket :
        (ℕ → Option Bytes)
        → Bool
        → ℕ
        → String
        → String
        → Entries
        → Result CodeError Granted × Entries
    unfolding encrypt save
    apply_ticket random fails now tenant user s =
        apply_json random fails now (lib.marshal (record { tenant = tenant; user_id = user })) s

    abbrev pub read_content : Option TicketContent → Result TicketError TicketContent
    read_content none = err unreadable
    read_content (some c) = ok c

    abbrev pub read_plain : Option Bytes → Result TicketError TicketContent
    read_plain none = err undecryptable
    read_plain (some plain) = read_content (lib.unmarshal plain)

    unfoldable pub verify_ticket :
        Bool → ℕ → String → Entries → Result TicketError TicketContent × Entries
    unfolding decrypt
    verify_ticket fails now ticket s =
        if same ticket "" then (err empty_ticket, s) else if fails then (err used_ticket, s) else (
          if was_live now (Map.get (ticket_key ticket) s)
              then read_plain (decrypt ticket config.ase_key)
              else err used_ticket,
          Map.remove (ticket_key ticket) s,
        )
