-- ===== src/Ticket/Laws.antt =====
-- ApplyTicket and VerifyTicket of internal/service/ticket.go, one after the other.
use bs_notify_hub.Prelude.Map
use bs_notify_hub.Prelude.{
  ℕ, ◌<◌, ◌≡◌, ◌≢◌, refl, ap, ◌++◌, String, Bool, true, false, Option, none, some, List, [], ◌∷◌,
  same_iff, string_key, length, length-append, take, drop, ltb, if◌then◌else◌, arith,
}
use bs_notify_hub.Prelude.Int.{seconds}
use bs_notify_hub.World.{Result, ok, err}
use bs_notify_hub.Ticket.{
  TicketContent, Bytes, Aead, TicketLib, TicketConfig, Entries, deadline, is_live, ticket_key,
  Granted, TicketError, used_ticket, encrypt, encrypt_by, encrypt_with, decrypt, decrypt_raw, save,
  apply_json, apply_ticket, verify_ticket,
}

-- What the libraries document: reading gives back what was written, Open gives back what Seal
-- sealed under the same nonce, and an AEAD has a nonce of at least one byte.
pub record IsSoundLib (lib : TicketLib) : Type 0 where
  pub unmarshal-marshal :
      (c : TicketContent) (json : Bytes) → lib.marshal c ≡ some json → lib.unmarshal json ≡ some c
  pub decode-encode : (b : Bytes) → lib.decode (lib.encode b) ≡ some b
  pub decode_empty : lib.decode "" ≡ some []
  pub unseal-seal :
      (key : String) (gcm : Aead) (nonce plain : Bytes)
      → lib.new_gcm key ≡ some gcm
      → length nonce ≡ gcm.nonce_size
      → gcm.unseal nonce (gcm.seal nonce plain) ≡ some plain
  pub nonce_pos : (key : String) (gcm : Aead) → lib.new_gcm key ≡ some gcm → 0 < gcm.nonce_size

-- io.ReadFull fills the slice.
abbrev pub IsFull : (ℕ → Option Bytes) → Type 0
IsFull random = (n : ℕ) (b : Bytes) → random n ≡ some b → length b ≡ n

take_front {ℓ} : {A : Type ℓ} (xs ys : List A) → take (length xs) (xs ++ ys) ≡ xs
take_front [] ys = refl
take_front (x ∷ xs) ys = ap (λ t. x ∷ t) (take_front xs ys)

pub drop_front {ℓ} : {A : Type ℓ} (xs ys : List A) → drop (length xs) (xs ++ ys) ≡ ys
drop_front [] ys = refl
drop_front (x ∷ xs) ys = drop_front xs ys

opened :
    (n : ℕ) (unseal : Bytes → Bytes → Option Bytes) (nonce sealed plain : Bytes)
    → length nonce ≡ n
    → unseal nonce sealed ≡ some plain
    → (if ltb (length (nonce ++ sealed)) n
        then none
        else unseal (take n (nonce ++ sealed)) (drop n (nonce ++ sealed)))
      ≡ some plain
opened n unseal nonce sealed plain e u = rw (← e) (
    rw (take_front nonce sealed, drop_front nonce sealed)
      (ground (arith, length-append nonce sealed)))

module _ (lib : TicketLib) where
  decrypt-encrypt :
      (random : ℕ → Option Bytes) (plain : Bytes) (key ticket : String)
      → IsSoundLib lib
      → IsFull random
      → encrypt lib random plain key ≡ some ticket
      → (decrypt lib ticket key ≡ some plain) × (ticket ≢ "")
  unfolding encrypt decrypt
  decrypt-encrypt random plain key ticket sound full h = by_gcm (lib.new_gcm key) refl h
    where
      by_nonce :
          (gcm : Aead) (o : Option Bytes)
          → lib.new_gcm key ≡ some gcm
          → random gcm.nonce_size ≡ o
          → encrypt_with lib plain gcm o ≡ some ticket
          → (decrypt_raw lib (lib.decode ticket) key ≡ some plain) × (ticket ≢ "")
      by_nonce gcm none g r e = cc
      by_nonce gcm (some nonce) g r e =
          let size = full gcm.nonce_size nonce r in
          let sealed = gcm.seal nonce plain in
          let read : lib.decode ticket ≡ some (nonce ++ sealed) =
            cc (e, sound.decode-encode (nonce ++ sealed)) in
          (
            rw (read, g)
                (opened gcm.nonce_size gcm.unseal nonce sealed plain size
                  (sound.unseal-seal key gcm nonce plain g size)),
            λ empty.
                let nothing : nonce ++ sealed ≡ [] =
                  cc (read, sound.decode_empty, ap lib.decode empty) in
                ground
                  (arith, sound.nonce_pos key gcm g, length-append nonce sealed, ap length nothing),
          )

      by_gcm :
          (o : Option Aead)
          → lib.new_gcm key ≡ o
          → encrypt_by lib random plain o ≡ some ticket
          → (decrypt_raw lib (lib.decode ticket) key ≡ some plain) × (ticket ≢ "")
      by_gcm none g e = cc
      by_gcm (some gcm) g e = by_nonce gcm (random gcm.nonce_size) g refl e

  module _ (config : TicketConfig) where
    -- What a verification answers for a ticket of this content that was granted at this time.
    abbrev pub answer_at : ℕ → ℕ → TicketContent → Result TicketError TicketContent
    answer_at created later c =
        if is_live later (deadline created (seconds config.expire_seconds))
        then ok c
        else err used_ticket

    pub save_lem :
        (fails : Bool) (now : ℕ) (ticket : String) (s s' : Entries) (g : Granted)
        → save lib config fails now (some ticket) s ≡ (ok g, s')
        → (g.ticket ≡ ticket)
          × (s' ≡ Map.put (ticket_key ticket) (deadline now (seconds config.expire_seconds)) s)
    unfolding save
    save_lem true now ticket s s' g h = cc
    save_lem false now ticket s s' g h = (ground arith, ground arith)

    -- Showing a ticket that stands in Redis with its content.
    verify_saved :
        (now later : ℕ) (ticket : String) (json : Bytes) (c : TicketContent) (s : Entries)
        → ticket ≢ ""
        → decrypt lib ticket config.ase_key ≡ some json
        → lib.unmarshal json ≡ some c
        → Map.get (ticket_key ticket) s ≡ some (deadline now (seconds config.expire_seconds))
        → verify_ticket lib config false later ticket s
          ≡ (answer_at now later c, Map.remove (ticket_key ticket) s)
    unfolding verify_ticket
    verify_saved now later ticket json c s ne d u at =
        rw (at, d, u) (ground (arith, same_iff ticket ""))

    -- A ticket that was granted and is shown once opens the content that it was granted for, as long
    -- as Redis keeps it, if Redis does not fail then; and it is dropped.
    pub verify-apply :
        (random : ℕ → Option Bytes) (fails : Bool) (now later : ℕ) (tenant user : String)
        (s s' : Entries) (g : Granted)
        → IsSoundLib lib
        → IsFull random
        → apply_ticket lib config random fails now tenant user s ≡ (ok g, s')
        → verify_ticket lib config false later g.ticket s' ≡ (
          answer_at now later (record { tenant = tenant; user_id = user }),
          Map.remove (ticket_key g.ticket) s',
        )
    unfolding apply_ticket verify_ticket
    verify-apply random fails now later tenant user s s' g sound full h =
        by_json (lib.marshal content) refl h
      where
        content : TicketContent
        content = record { tenant = tenant; user_id = user }

        by_ticket :
            (json : Bytes) (o : Option String)
            → lib.marshal content ≡ some json
            → encrypt lib random json config.ase_key ≡ o
            → save lib config fails now o s ≡ (ok g, s')
            → verify_ticket lib config false later g.ticket s'
              ≡ (answer_at now later content, Map.remove (ticket_key g.ticket) s')
        by_ticket json none m e k = cc
        by_ticket json (some ticket) m e k =
            let (same_ticket, kept) = save_lem fails now ticket s s' g k in
            let (d, ne) = decrypt-encrypt random json config.ase_key ticket sound full e in
            rw same_ticket (
              rw kept (
                verify_saved now later ticket json content _ ne d
                  (sound.unmarshal-marshal content json m)
                  (ground (
                    arith,
                    Map.get-put (ticket_key ticket) (ticket_key ticket)
                        (deadline now (seconds config.expire_seconds)) s,
                  ))))

        by_json :
            (o : Option Bytes)
            → lib.marshal content ≡ o
            → apply_json lib config random fails now o s ≡ (ok g, s')
            → verify_ticket lib config false later g.ticket s'
              ≡ (answer_at now later content, Map.remove (ticket_key g.ticket) s')
        by_json none m k = cc
        by_json (some json) m k = by_ticket json (encrypt lib random json config.ase_key) m refl k
